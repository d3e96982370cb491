-- ===== src/SearchTools/Objects/Tests.antt =====
-- A small index of objects.
use pyfix.Base.{
  ℕ, ◌≡◌, refl, ◌↔◌, [], ◌∷◌, none, some, Text, codes, In, map, leb, ◌&&◌, ◌+◌, if◌then◌else◌,
}
use pyfix.Base.Int.{pos, ◌+ℤ◌}
use pyfix.SearchTools.Index.{Entry, Index, Result}
use pyfix.SearchTools.Objects.{perform_object_search, search_objects}
use pyfix.SearchTools.Objects.Matches.{FromObject, perform_object_search_iff}

abbrev lower : Text → Text
lower s = map (λ c. if leb 65 c && leb c 90 then c + 32 else c) s

abbrev entry : ℕ → Entry
entry prio = record { file = 0; kind = 0; prio = prio; anchor = [] }

abbrev names : Index
names = record {
  filenames = codes "api" ∷ [];
  titles = codes "Sessions" ∷ [];
  terms = λ w. none;
  titleterms = λ w. none;
  objects =
      (
        codes "pyfix",
        (codes "session", entry 0) ∷ (codes "Session", entry 1) ∷ (codes "field", entry 2) ∷ [],
      )
      ∷ [];
  objnames = λ k. record { short = codes "py"; name = codes "Python class" };
}

abbrev in_text : Text
in_text = codes ", in "

abbrev found : Text → Text → ℕ → Result
found name anchor score = record {
  filename = some (codes "api");
  title = some name;
  anchor = anchor;
  descr = some (codes "Python class, in Sessions");
  score = pos score;
}

-- A name that is matched only in lower case gets no score for the match.
search_objects_runs :
    (perform_object_search lower in_text names (codes "session") (codes "python" ∷ [])
      ≡ found (codes "pyfix.session") (codes "#pyfix.session") 26
        ∷ found (codes "pyfix.Session") (codes "#pyfix.Session") 5
        ∷ [])
    × (search_objects lower in_text names [] (codes "field" ∷ codes "logon" ∷ []) ≡ [])
unfolding perform_object_search search_objects ◌+ℤ◌
search_objects_runs = (refl, refl)

perform_object_search_iff_runs :
    In
      (found (codes "pyfix.session") (codes "#pyfix.session") 26)
      (perform_object_search lower in_text names (codes "session") [])
    ↔ FromObject lower in_text names
        (codes "session")
        []
        names.objects
        (found (codes "pyfix.session") (codes "#pyfix.session") 26)
perform_object_search_iff_runs =
    perform_object_search_iff lower in_text names (codes "session") []
      (found (codes "pyfix.session") (codes "#pyfix.session") 26)
