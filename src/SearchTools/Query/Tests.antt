-- ===== src/SearchTools/Query/Tests.antt =====
-- A query read by the search page, and the theorems at it.
use pyfix.Base.{
  ◌+◌, ◌≡◌, refl, ◌↔◌, Text, codes, map, ◌&&◌, leb, [], ◌∷◌, All, Exists, In, IsNodup,
  if◌then◌else◌,
}
use pyfix.Underscore.{underscore}
use pyfix.SearchTools.Query.{QueryTerms, read_query, split_spaces}
use pyfix.SearchTools.Query.Words.{NoSpace, visible, joined, split_spaces_lem}
use pyfix.SearchTools.Query.Kept.{Searches, Excludes, read_query-AreNodup, read_query_iff}

abbrev lower_ascii : Text → Text
lower_ascii = map (λ c. if leb b'A' c && leb c b'Z' then c + 32 else c)

abbrev typed : Text
typed = codes "The Messages  42 -sending message "

abbrev sample : QueryTerms
sample = record {
  objectterms =
      codes "the" ∷ codes "messages" ∷ codes "42" ∷ codes "-sending" ∷ codes "message" ∷ [];
  searchterms = codes "messag" ∷ [];
  excluded = codes "send" ∷ [];
  hlterms = codes "messages" ∷ codes "message" ∷ [];
}

read_sample : read_query underscore lower_ascii typed ≡ sample
unfolding read_query
read_sample = refl

split_spaces_lem_runs :
    All NoSpace (split_spaces typed) × (joined (split_spaces typed) ≡ visible typed)
split_spaces_lem_runs = split_spaces_lem typed

read_query-AreNodup_runs :
    IsNodup (read_query underscore lower_ascii typed).searchterms
    × IsNodup (read_query underscore lower_ascii typed).excluded
read_query-AreNodup_runs = read_query-AreNodup underscore lower_ascii typed

read_query_iff_example :
    (In (codes "messag") (read_query underscore lower_ascii typed).searchterms
      ↔ Exists (Searches underscore lower_ascii (codes "messag")) (split_spaces typed))
    × (In (codes "messag") (read_query underscore lower_ascii typed).excluded
        ↔ Exists (Excludes underscore lower_ascii (codes "messag")) (split_spaces typed))
read_query_iff_example = read_query_iff underscore lower_ascii typed (codes "messag")
