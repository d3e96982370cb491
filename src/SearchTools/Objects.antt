-- ===== src/SearchTools/Objects.antt =====
-- `Search.performObjectSearch` of doc/build/html/_static/searchtools.js: the search among the names of
-- documented objects.
pub mod Matches
mod Tests
use pyfix.Base.{
  ℕ, Bool, true, false, ◌&&◌, ◌||◌, List, [], ◌∷◌, ◌++◌, Option, none, some, Text, codes, text_eq,
  contains, all, get_elem?, ◌==◌, if◌then◌else◌,
}
use pyfix.Base.Int.{ℤ, pos, negsuc, ◌+ℤ◌}
use pyfix.SearchTools.Index.{Entry, Kind, Index, Result}

-- `(prefix ? prefix + '.' : '') + name`
unfoldable pub full_name : Text → Text → Text
full_name [] name = name
full_name (c ∷ prefix) name = (c ∷ prefix) ++ b'.' ∷ name

-- The last of the dotted parts; `part` is what was read of the current one.
unfoldable pub last_part_from : Text → Text → Text
last_part_from part [] = part
last_part_from part (c ∷ s) =
    let dotted = last_part_from [] s in
    let rest = last_part_from (part ++ c ∷ []) s in if c == b'.' then dotted else rest

unfoldable pub last_part : Text → Text
unfolding last_part_from
last_part s = last_part_from [] s

abbrev pub obj_name_match : ℤ
obj_name_match = pos 11

abbrev pub obj_partial_match : ℤ
obj_partial_match = pos 6

-- The score for the kind of match.
unfoldable pub match_score : Text → Text → ℤ
unfolding last_part
match_score fullname object =
    if text_eq fullname object || text_eq (last_part fullname) object
    then obj_name_match
    else if contains (last_part fullname) object
    then obj_partial_match
    else pos 0

-- `Scorer.objPrio`, and `objPrioDefault` for other priorities.
unfoldable pub prio_score : ℕ → ℤ
prio_score prio =
    if prio == 0 then pos 15 else if prio == 1 then pos 5 else if prio == 2 then negsuc 4 else pos 0

-- A text behind `+`: a missing one reads "undefined".
unfoldable pub shown_text : Option Text → Text
shown_text none = codes "undefined"
shown_text (some s) = s

unfoldable pub object_anchor : Text → Text → Text → Text
object_anchor anchor short fullname =
    if text_eq anchor []
    then fullname
    else if text_eq anchor (codes "-")
    then short ++ b'-' ∷ fullname
    else anchor

-- `lower` is `toLowerCase`, and `in_text` the translation of ", in ".
module _ (lower : Text → Text) (in_text : Text) (idx : Index) where
  unfoldable pub haystack : Text → Text → Entry → Text
  unfolding shown_text
  haystack prefix name m = lower (
      prefix
      ++ b' ' ∷ name
      ++ b' ' ∷ (idx.objnames m.kind).name
      ++ b' ' ∷ shown_text (get_elem? idx.titles m.file))

  -- Whether an object gets into the results.
  unfoldable pub is_found : Text → List Text → Text → Text → Entry → Bool
  unfolding full_name haystack
  is_found object otherterms prefix name m =
      contains (lower (full_name prefix name)) object
      && all (λ t. contains (haystack prefix name m) t) otherterms

  unfoldable pub object_result : Text → Text → Text → Entry → Result
  unfolding full_name match_score prio_score shown_text object_anchor
  object_result object prefix name m =
      let fullname = full_name prefix name in
      let kind = idx.objnames m.kind in
      record {
        filename = get_elem? idx.filenames m.file;
        title = some fullname;
        anchor = b'#' ∷ object_anchor m.anchor kind.short fullname;
        descr = some (kind.name ++ in_text ++ shown_text (get_elem? idx.titles m.file));
        score = match_score fullname object +ℤ prio_score m.prio;
      }

  -- The two loops.
  unfoldable pub search_names : Text → List Text → Text → List (Text × Entry) → List Result
  unfolding is_found object_result
  search_names object otherterms prefix [] = []
  search_names object otherterms prefix ((name, m) ∷ names) =
      let rest = search_names object otherterms prefix names in
      if is_found object otherterms prefix name m
      then object_result object prefix name m ∷ rest
      else rest

  unfoldable pub search_prefixes :
      Text → List Text → List (Text × List (Text × Entry)) → List Result
  unfolding search_names
  search_prefixes object otherterms [] = []
  search_prefixes object otherterms ((prefix, names) ∷ more) =
      search_names object otherterms prefix names ++ search_prefixes object otherterms more

  unfoldable pub perform_object_search : Text → List Text → List Result
  unfolding search_prefixes
  perform_object_search object otherterms = search_prefixes object otherterms idx.objects

  -- The first loop of `query`: each word in turn, with the words before and after it as the others.
  unfoldable pub search_objects : List Text → List Text → List Result
  unfolding perform_object_search
  search_objects before [] = []
  search_objects before (w ∷ ws) =
      perform_object_search w (before ++ ws) ++ search_objects (before ++ w ∷ []) ws
