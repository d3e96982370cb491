-- ===== src/SearchTools/Display.antt =====
-- The last part of `Search.query` of doc/build/html/_static/searchtools.js, which sorts and displays
-- the results. `_` is taken as it is without translations.
pub mod Summary
pub mod Sorting
pub mod Shown
pub mod Query
pub mod Excerpt
pub mod Finished
mod Tests
use pyfix.Base.{
  ℕ, zero, suc, ◌+◌, ◌-◌, Bool, true, false, not, ◌||◌, List, [], ◌∷◌, ◌++◌, map, Option, none,
  some, Text, codes, text_eq, length, take, drop, index_of, ltb, ltb_text, ◌==◌, if◌then◌else◌,
}
use pyfix.Base.Int.{ℤ, pos, negsuc, ltb_ℤ}
use pyfix.SearchTools.Index.{Result}
use pyfix.Doctools.Highlight.{Nodes}
use pyfix.SearchTools.Display.Summary.{make_search_summary}

-- The comparison, once the scores and the lowered titles are there.
unfoldable pub compare_keys : ℤ → ℤ → Text → Text → ℤ
compare_keys left right s t =
    if ltb_ℤ right left
    then pos 1
    else if ltb_ℤ left right
    then negsuc 0
    else if ltb_text t s
    then negsuc 0
    else if ltb_text s t
    then pos 1
    else pos 0

-- `DOCUMENTATION_OPTIONS`, as far as the display reads it.
pub record Paths : Type 0 where
  pub url_root : Text
  pub file_suffix : Text
  pub has_source : Bool

-- A text that may be missing, behind `+`.
abbrev pub or_undefined : Option Text → Text
or_undefined none = codes "undefined"
or_undefined (some t) = t

abbrev pub ends_with : Text → Text → Bool
ends_with s t = text_eq (drop (length s - length t) s) t

-- The directory of the "dirhtml builder".
unfoldable pub dirname : Text → Text
dirname name =
    let d = name ++ codes "/" in
    if ends_with d (codes "/index/")
    then take (length d - 6) d
    else if text_eq d (codes "index/")
    then []
    else d

unfoldable pub href : Paths → Text → Result → Text
unfolding dirname
href paths highlightstring item =
    if text_eq paths.file_suffix []
    then paths.url_root
      ++ (dirname (or_undefined item.filename) ++ (highlightstring ++ item.anchor))
    else or_undefined item.filename ++ (paths.file_suffix ++ (highlightstring ++ item.anchor))

-- What stands behind the link of a list item.
pub data Detail : Type 0 where
  described : Text → Detail
  summary : Nodes → Detail
  bare : Detail

pub record ListItem : Type 0 where
  pub link : Text
  pub title : Option Text
  pub detail : Detail

-- What the page shows of a search, and what `query` keeps for the display.
pub record Display : Type 0 where
  pub results : List Result
  pub result_count : ℕ
  pub output : List ListItem
  pub title : Text
  pub status : Text
  pub status_shown : Bool
  -- Whether `stopPulse` was called.
  pub is_stopped : Bool

-- `results.pop()`, with what is left.
unfoldable pub pop_last : Result → List Result → Result × List Result
pop_last r [] = (r, [])
pop_last r (q ∷ rs) = let rest = pop_last q rs in (rest.0, r ∷ rest.1)

abbrev pub no_match : Text
no_match =
    codes
      "Your search did not match any documents. Please make sure that all words are spelled correctly and that you've selected enough categories."

-- `lower` is `toLowerCase`.
module _ (lower : Text → Text) where
  -- The comparison of two results; a title that is missing throws where it is needed.
  unfoldable pub compare_results : Result → Result → Option ℤ
  unfolding compare_keys
  compare_results a b =
      if ltb_ℤ b.score a.score || ltb_ℤ a.score b.score
      then some (compare_keys a.score b.score [] [])
      else elim a.title [
        | none ↦ none
        | some s ↦ elim b.title [
          | none ↦ none
          | some t ↦ some (compare_keys a.score b.score (lower s) (lower t))
        ]
      ]

  -- `results.sort(…)`, as an insertion that keeps equal results in their order.
  unfoldable pub place_result : Result → List Result → Option (List Result)
  place_result r [] = some (r ∷ [])
  place_result r (q ∷ rs) =
      let rest = place_result r rs in
      elim (compare_results r q) [
        | none ↦ none
        | some c ↦
            if ltb_ℤ (pos 0) c
            then elim rest [ none ↦ none | some more ↦ some (q ∷ more) ]
            else some (r ∷ q ∷ rs)
      ]

  unfoldable pub sort_results : List Result → Option (List Result)
  sort_results [] = some []
  sort_results (r ∷ rs) = elim (sort_results rs) [ none ↦ none | some more ↦ place_result r more ]

  module _ (paths : Paths) (highlightstring : Text) (searchterms hlterms : List Text)
      (fetch : Text → Option Text) where
    -- `fetch` is the text with which the server answers the address of a source.
    unfoldable pub source_detail : Option Text → Detail
    unfolding make_search_summary
    source_detail none = bare
    source_detail (some source) =
        if text_eq source []
        then bare
        else summary (make_search_summary lower source searchterms hlterms)

    unfoldable pub detail_of : Result → Detail
    unfolding source_detail
    detail_of item =
        let plain =
          if paths.has_source
          then source_detail (
              fetch (
                paths.url_root
                ++ (codes "_sources/" ++ (or_undefined item.filename ++ codes ".txt"))))
          else bare in
        elim item.descr [ none ↦ plain | some d ↦ if text_eq d [] then plain else described d ]

    unfoldable pub list_item : Result → ListItem
    unfolding href detail_of
    list_item item = record {
      link = href paths highlightstring item;
      title = item.title;
      detail = detail_of item;
    }

    -- `decimal` writes a number.
    module _ (decimal : ℕ → Text) where
      unfoldable pub finish_search : Display → Display
      finish_search s = record s {
        is_stopped = true;
        title = codes "Search Results";
        status =
            if s.result_count == 0
            then no_match
            else codes "Search finished, found "
              ++ (decimal s.result_count ++ codes " page(s) matching the search query.");
        status_shown = true;
      }

      -- One call of `displayNextItem`.
      unfoldable pub display_next_item : Display → Display
      display_next_item s = elim s.results [
        | [] ↦ finish_search s
        | r ∷ rs ↦ record s {
          results = (pop_last r rs).1;
          output = s.output ++ list_item (pop_last r rs).0 ∷ [];
        }
      ]

      -- So many calls, each made when the item before has slid down.
      unfoldable pub display_items : ℕ → Display → Display
      display_items zero s = s
      display_items (suc n) s = display_items n (display_next_item s)

-- What the page shows when the results are sorted, before the first call of `displayNextItem`.
unfoldable pub start_display : List Result → Display
start_display results = record {
  results = results;
  result_count = length results;
  output = [];
  title = codes "Searching";
  status = [];
  status_shown = false;
  is_stopped = false;
}
