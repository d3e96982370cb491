-- ===== src/SearchTools/Start.antt =====
-- How the search page of doc/build/html/_static/searchtools.js starts: the parameter of the address,
-- the elements of the page, and the request for the index.
pub mod Opened
mod Tests
use pyfix.Base.{
  Bool, true, false, not, List, [], ◌∷◌, ◌++◌, Option, none, some, Text, codes, if◌then◌else◌,
}
use pyfix.JQuery.{
  Target, Action, Request, Call, by_id, select, created, on, send, set_text, set_attr, set_val,
  append,
}
use pyfix.Doctools.{Parameters, get_query_parameters}
use pyfix.Doctools.Documentation.{parameter}
use pyfix.SearchTools.Page.{Search, perform_search}

module _ {I : Type 0} where
  unfoldable pub has_index : Search I → Bool
  has_index s = elim s.index [ none ↦ false | some i ↦ true ]

-- The elements that `performSearch` puts on the page.
unfoldable pub search_elements : (Text → Text) → List Call
search_elements translate =
    on (by_id (codes "search-results"))
      (append (codes "<h2>" ++ translate (codes "Searching") ++ codes "</h2>"))
    ∷ on (created (codes "h2")) (append (codes "<span></span>"))
    ∷ on (by_id (codes "search-results")) (append (codes "<p style=\"display: none\"></p>"))
    ∷ on (by_id (codes "search-results")) (append (codes "<ul class=\"search\"/>"))
    ∷ on (by_id (codes "search-progress")) (set_text (translate (codes "Preparing search...")))
    ∷ []

-- The request for the index, and what follows it: `success` is what the request came to.
unfoldable pub load_index : Text → Bool → List Call
load_index url success =
    send (record { post = false; url = url; body = [] })
    ∷ (if success
        then []
        else on (by_id (codes "searchindexloader")) (set_attr (codes "src") url) ∷ [])

module _ {I : Type 0} (translate : Text → Text) where
  -- The page once the parameters are read.
  unfoldable pub open_search : Parameters → Search I → Search I × List Call
  open_search params s = elim (parameter (codes "q") params) [
    | none ↦ (s, [])
    | some [] ↦ (s, [])
    | some (q ∷ more) ↦ (
      perform_search q s,
      on (select (codes "input[name=\"q\"]")) (set_val q) ∷ search_elements translate,
    )
  ]

  -- `init`, on the query part of the address; an exception is `none`.
  unfoldable pub init :
      (Text → Option Text) → (Text → Bool) → Text → Search I → Option (Search I × List Call)
  init decode inherited address s = elim (get_query_parameters decode inherited address) [
    | none ↦ none
    | some params ↦ some (open_search params s)
  ]
