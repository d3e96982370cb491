-- ===== src/SearchTools/Display/Query.antt =====
-- The whole of `Search.query` of doc/build/html/_static/searchtools.js: from the words of a query to
-- the page when every result is shown.
use pyfix.Base.{ℕ, suc, List, [], ◌∷◌, ◌++◌, Option, none, some, Text, codes, length}
use pyfix.Underscore.{Underscore}
use pyfix.SearchTools.Index.{Index, Result}
use pyfix.SearchTools.Query.{QueryTerms, read_query}
use pyfix.SearchTools.Terms.{perform_terms_search}
use pyfix.SearchTools.Objects.{search_objects}
use pyfix.SearchTools.Display.{Display, Paths, sort_results, start_display, display_items}

-- `hlterms.join(" ")`
unfoldable pub join_words : List Text → Text
join_words [] = []
join_words (w ∷ []) = w
join_words (w ∷ v ∷ ws) = w ++ b' ' ∷ join_words (v ∷ ws)

-- `lower` is `toLowerCase`, `in_text` the translation of ", in ", `encode` is `encodeURIComponent`,
-- which throws on malformed text, `fetch` is what the server answers for a source, and `decimal` writes
-- a number.
module _ (u : Underscore) (lower : Text → Text) (in_text : Text) (idx : Index)
    (encode : Text → Option Text) (paths : Paths) (fetch : Text → Option Text)
    (decimal : ℕ → Text) where
  -- What `query` finds, in the order in which it finds it.
  unfoldable pub find_results : QueryTerms → List Result
  find_results t =
      search_objects lower in_text idx [] t.objectterms
      ++ perform_terms_search u idx t.searchterms t.excluded

  -- The display of sorted results, to its end.
  unfoldable pub display_all : Text → QueryTerms → List Result → Display
  display_all highlightstring t results =
      display_items lower paths highlightstring t.searchterms t.hlterms fetch decimal
        (suc (length results)) (start_display results)

  -- The page after a query, or an exception.
  unfoldable pub query : Text → Option Display
  query q =
      let t = read_query u lower q in
      elim (encode (join_words t.hlterms)) [
        | none ↦ none
        | some s ↦ elim (sort_results lower (find_results t)) [
          | none ↦ none
          | some results ↦ some (display_all (codes "?highlight=" ++ s) t results)
        ]
      ]
