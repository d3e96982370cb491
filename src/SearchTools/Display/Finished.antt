-- ===== src/SearchTools/Display/Finished.antt =====
-- A query from its words to the finished page.
use pyfix.Base.{
  ℕ, ◌≡◌, ◌≢◌, refl, ap, ◌∙◌, Bool, true, false, List, [], ◌∷◌, ◌++◌, map, Option, some, Text,
  codes, length, get_elem?, All, All-append, ◌==◌, In, inl, inr, arith, if◌then◌else◌,
}
use pyfix.Underscore.{Underscore}
use pyfix.SearchTools.Index.{Index, Entry, Result}
use pyfix.SearchTools.Query.{QueryTerms, read_query}
use pyfix.SearchTools.Terms.{perform_terms_search, matching_files}
use pyfix.SearchTools.Terms.Counts.{IsDisjoint, indexed}
use pyfix.SearchTools.Terms.Matches.{matching_files_iff}
use pyfix.SearchTools.Objects.{
  search_objects, perform_object_search, search_prefixes, search_names, is_found, object_result,
}
use pyfix.SearchTools.Display.{
  Display, Paths, sort_results, start_display, list_item, finish_search, no_match,
}
use pyfix.SearchTools.Display.Sorting.{IsTitled, IsSorted, count, sort_results-IsSorted}
use pyfix.SearchTools.Display.Shown.{backwards, display_items-finish}
use pyfix.SearchTools.Display.Query.{join_words, find_results, display_all, query}

-- Every file that the index names for a word has a title.
abbrev pub AreTitled : Index → Type 0
AreTitled idx =
    (w : Text) (f : ℕ) → In f (indexed idx w) → (t : Text) × (get_elem? idx.titles f ≡ some t)

All-if :
    (b : Bool) (r : Result) (rs : List Result)
    → IsTitled r
    → All IsTitled rs
    → All IsTitled (if b then r ∷ rs else rs)
All-if true r rs h hs = (h, hs)
All-if false r rs h hs = hs

module _ (lower : Text → Text) (in_text : Text) (idx : Index) where
  object_result-IsTitled :
      (object prefix name : Text) (m : Entry)
      → IsTitled (object_result lower in_text idx object prefix name m)
  unfolding object_result
  object_result-IsTitled object prefix name m = (_, refl)

  search_names-IsTitled :
      (object : Text) (others : List Text) (prefix : Text) (names : List (Text × Entry))
      → All IsTitled (search_names lower in_text idx object others prefix names)
  unfolding search_names
  search_names-IsTitled object others prefix [] = tt
  search_names-IsTitled object others prefix ((name, m) ∷ names) =
      All-if (is_found lower in_text idx object others prefix name m) _ _
        (object_result-IsTitled object prefix name m)
        (search_names-IsTitled object others prefix names)

  search_prefixes-IsTitled :
      (object : Text) (others : List Text) (ps : List (Text × List (Text × Entry)))
      → All IsTitled (search_prefixes lower in_text idx object others ps)
  unfolding search_prefixes
  search_prefixes-IsTitled object others [] = tt
  search_prefixes-IsTitled object others ((prefix, names) ∷ ps) =
      All-append IsTitled (search_names lower in_text idx object others prefix names) _
        (search_names-IsTitled object others prefix names)
        (search_prefixes-IsTitled object others ps)

  search_objects-IsTitled :
      (before words : List Text) → All IsTitled (search_objects lower in_text idx before words)
  unfolding search_objects perform_object_search
  search_objects-IsTitled before [] = tt
  search_objects-IsTitled before (w ∷ ws) =
      All-append IsTitled (perform_object_search lower in_text idx w (before ++ ws)) _
        (search_prefixes-IsTitled w (before ++ ws) idx.objects)
        (search_objects-IsTitled (before ++ w ∷ []) ws)

module _ (u : Underscore) (idx : Index) where
  All-map :
      (g : ℕ → Result) (fs : List ℕ)
      → ((f : ℕ) → In f fs → IsTitled (g f))
      → All IsTitled (map g fs)
  All-map g [] h = tt
  All-map g (f ∷ fs) h = (h f (inl refl), All-map g fs (λ k i. h k (inr i)))

  first-indexed :
      (words : List Text) (f : ℕ)
      → words ≢ []
      → All (λ w. In f (indexed idx w)) words
      → (w : Text) × In f (indexed idx w)
  first-indexed [] f h k = absurd (h refl)
  first-indexed (w ∷ ws) f h (k, ks) = (w, k)

  perform_terms_search-IsTitled :
      (searchterms excluded : List Text)
      → IsDisjoint idx
      → AreTitled idx
      → All IsTitled (perform_terms_search u idx searchterms excluded)
  unfolding perform_terms_search
  perform_terms_search-IsTitled searchterms excluded clean titled =
      All-map _ (matching_files u idx searchterms excluded) (λ f inside.
        let found = (matching_files_iff u idx searchterms excluded f clean).0 inside in
        let place = first-indexed searchterms f found.0 found.1 in titled place.0 f place.1)

module _ (u : Underscore) (lower : Text → Text) (in_text : Text) (idx : Index)
    (encode : Text → Option Text) (paths : Paths) (fetch : Text → Option Text)
    (decimal : ℕ → Text) where
  -- The page that `query` leaves.
  abbrev pub page_of : Text → Option Display
  page_of = query u lower in_text idx encode paths fetch decimal

  query-displayed :
      (q s : Text) (results : List Result)
      → encode (join_words (read_query u lower q).hlterms) ≡ some s
      → sort_results lower
          (find_results u lower in_text idx encode paths fetch decimal (read_query u lower q))
        ≡ some results
      → page_of q
        ≡ some (
            display_all u lower in_text idx encode paths fetch decimal
              (codes "?highlight=" ++ s)
              (read_query u lower q)
              results)
  unfolding query
  query-displayed q s results h k = ground arith

  find_results-IsTitled :
      (t : QueryTerms)
      → IsDisjoint idx
      → AreTitled idx
      → All IsTitled (find_results u lower in_text idx encode paths fetch decimal t)
  unfolding find_results
  find_results-IsTitled t clean titled =
      All-append IsTitled (search_objects lower in_text idx [] t.objectterms) _
        (search_objects-IsTitled lower in_text idx [] t.objectterms)
        (perform_terms_search-IsTitled u idx t.searchterms t.excluded clean titled)

  -- The page when the search is finished and these results have been shown.
  abbrev pub finished_page : Text → QueryTerms → List Result → Display
  finished_page highlightstring t results = record {
    results = [];
    result_count = length results;
    output =
        map (list_item lower paths highlightstring t.searchterms t.hlterms fetch)
          (backwards results);
    title = codes "Search Results";
    status =
        if length results == 0
        then no_match
        else codes "Search finished, found "
          ++ (decimal (length results) ++ codes " page(s) matching the search query.");
    status_shown = true;
    is_stopped = true;
  }

  display_all-finished :
      (highlightstring : Text) (t : QueryTerms) (results : List Result)
      → display_all u lower in_text idx encode paths fetch decimal highlightstring t results
        ≡ finished_page highlightstring t results
  unfolding display_all start_display finish_search
  display_all-finished highlightstring t results =
      display_items-finish lower paths highlightstring t.searchterms t.hlterms fetch decimal
        (start_display results)

  -- Over an index that lists each file once for a word and has a title for each, and where the
  -- highlighted words can be encoded, a query ends: its page shows what the two searches found, each
  -- result as often as they found it, in the reverse of an order from the lowest score to the highest
  -- and, for equal scores, from the last title to the first; the status tells their number.
  pub query-finished :
      (q s : Text)
      → IsDisjoint idx
      → AreTitled idx
      → encode (join_words (read_query u lower q).hlterms) ≡ some s
      → (results : List Result) × (page_of q
          ≡ some (finished_page (codes "?highlight=" ++ s) (read_query u lower q) results))
        × IsSorted lower results
        × ((p : Result → Bool)
            → count p results
              ≡ count p (
                  find_results u lower in_text idx encode paths fetch decimal
                    (read_query u lower q)))
  query-finished q s clean titled h =
      let t = read_query u lower q in
      let found = find_results u lower in_text idx encode paths fetch decimal t in
      let sorted = sort_results-IsSorted lower found (find_results-IsTitled t clean titled) in
      (
        sorted.0,
        query-displayed q s sorted.0 h sorted.1
            ∙ ap some (display_all-finished (codes "?highlight=" ++ s) t sorted.0),
        sorted.2,
        sorted.3,
      )
