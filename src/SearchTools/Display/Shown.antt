-- ===== src/SearchTools/Display/Shown.antt =====
-- The calls of `displayNextItem`, each of which shows the best of the results that are left.
use pyfix.Base.{
  ℕ, zero, suc, ◌≡◌, refl, sym, ap, subst, ◌∙◌, List, [], ◌∷◌, ◌++◌, map, Option, Text, length,
  append_assoc, append-nil, arith,
}
use pyfix.SearchTools.Index.{Result}
use pyfix.SearchTools.Display.{
  Display, Paths, ListItem, pop_last, list_item, finish_search, display_next_item, display_items,
}

abbrev pub backwards : List Result → List Result
backwards [] = []
backwards (r ∷ rs) = backwards rs ++ r ∷ []

backwards-pop_last :
    (r : Result) (rs : List Result)
    → backwards (r ∷ rs) ≡ (pop_last r rs).0 ∷ backwards (pop_last r rs).1
unfolding pop_last
backwards-pop_last r [] = refl
backwards-pop_last r (q ∷ rs) = ap (λ (l : List Result). l ++ r ∷ []) (backwards-pop_last q rs)

length-pop_last : (r : Result) (rs : List Result) → length (pop_last r rs).1 ≡ length rs
unfolding pop_last
length-pop_last r [] = refl
length-pop_last r (q ∷ rs) = ap suc (length-pop_last q rs)

module _ (lower : Text → Text) (paths : Paths) (highlightstring : Text)
    (searchterms hlterms : List Text) (fetch : Text → Option Text) (decimal : ℕ → Text) where
  abbrev item : Result → ListItem
  item = list_item lower paths highlightstring searchterms hlterms fetch

  abbrev pub shown : ℕ → Display → Display
  shown = display_items lower paths highlightstring searchterms hlterms fetch decimal

  abbrev next : Display → Display
  next = display_next_item lower paths highlightstring searchterms hlterms fetch decimal

  abbrev ended : Display → Display
  ended = finish_search lower paths highlightstring searchterms hlterms fetch decimal

  -- The page with other results to show and other items shown.
  abbrev page : List Result → List ListItem → Display → Display
  page rs out s = record s { results = rs; output = out }

  next-cons :
      (r : Result) (rs : List Result) (out : List ListItem) (s : Display)
      → next (page (r ∷ rs) out s) ≡ page (pop_last r rs).1 (out ++ item (pop_last r rs).0 ∷ []) s
  unfolding display_next_item
  next-cons r rs out s = refl

  next-nil : (out : List ListItem) (s : Display) → next (page [] out s) ≡ ended (page [] out s)
  unfolding display_next_item
  next-nil out s = refl

  display_items-page :
      (n : ℕ) (rs : List Result) (out : List ListItem) (s : Display)
      → length rs ≡ n
      → shown (suc n) (page rs out s) ≡ ended (page [] (out ++ map item (backwards rs)) s)
  unfolding display_items
  display_items-page n [] out s h =
      subst (λ k. shown (suc k) (page [] out s) ≡ ended (page [] (out ++ []) s)) h
        (next-nil out s ∙ ap (λ o. ended (page [] o s)) (sym (append-nil out)))
  display_items-page zero (r ∷ rs) out s h = absurd (omega (arith, h))
  display_items-page (suc n) (r ∷ rs) out s h =
      let left = pop_last r rs in
      ap (shown (suc n)) (next-cons r rs out s)
      ∙ display_items-page n left.1 (out ++ item left.0 ∷ []) s
          (omega (arith, h, length-pop_last r rs))
      ∙ ap (λ o. ended (page [] o s))
          (append_assoc out (item left.0 ∷ []) (map item (backwards left.1))
            ∙ ap (λ l. out ++ map item l) (sym (backwards-pop_last r rs)))

  -- After one call for each result and one more, each result is shown, the last of them first, and the
  -- search is finished.
  pub display_items-finish :
      (s : Display)
      → shown (suc (length s.results)) s
        ≡ ended (record s { results = []; output = s.output ++ map item (backwards s.results) })
  display_items-finish s = display_items-page (length s.results) s.results s.output s refl
