-- ===== src/SearchTools/Query/Kept.antt =====
-- What the loop of `Search.query` leaves in its lists.
use pyfix.Base.{
  ◌≡◌, ◌↔◌, ◌≢◌, ◌⊎◌, inl, inr, false, Bool-cases, List, [], ◌∷◌, map, some, Text, ◌==◌, In, Exists,
  IsNodup, IsNodup-concat, In-append_left, In-append_right, In-append_cases, arith,
}
use pyfix.Underscore.{Underscore, str}
use pyfix.SearchTools.Stemmer.{stem_word}
use pyfix.SearchTools.Stemmer.Splits.{head?}
use pyfix.SearchTools.Stemmer.Bounds.{stem_word-Trims}
use pyfix.SearchTools.Query.{
  QueryTerms, no_terms, is_skipped, push_new, sort_word, add_word, add_words, read_query,
  split_spaces, note_object,
}

In-map_str : (x : Text) (ws : List Text) → In x ws ↔ In (str x) (map str ws)
In-map_str x [] = (λ h. h, λ h. h)
In-map_str x (w ∷ ws) = ground (arith, In-map_str x ws)

module _ (u : Underscore) (lower : Text → Text) where
  push_new-In : (ws : List Text) (w x : Text) → In x (push_new u lower ws w) ↔ (In x ws ⊎ (x ≡ w))
  unfolding push_new
  push_new-In ws w x = elim (Bool-cases (u.contains (map str ws) (str w))) [
    | inl old ↦ rw old (
      λ h. inl h,
      λ h. elim h [
        | inl k ↦ k
        | inr e ↦ rw e ((In-map_str w ws).1 ((u.contains_iff (map str ws) (str w)).0 old))
      ],
    )
    | inr new ↦ rw new (
      λ h. elim (In-append_cases x ws (w ∷ []) h) [
        | inl k ↦ inl k
        | inr k ↦ elim k [ inl e ↦ inr e | inr none_left ↦ absurd none_left ]
      ],
      λ h. elim h [
        | inl k ↦ In-append_left x ws (w ∷ []) k
        | inr e ↦ In-append_right x ws (w ∷ []) (inl e)
      ],
    )
  ]

  push_new-IsNodup : (ws : List Text) (w : Text) → IsNodup ws → IsNodup (push_new u lower ws w)
  unfolding push_new
  push_new-IsNodup ws w h = elim (Bool-cases (u.contains (map str ws) (str w))) [
    | inl old ↦ rw old h
    | inr new ↦ rw new (
        IsNodup-concat ws w h
          (λ k. absurd (cc (new, (u.contains_iff (map str ws) (str w)).1 ((In-map_str w ws).0 k)))))
  ]

  -- Neither list of words holds a word twice.
  abbrev pub AreNodup : QueryTerms → Type 0
  AreNodup t = IsNodup t.searchterms × IsNodup t.excluded

  sort_word-AreNodup :
      (w low : Text) (t : QueryTerms) → AreNodup t → AreNodup (sort_word u lower w low t)
  unfolding sort_word
  sort_word-AreNodup [] low t (s, e) = (push_new-IsNodup t.searchterms [] s, e)
  sort_word-AreNodup (c ∷ w) low t (s, e) = elim (Bool-cases (c == b'-')) [
    | inl minus ↦ rw minus (s, push_new-IsNodup t.excluded w e)
    | inr plus ↦ rw plus (push_new-IsNodup t.searchterms (c ∷ w) s, e)
  ]

  add_word-AreNodup : (tok : Text) (t : QueryTerms) → AreNodup t → AreNodup (add_word u lower t tok)
  unfolding add_word
  add_word-AreNodup tok t h =
      let noted : AreNodup (note_object u lower t tok) = unfold note_object in ground arith in
      elim (Bool-cases (is_skipped u lower tok)) [
        | inl skip ↦ rw skip noted
        | inr keep ↦ rw keep (sort_word-AreNodup _ _ _ noted)
      ]

  add_words-AreNodup :
      (toks : List Text) (t : QueryTerms) → AreNodup t → AreNodup (add_words u lower t toks)
  unfolding add_words
  add_words-AreNodup [] t h = h
  add_words-AreNodup (tok ∷ toks) t h =
      add_words-AreNodup toks (add_word u lower t tok) (add_word-AreNodup tok t h)

  -- The search terms hold no word twice, and neither do the excluded ones.
  pub read_query-AreNodup : (query : Text) → AreNodup (read_query u lower query)
  unfolding read_query
  read_query-AreNodup query = add_words-AreNodup (split_spaces query) no_terms (tt, tt)

  -- A word is searched for, or excluded, on account of a token that is not skipped; the first letter
  -- of the token decides.
  abbrev pub Searches : Text → Text → Type 0
  Searches x tok =
      (is_skipped u lower tok ≡ false)
      × (head? (lower tok) ≢ some b'-')
      × (x ≡ stem_word (lower tok))

  abbrev pub Excludes : Text → Text → Type 0
  Excludes x tok = (is_skipped u lower tok ≡ false) × (b'-' ∷ x ≡ stem_word (lower tok))

  sort_word-searchterms :
      (w low : Text) (t : QueryTerms) (x : Text)
      → In x (sort_word u lower w low t).searchterms
        ↔ (In x t.searchterms ⊎ ((head? w ≢ some b'-') × (x ≡ w)))
  unfolding sort_word
  sort_word-searchterms [] low t x = ground (arith, push_new-In t.searchterms [] x)
  sort_word-searchterms (c ∷ w) low t x = ground (arith, push_new-In t.searchterms (c ∷ w) x)

  sort_word-excluded :
      (w low : Text) (t : QueryTerms) (x : Text)
      → In x (sort_word u lower w low t).excluded ↔ (In x t.excluded ⊎ (b'-' ∷ x ≡ w))
  unfolding sort_word
  sort_word-excluded [] low t x = ground arith
  sort_word-excluded (c ∷ w) low t x = ground (arith, push_new-In t.excluded w x)

  add_word-searchterms :
      (t : QueryTerms) (tok x : Text)
      → In x (add_word u lower t tok).searchterms ↔ (In x t.searchterms ⊎ Searches x tok)
  unfolding add_word note_object
  add_word-searchterms t tok x = ground (
    arith,
    sort_word-searchterms (stem_word (lower tok)) (lower tok) (note_object u lower t tok) x,
    (stem_word-Trims (lower tok)).same_head,
  )

  add_word-excluded :
      (t : QueryTerms) (tok x : Text)
      → In x (add_word u lower t tok).excluded ↔ (In x t.excluded ⊎ Excludes x tok)
  unfolding add_word note_object
  add_word-excluded t tok x =
      ground (
        arith,
        sort_word-excluded (stem_word (lower tok)) (lower tok) (note_object u lower t tok) x,
      )

  add_words-searchterms :
      (toks : List Text) (t : QueryTerms) (x : Text)
      → In x (add_words u lower t toks).searchterms
        ↔ (In x t.searchterms ⊎ Exists (Searches x) toks)
  unfolding add_words
  add_words-searchterms [] t x = ground arith
  add_words-searchterms (tok ∷ toks) t x =
      ground
        (arith, add_words-searchterms toks (add_word u lower t tok) x, add_word-searchterms t tok x)

  add_words-excluded :
      (toks : List Text) (t : QueryTerms) (x : Text)
      → In x (add_words u lower t toks).excluded ↔ (In x t.excluded ⊎ Exists (Excludes x) toks)
  unfolding add_words
  add_words-excluded [] t x = ground arith
  add_words-excluded (tok ∷ toks) t x =
      ground (arith, add_words-excluded toks (add_word u lower t tok) x, add_word-excluded t tok x)

  -- The search terms are exactly the stems of the tokens that are not skipped and do not begin with
  -- "-" in lower case; the excluded terms are exactly what follows the "-" in the stems that begin
  -- with it.
  pub read_query_iff :
      (query x : Text)
      → (In x (read_query u lower query).searchterms ↔ Exists (Searches x) (split_spaces query))
        × (In x (read_query u lower query).excluded ↔ Exists (Excludes x) (split_spaces query))
  unfolding read_query
  read_query_iff query x = ground (
    arith,
    add_words-searchterms (split_spaces query) no_terms x,
    add_words-excluded (split_spaces query) no_terms x,
  )
