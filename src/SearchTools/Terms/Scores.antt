-- ===== src/SearchTools/Terms/Scores.antt =====
-- The score of a file that the search for terms finds.
use mathlib.Core.Path.{subst}
use mathlib.Core.List.{foldl}
use pyfix.Base.{
  ℕ, ◌≤◌, ◌≡◌, refl, sym, ap, ◌≢◌, ◌∙◌, ◌↔◌, ◌⊎◌, inl, inr, true, ◌&&◌, ◌||◌, Bool-cases, List, [],
  ◌∷◌, ◌++◌, map, Text, text_eq, text_eq_iff, All, Exists, In, arith, if◌then◌else◌, Exists-In,
  In-Exists, In-map_of_In, In-of_In-map,
}
use pyfix.Underscore.{Underscore}
use pyfix.SearchTools.Index.{files_of, Index}
use pyfix.SearchTools.Terms.{
  title_score, term_score, FileMap, has_key, push_file, ScoreMap, set_score, is_undefined,
  add_source, Found, nothing, sources, add_term, add_terms, file_score,
}
use pyfix.SearchTools.Terms.Counts.{
  IsFileMap, no_files-IsFileMap, push_file-IsFileMap, push_file-words, indexed, add_term-files,
  undefined-indexed, add_term-IsFileMap,
}
use pyfix.SearchTools.Terms.Matches.{has_key_iff}

has_key-append : (f : ℕ) (xs ys : List ℕ) → has_key f (xs ++ ys) ≡ (has_key f xs || has_key f ys)
unfolding has_key
has_key-append f [] ys = refl
has_key-append f (x ∷ xs) ys = ground (arith, has_key-append f xs ys)

set_scores :
    (w : Text) (s : ℕ) (fs : List ℕ) (m : ScoreMap) (f : ℕ) (v : Text)
    → foldl (set_score w s) m fs f v ≡ (if has_key f fs && text_eq v w then s else m f v)
unfolding has_key set_score
set_scores w s [] m f v = refl
set_scores w s (g ∷ fs) m f v = ground (arith, set_scores w s fs (set_score w s m g) f v)

In-concat_iff : (x w : Text) (ws : List Text) → In x (ws ++ w ∷ []) ↔ (In x ws ⊎ (x ≡ w))
In-concat_iff x w [] = ground arith
In-concat_iff x w (v ∷ ws) = ground (arith, In-concat_iff x w ws)

push_files-In :
    (w : Text) (fs : List ℕ) (m : FileMap) (f : ℕ) (x : Text)
    → IsFileMap m
    → In x ((foldl (push_file w) m fs).words f)
      ↔ (In x (m.words f) ⊎ ((x ≡ w) × (has_key f fs ≡ true)))
unfolding has_key
push_files-In w [] m f x h = ground arith
push_files-In w (g ∷ fs) m f x h = ground (
  arith,
  push_files-In w fs (push_file w m g) f x (push_file-IsFileMap w m g h),
  push_file-words w m g f h,
  In-concat_iff x w (m.words f),
)

module _ (idx : Index) where
  -- A search term of the list has the file in a title.
  abbrev pub InTitle : ℕ → List Text → Type 0
  InTitle f ws = Exists (λ w. In f (files_of (idx.titleterms w))) ws

module _ (u : Underscore) (idx : Index) where
  -- The score of a word for a file that has it.
  abbrev word_score : ℕ → Text → ℕ
  word_score f w = if has_key f (files_of (idx.titleterms w)) then title_score else term_score

  add_term-scores :
      (found : Found) (w : Text) (f : ℕ) (v : Text)
      → (add_term u idx found w).scores f v
        ≡ (if has_key f (indexed idx w) && text_eq v w then word_score f w else found.scores f v)
  unfolding add_term add_source sources
  add_term-scores found w f v =
      rw (u.each_lem (sources u idx w) (add_source w) ([], found.scores)) (
        ground (
          arith,
          set_scores w title_score (files_of (idx.titleterms w))
              (foldl (set_score w term_score) found.scores (files_of (idx.terms w))) f v,
          set_scores w term_score (files_of (idx.terms w)) found.scores f v,
          has_key-append f (files_of (idx.terms w)) (files_of (idx.titleterms w)),
        ))

  -- The words that stand under the file have their scores.
  abbrev IsScored : ℕ → Found → Type 0
  IsScored f found = (v : Text) → In v (found.files.words f) → found.scores f v ≡ word_score f v

  add_term-In :
      (found : Found) (w : Text) (f : ℕ) (x : Text)
      → IsFileMap found.files
      → In x ((add_term u idx found w).files.words f)
        ↔ (In x (found.files.words f) ⊎ ((x ≡ w) × (has_key f (indexed idx w) ≡ true)))
  add_term-In found w f x h =
      rw (add_term-files u idx found w) (push_files-In w (indexed idx w) found.files f x h)

  add_term-IsScored :
      (found : Found) (w : Text) (f : ℕ)
      → IsFileMap found.files
      → IsScored f found
      → IsScored f (add_term u idx found w)
  add_term-IsScored found w f h scored v inside =
      elim (Bool-cases (has_key f (indexed idx w) && text_eq v w)) [
        | inl fresh ↦
            let same : v ≡ w = (text_eq_iff v w).0 (ground arith) in
            add_term-scores found w f v ∙ rw fresh (ap (word_score f) (sym same))
        | inr kept ↦
            add_term-scores found w f v
            ∙ rw kept (
                scored v
                  (ground (arith, (add_term-In found w f v h).0 inside, (text_eq_iff v w).1)))
      ]

  -- Where every term has the file, all of them are read.
  add_terms-All :
      (ws : List Text) (found : Found) (f : ℕ)
      → All (λ w. In f (indexed idx w)) ws
      → IsFileMap found.files
      → IsScored f found
      → IsScored f (add_terms u idx found ws)
        × ((x : Text)
            → In x ((add_terms u idx found ws).files.words f)
              ↔ (In x (found.files.words f) ⊎ In x ws))
  unfolding add_terms
  add_terms-All [] found f a h scored =
      (scored, λ x. (λ k. inl k, λ k. elim k [ inl m ↦ m | inr n ↦ absurd n ]))
  add_terms-All (w ∷ ws) found f (here, later) h scored =
      elim (Bool-cases (u.every (sources u idx w) (λ o. is_undefined o.files))) [
        | inl stop ↦ absurd (subst (In f) (undefined-indexed u idx w stop) here)
        | inr go ↦
            let (done, words) =
              add_terms-All ws (add_term u idx found w) f later (add_term-IsFileMap u idx found w h)
                (add_term-IsScored found w f h scored) in
            rw go (
              done,
              λ x.
                  ground (arith, words x, add_term-In found w f x h, has_key_iff f (indexed idx w)),
            )
      ]

  word_score-title :
      (f : ℕ) (w : Text) → In f (files_of (idx.titleterms w)) → word_score f w ≡ title_score
  word_score-title f w h =
      let has = (has_key_iff f (files_of (idx.titleterms w))).1 h in rw has refl

  word_score-cases :
      (f : ℕ) (w : Text)
      → (word_score f w ≡ term_score)
        ⊎ ((word_score f w ≡ title_score) × In f (files_of (idx.titleterms w)))
  word_score-cases f w = elim (Bool-cases (has_key f (files_of (idx.titleterms w)))) [
    | inl has ↦ inr (rw has refl, (has_key_iff f (files_of (idx.titleterms w))).0 has)
    | inr lacks ↦ inl (rw lacks refl)
  ]

  -- The maximum over a list of words is reached, and bounds every word.
  max_map :
      (g : Text → ℕ) (ws : List Text) (w : Text)
      → In w ws
      → (v : Text) × In v ws × (u.max (u.map_all ws g) ≡ g v) × (g w ≤ u.max (u.map_all ws g))
  max_map g [] w k = absurd k
  max_map g (x ∷ xs) w k = rw (u.map_all_lem (x ∷ xs) g) (
      let (v, inside, same) =
        In-of_In-map g (u.max (map g (x ∷ xs))) (x ∷ xs) (u.max-In (g x) (map g xs)) in
      (v, inside, same, u.max-upper (map g (x ∷ xs)) (g w) (In-map_of_In g w (x ∷ xs) k)))

  file_score-cases :
      (ws : List Text) (f : ℕ)
      → ws ≢ []
      → All (λ w. In f (indexed idx w)) ws
      → (InTitle idx f ws → file_score u idx ws f ≡ title_score)
        × ((¬ InTitle idx f ws) → file_score u idx ws f ≡ term_score)
  unfolding file_score
  file_score-cases [] f some_term a = absurd (some_term refl)
  file_score-cases (w ∷ ws) f some_term a =
      let (scored, words) =
        add_terms-All (w ∷ ws) nothing f a no_files-IsFileMap (λ v k. absurd k) in
      let found = add_terms u idx nothing (w ∷ ws) in
      (
        λ titled.
            let (t, listed, has) =
              Exists-In (λ v. In f (files_of (idx.titleterms v))) (w ∷ ws) titled in
            let t_in = (words t).1 (inr listed) in
            let (v, inside, reached, bound) =
              max_map (found.scores f) (found.files.words f) t t_in in
            omega (
              arith,
              bound,
              reached,
              scored v inside,
              scored t t_in,
              word_score-title f t has,
              word_score-cases f v,
            ),
        λ untitled.
            let w_in = (words w).1 (inr (inl refl)) in
            let (v, inside, reached, bound) =
              max_map (found.scores f) (found.files.words f) w w_in in
            elim (word_score-cases f v) [
              | inl low ↦ omega (arith, reached, scored v inside, low)
              | inr high ↦ elim ((words v).0 inside) [
                | inl none_before ↦ absurd none_before
                | inr listed ↦ absurd (
                    untitled (
                      In-Exists (λ v. In f (files_of (idx.titleterms v))) v (w ∷ ws) listed high.1))
              ]
            ],
      )

  InTitle-decided : (f : ℕ) (ws : List Text) → InTitle idx f ws ⊎ (¬ InTitle idx f ws)
  InTitle-decided f [] = inr (λ k. k)
  InTitle-decided f (w ∷ ws) =
      ground (arith, InTitle-decided f ws, has_key_iff f (files_of (idx.titleterms w)))

  -- A file that every search term has, of at least one, scores 15 if some search term has it in a
  -- title, and 5 if none has.
  pub file_score_lem :
      (ws : List Text) (f : ℕ)
      → ws ≢ []
      → All (λ w. In f (indexed idx w)) ws
      → (InTitle idx f ws × (file_score u idx ws f ≡ title_score))
        ⊎ ((¬ InTitle idx f ws) × (file_score u idx ws f ≡ term_score))
  file_score_lem ws f some_term a = elim (InTitle-decided f ws) [
    | inl titled ↦ inl (titled, (file_score-cases ws f some_term a).0 titled)
    | inr untitled ↦ inr (untitled, (file_score-cases ws f some_term a).1 untitled)
  ]
