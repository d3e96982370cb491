-- ===== src/SearchTools/Display/Sorting.antt =====
-- The order of the results.
use pyfix.Base.{
  ℕ, ◌+◌, ◌≡◌, refl, ◌∙◌, Bool, true, false, ◌||◌, List, [], ◌∷◌, none, some, Text, All, ltb_text,
  ◌⊎◌, arith, if◌then◌else◌,
}
use pyfix.Base.Int.{ℤ, pos, ltb_ℤ}
use pyfix.SearchTools.Index.{Result}
use pyfix.SearchTools.Display.{compare_keys, compare_results, place_result, sort_results}

-- How many results a test accepts.
abbrev pub count : (Result → Bool) → List Result → ℕ
count p [] = 0
count p (r ∷ rs) = (if p r then 1 else 0) + count p rs

abbrev pub IsTitled : Result → Type 0
IsTitled r = (t : Text) × (r.title ≡ some t)

ltb_text_trans : (s t u : Text) → ltb_text s t ≡ false → ltb_text t u ≡ false → ltb_text s u ≡ false
ltb_text_trans s t [] h k = refl
ltb_text_trans s [] (z ∷ u) h k = ground arith
ltb_text_trans [] (y ∷ t) (z ∷ u) h k = ground arith
ltb_text_trans (x ∷ s) (y ∷ t) (z ∷ u) h k = ground (arith, ltb_text_trans s t u)

ltb_text_asym : (s t : Text) → ltb_text s t ≡ true → ltb_text t s ≡ false
ltb_text_asym s [] h = ground arith
ltb_text_asym [] (y ∷ t) h = refl
ltb_text_asym (x ∷ s) (y ∷ t) h = ground (arith, ltb_text_asym s t)

-- A score is below another, or both are equal and the first title is not before the second.
abbrev pub IsWorse : ℤ → Text → ℤ → Text → Type 0
IsWorse a s b t =
    (ltb_ℤ a b ≡ true) ⊎ ((ltb_ℤ a b ≡ false) × (ltb_ℤ b a ≡ false) × (ltb_text s t ≡ false))

ltb_ℤ_trans : (a b c : ℤ) → ltb_ℤ b a ≡ false → ltb_ℤ c b ≡ false → ltb_ℤ c a ≡ false
ltb_ℤ_trans a b c h k = ground arith

IsWorse-trans : (a b c : ℤ) (s t u : Text) → IsWorse a s b t → IsWorse b t c u → IsWorse a s c u
IsWorse-trans a b c s t u h k = ground (arith, ltb_text_trans s t u)

compare_keys-cases :
    (a b : ℤ) (s t : Text)
    → (ltb_ℤ (pos 0) (compare_keys a b s t) ≡ true → IsWorse b t a s)
      × (ltb_ℤ (pos 0) (compare_keys a b s t) ≡ false → IsWorse a s b t)
unfolding compare_keys
compare_keys-cases a b s t =
    (λ h. ground (arith, ltb_text_asym s t), λ h. ground (arith, ltb_text_asym s t))

module _ (lower : Text → Text) where
  abbrev pub key : Result → Text
  key r = elim r.title [ none ↦ [] | some t ↦ lower t ]

  abbrev pub Worse : Result → Result → Type 0
  Worse r q = IsWorse r.score (key r) q.score (key q)

  -- From the worst to the best, so that `pop` takes the best.
  abbrev pub IsSorted : List Result → Type 0
  IsSorted [] = Unit
  IsSorted (r ∷ rs) = All (Worse r) rs × IsSorted rs

  compare_keys-scores :
      (a b : ℤ) (s t : Text)
      → (ltb_ℤ b a || ltb_ℤ a b) ≡ true
      → compare_keys a b [] [] ≡ compare_keys a b s t
  unfolding compare_keys
  compare_keys-scores a b s t h = ground arith

  compare_results-titled :
      (a b : Result)
      → IsTitled a
      → IsTitled b
      → compare_results lower a b ≡ some (compare_keys a.score b.score (key a) (key b))
  unfolding compare_results
  compare_results-titled a b (s, h) (t, k) =
      ground (arith, compare_keys-scores a.score b.score (key a) (key b))

  All-trans : (r q : Result) (rs : List Result) → Worse r q → All (Worse q) rs → All (Worse r) rs
  All-trans r q [] h k = tt
  All-trans r q (x ∷ rs) h (k, ks) =
      (IsWorse-trans r.score q.score x.score (key r) (key q) (key x) h k, All-trans r q rs h ks)

  -- A result and the sorted results that it is placed among.
  abbrev Placed : Result → List Result → List Result → Type 1
  Placed r rs zs =
      (place_result lower r rs ≡ some zs)
      × IsSorted zs
      × ((P : Result → Type 0) → P r → All P rs → All P zs)
      × ((p : Result → Bool) → count p zs ≡ count p (r ∷ rs))

  place_result-cons :
      (r q : Result) (rs zs : List Result) (c : ℤ)
      → compare_results lower r q ≡ some c
      → place_result lower r rs ≡ some zs
      → place_result lower r (q ∷ rs)
        ≡ (if ltb_ℤ (pos 0) c then some (q ∷ zs) else some (r ∷ q ∷ rs))
  unfolding place_result
  place_result-cons r q rs zs c h k = ground arith

  if-Placed :
      (b : Bool) (r q : Result) (rs zs : List Result)
      → All (Worse q) rs
      → IsSorted rs
      → (b ≡ true → Worse q r) × (b ≡ false → Worse r q)
      → Placed r rs zs
      → place_result lower r (q ∷ rs) ≡ (if b then some (q ∷ zs) else some (r ∷ q ∷ rs))
      → (ys : List Result) × Placed r (q ∷ rs) ys
  if-Placed true r q rs zs worst sorted cases old step = (
    q ∷ zs,
    (
      step,
      (old.2 (Worse q) (cases.0 refl) worst, old.1),
      λ P p (ps, pss). (ps, old.2 P p pss),
      λ p. ground (arith, old.3 p),
    ),
  )
  if-Placed false r q rs zs worst sorted cases old step = (
    r ∷ q ∷ rs,
    (
      step,
      ((cases.1 refl, All-trans r q rs (cases.1 refl) worst), (worst, sorted)),
      λ P p ps. (p, ps),
      λ p. refl,
    ),
  )

  place_result-Placed :
      (r : Result) (rs : List Result)
      → IsTitled r
      → All IsTitled rs
      → IsSorted rs
      → (zs : List Result) × Placed r rs zs
  unfolding place_result
  place_result-Placed r [] h hs sorted = (r ∷ [], (refl, (tt, tt), λ P p ps. (p, tt), λ p. refl))
  place_result-Placed r (q ∷ rs) h (k, ks) (worst, sorted) =
      let ih = place_result-Placed r rs h ks sorted in
      let c = compare_keys r.score q.score (key r) (key q) in
      let step = place_result-cons r q rs ih.0 c (compare_results-titled r q h k) ih.1.0 in
      let cases = compare_keys-cases r.score q.score (key r) (key q) in
      if-Placed (ltb_ℤ (pos 0) c) r q rs ih.0 worst sorted cases ih.1 step

  sort_results-cons :
      (r : Result) (rs zs : List Result)
      → sort_results lower rs ≡ some zs
      → sort_results lower (r ∷ rs) ≡ place_result lower r zs
  unfolding sort_results
  sort_results-cons r rs zs h = ground arith

  sort_results-Sorted :
      (rs : List Result)
      → All IsTitled rs
      → (zs : List Result) × (sort_results lower rs ≡ some zs)
        × IsSorted zs
        × All IsTitled zs
        × ((p : Result → Bool) → count p zs ≡ count p rs)
  unfolding sort_results
  sort_results-Sorted [] h = ([], refl, tt, tt, λ p. refl)
  sort_results-Sorted (r ∷ rs) (h, hs) =
      let ih = sort_results-Sorted rs hs in
      let placed = place_result-Placed r ih.0 h ih.3 ih.2 in
      (
        placed.0,
        sort_results-cons r rs ih.0 ih.1 ∙ placed.1.0,
        placed.1.1,
        placed.1.2 IsTitled h ih.3,
        λ p. ground (arith, placed.1.3 p, ih.4 p),
      )

  -- The results, in sorted order, each as often as before.
  pub sort_results-IsSorted :
      (rs : List Result)
      → All IsTitled rs
      → (zs : List Result) × (sort_results lower rs ≡ some zs)
        × IsSorted zs
        × ((p : Result → Bool) → count p zs ≡ count p rs)
  sort_results-IsSorted rs h = let all = sort_results-Sorted rs h in (all.0, all.1, all.2, all.4)
