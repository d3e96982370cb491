-- ===== src/SearchTools/Stemmer/Measure.antt =====
-- What the stemmer's expressions `s_v`, `mgr0` and `mgr1` test, without backtracking: letters of the
-- two classes that follow one another in the word, with anything between.
use pyfix.Base.{
  ℕ, ◌≡◌, refl, ap, Bool, true, false, ◌&&◌, Bool-cases, List, [], ◌∷◌, Text, inl, inr, arith,
  if◌then◌else◌,
}
use pyfix.SearchTools.Regex.{
  cls, opt, star_loop, accepts, test, in_aeiou, in_aeiouy, not_aeiou, not_aeiouy, consonants,
  vowels, mgr0, mgr1, s_v,
}

-- Letters that pass the tests one after the other, found from the left.
unfoldable pub in_order : List (ℕ → Bool) → Text → Bool
in_order [] s = true
in_order (p ∷ ps) [] = false
in_order (p ∷ ps) (c ∷ s) = if p c then in_order ps s else in_order (p ∷ ps) s

-- A longer text, or one test less, is easier.
in_order-tail :
    (p : ℕ → Bool) (ps : List (ℕ → Bool))
    → ((c : ℕ) (s : Text) → in_order ps s ≡ true → in_order ps (c ∷ s) ≡ true)
    → (s : Text) → in_order (p ∷ ps) s ≡ true
    → in_order ps s ≡ true
unfolding in_order
in_order-tail p ps longer [] h = absurd (cc)
in_order-tail p ps longer (c ∷ s) h = elim (Bool-cases (p c)) [
  | inl pass ↦ longer c s (rw pass at h)
  | inr fail ↦ longer c s (in_order-tail p ps longer s (rw fail at h))
]

in_order-cons :
    (ps : List (ℕ → Bool)) (c : ℕ) (s : Text) → in_order ps s ≡ true → in_order ps (c ∷ s) ≡ true
unfolding in_order
in_order-cons [] c s h = refl
in_order-cons (p ∷ ps) c s h = elim (Bool-cases (p c)) [
  | inl pass ↦ rw pass (in_order-tail p ps (in_order-cons ps) s h)
  | inr fail ↦ rw fail h
]

-- A star that may skip what its continuation skips adds nothing.
star_loop-skip :
    (p : ℕ → Bool) (k : Text → Bool)
    → ((c : ℕ) (s : Text) → p c ≡ true → k (c ∷ s) ≡ k s)
    → (s : Text) → star_loop p k s ≡ k s
unfolding star_loop
star_loop-skip p k skips [] = refl
star_loop-skip p k skips (c ∷ s) = ground (arith, star_loop-skip p k skips s, skips c s)

-- One letter of the complement after a star of a class: the first such letter.
star_loop-first :
    (p q : ℕ → Bool) (ps : List (ℕ → Bool)) (k : Text → Bool)
    → ((c : ℕ) → q c ≡ (if p c then false else true))
    → ((c : ℕ) (s : Text) → k (c ∷ s) ≡ (q c && in_order ps s))
    → k [] ≡ false
    → (s : Text) → star_loop p k s ≡ in_order (q ∷ ps) s
unfolding star_loop in_order
star_loop-first p q ps k other next stop [] = stop
star_loop-first p q ps k other next stop (c ∷ s) =
    ground (arith, star_loop-first p q ps k other next stop s, other c, next c s)

-- The classes of letters.
not_aeiou-in_aeiou : (c : ℕ) → not_aeiou c ≡ (if in_aeiou c then false else true)
unfolding not_aeiou in_aeiou
not_aeiou-in_aeiou c = ground arith

in_aeiouy-not_aeiouy : (c : ℕ) → in_aeiouy c ≡ (if not_aeiouy c then false else true)
unfolding not_aeiouy in_aeiouy
in_aeiouy-not_aeiouy c = ground arith

in_aeiouy_of_aeiou : (c : ℕ) → not_aeiou c ≡ false → in_aeiouy c ≡ true
unfolding not_aeiou in_aeiouy
in_aeiouy_of_aeiou c h = ground arith

module _ (k : Text → Bool) (ps : List (ℕ → Bool))
    (after : (s : Text) → star_loop not_aeiouy k s ≡ in_order ps s) where
  accepts-consonants :
      (c : ℕ) (s : Text) → accepts consonants k (c ∷ s) ≡ (not_aeiou c && in_order ps s)
  unfolding accepts consonants
  accepts-consonants c s = rw (after s)

  -- `V` and then `C`.
  accepts-vowels-consonants :
      (c : ℕ) (s : Text)
      → accepts vowels (λ t. accepts consonants k t) (c ∷ s)
        ≡ (in_aeiouy c && in_order (not_aeiou ∷ ps) s)
  unfolding accepts vowels
  accepts-vowels-consonants c s =
      ap (λ b. in_aeiouy c && b)
        (star_loop-first in_aeiou not_aeiou ps (λ t. accepts consonants k t) not_aeiou-in_aeiou
          accepts-consonants (unfold accepts consonants in refl) s)

-- `(C)?` before a vowel changes nothing: the first vowel or "y" of the text is as good.
accepts-opt_consonants :
    (k : Text → Bool) (ps : List (ℕ → Bool))
    → ((c : ℕ) (s : Text) → k (c ∷ s) ≡ (in_aeiouy c && in_order ps s))
    → k [] ≡ false
    → (s : Text) → accepts (opt consonants) k s ≡ in_order (in_aeiouy ∷ ps) s
unfolding accepts consonants in_order
accepts-opt_consonants k ps next stop [] = stop
accepts-opt_consonants k ps next stop (c ∷ s) =
    rw (star_loop-first not_aeiouy in_aeiouy ps k in_aeiouy-not_aeiouy next stop s, next c s)
      (ground (arith, in_aeiouy_of_aeiou c, in_order-tail in_aeiouy ps (in_order-cons ps) s))

-- `VC` and then anything.
abbrev one_pair : Text → Bool
one_pair t = accepts vowels (λ u. accepts consonants (λ v. true) u) t

anything-after : (s : Text) → star_loop not_aeiouy (λ t. true) s ≡ in_order [] s
unfolding in_order
anything-after s = star_loop-skip not_aeiouy (λ t. true) (λ c t e. refl) s

-- `s_v` tests that some letter is a vowel or "y".
pub test-s_v : (s : Text) → test s_v s ≡ in_order (in_aeiouy ∷ []) s
unfolding test s_v accepts in_order
test-s_v s =
    accepts-opt_consonants (λ t. accepts (cls in_aeiouy) (λ u. true) t) [] (λ c t. refl) refl s

-- `mgr0` tests that a vowel or "y" is followed, somewhere, by a letter other than "aeiou".
pub test-mgr0 : (s : Text) → test mgr0 s ≡ in_order (in_aeiouy ∷ not_aeiou ∷ []) s
unfolding test mgr0 accepts
test-mgr0 s =
    accepts-opt_consonants one_pair (not_aeiou ∷ [])
      (accepts-vowels-consonants (λ v. true) [] anything-after) (unfold vowels in refl) s

vowels_consonants-after :
    (s : Text) → star_loop not_aeiouy one_pair s ≡ in_order (in_aeiouy ∷ not_aeiou ∷ []) s
vowels_consonants-after s =
    star_loop-first not_aeiouy in_aeiouy (not_aeiou ∷ []) one_pair in_aeiouy-not_aeiouy
      (accepts-vowels-consonants (λ v. true) [] anything-after) (unfold accepts vowels in refl) s

-- `mgr1` tests for two such pairs of letters, one after the other.
pub test-mgr1 :
    (s : Text) → test mgr1 s ≡ in_order (in_aeiouy ∷ not_aeiou ∷ in_aeiouy ∷ not_aeiou ∷ []) s
unfolding test mgr1 accepts
test-mgr1 s =
    accepts-opt_consonants (λ t. accepts vowels (λ u. accepts consonants one_pair u) t)
      (not_aeiou ∷ in_aeiouy ∷ not_aeiou ∷ [])
      (accepts-vowels-consonants one_pair (in_aeiouy ∷ not_aeiou ∷ []) vowels_consonants-after)
      (unfold vowels in refl) s
