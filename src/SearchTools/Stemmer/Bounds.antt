-- ===== src/SearchTools/Stemmer/Bounds.antt =====
-- The stemmer keeps the first letter of a word and never makes it longer.
use pyfix.Base.{
  ℕ, ◌≤◌, ◌<◌, ◌≡◌, sym, ap, true, Bool-cases, List, [], ◌∷◌, ◌++◌, some, inl, inr, Text, String,
  codes, text_eq, text_eq_sound, length, length-append, All, arith, if◌then◌else◌, ◌&&◌, ◌||◌, not,
  ltb, ==_iff, ◌==◌,
}
use pyfix.SearchTools.Regex.{test, mgr0, mgr1, meq1, s_v, cvc}
use pyfix.SearchTools.Stemmer.{
  one_of, replaced, chop, sses_ies, other_s, ends_at_bl_iz, ends_double, repair, step1a, step1b,
  step1c, step2list, step3list, step4list, by_table, step2, step3, sion_tion, step4, drop_e,
  ends_ll, drop_l, step5, steps, lower_first, stem_first, stem_word,
}
use pyfix.SearchTools.Stemmer.Splits.{
  Trims, Trims-refl, Trims-trans, IsSplit, split-Trims, Trims-if, split_or, Trims-split_or,
  IsShorter, chop-Trims, stem-Trims, joined-Trims, other_s-Trims,
}

step1a-Trims : (w : Text) → Trims w (step1a w)
unfolding step1a split_or
step1a-Trims w =
    Trims-split_or sses_ies (λ p. p.0 ++ p.1)
      (λ p h. joined-Trims (("sses", "ss") ∷ ("ies", "i") ∷ []) p (omega arith) h)
      (Trims-split_or other_s (λ p. p.0 ++ p.1) other_s-Trims (Trims-refl w))

-- A stem that is a prefix of the word, and a letter in place of a suffix.
letter-Trims :
    (a : String) {w : Text} (c : ℕ) (p : Text × Text)
    → 0 < length (codes a)
    → IsSplit (one_of (a ∷ [])) w p.0 p.1
    → Trims w (p.0 ++ c ∷ [])
unfolding one_of
letter-Trims a c (stem, g) pos h =
    split-Trims (c ∷ []) h
      (λ s e. ground (arith, ap length (text_eq_sound s (codes a) (ground arith))))

one_of-length :
    (table : List String) (s g : Text)
    → All (λ a. 0 < length (codes a)) table
    → one_of table s ≡ some g
    → 0 < length s
unfolding one_of
one_of-length [] s g h e = absurd (cc)
one_of-length (a ∷ table) s g (p, h) e = elim (Bool-cases (text_eq s (codes a))) [
  | inl same ↦ omega (arith, ap length (text_eq_sound s (codes a) same))
  | inr other ↦ one_of-length table s g h (rw other at e)
]

length-ends_double : (w : Text) → ends_double w ≡ true → 2 ≤ length w
unfolding ends_double
length-ends_double [] h = absurd (cc)
length-ends_double (x ∷ []) h = absurd (cc)
length-ends_double (x ∷ y ∷ []) h = omega arith
length-ends_double (x ∷ y ∷ z ∷ s) h = omega arith

length-ends_ll : (w : Text) → ends_ll w ≡ true → 2 ≤ length w
unfolding ends_ll
length-ends_ll [] h = absurd (cc)
length-ends_ll (x ∷ []) h = ground arith
length-ends_ll (x ∷ y ∷ s) h = omega arith

repair-Trims :
    (table : List String) {w : Text} (p : Text × Text)
    → All (λ a. 0 < length (codes a)) table
    → IsSplit (one_of table) w p.0 p.1
    → Trims w (repair p.0)
unfolding repair
repair-Trims table {w} (stem, g) pos h =
    let longer : Trims w (stem ++ b'e' ∷ []) =
      split-Trims (b'e' ∷ []) h (λ s e. one_of-length table s g pos e) in
    let same = stem-Trims (stem, g) h in
    Trims-if (ends_at_bl_iz stem) (λ _. longer)
      (λ _.
        Trims-if (ends_double stem)
          (λ double. Trims-trans same (chop-Trims stem (length-ends_double stem double)))
          (λ _. Trims-if (test cvc stem) (λ _. longer) (λ _. same)))

chop_split-Trims :
    (table : List String) {w : Text} (p : Text × Text)
    → All (λ a. 0 < length (codes a)) table
    → IsSplit (one_of table) w p.0 p.1
    → Trims w (chop w)
chop_split-Trims table {w} (stem, g) pos h = chop-Trims w (
    omega (
      arith,
      h.stem_pos,
      ap length h.whole,
      length-append stem h.suffix,
      one_of-length table h.suffix g pos h.accepted,
    ))

step1b-Trims : (w : Text) → Trims w (step1b w)
unfolding step1b split_or
step1b-Trims w =
    Trims-split_or (one_of ("eed" ∷ [])) (λ p. if test mgr0 p.0 then chop w else w)
      (λ p h.
        Trims-if (test mgr0 p.0) (λ _. chop_split-Trims ("eed" ∷ []) p (omega arith) h)
          (λ _. Trims-refl w))
      (Trims-split_or (one_of ("ed" ∷ "ing" ∷ [])) (λ p. if test s_v p.0 then repair p.0 else w)
        (λ p h.
          Trims-if (test s_v p.0) (λ _. repair-Trims ("ed" ∷ "ing" ∷ []) p (omega arith) h)
            (λ _. Trims-refl w))
        (Trims-refl w))

step1c-Trims : (w : Text) → Trims w (step1c w)
unfolding step1c split_or
step1c-Trims w =
    Trims-split_or (one_of ("y" ∷ [])) (λ p. if test s_v p.0 then p.0 ++ b'i' ∷ [] else w)
      (λ p h.
        Trims-if (test s_v p.0) (λ _. letter-Trims "y" b'i' p (omega arith) h) (λ _. Trims-refl w))
      (Trims-refl w)

by_table-Trims :
    (table : List (String × String)) (w : Text) → All IsShorter table → Trims w (by_table table w)
unfolding by_table split_or
by_table-Trims table w short =
    Trims-split_or (replaced table) (λ p. if test mgr0 p.0 then p.0 ++ p.1 else w)
      (λ p h. Trims-if (test mgr0 p.0) (λ _. joined-Trims table p short h) (λ _. Trims-refl w))
      (Trims-refl w)

step4-Trims : (w : Text) → Trims w (step4 w)
unfolding step4 sion_tion split_or
step4-Trims w =
    Trims-split_or (one_of step4list) (λ p. if test mgr1 p.0 then p.0 else w)
      (λ p h. Trims-if (test mgr1 p.0) (λ _. stem-Trims p h) (λ _. Trims-refl w))
      (Trims-split_or sion_tion (λ p. if test mgr1 (p.0 ++ p.1) then p.0 ++ p.1 else w)
        (λ p h.
          Trims-if (test mgr1 (p.0 ++ p.1))
            (λ _. joined-Trims (("sion", "s") ∷ ("tion", "t") ∷ []) p (omega arith) h)
            (λ _. Trims-refl w))
        (Trims-refl w))

drop_e-Trims : (w : Text) → Trims w (drop_e w)
unfolding drop_e split_or
drop_e-Trims w =
    Trims-split_or (one_of ("e" ∷ []))
      (λ p. if test mgr1 p.0 || test meq1 p.0 && not (test cvc p.0) then p.0 else w)
      (λ p h.
        Trims-if (test mgr1 p.0 || test meq1 p.0 && not (test cvc p.0)) (λ _. stem-Trims p h)
          (λ _. Trims-refl w))
      (Trims-refl w)

drop_l-Trims : (w : Text) → Trims w (drop_l w)
unfolding drop_l
drop_l-Trims w =
    Trims-if (ends_ll w && test mgr1 w) (λ long. chop-Trims w (length-ends_ll w (ground arith)))
      (λ _. Trims-refl w)

-- Whatever the word, the five steps leave a word that is no longer and has the same first letter.
pub steps-Trims : (w : Text) → Trims w (steps w)
unfolding steps step2 step3 step5
steps-Trims w =
    let a = step1a-Trims w in
    let b = Trims-trans a (step1b-Trims _) in
    let c = Trims-trans b (step1c-Trims _) in
    let d = Trims-trans c (by_table-Trims step2list _ (omega arith)) in
    let e = Trims-trans d (by_table-Trims step3list _ (omega arith)) in
    let f = Trims-trans e (step4-Trims _) in
    Trims-trans (Trims-trans f (drop_e-Trims _)) (drop_l-Trims _)

lower_first-Trims :
    (first : ℕ) (s v : Text) → first ≡ b'y' → Trims (b'Y' ∷ s) v → Trims (first ∷ s) (lower_first v)
unfolding lower_first
lower_first-Trims first s [] e h = absurd (cc (h.same_head))
lower_first-Trims first s (x ∷ v) e h = record {
  shorter = omega (arith, h.shorter);
  same_head = ap some (sym e);
}

stem_first-Trims : (first : ℕ) (s : Text) → Trims (first ∷ s) (stem_first first s)
unfolding stem_first
stem_first-Trims first s =
    Trims-if (first == b'y')
      (λ same. lower_first-Trims first s _ ((==_iff first b'y').0 same) (steps-Trims (b'Y' ∷ s)))
      (λ _. steps-Trims (first ∷ s))

-- `stemWord` never makes a word longer, and keeps its first letter: the empty word is the only one
-- whose stem is empty.
pub stem_word-Trims : (w : Text) → Trims w (stem_word w)
unfolding stem_word
stem_word-Trims [] = Trims-refl []
stem_word-Trims (first ∷ s) =
    Trims-if (ltb (length (first ∷ s)) 3) (λ _. Trims-refl (first ∷ s))
      (λ _. stem_first-Trims first s)
