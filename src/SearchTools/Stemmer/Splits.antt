-- ===== src/SearchTools/Stemmer/Splits.antt =====
-- What the lazy splits of the stemmer's steps find, and the effect of replacing the suffix.
use mathlib.Core.Path.{subst}
use pyfix.Base.{
  ℕ, ◌≤◌, ◌<◌, ◌≡◌, refl, ap, Bool, true, false, Bool-cases, Option-cases, List, [], ◌∷◌, ◌++◌,
  Option, none, some, inl, inr, Text, String, codes, append-nil, text_eq, text_eq_sound, length,
  length-append, All, arith, if◌then◌else◌,
}
use pyfix.SearchTools.Stemmer.{lazy_split, replaced, chop, other_s}

abbrev pub head? : Text → Option ℕ
head? [] = none
head? (x ∷ s) = some x

-- `v` is no longer than `w` and begins as `w` does.
pub record Trims (w v : Text) : Type 0 where
  pub shorter : length v ≤ length w
  pub same_head : head? v ≡ head? w

pub Trims-refl : (w : Text) → Trims w w
Trims-refl w = record { shorter = omega arith; same_head = refl }

pub Trims-trans : {u v w : Text} → Trims u v → Trims v w → Trims u w
Trims-trans p q = record {
  shorter = omega (arith, p.shorter, q.shorter);
  same_head = cc (p.same_head, q.same_head);
}

pub head-append : (s t u : Text) → 0 < length s → head? (s ++ t) ≡ head? (s ++ u)
head-append [] t u h = absurd (omega arith)
head-append (x ∷ s) t u h = refl

-- What a lazy split has found: the stem, the rest that was accepted, and its capture.
pub record IsSplit (rest : Text → Option Text) (w stem captured : Text) : Type 0 where
  pub suffix : Text
  pub whole : w ≡ stem ++ suffix
  pub accepted : rest suffix ≡ some captured
  pub stem_pos : 0 < length stem

pub lazy_split-IsSplit :
    (rest : Text → Option Text) (w : Text) (p : Text × Text)
    → lazy_split rest w ≡ some p
    → IsSplit rest w p.0 p.1
unfolding lazy_split
lazy_split-IsSplit rest [] p h = absurd (cc)
lazy_split-IsSplit rest (x ∷ s) p h = elim (Option-cases (rest s)) [
  | inr (g, found) ↦ record {
    suffix = s;
    whole = ground arith;
    accepted = ground arith;
    stem_pos = ground arith;
  }
  | inl missed ↦ elim (Option-cases (lazy_split rest s)) [
    | inl none_left ↦ absurd (ground arith)
    | inr (q, later) ↦
        let below = lazy_split-IsSplit rest s q later in
        record {
          suffix = below.suffix;
          whole = ground (arith, below.whole);
          accepted = ground (arith, below.accepted);
          stem_pos = ground arith;
        }
  ]
]

-- The steps rewrite a stem with something no longer than the suffix that was cut.
pub split-Trims :
    {rest : Text → Option Text} {w stem captured : Text} (t : Text)
    → IsSplit rest w stem captured
    → ((s : Text) → rest s ≡ some captured → length t ≤ length s)
    → Trims w (stem ++ t)
split-Trims {stem} t h short = rw h.whole record {
  shorter =
      omega (arith, length-append stem t, length-append stem h.suffix, short h.suffix h.accepted);
  same_head = head-append stem t h.suffix h.stem_pos;
}

pub Trims-if :
    {w x y : Text} (b : Bool)
    → (b ≡ true → Trims w x)
    → (b ≡ false → Trims w y)
    → Trims w (if b then x else y)
Trims-if true p q = p refl
Trims-if false p q = q refl

unfoldable pub split_or : (Text × Text → Text) → Text → Option (Text × Text) → Text
split_or f d found = elim found [ some p ↦ f p | none ↦ d ]

pub Trims-split_or :
    (rest : Text → Option Text) {w d : Text} (f : Text × Text → Text)
    → ((p : Text × Text) → IsSplit rest w p.0 p.1 → Trims w (f p))
    → Trims w d
    → Trims w (split_or f d (lazy_split rest w))
unfolding split_or
Trims-split_or rest {w} f hit miss = elim (Option-cases (lazy_split rest w)) [
  | inl none_left ↦ rw none_left miss
  | inr (p, found) ↦ rw found (hit p (lazy_split-IsSplit rest w p found))
]

-- A suffix is replaced by a text that is no longer.
abbrev pub IsShorter : String × String → Type 0
IsShorter e = length (codes e.1) ≤ length (codes e.0)

pub length-replaced :
    (table : List (String × String)) (s g : Text)
    → All IsShorter table
    → replaced table s ≡ some g
    → length g ≤ length s
unfolding replaced
length-replaced [] s g h e = absurd (cc)
length-replaced ((a, b) ∷ table) s g (p, h) e = elim (Bool-cases (text_eq s (codes a))) [
  | inl same ↦ omega (arith, ap length (text_eq_sound s (codes a) same), ap length (the_text same))
  | inr other ↦ length-replaced table s g h (rw other at e)
]
  where
    the_text : text_eq s (codes a) ≡ true → codes b ≡ g
    the_text same = ground arith

pub chop-Trims : (w : Text) → 2 ≤ length w → Trims w (chop w)
unfolding chop
chop-Trims [] h = absurd (omega arith)
chop-Trims (x ∷ []) h = absurd (omega arith)
chop-Trims (x ∷ y ∷ s) h = record { shorter = omega (arith, length-chop (y ∷ s)); same_head = refl }
  where
    length-chop : (v : Text) → length (chop v) ≤ length v
    length-chop [] = omega arith
    length-chop (c ∷ []) = ground arith
    length-chop (c ∷ d ∷ v) = omega (arith, length-chop (d ∷ v))

pub stem-Trims :
    {rest : Text → Option Text} {w : Text} (p : Text × Text) → IsSplit rest w p.0 p.1 → Trims w p.0
stem-Trims {w} (stem, g) h =
    subst (Trims w) (append-nil stem) (split-Trims [] h (λ s e. omega arith))

pub joined-Trims :
    (table : List (String × String)) {w : Text} (p : Text × Text)
    → All IsShorter table
    → IsSplit (replaced table) w p.0 p.1
    → Trims w (p.0 ++ p.1)
joined-Trims table (stem, g) short h = split-Trims g h (λ s e. length-replaced table s g short e)

pub length-other_s : (s g : Text) → other_s s ≡ some g → length g ≤ length s
unfolding other_s
length-other_s (c ∷ d ∷ []) g e = ground arith
length-other_s s g e = absurd (cc)

pub other_s-Trims : {w : Text} (p : Text × Text) → IsSplit other_s w p.0 p.1 → Trims w (p.0 ++ p.1)
other_s-Trims (stem, g) h = split-Trims g h (λ s e. length-other_s s g e)
