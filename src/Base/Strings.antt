-- ===== src/Base/Strings.antt =====
-- Text as the scripts and the protocol walk it: a list of code units.
use Prim.Native.Char.{code}
use Prim.Native.Nat.{ℕ, suc}
use Prim.Native.String.{String}
use mathlib.Core.Path.{◌≡◌, refl}
use mathlib.Core.Logic.{◌↔◌}
use mathlib.Core.Bool.{Bool, true, false, ◌&&◌, ◌||◌}
use mathlib.Core.Option
use mathlib.Core.Option.{Option, none, some}
use mathlib.Core.List.{List, [], ◌∷◌}
use native.Mathlib.Omega.{arith}
use pyfix.Base.Tests.{◌==◌, ltb, if◌then◌else◌}

abbrev pub Text : Type 0
Text = List ℕ

-- The code units of a literal. `String` has its own `[]` and `∷`.
abbrev pub codes : String → Text
codes String.[] = []
codes (String.◌∷◌ c s) = code c ∷ codes s

abbrev pub text_eq : Text → Text → Bool
text_eq [] [] = true
text_eq (x ∷ xs) (y ∷ ys) = x == y && text_eq xs ys
text_eq _ _ = false

pub text_eq_sound : (s t : Text) → text_eq s t ≡ true → s ≡ t
text_eq_sound [] [] h = refl
text_eq_sound (x ∷ xs) (y ∷ ys) h = ground (arith, text_eq_sound xs ys)
text_eq_sound [] (y ∷ ys) h = cc
text_eq_sound (x ∷ xs) [] h = cc

pub text_eq_refl : (s : Text) → text_eq s s ≡ true
text_eq_refl [] = refl
text_eq_refl (x ∷ xs) = ground (arith, text_eq_refl xs)

pub text_eq_iff : (s t : Text) → (text_eq s t ≡ true) ↔ (s ≡ t)
text_eq_iff s t = (text_eq_sound s t, λ e. rw e (text_eq_refl t))

-- `t` stands at the head of `s`.
abbrev pub starts_with : Text → Text → Bool
starts_with s [] = true
starts_with [] (y ∷ ys) = false
starts_with (x ∷ xs) (y ∷ ys) = x == y && starts_with xs ys

-- `s.indexOf(t)`, `none` for -1.
abbrev pub index_of : Text → Text → Option ℕ
index_of [] t = if starts_with [] t then some 0 else none
index_of (x ∷ xs) t = if starts_with (x ∷ xs) t then some 0 else Option.map suc (index_of xs t)

-- `s.indexOf(t) > -1`
abbrev pub contains : Text → Text → Bool
contains [] t = starts_with [] t
contains (x ∷ xs) t = starts_with (x ∷ xs) t || contains xs t

-- `s < t`, by code units.
abbrev pub ltb_text : Text → Text → Bool
ltb_text s [] = false
ltb_text [] (y ∷ ys) = true
ltb_text (x ∷ xs) (y ∷ ys) = ltb x y || x == y && ltb_text xs ys
