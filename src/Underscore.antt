-- ===== src/Underscore.antt =====
-- What the scripts of doc/build/html/_static use of underscore.js, which doctools.js names `$u`:
-- a library that they call, so its functions are parameters with their documented behaviour.
use mathlib.Core.Path.{subst}
use mathlib.Core.List.{foldl}
use pyfix.Base.{
  ℕ, ◌≤◌, ◌≡◌, refl, ◌↔◌, inl, inr, Bool, true, false, ◌||◌, List, [], ◌∷◌, map, Text, text_eq,
  text_eq_iff, ◌==◌, all, In, arith, max, leb, Bool-cases, sym,
}

-- A JavaScript value that the scripts look up in an array: a text, a number, or the name of a
-- property, which is the decimal text of a number.
pub data Value : Type 0 where
  str : Text → Value
  num : ℕ → Value
  key : ℕ → Value

-- `each` threads the variables that its callback assigns. `contains` compares by `===`, which tells a number from its decimal text.
pub record Underscore : Type 1 where
  pub contains : List Value → Value → Bool
  pub contains_iff : (xs : List Value) (x : Value) → (contains xs x ≡ true) ↔ In x xs
  pub every : {A : Type 0} → List A → (A → Bool) → Bool
  pub every_lem : {A : Type 0} (xs : List A) (p : A → Bool) → every xs p ≡ all p xs
  pub map_all : {A B : Type 0} → List A → (A → B) → List B
  pub map_all_lem : {A B : Type 0} (xs : List A) (f : A → B) → map_all xs f ≡ map f xs
  pub each : {A S : Type 0} → List A → (S → A → S) → S → S
  pub each_lem : {A S : Type 0} (xs : List A) (f : S → A → S) (s : S) → each xs f s ≡ foldl f s xs
  pub max : List ℕ → ℕ
  pub max-upper : (xs : List ℕ) (x : ℕ) → In x xs → x ≤ max xs
  pub max-In : (x : ℕ) (xs : List ℕ) → In (max (x ∷ xs)) (x ∷ xs)

-- A model of the parameters.
abbrev pub value_eq : Value → Value → Bool
value_eq (str s) (str t) = text_eq s t
value_eq (num m) (num n) = m == n
value_eq (key m) (key n) = m == n
value_eq _ _ = false

pub value_eq_iff : (x y : Value) → (value_eq x y ≡ true) ↔ (x ≡ y)
value_eq_iff (str s) (str t) = ground (arith, text_eq_iff s t)
value_eq_iff (num m) (num n) = ground arith
value_eq_iff (key m) (key n) = ground arith
value_eq_iff x y = ground arith

abbrev pub has_value : List Value → Value → Bool
has_value [] x = false
has_value (y ∷ ys) x = value_eq x y || has_value ys x

pub has_value_iff : (xs : List Value) (x : Value) → (has_value xs x ≡ true) ↔ In x xs
has_value_iff [] x = ground arith
has_value_iff (y ∷ ys) x = ground (arith, value_eq_iff x y, has_value_iff ys x)

abbrev pub maximum : List ℕ → ℕ
maximum [] = 0
maximum (x ∷ xs) = max x (maximum xs)

pub maximum-upper : (xs : List ℕ) (x : ℕ) → In x xs → x ≤ maximum xs
maximum-upper [] x h = elim h [ ]
maximum-upper (y ∷ ys) x (inl e) = omega arith
maximum-upper (y ∷ ys) x (inr h) = omega (arith, maximum-upper ys x h)

pub maximum-In : (x : ℕ) (xs : List ℕ) → In (maximum (x ∷ xs)) (x ∷ xs)
maximum-In x [] = inl (omega arith)
maximum-In x (y ∷ ys) = elim (Bool-cases (leb (maximum (y ∷ ys)) x)) [
  | inl most ↦ inl (ground arith)
  | inr less ↦
      let same : maximum (x ∷ y ∷ ys) ≡ maximum (y ∷ ys) = ground arith in
      inr (subst (λ m. In m (y ∷ ys)) (sym same) (maximum-In y ys))
]

abbrev pub underscore : Underscore
underscore = record {
  contains = has_value;
  contains_iff = has_value_iff;
  every = λ xs p. all p xs;
  every_lem = λ xs p. refl;
  map_all = λ xs f. map f xs;
  map_all_lem = λ xs f. refl;
  each = λ xs f s. foldl f s xs;
  each_lem = λ xs f s. refl;
  max = maximum;
  max-upper = maximum-upper;
  max-In = maximum-In;
}
