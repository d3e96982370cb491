-- ===== src/Base/Lists.antt =====
-- Lists measured and indexed by native numbers, under the library's names, and predicates on lists.
use Prim.Native.Nat.{ℕ, zero, suc, ◌+◌, ◌-◌, min}
use mathlib.Core.Path.{◌≡◌, refl, sym, ap, subst}
use mathlib.Core.Logic.{◌⊎◌, inl, inr}
use mathlib.Core.Bool.{Bool, true, false, ◌&&◌, ◌||◌}
use mathlib.Core.List.{List, [], ◌∷◌, ◌++◌, map}
use mathlib.Core.Option.{Option, none, some}
use native.Mathlib.Omega.{arith}
use pyfix.Base.Tests.{if◌then◌else◌}

module _ {ℓ} {A : Type ℓ} where
  abbrev pub length : List A → ℕ
  length [] = 0
  length (x ∷ xs) = suc (length xs)

  abbrev pub get_elem? : List A → ℕ → Option A
  get_elem? [] i = none
  get_elem? (x ∷ xs) zero = some x
  get_elem? (x ∷ xs) (suc i) = get_elem? xs i

  abbrev pub take : ℕ → List A → List A
  take zero xs = []
  take (suc n) [] = []
  take (suc n) (x ∷ xs) = x ∷ take n xs

  abbrev pub drop : ℕ → List A → List A
  drop zero xs = xs
  drop (suc n) [] = []
  drop (suc n) (x ∷ xs) = drop n xs

  abbrev pub all : (A → Bool) → List A → Bool
  all p [] = true
  all p (x ∷ xs) = p x && all p xs

  abbrev pub any : (A → Bool) → List A → Bool
  any p [] = false
  any p (x ∷ xs) = p x || any p xs

  pub length-append : (xs ys : List A) → length (xs ++ ys) ≡ length xs + length ys
  length-append [] ys = omega arith
  length-append (x ∷ xs) ys = omega (arith, length-append xs ys)

  pub length-take : (n : ℕ) (xs : List A) → length (take n xs) ≡ min n (length xs)
  length-take zero xs = omega arith
  length-take (suc n) [] = omega arith
  length-take (suc n) (x ∷ xs) = omega (arith, length-take n xs)

  pub length-drop : (n : ℕ) (xs : List A) → length (drop n xs) ≡ length xs - n
  length-drop zero xs = omega arith
  length-drop (suc n) [] = omega arith
  length-drop (suc n) (x ∷ xs) = omega (arith, length-drop n xs)

module _ {A : Type 0} (P : A → Type 0) where
  -- `P` holds of some element.
  abbrev pub Exists : List A → Type 0
  Exists [] = ⊥
  Exists (x ∷ xs) = P x ⊎ Exists xs

module _ {ℓ κ} {A : Type ℓ} (P : A → Type κ) where
  -- `P` holds of every element.
  abbrev pub All : List A → Type κ
  All [] = Unit
  All (x ∷ xs) = P x × All xs

  pub All-append : (xs ys : List A) → All xs → All ys → All (xs ++ ys)
  All-append [] ys h k = k
  All-append (x ∷ xs) ys (p, h) k = (p, All-append xs ys h k)

module _ {A : Type 0} where
  -- Membership by recursion, which the tactics read.
  abbrev pub In : A → List A → Type 0
  In a [] = ⊥
  In a (x ∷ xs) = (a ≡ x) ⊎ In a xs

  -- No element twice.
  abbrev pub IsNodup : List A → Type 0
  IsNodup [] = Unit
  IsNodup (x ∷ xs) = (¬ In x xs) × IsNodup xs

  pub In-append_left : (a : A) (xs ys : List A) → In a xs → In a (xs ++ ys)
  In-append_left a (x ∷ xs) ys (inl e) = inl e
  In-append_left a (x ∷ xs) ys (inr h) = inr (In-append_left a xs ys h)
  In-append_left a [] ys h = elim h [ ]

  pub In-append_right : (a : A) (xs ys : List A) → In a ys → In a (xs ++ ys)
  In-append_right a [] ys h = h
  In-append_right a (x ∷ xs) ys h = inr (In-append_right a xs ys h)

  pub In-append_cases : (a : A) (xs ys : List A) → In a (xs ++ ys) → In a xs ⊎ In a ys
  In-append_cases a [] ys h = inr h
  In-append_cases a (x ∷ xs) ys (inl e) = inl (inl e)
  In-append_cases a (x ∷ xs) ys (inr h) = elim (In-append_cases a xs ys h) [
    | inl k ↦ inl (inr k)
    | inr k ↦ inr k
  ]

  -- An element that stands at the head under a condition.
  pub In-of_cons_if :
      (b : Bool) (a x : A) (xs : List A)
      → In a (if b then x ∷ xs else xs)
      → ((b ≡ true) × (a ≡ x)) ⊎ In a xs
  In-of_cons_if true a x xs (inl e) = inl (refl, e)
  In-of_cons_if true a x xs (inr h) = inr h
  In-of_cons_if false a x xs h = inr h

  pub In-cons_if_first :
      (b : Bool) (a x : A) (xs : List A) → b ≡ true → a ≡ x → In a (if b then x ∷ xs else xs)
  In-cons_if_first true a x xs e same = inl same
  In-cons_if_first false a x xs e same = absurd (cc)

  pub In-cons_if_rest :
      (b : Bool) (a x : A) (xs : List A) → In a xs → In a (if b then x ∷ xs else xs)
  In-cons_if_rest true a x xs h = inr h
  In-cons_if_rest false a x xs h = h

  -- Adding a new element at the end keeps a list free of repetitions.
  pub IsNodup-concat : (xs : List A) (a : A) → IsNodup xs → ¬ In a xs → IsNodup (xs ++ a ∷ [])
  IsNodup-concat [] a h n = (λ k. k, tt)
  IsNodup-concat (x ∷ xs) a (fresh, h) n = (
    λ k. elim (In-append_cases x xs (a ∷ []) k) [
      | inl old ↦ fresh old
      | inr last ↦ elim last [ inl e ↦ n (inl (sym e)) | inr none_left ↦ none_left ]
    ],
    IsNodup-concat xs a h (λ k. n (inr k)),
  )

module _ {A : Type 0} (P : A → Type 0) where
  pub Exists-In : (xs : List A) → Exists P xs → (x : A) × In x xs × P x
  Exists-In [] h = absurd h
  Exists-In (x ∷ xs) (inl p) = (x, inl refl, p)
  Exists-In (x ∷ xs) (inr h) = let (y, k, p) = Exists-In xs h in (y, inr k, p)

  pub In-Exists : (x : A) (xs : List A) → In x xs → P x → Exists P xs
  In-Exists x [] k p = k
  In-Exists x (y ∷ ys) (inl e) p = inl (subst P e p)
  In-Exists x (y ∷ ys) (inr k) p = inr (In-Exists x ys k p)

module _ {A B : Type 0} (f : A → B) where
  pub In-map_of_In : (x : A) (xs : List A) → In x xs → In (f x) (map f xs)
  In-map_of_In x [] k = k
  In-map_of_In x (y ∷ ys) (inl e) = inl (ap f e)
  In-map_of_In x (y ∷ ys) (inr k) = inr (In-map_of_In x ys k)

  pub In-of_In-map : (b : B) (xs : List A) → In b (map f xs) → (x : A) × In x xs × (b ≡ f x)
  In-of_In-map b [] k = absurd k
  In-of_In-map b (y ∷ ys) (inl e) = (y, inl refl, e)
  In-of_In-map b (y ∷ ys) (inr k) = let (x, h, e) = In-of_In-map b ys k in (x, inr h, e)

pub map-append {ℓ κ} :
    {A : Type ℓ} {B : Type κ} (f : A → B) (xs ys : List A) → map f (xs ++ ys) ≡ map f xs ++ map f ys
map-append f [] ys = refl
map-append f (x ∷ xs) ys = ap (f x ∷◌) (map-append f xs ys)
