-- ===== src/Comments/Order.antt =====
-- The order of the comments.
use pyfix.Base.{
  ◌≡◌, ◌↔◌, refl, sym, ◌∙◌, Bool, true, false, some, Text, codes, starts_with, ◌⊎◌, inl, inr, arith,
  if◌then◌else◌,
}
use pyfix.Base.Int.{ℤ, ◌-ℤ◌, ◌≤ℤ◌, sub_le_iff}
use pyfix.Comments.{
  Comment, number_of, difference, field_of, comp, at_most_zero, stays_before, Tree, node, Forest,
  leaf, grow, root, place, sort_forest,
}

-- A comment without children, before the first one that it need not follow.
unfoldable pub insert_comment : Text → Comment → Forest → Forest
unfolding comp at_most_zero
insert_comment by c leaf = grow (node c leaf) leaf
insert_comment by c (grow s f) =
    let rest = insert_comment by c f in
    if at_most_zero (comp by c (root s)) then grow (node c leaf) (grow s f) else grow s rest

-- Every comment has the property that `by` orders by, as `key` gives it.
abbrev pub HasKey : Text → (Comment → ℤ) → Type 0
HasKey by key = (c : Comment) → number_of (field_of by) c ≡ some (key c)

-- `a` may stand before `b`: the larger key first, or the smaller one with "asc".
abbrev pub Before : Text → (Comment → ℤ) → Comment → Comment → Type 0
Before by key a b = if starts_with by (codes "asc") then key a ≤ℤ key b else key b ≤ℤ key a

abbrev pub IsBelow : Text → (Comment → ℤ) → Comment → Forest → Type 0
IsBelow by key c leaf = Unit
IsBelow by key c (grow t f) = Before by key c (root t) × IsBelow by key c f

-- Each comment may stand before all that follow.
abbrev pub IsSorted : Text → (Comment → ℤ) → Forest → Type 0
IsSorted by key leaf = Unit
IsSorted by key (grow t f) = IsBelow by key (root t) f × IsSorted by key f

at_most_zero_iff : (x y : ℤ) → (at_most_zero (some (x -ℤ y)) ≡ true) ↔ (x ≤ℤ y)
unfolding at_most_zero
at_most_zero_iff x y = ground (arith, sub_le_iff x y)

-- The direction of an order.
directed :
    (ascending : Bool) (x y : ℤ)
    → (at_most_zero
          (if ascending then difference (some x) (some y) else difference (some y) (some x))
        ≡ true)
      ↔ (if ascending then x ≤ℤ y else y ≤ℤ x)
unfolding difference
directed true x y = at_most_zero_iff x y
directed false x y = at_most_zero_iff y x

directed-total :
    (ascending : Bool) (x y : ℤ)
    → (if ascending then x ≤ℤ y else y ≤ℤ x) ⊎ (if ascending then y ≤ℤ x else x ≤ℤ y)
directed-total true x y = omega arith
directed-total false x y = omega arith

directed-trans :
    (ascending : Bool) (x y z : ℤ)
    → (if ascending then x ≤ℤ y else y ≤ℤ x)
    → (if ascending then y ≤ℤ z else z ≤ℤ y)
    → (if ascending then x ≤ℤ z else z ≤ℤ x)
directed-trans true x y z h k = omega (arith, h, k)
directed-trans false x y z h k = omega (arith, h, k)

module _ (by : Text) (key : Comment → ℤ) (has_key : HasKey by key) where
  comp_iff : (a b : Comment) → (at_most_zero (comp by a b) ≡ true) ↔ Before by key a b
  unfolding comp
  comp_iff a b = rw (has_key a, has_key b) (directed (starts_with by (codes "asc")) (key a) (key b))

  comp-some : (a b : Comment) → stays_before (comp by a b) ≡ at_most_zero (comp by a b)
  unfolding comp difference stays_before
  comp-some a b =
      rw (has_key a, has_key b)
        (elim (starts_with by (codes "asc"))
          as (λ (d : Bool).
            stays_before (
              if d
              then difference (some (key a)) (some (key b))
              else difference (some (key b)) (some (key a)))
            ≡ at_most_zero (
                if d
                then difference (some (key a)) (some (key b))
                else difference (some (key b)) (some (key a)))) [ true ↦ refl | false ↦ refl ])

  Before-flip : (a b : Comment) → at_most_zero (comp by a b) ≡ false → Before by key b a
  Before-flip a b e = elim (directed-total (starts_with by (codes "asc")) (key a) (key b)) [
    | inl h ↦ absurd (cc ((comp_iff a b).1 h, e))
    | inr h ↦ h
  ]

  Before-trans : (a b c : Comment) → Before by key a b → Before by key b c → Before by key a c
  Before-trans a b c h k = directed-trans (starts_with by (codes "asc")) (key a) (key b) (key c) h k

  IsBelow-trans :
      (a b : Comment) (f : Forest) → Before by key a b → IsBelow by key b f → IsBelow by key a f
  IsBelow-trans a b leaf h k = tt
  IsBelow-trans a b (grow t f) h (k, ks) = (Before-trans a b (root t) h k, IsBelow-trans a b f h ks)

  IsBelow-insert_comment :
      (a c : Comment) (f : Forest)
      → Before by key a c
      → IsBelow by key a f
      → IsBelow by key a (insert_comment by c f)
  unfolding insert_comment
  IsBelow-insert_comment a c leaf h k = (h, tt)
  IsBelow-insert_comment a c (grow s f) h (k, ks) =
      elim (at_most_zero (comp by c (root s)))
        as (λ (b : Bool).
          IsBelow by key a
            (if b then grow (node c leaf) (grow s f) else grow s (insert_comment by c f))) [
              | true ↦ (h, (k, ks))
              | false ↦ (k, IsBelow-insert_comment a c f h ks)
            ]

  -- Sorted, if the test tells where the comment may stand.
  insert_if-IsSorted :
      (b : Bool) (c : Comment) (s : Tree) (f rest : Forest)
      → at_most_zero (comp by c (root s)) ≡ b
      → IsSorted by key (grow s f)
      → IsBelow by key (root s) f
      → (Before by key (root s) c → IsBelow by key (root s) rest)
      → IsSorted by key rest
      → IsSorted by key (if b then grow (node c leaf) (grow s f) else grow s rest)
  insert_if-IsSorted true c s f rest e h below stays sorted =
      let first = (comp_iff c (root s)).0 e in ((first, IsBelow-trans c (root s) f first below), h)
  insert_if-IsSorted false c s f rest e h below stays sorted =
      (stays (Before-flip c (root s) e), sorted)

  -- A new comment is inserted where it keeps the order, if every comment has the property ordered by.
  pub insert_comment-IsSorted :
      (c : Comment) (f : Forest) → IsSorted by key f → IsSorted by key (insert_comment by c f)
  unfolding insert_comment
  insert_comment-IsSorted c leaf h = (tt, tt)
  insert_comment-IsSorted c (grow s f) h =
      insert_if-IsSorted (at_most_zero (comp by c (root s))) c s f (insert_comment by c f) refl h
        h.0 (λ k. IsBelow-insert_comment (root s) c f k h.0) (insert_comment-IsSorted c f h.1)

  IsBelow-place :
      (a : Comment) (t : Tree) (f : Forest)
      → Before by key a (root t)
      → IsBelow by key a f
      → IsBelow by key a (place by t f)
  unfolding place
  IsBelow-place a t leaf h k = (h, tt)
  IsBelow-place a t (grow s f) h (k, ks) =
      elim (stays_before (comp by (root t) (root s)))
        as (λ (b : Bool).
          IsBelow by key a (if b then grow t (grow s f) else grow s (place by t f))) [
            | true ↦ (h, (k, ks))
            | false ↦ (k, IsBelow-place a t f h ks)
          ]

  place_if-IsSorted :
      (b : Bool) (t s : Tree) (f rest : Forest)
      → stays_before (comp by (root t) (root s)) ≡ b
      → IsSorted by key (grow s f)
      → (Before by key (root s) (root t) → IsBelow by key (root s) rest)
      → IsSorted by key rest
      → IsSorted by key (if b then grow t (grow s f) else grow s rest)
  place_if-IsSorted true t s f rest e h stays sorted =
      let first = (comp_iff (root t) (root s)).0 (sym (comp-some (root t) (root s)) ∙ e) in
      ((first, IsBelow-trans (root t) (root s) f first h.0), h)
  place_if-IsSorted false t s f rest e h stays sorted =
      (stays (Before-flip (root t) (root s) (sym (comp-some (root t) (root s)) ∙ e)), sorted)

  place-IsSorted : (t : Tree) (f : Forest) → IsSorted by key f → IsSorted by key (place by t f)
  unfolding place
  place-IsSorted t leaf h = (tt, tt)
  place-IsSorted t (grow s f) h =
      place_if-IsSorted (stays_before (comp by (root t) (root s))) t s f (place by t f) refl h
        (λ k. IsBelow-place (root s) t f k h.0) (place-IsSorted t f h.1)

  pub sort_forest-IsSorted : (f : Forest) → IsSorted by key (sort_forest by f)
  unfolding sort_forest
  sort_forest-IsSorted leaf = tt
  sort_forest-IsSorted (grow t f) = place-IsSorted t (sort_forest by f) (sort_forest-IsSorted f)
