-- ===== src/Comments/Deep.antt =====
-- Sorting the whole tree of comments.
use pyfix.Base.{ℕ, ◌+◌, ◌≡◌, refl, ◌∙◌, Bool, true, false, Text, arith, if◌then◌else◌}
use pyfix.Base.Int.{ℤ}
use pyfix.Comments.{
  Comment, comp, stays_before, Tree, node, Forest, leaf, grow, root, place, sort_forest, sort_tree,
  sort_children, sort_comments,
}
use pyfix.Comments.Order.{insert_comment}
use pyfix.Comments.Order.{HasKey, IsSorted, sort_forest-IsSorted}

-- The children of every comment are sorted.
unfoldable mutual
  pub IsDeep : Text → (Comment → ℤ) → Tree → Type 0
  IsDeep by key (node c f) = IsSorted by key f × AreDeep by key f

  pub AreDeep : Text → (Comment → ℤ) → Forest → Type 0
  AreDeep by key leaf = Unit
  AreDeep by key (grow t f) = IsDeep by key t × AreDeep by key f

-- The number of comments with a property, at all depths.
unfoldable mutual
  pub count_tree : (Comment → Bool) → Tree → ℕ
  count_tree p (node c f) = (if p c then 1 else 0) + count p f

  pub count : (Comment → Bool) → Forest → ℕ
  count p leaf = 0
  count p (grow t f) = count_tree p t + count p f

count-place :
    (p : Comment → Bool) (by : Text) (t : Tree) (f : Forest)
    → count p (place by t f) ≡ count_tree p t + count p f
unfolding place count
count-place p by t leaf = refl
count-place p by t (grow s f) = ground (arith, count-place p by t f)

count-sort_forest :
    (p : Comment → Bool) (by : Text) (f : Forest) → count p (sort_forest by f) ≡ count p f
unfolding sort_forest count
count-sort_forest p by leaf = refl
count-sort_forest p by (grow t f) =
    omega (arith, count-place p by t (sort_forest by f), count-sort_forest p by f)

mutual
  unfolding count count_tree sort_tree sort_children

  count_tree-sort_tree :
      (p : Comment → Bool) (by : Text) (t : Tree) → count_tree p (sort_tree by t) ≡ count_tree p t
  count_tree-sort_tree p by (node c f) =
      omega (arith, count-sort_forest p by (sort_children by f), count-sort_children p by f)

  count-sort_children :
      (p : Comment → Bool) (by : Text) (f : Forest) → count p (sort_children by f) ≡ count p f
  count-sort_children p by leaf = refl
  count-sort_children p by (grow t f) =
      omega (arith, count_tree-sort_tree p by t, count-sort_children p by f)

-- Sorting loses and doubles no comment, at any depth: for each property, as many comments have it
-- afterwards as before.
pub count-sort_comments :
    (p : Comment → Bool) (by : Text) (f : Forest) → count p (sort_comments by f) ≡ count p f
unfolding sort_comments
count-sort_comments p by f =
    count-sort_forest p by (sort_children by f) ∙ count-sort_children p by f

-- The insertion of a new comment among its siblings adds this comment, and keeps all others: for each
-- property, the number of comments that have it grows by one if the new one has it.
pub count-insert_comment :
    (p : Comment → Bool) (by : Text) (c : Comment) (f : Forest)
    → count p (insert_comment by c f) ≡ (if p c then 1 else 0) + count p f
unfolding insert_comment count
count-insert_comment p by c leaf = ground arith
count-insert_comment p by c (grow s f) = ground (arith, count-insert_comment p by c f)

module _ (by : Text) (key : Comment → ℤ) where
  AreDeep-place :
      (t : Tree) (f : Forest) → IsDeep by key t → AreDeep by key f → AreDeep by key (place by t f)
  unfolding place AreDeep
  AreDeep-place t leaf h k = (h, tt)
  AreDeep-place t (grow s f) h (k, ks) =
      elim (stays_before (comp by (root t) (root s)))
        as (λ (b : Bool). AreDeep by key (if b then grow t (grow s f) else grow s (place by t f))) [
          | true ↦ (h, (k, ks))
          | false ↦ (k, AreDeep-place t f h ks)
        ]

  AreDeep-sort_forest : (f : Forest) → AreDeep by key f → AreDeep by key (sort_forest by f)
  unfolding sort_forest AreDeep
  AreDeep-sort_forest leaf h = tt
  AreDeep-sort_forest (grow t f) (h, k) =
      AreDeep-place t (sort_forest by f) h (AreDeep-sort_forest f k)

  mutual
    unfolding IsDeep AreDeep sort_tree sort_children

    IsDeep-sort_tree : HasKey by key → (t : Tree) → IsDeep by key (sort_tree by t)
    IsDeep-sort_tree has_key (node c f) = (
      sort_forest-IsSorted by key has_key (sort_children by f),
      AreDeep-sort_forest (sort_children by f) (AreDeep-sort_children has_key f),
    )

    AreDeep-sort_children : HasKey by key → (f : Forest) → AreDeep by key (sort_children by f)
    AreDeep-sort_children has_key leaf = tt
    AreDeep-sort_children has_key (grow t f) =
        (IsDeep-sort_tree has_key t, AreDeep-sort_children has_key f)

  -- If every comment has the property that is ordered by, then sorting puts the comments in order on
  -- the top level, and the children of every comment on all levels below.
  pub sort_comments-AreDeep :
      HasKey by key
      → (f : Forest) → IsSorted by key (sort_comments by f) × AreDeep by key (sort_comments by f)
  unfolding sort_comments
  sort_comments-AreDeep has_key f = (
    sort_forest-IsSorted by key has_key (sort_children by f),
    AreDeep-sort_forest (sort_children by f) (AreDeep-sort_children has_key f),
  )
