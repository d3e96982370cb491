-- ===== src/Comments/Listing/Insertion.antt =====
-- Where `insertComment` puts a comment on the page.
use pyfix.Base.{
  ◌+◌, ◌≡◌, refl, sym, ap, ◌∙◌, subst, Bool, true, false, Bool-cases, none, some, Option-cases, inl,
  inr, Text, text_eq, text_eq_iff, arith, if◌then◌else◌,
}
use pyfix.Base.Int.{ℤ}
use pyfix.Comments.{Comment, comp, at_most_zero, node, Forest, leaf, grow, root}
use pyfix.Comments.Options.{Options}
use pyfix.Comments.Div.{is_listed}
use pyfix.Comments.Order.{HasKey, IsSorted, insert_comment, insert_comment-IsSorted}
use pyfix.Comments.Deep.{count, count-insert_comment}
use pyfix.Comments.Listing.{
  Item, notice, entry, Items, end, item, append_item, new_item, get_children, next_sibling,
  put_before, insert_item,
}

-- No comment at the roots has the id.
abbrev IsUnused : Text → Forest → Type 0
IsUnused id leaf = Unit
IsUnused id (grow s f) = (text_eq (root s).id id ≡ false) × IsUnused id f

-- The comments at the roots have different ids.
abbrev pub AreDistinct : Forest → Type 0
AreDistinct leaf = Unit
AreDistinct (grow s f) = IsUnused (root s).id f × AreDistinct f

text_eq-flip : (a b : Text) → text_eq a b ≡ false → text_eq b a ≡ false
text_eq-flip a b h = elim (Bool-cases (text_eq b a)) [
  | inr k ↦ k
  | inl k ↦
      let never : ⊥ =
        ground
          (arith, h, k, (text_eq_iff b a).0 k, (text_eq_iff a b).1 (sym ((text_eq_iff b a).0 k))) in
      absurd never
]

next_sibling-IsUnused :
    (by id j : Text) (c : Comment) (f : Forest)
    → IsUnused id f
    → next_sibling by c f ≡ some j
    → text_eq id j ≡ false
unfolding next_sibling
next_sibling-IsUnused by id j c leaf h k = let never : ⊥ = cc in absurd never
next_sibling-IsUnused by id j c (grow s f) (h, hs) k =
    elim (Bool-cases (at_most_zero (comp by c (root s)))) [
      | inl e ↦
          let same : (root s).id ≡ j = ground (arith, e, k) in
          subst (λ t. text_eq id t ≡ false) same (text_eq-flip (root s).id id h)
      | inr e ↦ next_sibling-IsUnused by id j c f hs (ground (arith, e, k))
    ]

module _ (by : Text) (c : Comment) where
  insert_comment-end :
      (li : Item) (ul : Items)
      → get_children (item li end) ≡ grow (node c leaf) leaf
      → next_sibling by c (get_children ul) ≡ none
      → get_children (append_item ul li) ≡ insert_comment by c (get_children ul)
  unfolding get_children append_item insert_comment next_sibling
  insert_comment-end li end h k = h
  insert_comment-end li (item (notice d) xs) h k = insert_comment-end li xs h k
  insert_comment-end li (item (entry d children) xs) h k =
      elim (Bool-cases (at_most_zero (comp by c d))) [
        | inl e ↦ let never : ⊥ = ground (arith, e, k) in absurd never
        | inr e ↦ ground (arith, e, insert_comment-end li xs h (ground (arith, e, k)))
      ]

  insert_comment-before :
      (li : Item) (id : Text) (ul : Items)
      → ((xs : Items) → get_children (item li xs) ≡ grow (node c leaf) (get_children xs))
      → AreDistinct (get_children ul)
      → next_sibling by c (get_children ul) ≡ some id
      → get_children (put_before id li ul) ≡ insert_comment by c (get_children ul)
  unfolding get_children put_before insert_comment next_sibling
  insert_comment-before li id end h u k = let never : ⊥ = cc in absurd never
  insert_comment-before li id (item (notice d) xs) h u k = insert_comment-before li id xs h u k
  insert_comment-before li id (item (entry d children) xs) h (u, us) k =
      elim (Bool-cases (at_most_zero (comp by c d))) [
        | inl e ↦
            let same : d.id ≡ id = ground (arith, e, k) in
            let found : text_eq d.id id ≡ true = (text_eq_iff d.id id).1 same in
            ground (arith, e, found, h (item (entry d children) xs))
        | inr e ↦
            let later : next_sibling by c (get_children xs) ≡ some id = ground (arith, e, k) in
            let other : text_eq d.id id ≡ false =
              next_sibling-IsUnused by d.id id c (get_children xs) u later in
            ground (arith, e, other, insert_comment-before li id xs h us later)
      ]

module _ (opts : Options) (by : Text) where
  get_children-listed :
      (c : Comment) (xs : Items)
      → is_listed opts c ≡ true
      → get_children (item (new_item opts c end) xs) ≡ grow (node c leaf) (get_children xs)
  unfolding get_children new_item
  get_children-listed c xs h = rw h refl

  get_children-insert_item :
      (c : Comment) (ul : Items)
      → is_listed opts c ≡ true
      → AreDistinct (get_children ul)
      → get_children (insert_item opts by c ul) ≡ insert_comment by c (get_children ul)
  unfolding insert_item
  get_children-insert_item c ul h u =
      let li = new_item opts c end in
      elim (Option-cases (next_sibling by c (get_children ul))) [
        | inl e ↦ ground (arith, e, insert_comment-end by c li ul (get_children-listed c end h) e)
        | inr (id, e) ↦
            ground
              (arith, e, insert_comment-before by c li id ul (λ xs. get_children-listed c xs h) u e)
      ]

  -- A comment that does not wait for a moderator is inserted into a list whose comments have different
  -- ids and are in order, where every comment has the property ordered by: the comments read from the
  -- list are then in order again, and they are those from before, with their descendants, and the
  -- new one.
  pub insert_item-IsSorted :
      (key : Comment → ℤ) (c : Comment) (ul : Items)
      → HasKey by key
      → is_listed opts c ≡ true
      → AreDistinct (get_children ul)
      → IsSorted by key (get_children ul)
      → IsSorted by key (get_children (insert_item opts by c ul))
        × ((p : Comment → Bool)
            → count p (get_children (insert_item opts by c ul))
              ≡ (if p c then 1 else 0) + count p (get_children ul))
  insert_item-IsSorted key c ul has_key h u sorted =
      let same = get_children-insert_item c ul h u in
      (
        subst (IsSorted by key) (sym same)
            (insert_comment-IsSorted by key has_key c (get_children ul) sorted),
        λ p. ap (count p) same ∙ count-insert_comment p by c (get_children ul),
      )
