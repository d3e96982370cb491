-- ===== src/Comments/Listing/Redraw.antt =====
-- The list on the page holds the tree of comments.
use pyfix.Base.{◌≡◌, refl, sym, ap, ◌∙◌, Bool, true, not, Text, arith, if◌then◌else◌}
use pyfix.Comments.{Comment, node, Forest, leaf, grow, sort_comments}
use pyfix.Comments.Options.{Options}
use pyfix.Comments.Div.{is_listed}
use pyfix.Comments.Deep.{count, count_tree, count-sort_comments}
use pyfix.Comments.Listing.{
  Item, notice, entry, Items, end, item, append_item, new_item, append_comments, get_children,
  redraw,
}

-- One list of trees behind another.
graft : Forest → Forest → Forest
graft leaf g = g
graft (grow t f) g = grow t (graft f g)

graft-leaf : (f : Forest) → graft f leaf ≡ f
unfolding graft
graft-leaf leaf = refl
graft-leaf (grow t f) = ap (grow t) (graft-leaf f)

graft_assoc : (f g h : Forest) → graft (graft f g) h ≡ graft f (graft g h)
unfolding graft
graft_assoc leaf g h = refl
graft_assoc (grow t f) g h = ap (grow t) (graft_assoc f g h)

get_children-append_item :
    (ul : Items) (i : Item)
    → get_children (append_item ul i) ≡ graft (get_children ul) (get_children (item i end))
unfolding get_children append_item graft
get_children-append_item end i = refl
get_children-append_item (item (notice c) xs) i = get_children-append_item xs i
get_children-append_item (item (entry c children) xs) i =
    ap (grow (node c (get_children children))) (get_children-append_item xs i)

module _ (opts : Options) where
  -- A comment that is only announced by a notice.
  abbrev pub is_hidden : Comment → Bool
  is_hidden c = not (is_listed opts c)

  pub get_children-new_item :
      (c : Comment) (children : Items)
      → is_listed opts c ≡ true
      → get_children (item (new_item opts c children) end)
        ≡ grow (node c (get_children children)) leaf
  unfolding new_item get_children
  get_children-new_item c children h =
      ap (λ b. get_children (item (if b then entry c children else notice c) end)) h

  -- A tree without hidden comments has none at its root, among its children and behind it.
  is_listed-count :
      (c : Comment) (f rest : Forest)
      → count is_hidden (grow (node c f) rest) ≡ 0
      → (is_listed opts c ≡ true) × (count is_hidden f ≡ 0) × (count is_hidden rest ≡ 0)
  unfolding count count_tree
  is_listed-count c f rest h = ground arith

  get_children-append_comments :
      (f : Forest) (ul : Items)
      → count is_hidden f ≡ 0
      → get_children (append_comments opts f ul) ≡ graft (get_children ul) f
  unfolding append_comments graft get_children
  get_children-append_comments leaf ul h = sym (graft-leaf (get_children ul))
  get_children-append_comments (grow (node c children) rest) ul h =
      let (shown, below, behind) = is_listed-count c children rest h in
      let inner = append_comments opts children end in
      get_children-append_comments rest (append_item ul (new_item opts c inner)) behind
      ∙ ap (λ f. graft f rest) (get_children-append_item ul (new_item opts c inner))
      ∙ ap (λ f. graft (graft (get_children ul) f) rest) (get_children-new_item c inner shown)
      ∙ ap (λ f. graft (graft (get_children ul) (grow (node c f) leaf)) rest)
          (get_children-append_comments children end below)
      ∙ graft_assoc (get_children ul) (grow (node c children) leaf) rest

  -- When a list is drawn again in another order, and no comment of it waits for a moderator, then the
  -- comments read from the new list are the sorted comments of the old one, at all depths.
  pub get_children-redraw :
      (by : Text) (ul : Items)
      → count is_hidden (get_children ul) ≡ 0
      → get_children (redraw opts by ul) ≡ sort_comments by (get_children ul)
  unfolding redraw graft get_children
  get_children-redraw by ul h =
      get_children-append_comments (sort_comments by (get_children ul)) end
        (count-sort_comments is_hidden by (get_children ul) ∙ h)
