-- ===== src/Comments/Listing.antt =====
-- The list of comments on the page, in doc/build/html/_static/websupport.js: `appendComments`,
-- `getChildren`, and what `insertComment` and `handleReSort` change of the list.
pub mod Redraw
pub mod Insertion
use pyfix.Base.{Option, none, some, text_eq, Bool, true, false, Text, if◌then◌else◌}
use pyfix.Comments.{
  Comment, comp, at_most_zero, Tree, node, Forest, leaf, grow, root, sort_comments,
}
use pyfix.Comments.Options.{Options}
use pyfix.Comments.Div.{is_listed}

-- What a list holds: the notice for a comment that waits for a moderator, which stores the comment
-- where `getChildren` does not look, or the div of a comment with the list of its children.
mutual
  pub data Item : Type 0 where
    notice : Comment → Item
    entry : Comment → Items → Item

  pub data Items : Type 0 where
    end : Items
    item : Item → Items → Items

-- `ul.append(li)`
unfoldable pub append_item : Items → Item → Items
append_item end i = item i end
append_item (item x xs) i = item x (append_item xs i)

unfoldable pub new_item : Options → Comment → Items → Item
unfolding is_listed
new_item opts c children = if is_listed opts c then entry c children else notice c

unfoldable pub append_comments : Options → Forest → Items → Items
unfolding append_item new_item
append_comments opts leaf ul = ul
append_comments opts (grow (node c children) rest) ul =
    append_comments opts rest (append_item ul (new_item opts c (append_comments opts children end)))

-- `getChildren(ul, true)`
unfoldable pub get_children : Items → Forest
get_children end = leaf
get_children (item (notice c) xs) = get_children xs
get_children (item (entry c children) xs) = grow (node c (get_children children)) (get_children xs)

-- The first of the siblings that the comment does not come behind, by its id.
unfoldable pub next_sibling : Text → Comment → Forest → Option Text
unfolding comp at_most_zero
next_sibling by c leaf = none
next_sibling by c (grow s siblings) =
    let rest = next_sibling by c siblings in
    if at_most_zero (comp by c (root s)) then some (root s).id else rest

-- `$('#cd' + id).parent().before(li)`: a notice has no such id.
unfoldable pub put_before : Text → Item → Items → Items
put_before id i end = end
put_before id i (item (notice d) xs) = item (notice d) (put_before id i xs)
put_before id i (item (entry d children) xs) =
    let rest = put_before id i xs in
    if text_eq d.id id then item i (item (entry d children) xs) else item (entry d children) rest

-- `insertComment`
unfoldable pub insert_item : Options → Text → Comment → Items → Items
unfolding new_item next_sibling put_before append_item get_children
insert_item opts by c ul =
    let li = new_item opts c end in
    elim (next_sibling by c (get_children ul)) [
      | none ↦ append_item ul li
      | some id ↦ put_before id li ul
    ]

-- The end of `handleReSort`: the list is read, sorted, emptied and filled again.
unfoldable pub redraw : Options → Text → Items → Items
unfolding append_comments sort_comments get_children
redraw opts by ul = append_comments opts (sort_comments by (get_children ul)) end
