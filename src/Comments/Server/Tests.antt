-- ===== src/Comments/Server/Tests.antt =====
-- A list of comments fetched, added to and deleted from.
use pyfix.Base.{
  arith, ◌≡◌, ◌≢◌, refl, ◌⊎◌, ◌+◌, if◌then◌else◌, Bool, true, false, [], none, Text, codes,
}
use pyfix.Base.Int.{ℤ, pos, ◌-ℤ◌}
use pyfix.Comments.{Comment, Forest, leaf, grow, node, sort_comments}
use pyfix.Comments.Order.{HasKey, IsSorted}
use pyfix.Comments.Deep.{count}
use pyfix.Comments.Options.{default_options}
use pyfix.Comments.Div.{is_listed}
use pyfix.Comments.Listing.{notice, entry, Items, end, item, get_children, redraw, insert_item}
use pyfix.Comments.Listing.Redraw.{get_children-redraw}
use pyfix.Comments.Listing.Insertion.{insert_item-IsSorted}
use pyfix.Comments.Server.{
  Form, add_comment, added_calls, add_failed, deleted_items, comments_area, Area, deleted,
}
use pyfix.Comments.Server.Forms.{is_disabled, is_disabled-add_comment}
use pyfix.Comments.Server.Deleted.{has_id, is_other, is_unmarked, deleted_items_lem}

abbrev comment : Text → ℤ → Bool → Comment
comment id rating displayed = record {
  id = id;
  rating = rating;
  age = pos 1;
  vote = pos 0;
  others = λ n. none;
  displayed = displayed;
  username = codes "anna";
  text = codes "fine";
  proposal_diff = [];
  time_delta = codes "now";
}

abbrev first : Comment
first = comment (codes "1") (pos 3) true

abbrev second : Comment
second = comment (codes "2") (pos 5) true

abbrev waiting : Comment
waiting = comment (codes "3") (pos 9) false

abbrev fetched : Forest
fetched = grow (node first (grow (node waiting leaf) leaf)) (grow (node second leaf) leaf)

abbrev area : Area
area = record { is_empty = true; items = end }

abbrev listed : Items
listed = item (entry second end) (item (entry first (item (notice waiting) end)) end)

server_runs :
    ((comments_area default_options (codes "rating") fetched area).items ≡ listed)
    × (redraw default_options (codes "age") listed
        ≡ item (entry second end) (item (entry first end) end))
    × (deleted_items (codes "delete") (codes "1") listed ≡ item (entry second end) end)
    × (deleted_items (codes "marked") (codes "2") listed
        ≡ item (entry (deleted second) end) (item (entry first (item (notice waiting) end)) end))
unfolding comments_area redraw deleted_items default_options ◌-ℤ◌
server_runs = (refl, refl, refl, refl)

abbrev plain : Items
plain = item (entry first end) (item (entry second end) end)

get_children-redraw_example :
    get_children (redraw default_options (codes "rating") plain)
    ≡ sort_comments (codes "rating") (get_children plain)
unfolding get_children count is_listed
get_children-redraw_example = get_children-redraw default_options (codes "rating") plain refl

abbrev third : Comment
third = comment (codes "3") (pos 4) true

HasKey-rating : HasKey (codes "rating") (λ c. c.rating)
unfolding pyfix.Comments.number_of pyfix.Comments.field_of
HasKey-rating c = refl

insert_item-IsSorted_example :
    IsSorted
      (codes "rating")
      (λ c. c.rating)
      (get_children (insert_item default_options (codes "rating") third listed))
    × ((p : Comment → Bool)
        → count p (get_children (insert_item default_options (codes "rating") third listed))
          ≡ (if p third then 1 else 0) + count p (get_children listed))
unfolding is_listed get_children
insert_item-IsSorted_example =
    insert_item-IsSorted default_options (codes "rating") (λ c. c.rating) third listed HasKey-rating
      refl ((refl, tt), (tt, tt)) ((omega arith, tt), (tt, tt))

abbrev form : Form
form = record {
  form = codes "cf1";
  node = [];
  parent = codes "1";
  comment = codes "agreed";
  proposal = [];
}

is_disabled-add_comment_example :
    (is_disabled form (add_comment default_options form) false ≡ true)
    × (is_disabled form (added_calls default_options form false) true ≡ false)
    × (is_disabled form (add_failed form) true ≡ false)
is_disabled-add_comment_example = is_disabled-add_comment default_options form false (λ e. cc)

deleted_items_lem_runs :
    ((codes "ok" ≡ codes "delete")
      × (count (has_id (codes "1")) (get_children (deleted_items (codes "ok") (codes "1") listed))
          ≡ 0))
    ⊎ ((codes "ok" ≢ codes "delete")
        × (count (has_id (codes "1")) (get_children (deleted_items (codes "ok") (codes "1") listed))
            ≡ count (has_id (codes "1")) (get_children listed))
        × (count
              (is_other (codes "1") (λ c. true))
              (get_children (deleted_items (codes "ok") (codes "1") listed))
            ≡ count (is_other (codes "1") (λ c. true)) (get_children listed))
        × (count
              (is_unmarked (codes "1"))
              (get_children (deleted_items (codes "ok") (codes "1") listed))
            ≡ 0))
deleted_items_lem_runs = deleted_items_lem (codes "ok") (codes "1") (λ c. true) listed
