-- ===== src/Comments.antt =====
-- The comments of doc/build/html/_static/websupport.js: how they are ordered, and what a vote
-- changes.
pub mod Order
pub mod Template
pub mod Options
pub mod Div
pub mod Listing
pub mod Server
pub mod Links
pub mod Autogrow
pub mod Panels
pub mod Cookie
pub mod Deep
pub mod Votes
mod Tests
use pyfix.Base.{
  ℕ, zero, suc, Bool, true, false, not, ◌&&◌, ◌||◌, List, [], ◌∷◌, ◌++◌, Option, none, some, Text,
  codes, text_eq, starts_with, drop, ◌==◌, get_elem?, if◌then◌else◌,
}
use pyfix.Base.Int.{ℤ, pos, negsuc, ◌+ℤ◌, ◌-ℤ◌, ltb_ℤ}

-- A comment as the server sends it: the fields that are ordered by, with the numbers among its other
-- properties, and what is shown of it.
pub record Comment : Type 0 where
  pub id : Text
  pub rating : ℤ
  pub age : ℤ
  pub vote : ℤ
  pub others : Text → Option ℤ
  pub displayed : Bool
  pub username : Text
  pub text : Text
  pub proposal_diff : Text
  pub time_delta : Text

-- `c[name]` as a number; `none` is NaN.
unfoldable pub number_of : Text → Comment → Option ℤ
number_of name c =
    if text_eq name (codes "rating")
    then some c.rating
    else if text_eq name (codes "age")
    then some c.age
    else if text_eq name (codes "vote")
    then some c.vote
    else c.others name

-- `a - b`, where NaN spreads.
unfoldable pub difference : Option ℤ → Option ℤ → Option ℤ
difference (some a) (some b) = some (a -ℤ b)
difference _ _ = none

-- The property that `by` orders by.
unfoldable pub field_of : Text → Text
field_of by = if starts_with by (codes "asc") then drop 3 by else by

-- `comp`, as `setComparator` sets it.
unfoldable pub comp : Text → Comment → Comment → Option ℤ
unfolding number_of difference field_of
comp by a b =
    let i = field_of by in
    if starts_with by (codes "asc")
    then difference (number_of i a) (number_of i b)
    else difference (number_of i b) (number_of i a)

-- `d <= 0`, which is false of NaN.
unfoldable pub at_most_zero : Option ℤ → Bool
at_most_zero none = false
at_most_zero (some d) = not (ltb_ℤ (pos 0) d)

-- `sort` takes NaN for 0.
unfoldable pub stays_before : Option ℤ → Bool
unfolding at_most_zero
stays_before none = true
stays_before (some d) = at_most_zero (some d)

-- A comment with its children, and a list of those.
mutual
  pub data Tree : Type 0 where
    node : Comment → Forest → Tree

  pub data Forest : Type 0 where
    leaf : Forest
    grow : Tree → Forest → Forest

abbrev pub root : Tree → Comment
root (node c f) = c

-- Sorting, as a stable sort: an element goes before the first that it may stay before.
unfoldable pub place : Text → Tree → Forest → Forest
unfolding comp stays_before
place by t leaf = grow t leaf
place by t (grow s f) =
    let rest = place by t f in
    if stays_before (comp by (root t) (root s)) then grow t (grow s f) else grow s rest

unfoldable pub sort_forest : Text → Forest → Forest
unfolding place
sort_forest by leaf = leaf
sort_forest by (grow t f) = place by t (sort_forest by f)

-- `sortComments`. The order looks at no children, so it is the same whether they are sorted before
-- their parents, as here, or after them.
unfoldable mutual
  unfolding sort_forest

  pub sort_tree : Text → Tree → Tree
  sort_tree by (node c f) = node c (sort_forest by (sort_children by f))

  pub sort_children : Text → Forest → Forest
  sort_children by leaf = leaf
  sort_children by (grow t f) = grow (sort_tree by t) (sort_children by f)

unfoldable pub sort_comments : Text → Forest → Forest
unfolding sort_forest sort_children
sort_comments by f = sort_forest by (sort_children by f)

-- Which of the four arrows of a comment are visible: the vote and unvote links, up and down.
pub record Arrows : Type 0 where
  pub uv : Bool
  pub uu : Bool
  pub dv : Bool
  pub du : Bool

-- The template hides the unvote links by their class.
abbrev pub template_arrows : Arrows
template_arrows = record { uv = true; uu = false; dv = true; du = false }

-- A comment on the page: what its div stores, and its arrows.
pub record Shown : Type 0 where
  pub comment : Comment
  pub arrows : Arrows

-- `show` or `hide` of the link that two letters name; others do not exist.
unfoldable pub set_arrow : ℕ → ℕ → Bool → Arrows → Arrows
set_arrow a b v r =
    if a == b'u'
    then (if b == b'v' then record r { uv = v } else if b == b'u' then record r { uu = v } else r)
    else if a == b'd'
    then (if b == b'v' then record r { dv = v } else if b == b'u' then record r { du = v } else r)
    else r

unfoldable pub is_zero : ℤ → Bool
is_zero (pos zero) = true
is_zero _ = false

unfoldable pub int_eq : ℤ → ℤ → Bool
int_eq a b = not (ltb_ℤ a b) && not (ltb_ℤ b a)

-- The arrows of `createCommentDiv`.
unfoldable pub first_arrows : ℤ → Arrows
unfolding set_arrow is_zero int_eq
first_arrows vote =
    let direction = if int_eq vote (pos 1) then b'u' else b'd' in
    if is_zero vote
    then template_arrows
    else set_arrow direction b'u' true (set_arrow direction b'v' false template_arrows)

-- The value of a click on the link with the letters `a` and `b`.
unfoldable pub vote_value : ℕ → ℕ → ℤ
vote_value a b = if b == b'u' then pos 0 else if a == b'u' then pos 1 else negsuc 0

-- `data.rating += (data.vote === 0) ? d.value : (d.value - data.vote); data.vote = d.value`
unfoldable pub rate : ℤ → Comment → Comment
unfolding is_zero
rate value c = record c {
  rating = c.rating +ℤ (if is_zero c.vote then value else value -ℤ c.vote);
  vote = value;
}

-- What `handleVote` does to the comment whose link was clicked.
unfoldable pub vote_on : ℕ → ℕ → Shown → Shown
unfolding set_arrow vote_value rate is_zero int_eq
vote_on a b s =
    let value = vote_value a b in
    let swapped =
      set_arrow a (if b == b'u' then b'v' else b'u') true (set_arrow a b false s.arrows) in
    let other = if int_eq value (pos 1) then b'd' else b'u' in
    let unpressed =
      if not (is_zero value) && int_eq s.comment.vote (pos 0 -ℤ value)
      then set_arrow other b'v' true (set_arrow other b'u' false swapped)
      else swapped in
    record { comment = rate value s.comment; arrows = unpressed }

-- `handleVote` on the page: without the right to vote it shows an error, and a link without an id is
-- no arrow. `none` is the exception for a comment that is not there.
pub data Handled : Type 0 where
  login_needed : Handled
  ignored : Handled
  voted : Text → ℤ → (Text → Option Shown) → Handled

unfoldable pub send_vote : ℕ → ℕ → Text → (Text → Option Shown) → Option Handled
unfolding vote_on vote_value
send_vote a b id page = elim (page id) [
  | none ↦ none
  | some s ↦
      some (voted id (vote_value a b) (λ i. if text_eq i id then some (vote_on a b s) else page i))
]

unfoldable pub handle_vote : Bool → Text → (Text → Option Shown) → Option Handled
unfolding send_vote
handle_vote false link page = some login_needed
handle_vote true [] page = some ignored
handle_vote true (a ∷ []) page = send_vote a 0 [] page
handle_vote true (a ∷ b ∷ id) page = send_vote a b id page
