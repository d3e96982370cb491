-- ===== src/Comments/Tests.antt =====
-- Three comments sorted, inserted and voted on.
use pyfix.Base.{◌++◌, [], ◌∷◌, ◌+◌, ◌≡◌, refl, Bool, true, false, none, some, Text, codes, text_eq}
use pyfix.Base.Int.{ℤ, pos, negsuc, ◌+ℤ◌, ◌-ℤ◌}
use pyfix.Comments.{
  Comment, number_of, field_of, node, Forest, leaf, grow, sort_comments, Shown, first_arrows,
  vote_on, handle_vote, login_needed,
}
use pyfix.Comments.Order.{insert_comment}
use pyfix.Comments.Order.{HasKey, IsSorted, insert_comment-IsSorted}
use pyfix.Comments.Cookie.{
  cookie_name, default_order, init_comparator, chosen_order, write_order,
  init_comparator-write_order, init_comparator-followed,
}
use pyfix.Comments.Deep.{
  AreDeep, count, sort_comments-AreDeep, count-sort_comments, count-insert_comment,
}
use pyfix.Comments.Votes.{IsConsistent, not_yet, Clicks, no_click, click, Clicks-IsConsistent}

abbrev rated : Text → ℤ → ℤ → Comment
rated id rating age = record {
  id = id;
  rating = rating;
  age = age;
  vote = pos 0;
  others = λ n. none;
  displayed = true;
  username = codes "anna";
  text = codes "fine";
  proposal_diff = [];
  time_delta = codes "now";
}

abbrev low : Comment
low = rated (codes "1") (negsuc 1) (pos 30)

abbrev middle : Comment
middle = rated (codes "2") (pos 4) (pos 20)

abbrev high : Comment
high = rated (codes "3") (pos 9) (pos 10)

abbrev thread : Forest
thread =
    grow (node low (grow (node middle leaf) (grow (node high leaf) leaf)))
      (grow (node high leaf) leaf)

abbrev sorted_thread : Forest
sorted_thread =
    grow (node high leaf)
      (grow (node low (grow (node high leaf) (grow (node middle leaf) leaf))) leaf)

sort_comments_runs :
    (sort_comments (codes "rating") thread ≡ sorted_thread)
    × (sort_comments (codes "ascage") thread ≡ sorted_thread)
    × (insert_comment (codes "rating") middle sorted_thread
        ≡ grow (node high leaf) (
            grow
              (node middle leaf)
              (grow (node low (grow (node high leaf) (grow (node middle leaf) leaf))) leaf)))
unfolding sort_comments insert_comment ◌-ℤ◌
sort_comments_runs = (refl, refl, refl)

HasKey-rating : HasKey (codes "rating") (λ c. c.rating)
unfolding number_of field_of
HasKey-rating c = refl

sort_comments-AreDeep_example :
    IsSorted (codes "rating") (λ c. c.rating) (sort_comments (codes "rating") thread)
    × AreDeep (codes "rating") (λ c. c.rating) (sort_comments (codes "rating") thread)
sort_comments-AreDeep_example =
    sort_comments-AreDeep (codes "rating") (λ c. c.rating) HasKey-rating thread

insert_comment-IsSorted_runs :
    IsSorted (codes "rating") (λ c. c.rating) (insert_comment (codes "rating") middle leaf)
insert_comment-IsSorted_runs =
    insert_comment-IsSorted (codes "rating") (λ c. c.rating) HasKey-rating middle leaf tt

abbrev is_high : Comment → Bool
is_high c = text_eq c.id (codes "3")

count-sort_comments_runs :
    count is_high (sort_comments (codes "rating") thread) ≡ count is_high thread
count-sort_comments_runs = count-sort_comments is_high (codes "rating") thread

count-insert_comment_runs :
    count is_high (insert_comment (codes "rating") high thread) ≡ 1 + count is_high thread
count-insert_comment_runs = count-insert_comment is_high (codes "rating") high thread

abbrev fresh : Shown
fresh = record { comment = middle; arrows = first_arrows (pos 0) }

abbrev voted_down : Shown
voted_down = vote_on b'd' b'v' (vote_on b'u' b'v' fresh)

vote_on_runs :
    (voted_down.comment.rating ≡ pos 3)
    × (voted_down.comment.vote ≡ negsuc 0)
    × (voted_down.arrows ≡ record { uv = true; uu = false; dv = false; du = true })
    × (handle_vote false (codes "uv2") (λ i. none) ≡ some login_needed)
    × (handle_vote true (codes "uv2") (λ i. none) ≡ none)
unfolding vote_on handle_vote first_arrows ◌+ℤ◌ ◌-ℤ◌
vote_on_runs = (refl, refl, refl, refl, refl)

clicks : Clicks fresh voted_down
unfolding vote_on first_arrows ◌-ℤ◌
clicks =
    click {s = fresh} b'u' b'v' refl
      (click {s = vote_on b'u' b'v' fresh} b'd' b'v' refl (no_click {s = voted_down}))

Clicks-IsConsistent_example :
    IsConsistent voted_down
    × (voted_down.comment.rating -ℤ voted_down.comment.vote ≡ middle.rating -ℤ middle.vote)
Clicks-IsConsistent_example = Clicks-IsConsistent fresh voted_down (not_yet, refl, refl) clicks

init_comparator_runs :
    (init_comparator (λ t. t) [] ≡ codes "rating")
    × (init_comparator (λ t. t) (codes "theme=dark; sortBy=age") ≡ codes "age")
    × (init_comparator (λ t. t) (codes "sortBy=age; theme=dark") ≡ codes "rating")
    × (chosen_order (codes "rating") (codes "sort-option" ∷ codes "byascage" ∷ []) ≡ codes "ascage")
    -- The link of the order in use has one more class.
    × (chosen_order (codes "age") (codes "sort-option" ∷ codes "byage" ∷ codes "sel" ∷ [])
        ≡ codes "l")
unfolding init_comparator chosen_order
init_comparator_runs = (refl, refl, refl, refl, refl)

init_comparator-write_order_example :
    init_comparator (λ t. t) (write_order (λ t. t) (codes "age")) ≡ codes "age"
init_comparator-write_order_example =
    init_comparator-write_order (λ t. t) (λ t. t) (codes "age") refl refl

init_comparator-followed_example :
    init_comparator (λ t. t) (cookie_name ++ codes "age" ++ b';' ∷ codes " theme=dark")
    ≡ default_order
init_comparator-followed_example =
    init_comparator-followed (λ t. t) (codes "age") (codes " theme=dark")
