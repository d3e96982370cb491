-- ===== src/Comments/Server/Deleted.antt =====
-- What a deletion leaves of the comments on the page.
use pyfix.Base.{
  ◌≡◌, refl, Bool, true, not, ◌&&◌, Text, codes, text_eq, arith, ◌≢◌, ◌⊎◌, inl, inr, Bool-cases,
  text_eq_iff,
}
use pyfix.Comments.{Comment}
use pyfix.Comments.Deep.{count}
use pyfix.Comments.Listing.{notice, entry, Items, end, item, get_children}
use pyfix.Comments.Server.{deleted, mark_deleted, remove_entry, deleted_items}

-- The comment with the id, and those that show no text but the mark.
abbrev pub has_id : Text → Comment → Bool
has_id id c = text_eq c.id id

abbrev pub is_other : Text → (Comment → Bool) → Comment → Bool
is_other id p c = not (text_eq c.id id) && p c

abbrev pub is_unmarked : Text → Comment → Bool
is_unmarked id c = text_eq c.id id && not (text_eq c.text (codes "[deleted]"))

-- Marking.
count_mark :
    (p : Comment → Bool) (id : Text) (ul : Items)
    → ((c : Comment) → text_eq c.id id ≡ true → p (deleted c) ≡ p c)
    → count p (get_children (mark_deleted id ul)) ≡ count p (get_children ul)
unfolding mark_deleted get_children count
count_mark p id end same = refl
count_mark p id (item (notice c) xs) same = count_mark p id xs same
count_mark p id (item (entry c children) xs) same =
    ground (arith, count_mark p id xs same, count_mark p id children same, same c)

count_unmarked :
    (id : Text) (ul : Items) → count (is_unmarked id) (get_children (mark_deleted id ul)) ≡ 0
unfolding mark_deleted get_children count deleted
count_unmarked id end = refl
count_unmarked id (item (notice c) xs) = count_unmarked id xs
count_unmarked id (item (entry c children) xs) =
    ground (arith, count_unmarked id xs, count_unmarked id children)

count_removed : (id : Text) (ul : Items) → count (has_id id) (get_children (remove_entry id ul)) ≡ 0
unfolding remove_entry get_children count
count_removed id end = refl
count_removed id (item (notice c) xs) = count_removed id xs
count_removed id (item (entry c children) xs) =
    ground (arith, count_removed id xs, count_removed id children)

-- A deletion that is answered by "delete" leaves no comment with the id. Any other answer leaves as
-- many comments with it as before, and as many of all others with any property, and none with the
-- id that shows a text but "[deleted]".
pub deleted_items_lem :
    (answer id : Text) (p : Comment → Bool) (ul : Items)
    → ((answer ≡ codes "delete")
        × (count (has_id id) (get_children (deleted_items answer id ul)) ≡ 0))
      ⊎ ((answer ≢ codes "delete")
          × (count (has_id id) (get_children (deleted_items answer id ul))
              ≡ count (has_id id) (get_children ul))
          × (count (is_other id p) (get_children (deleted_items answer id ul))
              ≡ count (is_other id p) (get_children ul))
          × (count (is_unmarked id) (get_children (deleted_items answer id ul)) ≡ 0))
unfolding deleted_items deleted
deleted_items_lem answer id p ul = elim (Bool-cases (text_eq answer (codes "delete"))) [
  | inl e ↦ inl ((text_eq_iff answer (codes "delete")).0 e, rw e (count_removed id ul))
  | inr e ↦ inr (
    λ same. absurd (cc ((text_eq_iff answer (codes "delete")).1 same, e)),
    rw e (count_mark (has_id id) id ul (λ c h. refl)),
    rw e (count_mark (is_other id p) id ul (λ c h. rw h refl)),
    rw e (count_unmarked id ul),
  )
]
