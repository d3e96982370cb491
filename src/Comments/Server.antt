-- ===== src/Comments/Server.antt =====
-- The requests of doc/build/html/_static/websupport.js, and what their answers do.
pub mod Forms
pub mod Deleted
mod Tests
use pyfix.Base.{
  Bool, true, false, not, ◌||◌, List, [], ◌∷◌, ◌++◌, Option, none, some, Text, codes, text_eq,
  if◌then◌else◌,
}
use pyfix.Base.Int.{ℤ}
use pyfix.JQuery.{
  Target, by_id, select, within, show, slide_up, slide_down, fade_out, remove, empty, set_text,
  set_html, set_val, remove_attr, remove_class, set_data, set_attr, Request, Call, on, send,
}
use pyfix.Comments.{Comment, Forest, leaf, grow, sort_comments}
use pyfix.Comments.Options.{Options, option}
use pyfix.Comments.Div.{pretty_rating, shown_int}
use pyfix.Comments.Listing.{Item, notice, entry, Items, end, item, append_comments, insert_item}
use pyfix.Comments.Panels.{elem, hide_propose_change, show_error}

-- `opts[name]`, where it is an address.
abbrev url_of : Options → Text → Text
url_of opts name = elim (option opts.texts name) [ none ↦ codes "undefined" | some url ↦ url ]

unfoldable pub post_id : Options → Text → Text → Call
unfolding option
post_id opts name id =
    send (record { post = true; url = url_of opts name; body = (codes "id", id) ∷ [] })

-- A list of comments: what it holds, and whether it holds only the note that there are none.
pub record Area : Type 0 where
  pub is_empty : Bool
  pub items : Items

-- `getComments`: the request, and its answer.
unfoldable pub get_comments : Options → Text → List Call
unfolding option
get_comments opts id =
    send (record {
      post = false;
      url = url_of opts (codes "getCommentsURL");
      body = (codes "node", id) ∷ [];
    })
    ∷ []

unfoldable pub comments_area : Options → Text → Forest → Area → Area
unfolding append_comments sort_comments
comments_area opts by leaf ul = record { is_empty = true; items = end }
comments_area opts by (grow t f) ul = record {
  is_empty = false;
  items = append_comments opts (sort_comments by (grow t f)) ul.items;
}

abbrev note_calls : Text → Forest → List Call
note_calls id leaf = on (elem "cl" id) (set_html (codes "<li>No comments yet.</li>")) ∷ []
note_calls id (grow t f) = []

unfoldable pub comments_calls : Text → Text → Forest → List Call
comments_calls id source comments =
    on (within (codes "cf" ++ id) (codes "textarea[name=\"proposal\"]")) (set_data source)
      ∷ note_calls id comments
    ++ on (elem "cn" id) slide_up ∷ on (elem "cl" id) slide_down ∷ []

unfoldable pub comments_failed : List Call
unfolding show_error
comments_failed = show_error (codes "Oops, there was a problem retrieving the comments.")

-- The values of a comment form.
pub record Form : Type 0 where
  pub form : Text
  pub node : Text
  pub parent : Text
  pub comment : Text
  pub proposal : Text

abbrev pub controls : Form → Target
controls f = within f.form (codes "textarea,input")

-- `addComment`, up to the request.
unfoldable pub add_comment : Options → Form → List Call
unfolding show_error option
add_comment opts f =
    if text_eq f.comment []
    then show_error (codes "Please enter a comment.")
    else on (controls f) (set_attr (codes "disabled") (codes "disabled"))
      ∷ send (record {
        post = true;
        url = url_of opts (codes "addCommentURL");
        body =
            (codes "node", f.node)
            ∷ (codes "parent", f.parent)
            ∷ (codes "text", f.comment)
            ∷ (codes "proposal", f.proposal)
            ∷ [];
      })
      ∷ []

-- `node_id || parent_id`
unfoldable pub list_id : Form → Text
list_id f = if text_eq f.node [] then f.parent else f.node

-- The answer to it: first the page, then the list of comments.
unfoldable pub added_calls : Options → Form → Bool → List Call
unfolding hide_propose_change list_id option
added_calls opts f was_empty =
    (if text_eq f.node [] then [] else hide_propose_change f.node)
    ++ on (within f.form (codes "textarea")) (set_val [])
      ∷ on (controls f) (remove_attr (codes "disabled"))
      ∷ (if was_empty then on (elem "cl" (list_id f)) empty ∷ [] else [])
    ++ on (within (codes "ao" ++ f.node) (codes "img"))
        (set_attr (codes "src") (url_of opts (codes "commentBrightImage")))
      ∷ (if text_eq f.node [] then [] else on (elem "ca" f.node) slide_up ∷ [])

unfoldable pub added_area : Options → Text → Comment → Area → Area
unfolding insert_item
added_area opts by c ul = record {
  is_empty = false;
  items = insert_item opts by c (if ul.is_empty then end else ul.items);
}

unfoldable pub add_failed : Form → List Call
unfolding show_error
add_failed f =
    on (controls f) (remove_attr (codes "disabled"))
    ∷ show_error (codes "Oops, there was a problem adding the comment.")

-- `acceptComment`
unfoldable pub accept_comment : Options → Text → List Call
unfolding post_id
accept_comment opts id = post_id opts (codes "acceptCommentURL") id ∷ []

unfoldable pub accepted_calls : Text → List Call
accepted_calls id =
    on (elem "cm" id) fade_out ∷ on (elem "cd" id) (remove_class (codes "moderate")) ∷ []

unfoldable pub accept_failed : List Call
unfolding show_error
accept_failed = show_error (codes "Oops, there was a problem accepting the comment.")

-- `deleteComment`: a moderator's deletion takes the div with the children away, another one leaves
-- a marked comment.
unfoldable pub delete_comment : Options → Text → List Call
unfolding post_id
delete_comment opts id = post_id opts (codes "deleteCommentURL") id ∷ []

unfoldable pub deleted : Comment → Comment
deleted c = record c { username = codes "[deleted]"; text = codes "[deleted]" }

unfoldable pub mark_deleted : Text → Items → Items
unfolding deleted
mark_deleted id end = end
mark_deleted id (item (notice c) xs) = item (notice c) (mark_deleted id xs)
mark_deleted id (item (entry c children) xs) =
    item (entry (if text_eq c.id id then deleted c else c) (mark_deleted id children))
      (mark_deleted id xs)

unfoldable pub remove_entry : Text → Items → Items
remove_entry id end = end
remove_entry id (item (notice c) xs) = item (notice c) (remove_entry id xs)
remove_entry id (item (entry c children) xs) =
    let kept = item (entry c (remove_entry id children)) (remove_entry id xs) in
    let rest = remove_entry id xs in if text_eq c.id id then rest else kept

unfoldable pub deleted_items : Text → Text → Items → Items
unfolding remove_entry mark_deleted
deleted_items answer id ul =
    if text_eq answer (codes "delete") then remove_entry id ul else mark_deleted id ul

unfoldable pub deleted_calls : Text → Text → List Call
deleted_calls answer id =
    if text_eq answer (codes "delete")
    then on (elem "cd" id) slide_up ∷ on (elem "cd" id) remove ∷ []
    else on (within (codes "cd" ++ id) (codes "span.user-id:first")) (set_text (codes "[deleted]"))
      ∷ on (within (codes "cd" ++ id) (codes "div.comment-text:first"))
          (set_text (codes "[deleted]"))
      ∷ on (elem "cm" id) remove
      ∷ on (elem "dc" id) remove
      ∷ on (elem "ac" id) remove
      ∷ on (elem "rc" id) remove
      ∷ on (elem "sp" id) remove
      ∷ on (elem "hp" id) remove
      ∷ on (elem "cr" id) remove
      ∷ on (elem "rl" id) remove
      ∷ []

unfoldable pub delete_failed : List Call
unfolding show_error
delete_failed = show_error (codes "Oops, there was a problem deleting the comment.")

-- The end of `handleVote`: the rating is shown, and the vote is sent.
unfoldable pub vote_calls : Options → Text → ℤ → ℤ → List Call
unfolding pretty_rating shown_int option
vote_calls opts id value rating =
    on (within (codes "cd" ++ id) (codes ".rating:first")) (set_text (pretty_rating rating))
    ∷ send (record {
      post = true;
      url = url_of opts (codes "processVoteURL");
      body = (codes "comment_id", id) ∷ (codes "value", shown_int value) ∷ [];
    })
    ∷ []

unfoldable pub vote_failed : List Call
unfolding show_error
vote_failed = show_error (codes "Oops, there was a problem casting that vote.")
