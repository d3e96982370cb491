-- ===== src/Comments/Links.antt =====
-- The links of doc/build/html/_static/websupport.js: which handler a click calls, the link beside each
-- paragraph, and what happens when the page is ready.
use pyfix.Doctools.{Parameters}
use pyfix.Doctools.Highlight.{Nodes}
use pyfix.Doctools.Documentation.{parameter, highlight_words}
use pyfix.SearchTools.Query.{split_spaces}
use pyfix.Base.{
  ℕ, List, [], ◌∷◌, ◌++◌, Option, none, some, Text, codes, text_eq, starts_with, drop, ltb, ◌==◌,
  if◌then◌else◌,
}
use pyfix.JQuery.{select, click, Call, on, remove_class, add_class, set_attr, remove_attr}
use pyfix.Fix.Decimal.{decimal}
use pyfix.Comments.Options.{Options, option}
use pyfix.Comments.Panels.{elem}

-- The handlers that `initEvents` binds, with the id that is handed over; votes and orders take the
-- link itself.
pub data Handler : Type 0 where
  hide_comments open_reply close_reply show_proposal hide_proposal show_propose_change
        hide_propose_change accept_comment delete_comment toggle_markup handle_vote :
      Text → Handler
  handle_resort : List Text → Handler

-- What a click on a link of the class calls, for the id and the classes of the link.
unfoldable pub on_click : Text → Text → List Text → Option Handler
on_click class id classes =
    if text_eq class (codes "comment-close")
    then some (hide_comments (drop 2 id))
    else if text_eq class (codes "vote")
    then some (handle_vote id)
    else if text_eq class (codes "reply")
    then some (open_reply (drop 2 id))
    else if text_eq class (codes "close-reply")
    then some (close_reply (drop 2 id))
    else if text_eq class (codes "sort-option")
    then some (handle_resort classes)
    else if text_eq class (codes "show-proposal")
    then some (show_proposal (drop 2 id))
    else if text_eq class (codes "hide-proposal")
    then some (hide_proposal (drop 2 id))
    else if text_eq class (codes "show-propose-change")
    then some (show_propose_change (drop 2 id))
    else if text_eq class (codes "hide-propose-change")
    then some (hide_propose_change (drop 2 id))
    else if text_eq class (codes "accept-comment")
    then some (accept_comment (drop 2 id))
    else if text_eq class (codes "delete-comment")
    then some (delete_comment (drop 2 id))
    else if text_eq class (codes "comment-markup")
    then some (toggle_markup (drop 2 id))
    else none

-- The end of `setComparator`: the link of the order in use is marked.
unfoldable pub mark_order : Text → List Call
mark_order by =
    on (select (codes "a.sel")) (set_attr (codes "href") (codes "#"))
    ∷ on (select (codes "a.sel")) (remove_class (codes "sel"))
    ∷ on (select (codes "a.by" ++ by)) (remove_attr (codes "href"))
    ∷ on (select (codes "a.by" ++ by)) (add_class (codes "sel"))
    ∷ []

-- A link that `$.fn.comment` appends, with its image.
pub record Link : Type 0 where
  pub class : Text
  pub id : Text
  pub image : Option Text
  pub alt : Text
  pub title : Text

-- `id` is that of the paragraph, and `count` its number of comments.
unfoldable pub open_link : Options → Text → ℕ → Link
unfolding decimal option
open_link opts id count =
    let name = drop 1 id in
    record {
      class = codes "sphinx-comment-open" ++ (if count == 0 then codes " nocomment" else []);
      id = codes "ao" ++ name;
      image =
          option opts.texts
            (if ltb 0 count then codes "commentBrightImage" else codes "commentImage");
      alt = codes "comment";
      title = decimal count ++ codes " comment" ++ (if count == 1 then [] else codes "s");
    }

unfoldable pub close_link : Options → Text → Link
unfolding option
close_link opts id = record {
  class = codes "sphinx-comment-close hidden";
  id = codes "ah" ++ drop 1 id;
  image = option opts.texts (codes "closeCommentImage");
  alt = codes "close";
  title = codes "close";
}

-- The page is opened at a comment: the popup is opened, and the address is that of the paragraph.
unfoldable pub open_anchor : Text → List Call × Text
open_anchor hash =
    if starts_with hash (codes "#comment-")
    then (on (elem "ao" (drop 9 hash)) click ∷ [], codes "#s" ++ drop 9 hash)
    else ([], hash)

-- The words that are highlighted in the summaries of a search.
unfoldable pub context_terms : Parameters → List Text
context_terms params = elim (parameter (codes "q") params) [
  | none ↦ []
  | some [] ↦ []
  | some (v ∷ vs) ↦ split_spaces v
]

-- What is done to one summary, by its child nodes.
unfoldable pub highlight_context : (Text → Text) → Parameters → Nodes → Nodes
highlight_context lower params kids =
    highlight_words lower (context_terms params) (codes "div") (codes "context" ∷ []) kids
