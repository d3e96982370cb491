-- ===== src/Comments/Panels.antt =====
-- The panels around a comment in doc/build/html/_static/websupport.js: the popup of the comments, the
-- proposals and the reply form.
pub mod Toggles
mod Tests
use pyfix.Base.{
  ℕ, ◌+◌, ◌-◌, ◌*◌, ◌/◌, Bool, true, false, List, [], ◌∷◌, ◌++◌, map, Option, none, some, String,
  Text, codes, length, ◌==◌, if◌then◌else◌,
}
use pyfix.Doctools.{split}
use pyfix.JQuery.{
  Target, by_id, select, within, created, Action, show, hide, toggle, slide_up, slide_down, fade_in,
  fade_out, remove, focus, set_text, set_val, prepend, after, remove_attr, add_class, listen,
  set_attr, set_css, append, Call, on,
}
use pyfix.Fix.Decimal.{decimal}
use pyfix.Comments.Template.{Value, missing, written, object, render_template}
use pyfix.Comments.Options.{Options, popup_context}
use pyfix.Comments.Template.Texts.{popup_template, reply_template}

-- The element whose id is a prefix and the id of a comment.
abbrev pub elem : String → Text → Target
elem prefix id = by_id (codes prefix ++ id)

-- `$.fn.autogrow.resize`: the lines that a text takes in columns, with one more. A text area has at
-- least one column.
unfoldable pub lines_of : ℕ → Text → ℕ
lines_of columns line = let n = (length line + columns - 1) / columns in if n == 0 then 1 else n

unfoldable pub line_count : ℕ → List Text → ℕ
unfolding lines_of
line_count columns [] = 0
line_count columns (l ∷ ls) = lines_of columns l + line_count columns ls

unfoldable pub grown_height : ℕ → ℕ → Text → ℕ
unfolding line_count split
grown_height line_height columns value = line_height * (line_count columns (split 10 value) + 1)

unfoldable pub resize : ℕ → ℕ → Target → Text → List Call
unfolding grown_height decimal
resize line_height columns area value =
    on area (set_css (codes "height") (decimal (grown_height line_height columns value))) ∷ []

unfoldable pub show_proposal : Text → List Call
show_proposal id =
    on (elem "sp" id) hide ∷ on (elem "hp" id) show ∷ on (elem "pr" id) slide_down ∷ []

unfoldable pub hide_proposal : Text → List Call
hide_proposal id = on (elem "hp" id) hide ∷ on (elem "sp" id) show ∷ on (elem "pr" id) slide_up ∷ []

-- `source` is what `getComments` stored at the text area.
unfoldable pub show_propose_change : ℕ → ℕ → Text → Text → List Call
unfolding resize
show_propose_change line_height columns source id =
    on (elem "pc" id) hide
      ∷ on (elem "hc" id) show
      ∷ on (elem "pt" id) (set_val source)
      ∷ resize line_height columns (elem "pt" id) source
    ++ on (elem "pt" id) slide_down ∷ []

unfoldable pub hide_propose_change : Text → List Call
hide_propose_change id =
    on (elem "hc" id) hide
    ∷ on (elem "pc" id) show
    ∷ on (elem "pt" id) (set_val [])
    ∷ on (elem "pt" id) (remove_attr (codes "disabled"))
    ∷ on (elem "pt" id) slide_up
    ∷ []

unfoldable pub toggle_comment_markup_box : Text → List Call
toggle_comment_markup_box id = on (elem "mb" id) toggle ∷ []

-- The two parts of `openReply` around the insertion of the form, and `closeReply`.
unfoldable pub open_reply : (Text → Text) → Text → Option (List Call)
unfolding render_template
open_reply escape id =
    let context = object (λ name. written id) in
    elim (render_template escape reply_template context) [
      | none ↦ none
      | some form ↦ some (
          on (elem "rl" id) hide
          ∷ on (elem "cr" id) show
          ∷ on (created (codes "li")) hide
          ∷ on (elem "cl" id) (prepend form)
          ∷ on (elem "rf" id) (listen (codes "submit"))
          ∷ on (within (codes "rf" ++ id) (codes "input[type=button]")) (listen (codes "click"))
          ∷ on (created (codes "li")) slide_down
          ∷ on (within (codes "rf" ++ id) (codes "textarea")) focus
          ∷ [])
    ]

unfoldable pub close_reply : Text → List Call
close_reply id =
    on (elem "rd" id) slide_up
    ∷ on (elem "rd" id) remove
    ∷ on (elem "cr" id) hide
    ∷ on (elem "rl" id) show
    ∷ []

unfoldable pub show_error : Text → List Call
show_error message =
    on (created (codes "div.error-message")) (set_text message)
    ∷ on (select (codes "body")) (append (codes "div.popup-error"))
    ∷ on (created (codes "div.popup-error")) fade_in
    ∷ on (created (codes "div.popup-error")) fade_out
    ∷ []

-- `show`, up to the request for the comments; `by` is the order in use.
unfoldable pub show_comments : (Text → Text) → Options → Text → Text → Option (List Call)
unfolding render_template popup_context
show_comments escape opts by id =
    elim (render_template escape popup_template (object (popup_context opts id))) [
      | none ↦ none
      | some popup ↦ some (
          on (elem "ao" id) hide
          ∷ on (elem "ah" id) show
          ∷ on (created (codes "div.sphinx-comments")) hide
          ∷ on (created (codes "textarea[name=\"proposal\"]")) hide
          ∷ on (created (codes "a.by" ++ by)) (add_class (codes "sel"))
          ∷ on (created (codes "#cf" ++ id)) (listen (codes "submit"))
          ∷ on (elem "s" id) (after popup)
          ∷ on (created (codes "div.sphinx-comments")) slide_down
          ∷ [])
    ]

-- `hide`
unfoldable pub hide_comments : Text → List Call
hide_comments id =
    on (elem "ah" id) hide
    ∷ on (elem "ao" id) show
    ∷ on (elem "sc" id) slide_up
    ∷ on (elem "sc" id) remove
    ∷ []
