-- ===== src/Comments/Div.antt =====
-- `createCommentDiv` of doc/build/html/_static/websupport.js.
use pyfix.Base.{
  suc, Bool, false, not, ◌&&◌, ◌||◌, List, [], ◌∷◌, ◌++◌, Option, none, some, Text, codes, text_eq,
  if◌then◌else◌,
}
use pyfix.Base.Int.{ℤ, pos, negsuc}
use pyfix.JQuery.{created, show, hide, Call, on}
use pyfix.Fix.Decimal.{decimal}
use pyfix.Comments.{Comment, is_zero, int_eq}
use pyfix.Comments.Options.{Options, option_value}
use pyfix.Comments.Template.{Value, missing, written, object, render_template}
use pyfix.Comments.Template.Texts.{comment_template}

unfoldable pub shown_int : ℤ → Text
unfolding decimal
shown_int (pos n) = decimal n
shown_int (negsuc n) = b'-' ∷ decimal (suc n)

-- `comment.rating + ' point' + (comment.rating == 1 ? '' : 's')`
unfoldable pub pretty_rating : ℤ → Text
unfolding shown_int int_eq
pretty_rating rating =
    shown_int rating ++ codes " point" ++ (if int_eq rating (pos 1) then [] else codes "s")

unfoldable pub css_class : Bool → Text
css_class displayed = if displayed then [] else codes " moderate"

-- `$.extend({}, opts, comment)`, for the names that the template uses.
unfoldable pub comment_context : Options → Comment → Text → Value
unfolding pretty_rating css_class option_value
comment_context opts c name =
    if text_eq name (codes "id")
    then written c.id
    else if text_eq name (codes "username")
    then written c.username
    else if text_eq name (codes "text")
    then written c.text
    else if text_eq name (codes "proposal_diff")
    then written c.proposal_diff
    else if text_eq name (codes "pretty_rating")
    then written (pretty_rating c.rating)
    else if text_eq name (codes "css_class")
    then written (css_class c.displayed)
    else if text_eq name (codes "time")
    then object (λ n. if text_eq n (codes "delta") then written c.time_delta else missing)
    else option_value opts name

-- Whether a comment gets a div of its own.
unfoldable pub is_listed : Options → Comment → Bool
is_listed opts c = c.displayed || opts.moderator

unfoldable pub is_own : Options → Comment → Bool
is_own opts c = elim opts.username [ none ↦ false | some name ↦ text_eq name c.username ]

abbrev shown_part : Text → Call
shown_part selector = on (created selector) show

abbrev when : Bool → Call → List Call
when b c = if b then c ∷ [] else []

-- What is shown and hidden in a new div.
unfoldable pub arrow_calls : Comment → List Call
unfolding is_zero int_eq
arrow_calls c =
    let direction = if int_eq c.vote (pos 1) then codes "#u" else codes "#d" in
    if is_zero c.vote
    then []
    else on (created (direction ++ b'v' ∷ c.id)) hide ∷ shown_part (direction ++ b'u' ∷ c.id) ∷ []

unfoldable pub part_calls : Options → Comment → List Call
unfolding is_own
part_calls opts c =
    if opts.moderator || not (text_eq c.text (codes "[deleted]"))
    then shown_part (codes "a.reply")
        ∷ when (not (text_eq c.proposal_diff [])) (shown_part (codes "#sp" ++ c.id))
      ++ when (opts.moderator && not c.displayed) (shown_part (codes "#cm" ++ c.id))
      ++ when (opts.moderator || is_own opts c) (shown_part (codes "#dc" ++ c.id))
    else []

-- The HTML of the div, and the calls on it. A comment that waits for a moderator is a notice.
unfoldable pub create_comment_div : (Text → Text) → Options → Comment → Option (Text × List Call)
unfolding is_listed comment_context arrow_calls part_calls render_template
create_comment_div escape opts c =
    if is_listed opts c
    then (elim (render_template escape comment_template (object (comment_context opts c))) [
      | none ↦ none
      | some html ↦ some (html, arrow_calls c ++ part_calls opts c)
    ])
    else some (
      codes "<div class=\"moderate\">Thank you!  Your comment will show up "
          ++ codes "once it is has been approved by a moderator.</div>",
      [],
    )
