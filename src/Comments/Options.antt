-- ===== src/Comments/Options.antt =====
-- The options of doc/build/html/_static/websupport.js, and the contexts that the templates are filled
-- with.
use pyfix.Base.{
  Bool, false, List, [], ◌∷◌, ◌++◌, Option, none, some, Text, codes, text_eq, if◌then◌else◌,
}
use pyfix.Comments.Template.{Value, missing, written}

-- `opts`: the texts by their names, and the options that are tested.
pub record Options : Type 0 where
  pub texts : List (Text × Text)
  pub voting : Bool
  pub moderator : Bool
  pub username : Option Text

unfoldable pub default_options : Options
default_options = record {
  texts =
      (codes "processVoteURL", codes "/_process_vote")
      ∷ (codes "addCommentURL", codes "/_add_comment")
      ∷ (codes "getCommentsURL", codes "/_get_comments")
      ∷ (codes "acceptCommentURL", codes "/_accept_comment")
      ∷ (codes "deleteCommentURL", codes "/_delete_comment")
      ∷ (codes "commentImage", codes "/static/_static/comment.png")
      ∷ (codes "closeCommentImage", codes "/static/_static/comment-close.png")
      ∷ (codes "loadingImage", codes "/static/_static/ajax-loader.gif")
      ∷ (codes "commentBrightImage", codes "/static/_static/comment-bright.png")
      ∷ (codes "upArrow", codes "/static/_static/up.png")
      ∷ (codes "downArrow", codes "/static/_static/down.png")
      ∷ (codes "upArrowPressed", codes "/static/_static/up-pressed.png")
      ∷ (codes "downArrowPressed", codes "/static/_static/down-pressed.png")
      ∷ [];
  voting = false;
  moderator = false;
  username = none;
}

-- `jQuery.extend(opts, COMMENT_OPTIONS)`: what is given goes first.
unfoldable pub extend : Options → Options → Options
extend opts given = record given { texts = given.texts ++ opts.texts }

unfoldable pub option : List (Text × Text) → Text → Option Text
option [] name = none
option ((k, v) ∷ texts) name = if text_eq k name then some v else option texts name

-- `opts[name]`, as a template reads it.
unfoldable pub option_value : Options → Text → Value
unfolding option
option_value opts name = elim (option opts.texts name) [ none ↦ missing | some v ↦ written v ]

-- `$.extend({id: id}, opts)`
unfoldable pub popup_context : Options → Text → Text → Value
unfolding option
popup_context opts id name = elim (option opts.texts name) [
  | none ↦ if text_eq name (codes "id") then written id else missing
  | some v ↦ written v
]
