-- ===== src/Comments/Server/Forms.antt =====
-- The form of a comment while its request runs, and after.
use pyfix.Base.{
  ◌≡◌, ◌≢◌, refl, Bool, true, false, ◌&&◌, List, [], ◌∷◌, ◌++◌, codes, text_eq, text_eq_iff,
  text_eq_refl, arith, if◌then◌else◌,
}
use pyfix.JQuery.{Target, within, set_attr, remove_attr, Call, on}
use pyfix.Comments.Options.{Options}
use pyfix.Comments.Panels.{hide_propose_change, show_error}
use pyfix.Comments.Server.{Form, add_comment, added_calls, add_failed}

-- Whether a target is the controls of a form.
abbrev is_controls : Form → Target → Bool
is_controls f (within form selector) =
    text_eq form f.form && text_eq selector (codes "textarea,input")
is_controls f _ = false

abbrev disabled_by : Form → Call → Bool → Bool
disabled_by f (on t (set_attr name v)) b =
    if is_controls f t && text_eq name (codes "disabled") then true else b
disabled_by f (on t (remove_attr name)) b =
    if is_controls f t && text_eq name (codes "disabled") then false else b
disabled_by f _ b = b

-- Whether the controls of a form are disabled after calls, if they were so or not before.
abbrev pub is_disabled : Form → List Call → Bool → Bool
is_disabled f [] b = b
is_disabled f (c ∷ cs) b = is_disabled f cs (disabled_by f c b)

is_disabled-append :
    (f : Form) (cs ds : List Call) (b : Bool)
    → is_disabled f (cs ++ ds) b ≡ is_disabled f ds (is_disabled f cs b)
is_disabled-append f [] ds b = refl
is_disabled-append f (c ∷ cs) ds b = is_disabled-append f cs ds (disabled_by f c b)

-- The controls of a form with a comment are disabled by `addComment` until the server answers, and
-- are enabled again whether the answer is a success or an error.
pub is_disabled-add_comment :
    (opts : Options) (f : Form) (was_empty : Bool)
    → f.comment ≢ []
    → (is_disabled f (add_comment opts f) false ≡ true)
      × (is_disabled f (added_calls opts f was_empty) true ≡ false)
      × (is_disabled f (add_failed f) true ≡ false)
unfolding add_comment added_calls add_failed hide_propose_change show_error
is_disabled-add_comment opts f was_empty h = (
  ground (arith, text_eq_iff f.comment [], text_eq_refl f.form),
  ground (arith, text_eq_refl f.form),
  ground (arith, text_eq_refl f.form),
)
