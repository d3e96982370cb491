-- ===== src/JQuery.antt =====
-- What the scripts of doc/build/html/_static ask of the page through jQuery, a copy of another
-- project's library. A handler is the list of its calls, in their order; what a call does is a
-- parameter, `JQuery`, with the documented behaviour of the calls that show and hide. An animation is
-- its end, and what it calls at its end comes after it.
use pyfix.Base.{
  Bool, true, false, not, ◌||◌, codes, All, List, [], ◌∷◌, Text, text_eq, ◌≡◌, ◌∙◌, ap, refl,
  if◌then◌else◌,
}

-- The elements that a call is made on: the one with an id, those of a selector, those of a selector
-- below the element with an id, and those of a selector in what the handler has just created.
pub data Target : Type 0 where
  by_id : Text → Target
  select : Text → Target
  within : Text → Text → Target
  created : Text → Target

pub data Action : Type 0 where
  show hide toggle slide_up slide_down fade_in fade_out remove empty focus click : Action
  set_text set_html set_val append prepend before after remove_attr add_class remove_class set_data
        listen :
      Text → Action
  set_attr set_css : Text → Text → Action

-- A request to the server, with its address and its data.
pub record Request : Type 0 where
  pub post : Bool
  pub url : Text
  pub body : List (Text × Text)

pub data Call : Type 0 where
  on : Target → Action → Call
  send : Request → Call
  set_cookie : Text → Call

-- Whether an element is shown after a call, if it was `b` before.
abbrev pub shown_after : Action → Bool → Bool
shown_after show b = true
shown_after slide_down b = true
shown_after fade_in b = true
shown_after hide b = false
shown_after slide_up b = false
shown_after fade_out b = false
shown_after toggle b = not b
shown_after _ b = b

-- The actions that change at most whether their own element is shown, and as `shown_after` says.
abbrev pub is_plain : Action → Bool
is_plain show = true
is_plain slide_down = true
is_plain fade_in = true
is_plain hide = true
is_plain slide_up = true
is_plain fade_out = true
is_plain toggle = true
is_plain focus = true
is_plain (set_val v) = true
is_plain (set_data v) = true
is_plain (listen event) = true
is_plain (remove_attr name) = text_eq name (codes "disabled")
is_plain (set_css name v) =
    text_eq name (codes "height")
    || text_eq name (codes "width")
    || text_eq name (codes "margin-left")
is_plain _ = false

pub record JQuery : Type 1 where
  pub Page : Type 0
  pub perform : Call → Page → Page
  -- Whether the element with an id is shown.
  pub is_shown : Page → Text → Bool
  pub shown_lem :
      (a : Action) (id : Text) (p : Page) (other : Text)
      → is_plain a ≡ true
      → is_shown (perform (on (by_id id) a) p) other
        ≡ (if text_eq other id then shown_after a (is_shown p other) else is_shown p other)

module _ (j : JQuery) where
  unfoldable pub perform_all : List Call → j.Page → j.Page
  perform_all [] p = p
  perform_all (c ∷ cs) p = perform_all cs (j.perform c p)

-- A model of the parameter: the ids that are shown.
abbrev pub shown_on : Call → (Text → Bool) → Text → Bool
shown_on (on (by_id id) a) f other = if text_eq other id then shown_after a (f other) else f other
shown_on _ f other = f other

abbrev pub ids : JQuery
ids = record {
  Page = Text → Bool;
  perform = shown_on;
  is_shown = λ p id. p id;
  shown_lem = λ a id p other h. refl;
}

-- What is shown after plain calls.
unfoldable pub shown_by : List Call → (Text → Bool) → Text → Bool
shown_by [] f = f
shown_by (c ∷ cs) f = shown_by cs (shown_on c f)

abbrev pub IsPlain : Call → Type 0
IsPlain (on (by_id id) a) = is_plain a ≡ true
IsPlain _ = ⊥

module _ (j : JQuery) where
  perform-shown_on :
      (c : Call) (p : j.Page) (f : Text → Bool)
      → IsPlain c
      → ((x : Text) → j.is_shown p x ≡ f x)
      → (x : Text) → j.is_shown (j.perform c p) x ≡ shown_on c f x
  perform-shown_on (on (by_id id) a) p f h same x =
      j.shown_lem a id p x h ∙ ap (λ b. if text_eq x id then shown_after a b else b) (same x)
  perform-shown_on (on (select s) a) p f h same x = absurd h
  perform-shown_on (on (within s t) a) p f h same x = absurd h
  perform-shown_on (on (created s) a) p f h same x = absurd h
  perform-shown_on (send r) p f h same x = absurd h
  perform-shown_on (set_cookie s) p f h same x = absurd h

  -- Plain calls do on every page what they do on the ids that are shown.
  pub is_shown-perform_all :
      (cs : List Call) (p : j.Page) (f : Text → Bool)
      → All IsPlain cs
      → ((x : Text) → j.is_shown p x ≡ f x)
      → (x : Text) → j.is_shown (perform_all j cs p) x ≡ shown_by cs f x
  unfolding perform_all shown_by
  is_shown-perform_all [] p f h same x = same x
  is_shown-perform_all (c ∷ cs) p f (h, hs) same x =
      is_shown-perform_all cs (j.perform c p) (shown_on c f) hs (perform-shown_on c p f h same) x
