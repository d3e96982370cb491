-- ===== src/Sidebar.antt =====
-- The collapsible side bar of doc/build/html/_static/sidebar.js, and the cookie that keeps its
-- position. `_` is taken as it is without translations.
pub mod Clicks
pub mod Position
mod Tests
use pyfix.Base.{
  ℕ, ◌+◌, ◌-◌, ◌==◌, Bool, true, false, not, ◌&&◌, List, [], ◌∷◌, ◌++◌, map, Option, none, some,
  Text, codes, text_eq, if◌then◌else◌,
}
use pyfix.Base.Int.{ℤ, pos, sub_ℕ}
use pyfix.Doctools.{split}

-- What the script measures of a page: the margin and the width with the side bar expanded, and the
-- height of the text.
pub record Measures : Type 0 where
  pub bw_margin_expanded : Text
  pub ssb_width_expanded : ℕ
  pub height : ℕ
  pub dark_color : Text
  -- The colour that a new button has.
  pub button_color : Text
  pub inner_height : ℕ
  pub window_height : ℕ
  pub sidebar_top : ℕ

-- A width or a margin: a text, or a number of pixels.
pub data Length : Type 0 where
  em : Text → Length
  px : ℤ → Length

abbrev pub bw_margin_collapsed : Text
bw_margin_collapsed = codes ".8em"

abbrev pub ssb_width_collapsed : Text
ssb_width_collapsed = codes ".8em"

-- The cookies of the browser, in the order in which they were first set.
abbrev pub Jar : Type 0
Jar = List (Text × Text)

-- `document.cookie = name + '=' + value`
abbrev pub put_cookie : Text → Text → Jar → Jar
put_cookie name value [] = (name, value) ∷ []
put_cookie name value ((k, v) ∷ jar) =
    let rest = put_cookie name value jar in
    if text_eq k name then (k, value) ∷ jar else (k, v) ∷ rest

abbrev pub pair_text : Text × Text → Text
pair_text p = p.0 ++ b'=' ∷ p.1

-- `document.cookie`, as it is read.
abbrev pub jar_text : Jar → Text
jar_text [] = []
jar_text (p ∷ []) = pair_text p
jar_text (p ∷ q ∷ jar) = pair_text p ++ b';' ∷ b' ' ∷ jar_text (q ∷ jar)

-- What `add_sidebar_button` sets once: the width of the wrapper, twice the margin that centres the
-- sign of the button, and fixed properties by their names.
pub record Style : Type 0 where
  pub wrapper_width : ℤ
  pub wrapper_css : List (Text × Text)
  pub sign_margin_twice : ℤ
  pub sign_css : List (Text × Text)
  pub button_css : List (Text × Text)

pub record Bar : Type 0 where
  pub style : Style
  pub wrapper_shown : Bool
  pub sidebar_width : Length
  pub body_margin : Text
  pub button_margin : Length
  pub button_height : ℕ
  pub button_text : Text
  pub button_title : Text
  pub jar : Jar

unfoldable pub sidebar_is_collapsed : Bar → Bool
sidebar_is_collapsed s = not s.wrapper_shown

module _ (m : Measures) where
  unfoldable pub collapse_sidebar : Bar → Bar
  collapse_sidebar s = record s {
    wrapper_shown = false;
    sidebar_width = em ssb_width_collapsed;
    body_margin = bw_margin_collapsed;
    button_margin = em (codes "0");
    button_height = m.height;
    button_text = codes "»";
    button_title = codes "Expand sidebar";
    jar = put_cookie (codes "sidebar") (codes "collapsed") s.jar;
  }

  unfoldable pub expand_sidebar : Bar → Bar
  expand_sidebar s = record s {
    body_margin = m.bw_margin_expanded;
    sidebar_width = px (pos m.ssb_width_expanded);
    wrapper_shown = true;
    button_margin = px (sub_ℕ m.ssb_width_expanded 12);
    button_height = m.height;
    button_text = codes "«";
    button_title = codes "Collapse sidebar";
    jar = put_cookie (codes "sidebar") (codes "expanded") s.jar;
  }

  unfoldable pub toggle_sidebar : Bar → Bar
  unfolding sidebar_is_collapsed collapse_sidebar expand_sidebar
  toggle_sidebar s = if sidebar_is_collapsed s then expand_sidebar s else collapse_sidebar s

  unfoldable pub button_style : Style
  button_style = record {
    wrapper_width = sub_ℕ m.ssb_width_expanded 28;
    wrapper_css = (codes "float", codes "left") ∷ (codes "margin-right", codes "0") ∷ [];
    sign_margin_twice =
        sub_ℕ (if m.inner_height == 0 then m.window_height else m.inner_height)
          (m.sidebar_top + 20);
    sign_css = (codes "display", codes "block") ∷ [];
    button_css =
        (codes "color", codes "#FFFFFF")
        ∷ (codes "border-left", codes "1px solid " ++ m.dark_color)
        ∷ (codes "font-size", codes "1.2em")
        ∷ (codes "cursor", codes "pointer")
        ∷ (codes "padding-top", codes "1px")
        ∷ [];
  }

  -- The background of the button when the pointer comes or goes.
  unfoldable pub hover_color : Bool → Text
  hover_color entering = if entering then m.dark_color else m.button_color

  -- The page with the button that `add_sidebar_button` puts there.
  unfoldable pub add_sidebar_button : Jar → Bar
  add_sidebar_button jar = record {
    style = button_style;
    wrapper_shown = true;
    sidebar_width = px (pos m.ssb_width_expanded);
    body_margin = m.bw_margin_expanded;
    button_margin = px (sub_ℕ m.ssb_width_expanded 12);
    button_height = m.height;
    button_text = codes "«";
    button_title = codes "Collapse sidebar";
    jar = jar;
  }

  -- What the loop does for the value of the cookie.
  unfoldable pub apply_value : Text → Bar → Bar
  unfolding sidebar_is_collapsed collapse_sidebar expand_sidebar
  apply_value value s =
      if text_eq value (codes "collapsed") && not (sidebar_is_collapsed s)
      then collapse_sidebar s
      else if text_eq value (codes "expanded") && sidebar_is_collapsed s
      then expand_sidebar s
      else s

  -- One round of it, for the parts of `items[k].split('=')`.
  unfoldable pub apply_item : List Text → Bar → Bar
  unfolding apply_value
  apply_item (key ∷ value ∷ more) s =
      if text_eq key (codes "sidebar") then apply_value value s else s
  apply_item _ s = s

  unfoldable pub apply_items : List Text → Bar → Bar
  unfolding apply_item split
  apply_items [] s = s
  apply_items (i ∷ items) s = apply_items items (apply_item (split b'=' i) s)

  unfoldable pub set_position_from_cookie : Bar → Bar
  unfolding apply_items split
  set_position_from_cookie s =
      if text_eq (jar_text s.jar) [] then s else apply_items (split b';' (jar_text s.jar)) s

  -- The script, on a page that has a side bar.
  unfoldable pub load : Jar → Bar
  unfolding add_sidebar_button set_position_from_cookie
  load jar = set_position_from_cookie (add_sidebar_button jar)
