-- ===== src/Sidebar/Clicks.antt =====
-- What clicks on the button of the side bar do to the page and to the cookie.
use pyfix.Base.{
  ℕ, zero, suc, ◌≡◌, refl, ap, ◌∙◌, Bool, true, false, not, [], ◌∷◌, Option, none, some, Text,
  codes, text_eq, text_eq_iff, arith, if◌then◌else◌,
}
use pyfix.Base.Int.{pos, sub_ℕ}
use pyfix.Sidebar.{
  Measures, em, px, Bar, Jar, put_cookie, sidebar_is_collapsed, collapse_sidebar, expand_sidebar,
  toggle_sidebar, button_style,
}

abbrev pub sidebar : Text
sidebar = codes "sidebar"

-- The value of a cookie.
abbrev pub cookie : Text → Jar → Option Text
cookie name [] = none
cookie name ((k, v) ∷ jar) = if text_eq k name then some v else cookie name jar

-- The whole page, from whether the bar is shown.
abbrev pub laid_out : Measures → Bool → Jar → Bar
laid_out m shown jar = record {
  style = button_style m;
  wrapper_shown = shown;
  sidebar_width = if shown then px (pos m.ssb_width_expanded) else em (codes ".8em");
  body_margin = if shown then m.bw_margin_expanded else codes ".8em";
  button_margin = if shown then px (sub_ℕ m.ssb_width_expanded 12) else em (codes "0");
  button_height = m.height;
  button_text = if shown then codes "«" else codes "»";
  button_title = if shown then codes "Collapse sidebar" else codes "Expand sidebar";
  jar = jar;
}

abbrev pub position : Bool → Text
position shown = if shown then codes "expanded" else codes "collapsed"

-- The clicks on the button, one after the other.
abbrev pub clicks : Measures → ℕ → Bar → Bar
clicks m zero s = s
clicks m (suc n) s = clicks m n (toggle_sidebar m s)

cookie-put_cookie : (name v : Text) (jar : Jar) → cookie name (put_cookie name v jar) ≡ some v
cookie-put_cookie name v [] = ground (arith, text_eq_iff name name)
cookie-put_cookie name v ((k, w) ∷ jar) = ground (arith, cookie-put_cookie name v jar)

cookie-put_cookie_other :
    (name other v : Text) (jar : Jar)
    → text_eq name other ≡ false
    → cookie other (put_cookie name v jar) ≡ cookie other jar
cookie-put_cookie_other name other v [] h = ground arith
cookie-put_cookie_other name other v ((k, w) ∷ jar) h =
    ground (arith, cookie-put_cookie_other name other v jar h, text_eq_iff k name)

pub toggle_sidebar-laid_out :
    (m : Measures) (shown : Bool) (jar : Jar)
    → toggle_sidebar m (laid_out m shown jar)
      ≡ laid_out m (not shown) (put_cookie sidebar (position (not shown)) jar)
unfolding toggle_sidebar sidebar_is_collapsed collapse_sidebar expand_sidebar
toggle_sidebar-laid_out m true jar = refl
toggle_sidebar-laid_out m false jar = refl

-- Whether the bar is shown after so many clicks.
abbrev pub flipped : ℕ → Bool → Bool
flipped zero b = b
flipped (suc n) b = flipped n (not b)

-- A page that is laid out for one of the two positions stays laid out for one of them under any
-- number of clicks, each of which changes the position; after at least one click the cookie
-- "sidebar" is the name of the position, and the other cookies are as they were.
pub clicks-laid_out :
    (m : Measures) (n : ℕ) (shown : Bool) (jar : Jar)
    → (after : Jar) × (clicks m (suc n) (laid_out m shown jar)
        ≡ laid_out m (flipped (suc n) shown) after)
      × (cookie sidebar after ≡ some (position (flipped (suc n) shown)))
      × ((other : Text) → text_eq sidebar other ≡ false → cookie other after ≡ cookie other jar)
clicks-laid_out m zero shown jar = (
  put_cookie sidebar (position (not shown)) jar,
  toggle_sidebar-laid_out m shown jar,
  cookie-put_cookie sidebar (position (not shown)) jar,
  λ other h. cookie-put_cookie_other sidebar other (position (not shown)) jar h,
)
clicks-laid_out m (suc n) shown jar =
    let set = put_cookie sidebar (position (not shown)) jar in
    let ih = clicks-laid_out m n (not shown) set in
    (
      ih.0,
      ap (λ s. clicks m (suc n) s) (toggle_sidebar-laid_out m shown jar) ∙ ih.1,
      ih.2,
      λ other h. ih.3 other h ∙ cookie-put_cookie_other sidebar other (position (not shown)) jar h,
    )
