-- ===== src/Sidebar/Position.antt =====
-- Which cookie the next page reads.
use pyfix.Base.{
  ◌≡◌, refl, sym, ap, ◌∙◌, Bool, true, false, not, All, List, [], ◌∷◌, ◌++◌, map, Text, codes,
  text_eq, text_eq_iff, arith, if◌then◌else◌,
}
use pyfix.Doctools.{split, cons_head}
use pyfix.Doctools.Parameters.{IsFree, split-free, split-append}
use pyfix.Sidebar.{
  Measures, Bar, Jar, put_cookie, pair_text, jar_text, sidebar_is_collapsed, collapse_sidebar,
  expand_sidebar, toggle_sidebar, add_sidebar_button, apply_value, apply_item, apply_items,
  set_position_from_cookie, load,
}
use pyfix.Sidebar.Clicks.{sidebar, laid_out, position, toggle_sidebar-laid_out}

-- No name and no value of a cookie has a ";".
abbrev pub IsPlain : Text × Text → Type 0
IsPlain p = IsFree b';' p.0 × IsFree b';' p.1

IsFree-pair_text : (p : Text × Text) → IsPlain p → IsFree b';' (pair_text p)
IsFree-pair_text (k, v) h = go k h.0
  where
    go : (t : Text) → IsFree b';' t → IsFree b';' (t ++ b'=' ∷ v)
    go [] e = h.1
    go (x ∷ t) e = ground (arith, go t)

-- The items of the cookies.
items_of : Jar → List Text
items_of jar = map (λ p. b' ' ∷ pair_text p) jar

split-spaced : (s : Text) → split b';' (b' ' ∷ s) ≡ cons_head b' ' (split b';' s)
unfolding split
split-spaced s = refl

split-jar_text :
    (p : Text × Text) (jar : Jar)
    → All IsPlain (p ∷ jar)
    → split b';' (jar_text (p ∷ jar)) ≡ pair_text p ∷ items_of jar
unfolding items_of
split-jar_text p [] (h, hs) = split-free b';' (pair_text p) (IsFree-pair_text p h)
split-jar_text p (q ∷ jar) (h, hs) =
    split-append b';' (pair_text p) (b' ' ∷ jar_text (q ∷ jar)) (IsFree-pair_text p h)
    ∙ ap (pair_text p ∷◌)
        (split-spaced (jar_text (q ∷ jar)) ∙ ap (cons_head b' ') (split-jar_text q jar hs))

apply_item-cons_head :
    (m : Measures) (ps : List Text) (s : Bar) → apply_item m (cons_head b' ' ps) s ≡ s
unfolding apply_item
apply_item-cons_head m [] s = refl
apply_item-cons_head m (p ∷ []) s = refl
apply_item-cons_head m (p ∷ q ∷ ps) s = refl

-- An item that begins with a space is no position.
apply_items-items_of : (m : Measures) (jar : Jar) (s : Bar) → apply_items m (items_of jar) s ≡ s
unfolding apply_items items_of split
apply_items-items_of m [] s = refl
apply_items-items_of m (p ∷ jar) s =
    ap (apply_items m (items_of jar)) (apply_item-cons_head m (split b'=' (pair_text p)) s)
    ∙ apply_items-items_of m jar s

text_eq-jar_text : (p : Text × Text) (jar : Jar) → text_eq (jar_text (p ∷ jar)) [] ≡ false
text_eq-jar_text ([], v) [] = refl
text_eq-jar_text ([], v) (q ∷ jar) = refl
text_eq-jar_text (x ∷ k, v) [] = refl
text_eq-jar_text (x ∷ k, v) (q ∷ jar) = refl

split-pair_text :
    (k v : Text) → IsFree b'=' k → IsFree b'=' v → split b'=' (pair_text (k, v)) ≡ k ∷ v ∷ []
split-pair_text k v hk hv = split-append b'=' k v hk ∙ ap (k ∷◌) (split-free b'=' v hv)

apply_items-cons :
    (m : Measures) (i : Text) (items : List Text) (s : Bar)
    → apply_items m (i ∷ items) s ≡ apply_items m items (apply_item m (split b'=' i) s)
unfolding apply_items
apply_items-cons m i items s = refl

set_position_from_cookie-first :
    (m : Measures) (k v : Text) (jar : Jar) (s : Bar)
    → s.jar ≡ (k, v) ∷ jar
    → All IsPlain ((k, v) ∷ jar)
    → IsFree b'=' k
    → IsFree b'=' v
    → set_position_from_cookie m s ≡ apply_item m (k ∷ v ∷ []) s
unfolding set_position_from_cookie
set_position_from_cookie-first m k v jar s same hs hk hv =
    ap
      (λ (j : Jar).
        if text_eq (jar_text j) [] then s else apply_items m (split b';' (jar_text j)) s)
      same
    ∙ ap (λ (b : Bool). if b then s else apply_items m (split b';' (jar_text ((k, v) ∷ jar))) s)
        (text_eq-jar_text (k, v) jar)
    ∙ ap (λ is. apply_items m is s) (split-jar_text (k, v) jar hs)
    ∙ apply_items-cons m (pair_text (k, v)) (items_of jar) s
    ∙ apply_items-items_of m jar (apply_item m (split b'=' (pair_text (k, v))) s)
    ∙ ap (λ ps. apply_item m ps s) (split-pair_text k v hk hv)

shown-apply_item :
    (m : Measures) (k v : Text) (jar : Jar)
    → (apply_item m (k ∷ v ∷ []) (add_sidebar_button m jar)).wrapper_shown
      ≡ (if text_eq k sidebar then not (text_eq v (codes "collapsed")) else true)
unfolding apply_item apply_value add_sidebar_button sidebar_is_collapsed collapse_sidebar
    expand_sidebar
shown-apply_item m k v jar = ground (arith, text_eq_iff v (codes "collapsed"))

jar-add_sidebar_button : (m : Measures) (jar : Jar) → (add_sidebar_button m jar).jar ≡ jar
unfolding add_sidebar_button
jar-add_sidebar_button m jar = refl

-- When no name and no value of a cookie has a ";", and those of the first have no "=", a page opens
-- with its bar expanded, unless the first cookie is "sidebar" with the value "collapsed": a
-- "sidebar" that follows another cookie is not seen.
pub load-first :
    (m : Measures) (k v : Text) (jar : Jar)
    → All IsPlain ((k, v) ∷ jar)
    → IsFree b'=' k
    → IsFree b'=' v
    → (load m ((k, v) ∷ jar)).wrapper_shown
      ≡ (if text_eq k sidebar then not (text_eq v (codes "collapsed")) else true)
unfolding load
load-first m k v jar hs hk hv =
    ap (λ s. s.wrapper_shown)
      (set_position_from_cookie-first m k v jar (add_sidebar_button m ((k, v) ∷ jar))
        (jar-add_sidebar_button m ((k, v) ∷ jar)) hs hk hv)
    ∙ shown-apply_item m k v ((k, v) ∷ jar)

-- The cookie of the side bar is the first that the browser has, or none is set.
abbrev pub IsFirst : Jar → Type 0
IsFirst [] = Unit
IsFirst ((k, v) ∷ jar) = k ≡ sidebar

position-IsFree : (b : Bool) → IsFree b'=' (position b) × IsFree b';' (position b)
position-IsFree true = (refl, refl)
position-IsFree false = (refl, refl)

not-collapsed : (b : Bool) → not (text_eq (position b) (codes "collapsed")) ≡ b
not-collapsed true = refl
not-collapsed false = refl

text_eq-sidebar : (k : Text) → k ≡ sidebar → text_eq k sidebar ≡ true
text_eq-sidebar k h = ground (arith, text_eq_iff k sidebar)

put_cookie-sidebar :
    (m : Measures) (b : Bool) (jar : Jar)
    → IsFirst jar
    → All IsPlain jar
    → (load m (put_cookie sidebar (position b) jar)).wrapper_shown ≡ b
put_cookie-sidebar m b [] first hs =
    load-first m sidebar (position b) [] ((refl, (position-IsFree b).1), tt) refl
      (position-IsFree b).0
    ∙ not-collapsed b
put_cookie-sidebar m b ((k, v) ∷ jar) first (h, hs) =
    ap
      (λ (e : Bool).
        (load m (
          if e
          then (k, position b) ∷ jar
          else (k, v) ∷ put_cookie sidebar (position b) jar)).wrapper_shown)
      (text_eq-sidebar k first)
    ∙ ap (λ (name : Text). (load m ((name, position b) ∷ jar)).wrapper_shown) first
    ∙ load-first m sidebar (position b) jar ((refl, (position-IsFree b).1), hs) refl
        (position-IsFree b).0
    ∙ not-collapsed b

-- When "sidebar" is the first cookie of the browser or there is none, and no name and no value of a
-- cookie has a ";", a click leaves a cookie by which the next page, of whatever measures, opens with
-- its bar in the position that the click gave it.
pub load-toggle_sidebar :
    (m other : Measures) (shown : Bool) (jar : Jar)
    → IsFirst jar
    → All IsPlain jar
    → (load other (toggle_sidebar m (laid_out m shown jar)).jar).wrapper_shown
      ≡ (toggle_sidebar m (laid_out m shown jar)).wrapper_shown
load-toggle_sidebar m other shown jar first hs =
    ap (λ s. (load other s.jar).wrapper_shown) (toggle_sidebar-laid_out m shown jar)
    ∙ put_cookie-sidebar other (not shown) jar first hs
    ∙ sym (ap (λ s. s.wrapper_shown) (toggle_sidebar-laid_out m shown jar))
