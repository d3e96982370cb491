-- ===== src/Doctools/Documentation.antt =====
-- `Documentation` of doc/build/html/_static/doctools.js: the togglers of the index, the search words
-- that are highlighted, the links of headlines, and the addresses of pages.
pub mod Togglers
pub mod Addresses
mod Tests
use pyfix.Base.{
  ℕ, zero, suc, ◌+◌, ◌-◌, Bool, true, false, not, List, [], ◌∷◌, ◌++◌, map, Option, none, some,
  Text, codes, text_eq, length, take, drop, min, max, ◌==◌, if◌then◌else◌,
}
use pyfix.JQuery.{
  Target, Action, Call, by_id, select, within, created, on, fade_out, remove_class, set_attr,
  append,
}
use pyfix.Doctools.{split, Parameters, get_query_parameters}
use pyfix.Doctools.Highlight.{Nodes, highlight_text}
use pyfix.SearchTools.Query.{split_spaces}

-- A toggler of the index: its picture, and whether the rows that it stands for are shown.
pub record Toggler : Type 0 where
  pub src : Text
  pub rows_shown : Bool

-- `src.substr(-9)`
abbrev pub last_nine : Text → Text
last_nine src = drop (length src - 9) src

unfoldable pub click_toggler : Toggler → Toggler
click_toggler t = record {
  rows_shown = not t.rows_shown;
  src =
      if text_eq (last_nine t.src) (codes "minus.png")
      then take (length t.src - 9) t.src ++ codes "plus.png"
      else take (length t.src - 8) t.src ++ codes "minus.png";
}

-- `collapse_index` is `DOCUMENTATION_OPTIONS.COLLAPSE_INDEX`.
unfoldable pub init_index_table : Bool → List Toggler → List Toggler
init_index_table collapse_index togglers =
    if collapse_index then map click_toggler togglers else togglers

unfoldable pub hide_search_words : List Call
hide_search_words =
    on (within (codes "searchbox") (codes ".highlight-link")) fade_out
    ∷ on (select (codes "span.highlighted")) (remove_class (codes "highlighted"))
    ∷ []

-- The link that `add_context_elements` puts behind the element with an id.
unfoldable pub header_link : Text → Text → List Call
header_link id title =
    on (created (codes "a.headerlink")) (set_attr (codes "href") (b'#' ∷ id))
    ∷ on (created (codes "a.headerlink")) (set_attr (codes "title") title)
    ∷ on (within id (codes "")) (append (codes "a.headerlink"))
    ∷ []

unfoldable pub link_all : Text → List Text → List Call
link_all title [] = []
link_all title (id ∷ more) = header_link id title ++ link_all title more

-- The ids of the headlines' sections and of the definitions, in the order of the page.
unfoldable pub add_context_elements : (Text → Text) → List Text → List Text → List Call
add_context_elements translate headlines definitions =
    link_all (translate (codes "Permalink to this headline")) headlines
    ++ link_all (translate (codes "Permalink to this definition")) definitions

-- The values of a parameter.
unfoldable pub parameter : Text → Parameters → Option (List Text)
parameter key [] = none
parameter key ((k, vs) ∷ ps) =
    let rest = parameter key ps in if text_eq k key then some vs else rest

-- `terms`
unfoldable pub highlight_terms : Parameters → List Text
unfolding parameter split_spaces
highlight_terms params = elim (parameter (codes "highlight") params) [
  | none ↦ []
  | some [] ↦ []
  | some (v ∷ vs) ↦ split_spaces v
]

module _ (lower : Text → Text) where
  -- What the page's body is when the timer has fired.
  unfoldable pub highlight_words : List Text → Text → List Text → Nodes → Nodes
  highlight_words [] tag classes kids = kids
  highlight_words (w ∷ terms) tag classes kids =
      highlight_words terms tag classes
        (highlight_text lower (lower w) (codes "highlighted") tag classes kids)

-- `root` is `DOCUMENTATION_OPTIONS.URL_ROOT`.
unfoldable pub make_url : Text → Text → Text
make_url root relative_url = root ++ b'/' ∷ relative_url

-- `parts.pop()` for each "..".
unfoldable pub drop_last : {A : Type 0} → List A → List A
drop_last [] = []
drop_last (x ∷ []) = []
drop_last (x ∷ y ∷ xs) = x ∷ drop_last (y ∷ xs)

unfoldable pub pop_parts : List Text → List Text → List Text
pop_parts [] parts = parts
pop_parts (r ∷ root) parts =
    pop_parts root (if text_eq r (codes "..") then drop_last parts else parts)

-- `parts.join('/')`
unfoldable pub join_parts : List Text → Text
join_parts [] = []
join_parts (p ∷ []) = p
join_parts (p ∷ q ∷ parts) = p ++ b'/' ∷ join_parts (q ∷ parts)

-- `url.lastIndexOf('/') + 1`, for a text of which `i` characters were read.
unfoldable pub after_last : ℕ → ℕ → Text → ℕ
after_last i best [] = best
after_last i best (c ∷ s) = after_last (i + 1) (if c == b'/' then i + 1 else best) s

-- `s.substring(a, b)`, which takes its bounds in either order.
unfoldable pub substring : Text → ℕ → ℕ → Text
substring s a b = take (max a b - min a b) (drop (min a b) s)

unfoldable pub get_current_url : Text → Text → Text
unfolding pop_parts join_parts after_last substring split
get_current_url root path =
    let url = join_parts (pop_parts (split b'/' root) (split b'/' path)) in
    substring path (after_last 0 0 url) (length path - 1)

-- The address that the timer of `fixFirefoxAnchorBug` sets: the same one again.
unfoldable pub fix_firefox_anchor_bug : Text → Text → Option Text
fix_firefox_anchor_bug hash address = if text_eq hash [] then none else some (address ++ [])

-- The link that hides the marks, for terms that are highlighted.
unfoldable pub highlight_link : (Text → Text) → List Text → List Call
highlight_link translate [] = []
highlight_link translate (w ∷ terms) =
    on (by_id (codes "searchbox")) (
      append (
        codes "<p class=\"highlight-link\"><a href=\"javascript:Documentation.hideSearchWords()\">"
        ++ (translate (codes "Hide Search Matches") ++ codes "</a></p>")))
    ∷ []

-- A page of the documentation: its address, its body and the togglers of its index.
pub record Page : Type 0 where
  pub address : Text
  pub hash : Text
  pub tag : Text
  pub classes : List Text
  pub body : Nodes
  pub togglers : List Toggler

-- `Documentation.init`: the page when its timers have fired, and the calls.
unfoldable pub init_page :
    (Text → Text) → (Text → Text) → Bool → Parameters → Page → Page × List Call
init_page lower translate collapse_index params p =
    let terms = highlight_terms params in
    (
      record p {
        address = elim (fix_firefox_anchor_bug p.hash p.address) [ none ↦ p.address | some a ↦ a ];
        body = highlight_words lower terms p.tag p.classes p.body;
        togglers = init_index_table collapse_index p.togglers;
      },
      highlight_link translate terms,
    )
