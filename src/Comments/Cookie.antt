-- ===== src/Comments/Cookie.antt =====
-- The choice of an order in doc/build/html/_static/websupport.js, and the cookie that keeps it:
-- `initComparator` and `handleReSort`.
use pyfix.Base.{
  ◌+◌, ◌≡◌, refl, ap, ◌∙◌, Bool, true, false, List, [], ◌∷◌, ◌++◌, none, some, Text, codes, text_eq,
  contains, index_of, drop, arith, if◌then◌else◌,
}

abbrev pub default_order : Text
default_order = codes "rating"

abbrev pub cookie_name : Text
cookie_name = codes "sortBy="

-- The text behind the name: it is only used if no ";" follows.
unfoldable pub stored_order : (Text → Text) → Text → Text
stored_order unescape rest = if contains rest (codes ";") then default_order else unescape rest

-- `by`, as `initComparator` sets it; `unescape` is the function of the language.
unfoldable pub init_comparator : (Text → Text) → Text → Text
unfolding stored_order
init_comparator unescape cookie = elim (index_of cookie cookie_name) [
  | none ↦ default_order
  | some start ↦ stored_order unescape (drop (start + 7) cookie)
]

-- `by`, as `handleReSort` reads it from the classes of a link.
unfoldable pub chosen_order : Text → List Text → Text
chosen_order by [] = by
chosen_order by (c ∷ classes) =
    let rest = chosen_order by classes in
    let taken = chosen_order (drop 2 c) classes in
    if text_eq c (codes "sort-option") then rest else taken

-- The name and value that `handleReSort` writes.
unfoldable pub write_order : (Text → Text) → Text → Text
write_order escape by = cookie_name ++ escape by

init_comparator-stored :
    (unescape : Text → Text) (v : Text)
    → init_comparator unescape (cookie_name ++ v) ≡ stored_order unescape v
unfolding init_comparator
init_comparator-stored unescape v = refl

contains-append : (v s : Text) → contains (v ++ b';' ∷ s) (codes ";") ≡ true
contains-append [] s = refl
contains-append (c ∷ v) s = ground (arith, contains-append v s)

-- An order that was written is read again if its cookie is the only one and `unescape` undoes
-- `escape`, which leaves no ";".
pub init_comparator-write_order :
    (escape unescape : Text → Text) (by : Text)
    → unescape (escape by) ≡ by
    → contains (escape by) (codes ";") ≡ false
    → init_comparator unescape (write_order escape by) ≡ by
unfolding write_order stored_order
init_comparator-write_order escape unescape by e none_inside =
    init_comparator-stored unescape (escape by)
    ∙ ap (λ (b : Bool). if b then default_order else unescape (escape by)) none_inside
    ∙ e

-- An order whose cookie stands before another one is ignored: the page takes the default order.
pub init_comparator-followed :
    (unescape : Text → Text) (v s : Text)
    → init_comparator unescape (cookie_name ++ v ++ b';' ∷ s) ≡ default_order
unfolding stored_order
init_comparator-followed unescape v s =
    init_comparator-stored unescape (v ++ b';' ∷ s)
    ∙ ap (λ (b : Bool). if b then default_order else unescape (v ++ b';' ∷ s)) (contains-append v s)
