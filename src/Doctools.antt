-- ===== src/Doctools.antt =====
-- `jQuery.getQueryParameters` of doc/build/html/_static/doctools.js. An exception is `none`.
pub mod Parameters
pub mod Highlight
pub mod Browser
pub mod Translations
pub mod Documentation
mod Tests
use pyfix.Base.{
  ℕ, suc, ◌+◌, Bool, true, false, List, [], ◌∷◌, ◌++◌, map, Option, none, some, Text, codes,
  text_eq, index_of, drop, ◌==◌, if◌then◌else◌,
}

abbrev pub cons_head : ℕ → List Text → List Text
cons_head x [] = (x ∷ []) ∷ []
cons_head x (p ∷ ps) = (x ∷ p) ∷ ps

-- `s.split(c)`
unfoldable pub split : ℕ → Text → List Text
split c [] = [] ∷ []
split c (x ∷ s) = let rest = split c s in if x == c then [] ∷ rest else cons_head x rest

-- `s.substr(s.indexOf('?') + 1)`
unfoldable pub after_mark : Text → Text
after_mark s = elim (index_of s (codes "?")) [ none ↦ s | some n ↦ drop (n + 1) s ]

-- `tmp[0]` and `tmp[1]`, of which the second may be missing: it then reads "undefined".
unfoldable pub key_part : List Text → Text
key_part [] = codes "undefined"
key_part (k ∷ tmp) = k

unfoldable pub value_part : List Text → Text
value_part [] = codes "undefined"
value_part (k ∷ []) = codes "undefined"
value_part (k ∷ v ∷ tmp) = v

-- The own properties of `result`, in the order in which they came.
abbrev pub Parameters : Type 0
Parameters = List (Text × List Text)

unfoldable pub push_value : Text → Text → Parameters → Parameters
push_value key value [] = (key, value ∷ []) ∷ []
push_value key value ((k, vs) ∷ result) =
    let rest = push_value key value result in
    if text_eq k key then (k, vs ++ value ∷ []) ∷ result else (k, vs) ∷ rest

-- `decode` is `decodeURIComponent`, which throws on malformed text.
unfoldable pub urldecode : (Text → Option Text) → Text → Option Text
urldecode decode x = elim (decode x) [
  | none ↦ none
  | some s ↦ some (map (λ c. if c == b'+' then b' ' else c) s)
]

-- `inherited` tells the names that every object has: for those, `key in result` holds and `push` is
-- called on what is no array.
module _ (decode : Text → Option Text) (inherited : Text → Bool) where
  -- One round of the loop, after the decoding of the two parts.
  unfoldable pub store : Parameters → Option Text → Option Text → Option Parameters
  unfolding push_value
  store result (some key) (some value) =
      if inherited key then none else some (push_value key value result)
  store result _ _ = none

  unfoldable pub add_parts : Parameters → List Text → Option Parameters
  unfolding urldecode store split key_part value_part
  add_parts result [] = some result
  add_parts result (part ∷ parts) =
      let tmp = split b'=' part in
      elim (store result (urldecode decode (key_part tmp)) (urldecode decode (value_part tmp))) [
        | none ↦ none
        | some more ↦ add_parts more parts
      ]

  unfoldable pub get_query_parameters : Text → Option Parameters
  unfolding add_parts split after_mark
  get_query_parameters s = add_parts [] (split b'&' (after_mark s))
