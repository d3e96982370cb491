-- ===== src/Comments/Template/Rendered.antt =====
-- What the renderer makes of a template, described without it.
use pyfix.Base.{
  ℕ, ◌≡◌, ◌↔◌, refl, sym, ap, ◌∙◌, subst, List, [], ◌∷◌, ◌++◌, map, none, some, Text, codes, All,
  Option-cases, inl, inr, arith,
}
use pyfix.Doctools.{split}
use pyfix.Doctools.Parameters.{IsFree, split-free, split-append}
use pyfix.Comments.Template.{
  Value, missing, written, object, Piece, plain, slot, walk, fill, fill_all, render_template,
  or_empty, shown_value,
}
use pyfix.Comments.Template.Slots.{print, IsTemplate, render_template-print}

-- A template: characters, and slots that name a value in the context, escaped or raw.
pub data Part : Type 0 where
  character : ℕ → Part
  escaped raw : Text → List Text → Part

abbrev pub dotted : Text → List Text → Text
dotted name [] = name
dotted name (n ∷ names) = name ++ b'.' ∷ dotted n names

-- An escaped slot is written `<%…%>`, a raw one `<#…#>`.
abbrev pub piece_of : Part → Piece
piece_of (character c) = plain c
piece_of (escaped name names) = slot b'%' (dotted name names)
piece_of (raw name names) = slot b'#' (dotted name names)

abbrev pub IsNamed : Part → Type 0
IsNamed (character c) = Unit
IsNamed (escaped name names) = IsFree b'.' name × All (IsFree b'.') names
IsNamed (raw name names) = IsFree b'.' name × All (IsFree b'.') names

-- The value at a path: a text has no properties, and a missing value none at all.
pub data IsAt : Value → List Text → Value → Type 0 where
  here : {v : Value} → IsAt v [] v
  inside :
      {f : Text → Value} {name : Text} {names : List Text} {v : Value}
      → IsAt (f name) names v
      → IsAt (object f) (name ∷ names) v
  of_text :
      {s name : Text} {names : List Text} {v : Value}
      → IsAt missing names v
      → IsAt (written s) (name ∷ names) v

-- A missing value is escaped as the empty text, and is "undefined" in a raw slot.
abbrev pub escaped_text : Value → Text
escaped_text missing = []
escaped_text (written s) = s
escaped_text (object f) = codes "[object Object]"

abbrev pub raw_text : Value → Text
raw_text missing = codes "undefined"
raw_text (written s) = s
raw_text (object f) = codes "[object Object]"

module _ (escape : Text → Text) (context : Value) where
  pub data Renders : List Part → Text → Type 0 where
    at_end : Renders [] []
    a_character :
        {c : ℕ} {ps : List Part} {t : Text} → Renders ps t → Renders (character c ∷ ps) (c ∷ t)
    a_slot :
        {name : Text} {names : List Text} {v : Value} {ps : List Part} {t : Text}
        → IsAt context (name ∷ names) v
        → Renders ps t
        → Renders (escaped name names ∷ ps) (escape (escaped_text v) ++ t)
    a_raw_slot :
        {name : Text} {names : List Text} {v : Value} {ps : List Part} {t : Text}
        → IsAt context (name ∷ names) v
        → Renders ps t
        → Renders (raw name names ∷ ps) (raw_text v ++ t)

split-dotted :
    (name : Text) (names : List Text)
    → IsFree b'.' name
    → All (IsFree b'.') names
    → split b'.' (dotted name names) ≡ name ∷ names
split-dotted name [] h hs = split-free b'.' name h
split-dotted name (n ∷ names) h (k, hs) =
    split-append b'.' name (dotted n names) h ∙ ap (name ∷◌) (split-dotted n names k hs)

IsAt-walk : (v w : Value) (names : List Text) → IsAt v names w → walk v names ≡ some w
unfolding walk
IsAt-walk v _ _ here = refl
IsAt-walk _ w _ (inside {f} {name} {names} h) = IsAt-walk (f name) w names h
IsAt-walk _ w _ (of_text {s} {name} {names} h) = IsAt-walk missing w names h

walk-IsAt : (v w : Value) (names : List Text) → walk v names ≡ some w → IsAt v names w
unfolding walk
walk-IsAt v w [] h = let same : v ≡ w = cc in subst (IsAt v []) same here
walk-IsAt missing w (name ∷ names) h = let never : ⊥ = cc in absurd never
walk-IsAt (written s) w (name ∷ names) h = of_text (walk-IsAt missing w names h)
walk-IsAt (object f) w (name ∷ names) h = inside (walk-IsAt (f name) w names h)

or_empty-escaped_text : (v : Value) → or_empty v ≡ escaped_text v
unfolding or_empty shown_value
or_empty-escaped_text missing = refl
or_empty-escaped_text (written s) = refl
or_empty-escaped_text (object f) = refl

shown_value-raw_text : (v : Value) → shown_value v ≡ raw_text v
unfolding shown_value
shown_value-raw_text missing = refl
shown_value-raw_text (written s) = refl
shown_value-raw_text (object f) = refl

module _ (escape : Text → Text) (context : Value) where
  fill-escaped :
      (name : Text) (names : List Text)
      → IsNamed (escaped name names)
      → (v : Value) → walk context (name ∷ names) ≡ some v
      → fill escape context (piece_of (escaped name names)) ≡ some (escape (escaped_text v))
  unfolding fill
  fill-escaped name names (h, hs) v k =
      ground (arith, split-dotted name names h hs, k, or_empty-escaped_text v)

  fill-raw :
      (name : Text) (names : List Text)
      → IsNamed (raw name names)
      → (v : Value) → walk context (name ∷ names) ≡ some v
      → fill escape context (piece_of (raw name names)) ≡ some (raw_text v)
  unfolding fill
  fill-raw name names (h, hs) v k =
      ground (arith, split-dotted name names h hs, k, shown_value-raw_text v)

  fill-slot_none :
      (mark : ℕ) (name : Text) (names : List Text)
      → IsFree b'.' name
      → All (IsFree b'.') names
      → walk context (name ∷ names) ≡ none
      → fill escape context (slot mark (dotted name names)) ≡ none
  unfolding fill
  fill-slot_none mark name names h hs k = ground (arith, split-dotted name names h hs, k)

  -- A first piece and the others.
  fill_all-cons :
      (p : Piece) (ps : List Piece) (s t : Text)
      → fill escape context p ≡ some s
      → fill_all escape context ps ≡ some t
      → fill_all escape context (p ∷ ps) ≡ some (s ++ t)
  unfolding fill_all
  fill_all-cons p ps s t h k = ground (arith, h, k)

  fill_all-rest :
      (p : Piece) (ps : List Piece) (s t : Text)
      → fill escape context p ≡ some s
      → fill_all escape context (p ∷ ps) ≡ some t
      → (u : Text) × (fill_all escape context ps ≡ some u) × (s ++ u ≡ t)
  unfolding fill_all
  fill_all-rest p ps s t h k = elim (Option-cases (fill_all escape context ps)) [
    | inl j ↦ let never : ⊥ = ground (arith, h, j, k) in absurd never
    | inr (u, j) ↦ (u, j, ground (arith, h, j, k))
  ]

  fill_all-none :
      (p : Piece) (ps : List Piece) (t : Text)
      → fill escape context p ≡ none
      → fill_all escape context (p ∷ ps) ≡ some t
      → ⊥
  unfolding fill_all
  fill_all-none p ps t h k = ground (arith, h, k)

  Renders-fill_all :
      (ps : List Part) (t : Text)
      → All IsNamed ps
      → Renders escape context ps t
      → fill_all escape context (map piece_of ps) ≡ some t
  Renders-fill_all _ _ h at_end = unfold fill_all in refl
  Renders-fill_all _ _ h (a_character {c} {ps} {t} k) =
      fill_all-cons (plain c) (map piece_of ps) (c ∷ []) t (unfold fill in refl)
        (Renders-fill_all ps t h.1 k)
  Renders-fill_all _ _ h (a_slot {name} {names} {v} {ps} {t} e k) =
      fill_all-cons (piece_of (escaped name names)) (map piece_of ps) (escape (escaped_text v)) t
        (fill-escaped name names h.0 v (IsAt-walk context v (name ∷ names) e))
        (Renders-fill_all ps t h.1 k)
  Renders-fill_all _ _ h (a_raw_slot {name} {names} {v} {ps} {t} e k) =
      fill_all-cons (piece_of (raw name names)) (map piece_of ps) (raw_text v) t
        (fill-raw name names h.0 v (IsAt-walk context v (name ∷ names) e))
        (Renders-fill_all ps t h.1 k)

  fill_all-Renders :
      (ps : List Part) (t : Text)
      → All IsNamed ps
      → fill_all escape context (map piece_of ps) ≡ some t
      → Renders escape context ps t
  fill_all-Renders [] t h k =
      let same : [] ≡ t = unfold fill_all in ground (arith, k) in
      subst (Renders escape context []) same at_end
  fill_all-Renders (character c ∷ ps) t (h, hs) k =
      let (u, j, same) =
        fill_all-rest (plain c) (map piece_of ps) (c ∷ []) t (unfold fill in refl) k in
      subst (Renders escape context (character c ∷ ps)) same
        (a_character (fill_all-Renders ps u hs j))
  fill_all-Renders (escaped name names ∷ ps) t ((h, hn), hs) k =
      elim (Option-cases (walk context (name ∷ names))) [
        | inl e ↦ absurd (
            fill_all-none (piece_of (escaped name names)) (map piece_of ps) t
              (fill-slot_none b'%' name names h hn e) k)
        | inr (v, e) ↦
            let (u, j, same) =
              fill_all-rest (piece_of (escaped name names)) (map piece_of ps)
                (escape (escaped_text v)) t (fill-escaped name names (h, hn) v e) k in
            subst (Renders escape context (escaped name names ∷ ps)) same
              (a_slot (walk-IsAt context v (name ∷ names) e) (fill_all-Renders ps u hs j))
      ]
  fill_all-Renders (raw name names ∷ ps) t ((h, hn), hs) k =
      elim (Option-cases (walk context (name ∷ names))) [
        | inl e ↦ absurd (
            fill_all-none (piece_of (raw name names)) (map piece_of ps) t
              (fill-slot_none b'#' name names h hn e) k)
        | inr (v, e) ↦
            let (u, j, same) =
              fill_all-rest (piece_of (raw name names)) (map piece_of ps) (raw_text v) t
                (fill-raw name names (h, hn) v e) k in
            subst (Renders escape context (raw name names ∷ ps)) same
              (a_raw_slot (walk-IsAt context v (name ∷ names) e) (fill_all-Renders ps u hs j))
      ]

  -- A template is written part by part: a character as it is, a slot for an escaped value as `<%…%>`
  -- and one for a raw value as `<#…#>`, with the names of its path, which are words without a dot,
  -- between dots; no other "<" stands before a mark. It is rendered as a text exactly if the text
  -- is the parts' in their order: a character's is the character, an escaped slot's is the escaped
  -- value at its path, the empty text for a missing one, and a raw slot's is the value as it is,
  -- "undefined" for a missing one. So there is none if a path leads through a missing value.
  pub render_template_iff :
      (ps : List Part) (t : Text)
      → IsTemplate (map piece_of ps)
      → All IsNamed ps
      → (render_template escape (print (map piece_of ps)) context ≡ some t)
        ↔ Renders escape context ps t
  render_template_iff ps t h hs =
      let same = render_template-print escape (map piece_of ps) context h in
      (λ k. fill_all-Renders ps t hs (sym same ∙ k), λ k. same ∙ Renders-fill_all ps t hs k)
