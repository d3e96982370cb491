-- ===== src/Comments/Template.antt =====
-- `renderTemplate` of doc/build/html/_static/websupport.js, and its templates.
pub mod Texts
pub mod Slots
pub mod Rendered
mod Tests
use pyfix.Base.{
  ℕ, zero, suc, ◌+◌, Bool, true, false, ◌&&◌, ◌||◌, List, [], ◌∷◌, ◌++◌, Option, none, some, Text,
  codes, text_eq, length, ltb, leb, ◌==◌, if◌then◌else◌,
}
use pyfix.Doctools.{split}

-- What a property of the context is: missing, a text, as which a number other than 0 is read, or an object with
-- properties of its own.
pub data Value : Type 0 where
  missing : Value
  written : Text → Value
  object : (Text → Value) → Value

-- `\w` or a dot.
unfoldable pub is_word : ℕ → Bool
is_word c =
    (leb b'a' c && leb c b'z')
    || (leb b'A' c && leb c b'Z')
    || (leb b'0' c && leb c b'9')
    || c == b'_'
    || c == b'.'

-- The longest word at the head of a text, and what follows it.
unfoldable pub word_at : Text → Text × Text
unfolding is_word
word_at [] = ([], [])
word_at (c ∷ s) = let (w, rest) = word_at s in if is_word c then (c ∷ w, rest) else ([], c ∷ s)

-- Whether a text begins with the mark and ">".
unfoldable pub closes : ℕ → Text → Bool
closes mark (c ∷ d ∷ s) = c == mark && d == b'>'
closes mark _ = false

unfoldable pub is_mark : ℕ → Bool
is_mark c = c == b'%' || c == b'#'

-- A placeholder behind a "<": its mark and its path.
unfoldable pub placeholder : Text → Option (ℕ × Text)
unfolding word_at closes is_mark
placeholder [] = none
placeholder (mark ∷ s) =
    let (path, rest) = word_at s in
    if is_mark mark && closes mark rest then some (mark, path) else none

-- The parts of a template.
pub data Piece : Type 0 where
  plain : ℕ → Piece
  slot : ℕ → Text → Piece

-- The matches of `/<([%#])([\w\.]*)\1>/g`, and what lies between them; the number counts the
-- characters of a match that are still to be passed over.
unfoldable pub pieces_from : ℕ → Text → List Piece
unfolding placeholder
pieces_from n [] = []
pieces_from (suc n) (c ∷ s) = pieces_from n s
pieces_from zero (c ∷ s) =
    let rest = pieces_from zero s in
    let matched = λ (m : ℕ × Text). slot m.0 m.1 ∷ pieces_from (length m.1 + 3) s in
    if c == b'<'
    then (elim (placeholder s) [ none ↦ plain c ∷ rest | some m ↦ matched m ])
    else plain c ∷ rest

unfoldable pub pieces : Text → List Piece
unfolding pieces_from
pieces s = pieces_from 0 s

-- `cur = cur[this]` along a path; a property of nothing is an exception, and a text has none of the
-- names that the templates use.
unfoldable pub property : Value → Text → Option Value
property missing name = none
property (written s) name = some missing
property (object f) name = some (f name)

unfoldable pub walk : Value → List Text → Option Value
unfolding property
walk v [] = some v
walk v (name ∷ names) = elim (property v name) [ none ↦ none | some w ↦ walk w names ]

-- What `replace` puts for a value.
unfoldable pub shown_value : Value → Text
shown_value missing = codes "undefined"
shown_value (written s) = s
shown_value (object f) = codes "[object Object]"

-- `cur || ""`, for the values that are texts.
unfoldable pub or_empty : Value → Text
unfolding shown_value
or_empty missing = []
or_empty v = shown_value v

-- `escape` is `esc.text(…).html()`.
module _ (escape : Text → Text) where
  -- `handle`
  unfoldable pub fill : Value → Piece → Option Text
  unfolding walk or_empty shown_value split
  fill context (plain c) = some (c ∷ [])
  fill context (slot mark path) = elim (walk context (split b'.' path)) [
    | none ↦ none
    | some v ↦ some (if mark == b'%' then escape (or_empty v) else shown_value v)
  ]

  unfoldable pub fill_all : Value → List Piece → Option Text
  unfolding fill
  fill_all context [] = some []
  fill_all context (p ∷ ps) = elim (fill context p) [
    | none ↦ none
    | some s ↦ elim (fill_all context ps) [ none ↦ none | some t ↦ some (s ++ t) ]
  ]

  unfoldable pub render_template : Text → Value → Option Text
  unfolding fill_all pieces
  render_template template context = fill_all context (pieces template)
