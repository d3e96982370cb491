-- ===== src/Comments/Template/Slots.antt =====
-- The placeholders that the renderer finds in a template.
use pyfix.Base.{
  ℕ, ◌+◌, ◌≡◌, refl, sym, ap, ◌∙◌, Bool, true, false, ◌&&◌, List, [], ◌∷◌, ◌++◌, append_assoc,
  Option, none, some, Text, length, length-append, all, ◌==◌, arith,
}
use pyfix.Comments.Template.{
  Value, Piece, plain, slot, is_word, word_at, closes, is_mark, placeholder, pieces_from, pieces,
  fill_all, render_template,
}

-- A template with the parts.
abbrev pub print_piece : Piece → Text
print_piece (plain c) = c ∷ []
print_piece (slot mark path) = b'<' ∷ mark ∷ (path ++ mark ∷ b'>' ∷ [])

abbrev pub print : List Piece → Text
print [] = []
print (p ∷ ps) = print_piece p ++ print ps

abbrev pub starts_mark : List Piece → Bool
starts_mark (plain c ∷ ps) = is_mark c
starts_mark _ = false

-- Each slot has a mark and a word, and no other "<" stands before a mark.
abbrev pub IsTemplate : List Piece → Type 0
IsTemplate [] = Unit
IsTemplate (plain c ∷ ps) = ((c == b'<' && starts_mark ps) ≡ false) × IsTemplate ps
IsTemplate (slot mark path ∷ ps) = (is_mark mark ≡ true) × (all is_word path ≡ true) × IsTemplate ps

mark-not_word : (m : ℕ) → is_mark m ≡ true → is_word m ≡ false
unfolding is_mark is_word
mark-not_word m h = ground arith

word_at-append :
    (p : Text) (m : ℕ) (t : Text)
    → all is_word p ≡ true
    → is_word m ≡ false
    → word_at (p ++ m ∷ t) ≡ (p, m ∷ t)
unfolding word_at
word_at-append [] m t h k = rw k refl
word_at-append (c ∷ p) m t h k = ground (arith, word_at-append p m t)

placeholder-slot :
    (m : ℕ) (p t : Text)
    → is_mark m ≡ true
    → all is_word p ≡ true
    → placeholder (m ∷ (p ++ m ∷ b'>' ∷ t)) ≡ some (m, p)
unfolding placeholder closes
placeholder-slot m p t h k = ground (arith, word_at-append p m (b'>' ∷ t), mark-not_word m h)

pieces_from-append : (s t : Text) → pieces_from (length s) (s ++ t) ≡ pieces_from 0 t
unfolding pieces_from
pieces_from-append [] t = refl
pieces_from-append (c ∷ s) t = pieces_from-append s t

placeholder-plain : (ps : List Piece) → starts_mark ps ≡ false → placeholder (print ps) ≡ none
unfolding placeholder is_mark
placeholder-plain [] h = refl
placeholder-plain (plain c ∷ ps) h = ground arith
placeholder-plain (slot mark path ∷ ps) h = refl

-- The characters of a match behind its '<' are passed over.
pass_over :
    (m : ℕ) (p t : Text) → pieces_from (length p + 3) (m ∷ (p ++ m ∷ b'>' ∷ t)) ≡ pieces_from 0 t
pass_over m p t =
    let matched : Text = m ∷ (p ++ m ∷ b'>' ∷ []) in
    let long : length matched ≡ length p + 3 = omega (arith, length-append p (m ∷ b'>' ∷ [])) in
    ap (λ n. pieces_from n (m ∷ (p ++ m ∷ b'>' ∷ t))) (sym long)
    ∙ ap (λ s. pieces_from (length matched) (m ∷ s)) (sym (append_assoc p (m ∷ b'>' ∷ []) t))
    ∙ pieces_from-append matched t

match_slot :
    (m : ℕ) (p t : Text)
    → is_mark m ≡ true
    → all is_word p ≡ true
    → pieces_from 0 (b'<' ∷ m ∷ (p ++ m ∷ b'>' ∷ t))
      ≡ slot m p ∷ pieces_from (length p + 3) (m ∷ (p ++ m ∷ b'>' ∷ t))
unfolding pieces_from
match_slot m p t h k =
    let after : Text = m ∷ (p ++ m ∷ b'>' ∷ t) in
    ap
      (λ (o : Option (ℕ × Text)). elim o as (λ _. List Piece) [
        | none ↦ plain b'<' ∷ pieces_from 0 after
        | some q ↦ slot q.0 q.1 ∷ pieces_from (length q.1 + 3) after
      ])
      (placeholder-slot m p t h k)

pieces-print : (ps : List Piece) → IsTemplate ps → pieces_from 0 (print ps) ≡ ps
unfolding pieces_from
pieces-print [] h = refl
pieces-print (plain c ∷ ps) (head, h) = ground (arith, pieces-print ps h, placeholder-plain ps)
pieces-print (slot mark path ∷ ps) (h, k, rest) =
    ap (λ s. pieces_from 0 (b'<' ∷ mark ∷ s)) (append_assoc path (mark ∷ b'>' ∷ []) (print ps))
    ∙ match_slot mark path (print ps) h k
    ∙ ap (slot mark path ∷◌) (pass_over mark path (print ps) ∙ pieces-print ps rest)

pub render_template-print :
    (escape : Text → Text) (ps : List Piece) (context : Value)
    → IsTemplate ps
    → render_template escape (print ps) context ≡ fill_all escape context ps
unfolding render_template pieces
render_template-print escape ps context h = ap (fill_all escape context) (pieces-print ps h)
