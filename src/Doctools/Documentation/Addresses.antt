-- ===== src/Doctools/Documentation/Addresses.antt =====
-- The address that `getCurrentURL` computes.
use pyfix.Base.{
  ℕ, suc, ◌+◌, ◌-◌, ◌≡◌, refl, sym, ap, ◌∙◌, Bool, true, false, All, List, [], ◌∷◌, ◌++◌, Text,
  codes, text_eq, length, take, drop, min, max, ◌==◌, length-append, arith, if◌then◌else◌,
}
use pyfix.Doctools.{split, cons_head}
use pyfix.Doctools.Parameters.{IsFree, split-cons}
use pyfix.Doctools.Documentation.{
  pop_parts, drop_last, join_parts, after_last, substring, get_current_url,
}

join_parts-cons_head :
    (x : ℕ) (p : Text) (ps : List Text)
    → join_parts (cons_head x (p ∷ ps)) ≡ x ∷ join_parts (p ∷ ps)
unfolding join_parts
join_parts-cons_head x p [] = refl
join_parts-cons_head x p (q ∷ ps) = refl

join_parts-step :
    (b : Bool) (x : ℕ) (p : Text) (ps : List Text)
    → (x == b'/') ≡ b
    → join_parts (if b then [] ∷ p ∷ ps else cons_head x (p ∷ ps)) ≡ x ∷ join_parts (p ∷ ps)
unfolding join_parts
join_parts-step true x p ps h = ground arith
join_parts-step false x p ps h = join_parts-cons_head x p ps

join_parts-split : (s : Text) → join_parts (split b'/' s) ≡ s
unfolding split join_parts
join_parts-split [] = refl
join_parts-split (x ∷ s) =
    let (p, ps, e) = split-cons b'/' s in
    ap (λ qs. join_parts (if x == b'/' then [] ∷ qs else cons_head x qs)) e
    ∙ join_parts-step (x == b'/') x p ps refl
    ∙ ap (λ qs. x ∷ join_parts qs) (sym e)
    ∙ ap (x ∷◌) (join_parts-split s)

-- No part is "..".
abbrev pub IsLocal : List Text → Type 0
IsLocal parts = All (λ p. text_eq p (codes "..") ≡ false) parts

pop_parts-local : (root parts : List Text) → IsLocal root → pop_parts root parts ≡ parts
unfolding pop_parts
pop_parts-local [] parts h = refl
pop_parts-local (r ∷ root) parts (h, hs) =
    ap (λ (b : Bool). pop_parts root (if b then drop_last parts else parts)) h
    ∙ pop_parts-local root parts hs

after_last-free : (i best : ℕ) (s : Text) → IsFree b'/' s → after_last i best s ≡ best
unfolding after_last
after_last-free i best [] h = refl
after_last-free i best (c ∷ s) h = ground (arith, after_last-free (i + 1) best s)

after_last-append :
    (i best : ℕ) (dir name : Text)
    → IsFree b'/' name
    → after_last i best (dir ++ b'/' ∷ name) ≡ i + length dir + 1
unfolding after_last
after_last-append i best [] name h = after_last-free (i + 1) (i + 1) name h ∙ omega arith
after_last-append i best (c ∷ dir) name h =
    after_last-append (i + 1) (if c == b'/' then i + 1 else best) dir name h ∙ omega arith

IsFree-init : (name : Text) (c : ℕ) → IsFree b'/' (name ++ c ∷ []) → IsFree b'/' name
IsFree-init [] c h = refl
IsFree-init (x ∷ name) c h = ground (arith, IsFree-init name c)

take-append_length : (s t : Text) → take (length s) (s ++ t) ≡ s
take-append_length [] t = refl
take-append_length (x ∷ s) t = ap (x ∷◌) (take-append_length s t)

drop-append_cons : (s : Text) (c : ℕ) (t : Text) → drop (suc (length s)) (s ++ c ∷ t) ≡ t
drop-append_cons [] c t = refl
drop-append_cons (x ∷ s) c t = drop-append_cons s c t

substring-name :
    (dir name : Text) (c : ℕ)
    → substring
        (dir ++ b'/' ∷ (name ++ c ∷ []))
        (length dir + 1)
        (length (dir ++ b'/' ∷ (name ++ c ∷ [])) - 1)
      ≡ name
unfolding substring
substring-name dir name c =
    let path = dir ++ b'/' ∷ (name ++ c ∷ []) in
    let a = length dir + 1 in
    let b = length path - 1 in
    let whole : length path ≡ length dir + (length name + 2) =
      omega (arith, length-append dir (b'/' ∷ (name ++ c ∷ [])), length-append name (c ∷ [])) in
    let size : max a b - min a b ≡ length name = omega (arith, whole) in
    let start : min a b ≡ suc (length dir) = omega (arith, whole) in
    ap (λ n. take n (drop (min a b) path)) size
    ∙ ap (λ n. take (length name) (drop n path)) start
    ∙ ap (take (length name)) (drop-append_cons dir b'/' (name ++ c ∷ []))
    ∙ take-append_length name (c ∷ [])

-- Where the root goes up by no "..", the address of a page is the last part of its path without its
-- last character.
pub get_current_url-local :
    (root dir name : Text) (c : ℕ)
    → IsLocal (split b'/' root)
    → IsFree b'/' (name ++ c ∷ [])
    → get_current_url root (dir ++ b'/' ∷ (name ++ c ∷ [])) ≡ name
unfolding get_current_url
get_current_url-local root dir name c local free =
    let path = dir ++ b'/' ∷ (name ++ c ∷ []) in
    ap (λ parts. substring path (after_last 0 0 (join_parts parts)) (length path - 1))
      (pop_parts-local (split b'/' root) (split b'/' path) local)
    ∙ ap (λ url. substring path (after_last 0 0 url) (length path - 1)) (join_parts-split path)
    ∙ ap (λ a. substring path a (length path - 1))
        (after_last-append 0 0 dir (name ++ c ∷ []) free ∙ omega arith)
    ∙ substring-name dir name c
