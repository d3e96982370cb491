-- ===== src/SearchTools/Display/Excerpt.antt =====
-- The piece of a page that `makeSearchSummary` takes.
use pyfix.Base.{
  ℕ, zero, suc, ◌+◌, ◌-◌, ◌≤◌, ◌<◌, ◌≡◌, refl, ap, ◌∙◌, Bool, false, [], ◌∷◌, ◌++◌, Text, codes,
  length, take, drop, length-append, length-take, arith, ltb, ◌==◌, if◌then◌else◌,
}
use pyfix.SearchTools.Display.Summary.{trim_left, trim_right, trim, excerpt_at, excerpt}

length-trim_left : (s : Text) → length (trim_left s) ≤ length s
unfolding trim_left
length-trim_left [] = omega arith
length-trim_left (c ∷ s) = ground (arith, length-trim_left s)

length-trim_right : (s : Text) → length (trim_right s) ≤ length s
unfolding trim_right
length-trim_right [] = omega arith
length-trim_right (c ∷ s) = ground (arith, length-trim_right s)

length-trim : (s : Text) → length (trim s) ≤ length s
unfolding trim
length-trim s = omega (arith, length-trim_right (trim_left s), length-trim_left s)

length-front : (b : Bool) → length (if b then codes "..." else []) ≤ 3
length-front b = ground arith

length-dots : (b : Bool) → length (if b then [] else codes "...") ≤ 3
length-dots b = ground arith

-- The summary of a page, whatever its length, has at most 240 of its characters and two times three
-- dots.
pub length-excerpt : (source : Text) (found : ℕ) → length (excerpt source found) ≤ 246
unfolding excerpt
length-excerpt source found =
    let start = found - 120 in
    let dots : Text = if start + 240 == length source then [] else codes "..." in
    let piece = take 240 (drop start source) in
    let front : Text = if ltb 0 start then codes "..." else [] in
    omega (
      arith,
      length-append front (trim piece ++ dots),
      length-append (trim piece) dots,
      length-trim piece,
      length-take 240 (drop start source),
      length-front (ltb 0 start),
      length-dots (start + 240 == length source),
    )

take-all : (n : ℕ) (s : Text) → length s ≤ n → take n s ≡ s
take-all zero [] h = refl
take-all zero (x ∷ s) h = absurd (omega (arith, h))
take-all (suc n) [] h = refl
take-all (suc n) (x ∷ s) h = ap (x ∷◌) (take-all n s (omega (arith, h)))

-- The summary of a page of less than 240 characters, whose keyword stands among the first 121, is the
-- whole page without the spaces around it, and three dots all the same.
pub excerpt-short :
    (source : Text) (found : ℕ)
    → length source < 240
    → found ≤ 120
    → excerpt source found ≡ trim source ++ codes "..."
unfolding excerpt
excerpt-short source found h k =
    let no_start : found - 120 ≡ 0 = omega arith in
    let whole = take-all 240 source (omega arith) in
    let missing : (0 + 240 == length source) ≡ false = ground arith in
    ap (excerpt_at source) no_start
    ∙ ap (λ t. trim t ++ (if 0 + 240 == length source then [] else codes "...")) whole
    ∙ ap (λ (b : Bool). trim source ++ (if b then [] else codes "...")) missing
