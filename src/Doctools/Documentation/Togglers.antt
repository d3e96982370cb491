-- ===== src/Doctools/Documentation/Togglers.antt =====
-- A toggler and the rows that it stands for.
use pyfix.Base.{
  ℕ, zero, suc, ◌-◌, ◌≡◌, refl, ap, ◌∙◌, subst, Bool, true, false, not, [], ◌∷◌, ◌++◌, Text, codes,
  text_eq, length, take, drop, length-append, arith, if◌then◌else◌,
}
use pyfix.Doctools.Documentation.{Toggler, last_nine, click_toggler}

-- A toggler whose picture says what its rows do.
abbrev pub toggler : Text → Bool → Toggler
toggler base shown = record {
  src = base ++ (if shown then codes "minus.png" else codes "plus.png");
  rows_shown = shown;
}

abbrev pub clicked : ℕ → Toggler → Toggler
clicked zero t = t
clicked (suc n) t = clicked n (click_toggler t)

abbrev pub flipped : ℕ → Bool → Bool
flipped zero b = b
flipped (suc n) b = flipped n (not b)

drop-append_length : (s t : Text) → drop (length s) (s ++ t) ≡ t
drop-append_length [] t = refl
drop-append_length (x ∷ s) t = drop-append_length s t

take-append_length : (s t : Text) → take (length s) (s ++ t) ≡ s
take-append_length [] t = refl
take-append_length (x ∷ s) t = ap (x ∷◌) (take-append_length s t)

last_nine-plus :
    (base : Text) → text_eq (last_nine (base ++ codes "plus.png")) (codes "minus.png") ≡ false
last_nine-plus [] = refl
last_nine-plus (x ∷ []) = ground arith
last_nine-plus (x ∷ y ∷ base) =
    let src = y ∷ base ++ codes "plus.png" in
    let step : suc (length src - 9) ≡ length (x ∷ src) - 9 =
      omega (arith, length-append base (codes "plus.png")) in
    subst (λ k. text_eq (drop k (x ∷ src)) (codes "minus.png") ≡ false) step
      (last_nine-plus (y ∷ base))

length-minus : (base : Text) → length (base ++ codes "minus.png") - 9 ≡ length base
length-minus base = omega (arith, length-append base (codes "minus.png"))

length-plus : (base : Text) → length (base ++ codes "plus.png") - 8 ≡ length base
length-plus base = omega (arith, length-append base (codes "plus.png"))

-- The picture after a click, by the test and the cuts of the old one.
abbrev next_src : Bool → Text → Text → Text
next_src is_minus cut_nine cut_eight =
    if is_minus then cut_nine ++ codes "plus.png" else cut_eight ++ codes "minus.png"

click_toggler-toggler :
    (base : Text) (shown : Bool) → click_toggler (toggler base shown) ≡ toggler base (not shown)
unfolding click_toggler
click_toggler-toggler base true =
    let src = base ++ codes "minus.png" in
    let tail : drop (length src - 9) src ≡ codes "minus.png" =
      ap (λ k. drop k src) (length-minus base) ∙ drop-append_length base (codes "minus.png") in
    let head : take (length src - 9) src ≡ base =
      ap (λ k. take k src) (length-minus base) ∙ take-append_length base (codes "minus.png") in
    ap
      (λ (t : Text). record {
        rows_shown = false;
        src =
            next_src (text_eq t (codes "minus.png")) (take (length src - 9) src)
              (take (length src - 8) src);
      })
      tail
    ∙ ap (λ (t : Text). record { rows_shown = false; src = t ++ codes "plus.png" }) head
click_toggler-toggler base false =
    let src = base ++ codes "plus.png" in
    let head : take (length src - 8) src ≡ base =
      ap (λ k. take k src) (length-plus base) ∙ take-append_length base (codes "plus.png") in
    ap
      (λ (b : Bool). record {
        rows_shown = true;
        src = next_src b (take (length src - 9) src) (take (length src - 8) src);
      })
      (last_nine-plus base)
    ∙ ap (λ (t : Text). record { rows_shown = true; src = t ++ codes "minus.png" }) head

-- A toggler whose picture is the minus while its rows are shown and the plus while they are hidden
-- stays so under any number of clicks, each of which shows or hides the rows.
pub clicked-toggler :
    (n : ℕ) (base : Text) (shown : Bool)
    → clicked n (toggler base shown) ≡ toggler base (flipped n shown)
clicked-toggler zero base shown = refl
clicked-toggler (suc n) base shown =
    ap (clicked n) (click_toggler-toggler base shown) ∙ clicked-toggler n base (not shown)
