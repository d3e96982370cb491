-- ===== src/Fix/Message/Integrity.antt =====
-- A message whose body length and check sum have been set passes the checks of `validate`.
use pyfix.Base.{◌%◌, ◌≡◌, refl, sym, ap, List, [], ◌∷◌, ◌++◌, some, text_eq_refl, drop, arith}
use pyfix.Fix.Decimal.{three_digits}
use pyfix.Fix.Message.{
  int, str, Field, field, Message, but_last, calc_body_length, calc_check_sum, set_body_length,
  set_check_sum, sound, get_last, get_second, check_checksum, check_body_length, seal,
  sum_checksums, body_length_tag, check_sum_tag,
}

but_last-concat : (fs : List Field) (f : Field) → but_last (fs ++ f ∷ []) ≡ fs
unfolding but_last
but_last-concat [] f = refl
but_last-concat (a ∷ []) f = refl
but_last-concat (a ∷ b ∷ fs) f = ap (a ∷◌) (but_last-concat (b ∷ fs) f)

get_last-concat : (fs : List Field) (f : Field) → get_last (fs ++ f ∷ []) ≡ some f
unfolding get_last
get_last-concat [] f = refl
get_last-concat (a ∷ []) f = refl
get_last-concat (a ∷ b ∷ fs) f = get_last-concat (b ∷ fs) f

-- What the two settings write.
abbrev pub with_body_length : Message → Field → Field → List Field → Message
with_body_length m a b hs = record m {
  header_fields = a ∷ field body_length_tag (int (calc_body_length m)) ∷ hs;
}

abbrev pub with_check_sum : Message → Message
with_check_sum m = record m {
  footer_fields = but_last m.footer_fields ++ field check_sum_tag (str (calc_check_sum m)) ∷ [];
}

set_body_length-eq :
    (m : Message) (a b : Field) (hs : List Field)
    → m.header_fields ≡ a ∷ b ∷ hs
    → set_body_length m ≡ some (with_body_length m a b hs)
unfolding set_body_length
set_body_length-eq m a b hs e = rw e refl

set_check_sum-eq :
    (m : Message) (f : Field) (fs : List Field)
    → m.footer_fields ≡ f ∷ fs
    → set_check_sum m ≡ some (with_check_sum m)
unfolding set_check_sum
set_check_sum-eq m f fs e = rw e refl

check_body_length_of_eq :
    (m : Message) (f : Field)
    → get_second m.header_fields ≡ some f
    → f.value ≡ int (calc_body_length m)
    → check_body_length m ≡ sound
unfolding check_body_length
check_body_length_of_eq m f e same = rw (e, check_body_length, same) (ground arith)

check_checksum_of_eq :
    (m : Message) (f : Field)
    → get_last m.footer_fields ≡ some f
    → f.value ≡ str (calc_check_sum m)
    → check_checksum m ≡ sound
unfolding check_checksum
check_checksum_of_eq m f e same =
    rw (e, check_checksum, same) (ground (arith, text_eq_refl (calc_check_sum m)))

calc_body_length-eq :
    (m n : Message) (hs : List Field)
    → n.fields ≡ m.fields
    → drop 2 m.header_fields ≡ hs
    → drop 2 n.header_fields ≡ hs
    → calc_body_length n ≡ calc_body_length m
unfolding calc_body_length
calc_body_length-eq m n hs e f g = rw (e, f, g) refl

calc_check_sum-with_check_sum : (m : Message) → calc_check_sum (with_check_sum m) ≡ calc_check_sum m
unfolding calc_check_sum
calc_check_sum-with_check_sum m =
    ap (λ (fs : List Field). three_digits (sum_checksums (m.header_fields ++ m.fields ++ fs) % 256))
      (but_last-concat (but_last m.footer_fields) _)

-- The two settings, in the order in which `compile_message` makes them: a message with two header
-- fields and a trailer is sealed, its second header field and the last field of its trailer are then
-- its own body length and check sum, and the two checks pass.
pub seal_lem :
    (m : Message) (a b c : Field) (hs fs : List Field)
    → m.header_fields ≡ a ∷ b ∷ hs
    → m.footer_fields ≡ c ∷ fs
    → (n : Message) × (seal m ≡ some n)
      × (n.header_fields ≡ a ∷ field body_length_tag (int (calc_body_length n)) ∷ hs)
      × (n.fields ≡ m.fields)
      × (n.msg_type ≡ m.msg_type)
      × (n.footer_fields
          ≡ but_last m.footer_fields ++ field check_sum_tag (str (calc_check_sum n)) ∷ [])
      × (check_body_length n ≡ sound)
      × (check_checksum n ≡ sound)
unfolding seal get_second
seal_lem m a b c hs fs header footer =
    let before = with_body_length m a b hs in
    let n = with_check_sum before in
    let same_length = calc_body_length-eq m n hs refl (ap (drop 2) header) refl in
    let same_sum = calc_check_sum-with_check_sum before in
    (
      n,
      rw (set_body_length-eq m a b hs header, seal) (set_check_sum-eq before c fs footer),
      ap (λ k. a ∷ field body_length_tag (int k) ∷ hs) (sym same_length),
      refl,
      refl,
      ap (λ k. but_last m.footer_fields ++ field check_sum_tag (str k) ∷ []) (sym same_sum),
      check_body_length_of_eq n _ refl (ap int (sym same_length)),
      check_checksum_of_eq n _ (get_last-concat (but_last m.footer_fields) _)
          (ap str (sym same_sum)),
    )
