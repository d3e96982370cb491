-- ===== src/Fix/Message/Wire.antt =====
-- The amortised sizes and sums of the fields are those of the bytes on the wire.
use pyfix.Base.{
  ◌+◌, ◌%◌, ◌≡◌, refl, sym, ap, ◌∙◌, List, [], ◌∷◌, ◌++◌, append_assoc, append-nil, some, Text,
  length, length-append, arith,
}
use pyfix.Fix.Decimal.{three_digits}
use pyfix.Fix.Message.{
  Field, field_to_fix, sum, ord_without_fix_value, size, checksum, Message, join_fields, to_fix,
  sum_sizes, sum_checksums, but_last, get_last, calc_body_length, calc_check_sum,
}

pub sum-append : (s t : Text) → sum (s ++ t) ≡ sum s + sum t
unfolding sum
sum-append [] t = omega arith
sum-append (c ∷ s) t = omega (arith, sum-append s t)

length-field_to_fix : (f : Field) → length (field_to_fix f) ≡ size f
unfolding field_to_fix size
length-field_to_fix f = omega (
  arith,
  length-append f.tag (b'=' ∷ (f.fix_value ++ 1 ∷ [])),
  length-append f.fix_value (1 ∷ []),
)

sum-field_to_fix : (f : Field) → sum (field_to_fix f) ≡ checksum f
unfolding field_to_fix checksum ord_without_fix_value sum
sum-field_to_fix f = omega (
  arith,
  sum-append f.tag (b'=' ∷ (f.fix_value ++ 1 ∷ [])),
  sum-append f.fix_value (1 ∷ []),
  sum-append f.tag (b'=' ∷ 1 ∷ []),
)

pub join_fields-append :
    (fs gs : List Field) → join_fields (fs ++ gs) ≡ join_fields fs ++ join_fields gs
unfolding join_fields
join_fields-append [] gs = refl
join_fields-append (f ∷ fs) gs =
    ap (λ s. field_to_fix f ++ s) (join_fields-append fs gs)
    ∙ sym (append_assoc (field_to_fix f) (join_fields fs) (join_fields gs))

join_fields-one : (f : Field) → join_fields (f ∷ []) ≡ field_to_fix f
unfolding join_fields
join_fields-one f = append-nil (field_to_fix f)

pub length-join_fields : (fs : List Field) → length (join_fields fs) ≡ sum_sizes fs
unfolding join_fields sum_sizes size
length-join_fields [] = refl
length-join_fields (f ∷ fs) = omega (
  arith,
  length-append (field_to_fix f) (join_fields fs),
  length-field_to_fix f,
  length-join_fields fs,
)

pub sum-join_fields : (fs : List Field) → sum (join_fields fs) ≡ sum_checksums fs
unfolding join_fields sum_checksums
sum-join_fields [] = unfold sum in refl
sum-join_fields (f ∷ fs) =
    omega
      (arith, sum-append (field_to_fix f) (join_fields fs), sum-field_to_fix f, sum-join_fields fs)

-- The body length counts the bytes behind the two first header fields, up to the trailer.
pub calc_body_length_lem :
    (m : Message) (a b : Field) (hs : List Field)
    → m.header_fields ≡ a ∷ b ∷ hs
    → (body : Text) × (to_fix m ≡ join_fields (a ∷ b ∷ []) ++ (body ++ join_fields m.footer_fields))
      × (calc_body_length m ≡ length body)
unfolding to_fix calc_body_length
calc_body_length_lem m a b hs e = (
  join_fields (hs ++ m.fields),
  rw e (simp (join_fields-append, append_assoc) (unfold join_fields in refl)),
  rw e (sym (length-join_fields (hs ++ m.fields))),
)

but_last-append-get_last :
    (fs : List Field) (f : Field) → get_last fs ≡ some f → fs ≡ but_last fs ++ f ∷ []
unfolding get_last but_last
but_last-append-get_last [] f e = absurd (cc)
but_last-append-get_last (a ∷ []) f e = cc
but_last-append-get_last (a ∷ b ∷ fs) f e = ap (a ∷◌) (but_last-append-get_last (b ∷ fs) f e)

-- The check sum is the sum of all bytes before the last field, modulo 256, in three digits.
pub calc_check_sum_lem :
    (m : Message) (f : Field)
    → get_last m.footer_fields ≡ some f
    → (before : Text) × (to_fix m ≡ before ++ field_to_fix f)
      × (calc_check_sum m ≡ three_digits (sum before % 256))
unfolding to_fix calc_check_sum
calc_check_sum_lem m f e = (
  join_fields (m.header_fields ++ m.fields ++ but_last m.footer_fields),
  ap (λ fs. join_fields (m.header_fields ++ m.fields ++ fs))
        (but_last-append-get_last m.footer_fields f e)
      ∙ ap join_fields
          (sym (append_assoc (m.header_fields ++ m.fields) (but_last m.footer_fields) (f ∷ [])))
      ∙ join_fields-append (m.header_fields ++ m.fields ++ but_last m.footer_fields) (f ∷ [])
      ∙ ap (λ s. join_fields (m.header_fields ++ m.fields ++ but_last m.footer_fields) ++ s)
          (join_fields-one f),
  ap (λ n. three_digits (n % 256))
      (sym (sum-join_fields (m.header_fields ++ m.fields ++ but_last m.footer_fields))),
)
