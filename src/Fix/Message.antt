-- ===== src/Fix/Message.antt =====
-- `Field` and `Message` of pyfix/FIXSpec.py: the wire form of a message, its body length and its
-- check sum, and the integrity checks of `validate`. A class of fields is known by its tag.
pub mod Wire
pub mod Integrity
use pyfix.Base.{
  ℕ, ◌+◌, ◌%◌, Bool, true, false, List, [], ◌∷◌, ◌++◌, Option, none, some, Text, codes, text_eq,
  ◌==◌, length, drop, if◌then◌else◌,
}
use pyfix.Fix.Decimal.{decimal, three_digits}

-- The native value of a field; `no_value` is the `None` that a failed conversion leaves.
pub data Native : Type 0 where
  int : ℕ → Native
  str : Text → Native
  no_value : Native

pub record Field : Type 0 where
  pub tag : Text
  pub value : Native
  pub fix_value : Text

-- `Field(value)`: `native2fix` of an integer or a text.
unfoldable pub native2fix : Native → Text
unfolding decimal
native2fix (int n) = decimal n
native2fix (str s) = s
native2fix no_value = codes "None"

unfoldable pub field : Text → Native → Field
unfolding native2fix
field tag v = record { tag = tag; value = v; fix_value = native2fix v }

abbrev pub soh : ℕ
soh = 1

unfoldable pub field_to_fix : Field → Text
field_to_fix f = f.tag ++ b'=' ∷ (f.fix_value ++ soh ∷ [])

unfoldable pub sum : Text → ℕ
sum [] = 0
sum (c ∷ s) = c + sum s

-- `OrdWithoutFixValue`
unfoldable pub ord_without_fix_value : Text → ℕ
unfolding sum
ord_without_fix_value tag = sum (tag ++ b'=' ∷ soh ∷ [])

-- The sizes and sums that the constructor of a field computes.
unfoldable pub size : Field → ℕ
size f = length f.tag + 2 + length f.fix_value

unfoldable pub checksum : Field → ℕ
unfolding ord_without_fix_value sum
checksum f = ord_without_fix_value f.tag + sum f.fix_value

pub record Message : Type 0 where
  pub msg_type : Field
  pub header_fields : List Field
  pub fields : List Field
  pub footer_fields : List Field

unfoldable pub join_fields : List Field → Text
unfolding field_to_fix
join_fields [] = []
join_fields (f ∷ fs) = field_to_fix f ++ join_fields fs

unfoldable pub to_fix : Message → Text
unfolding join_fields
to_fix m = join_fields (m.header_fields ++ m.fields ++ m.footer_fields)

unfoldable pub sum_sizes : List Field → ℕ
unfolding size
sum_sizes [] = 0
sum_sizes (f ∷ fs) = size f + sum_sizes fs

unfoldable pub sum_checksums : List Field → ℕ
unfolding checksum
sum_checksums [] = 0
sum_checksums (f ∷ fs) = checksum f + sum_checksums fs

-- `xs[:-1]`
unfoldable pub but_last : List Field → List Field
but_last [] = []
but_last (f ∷ []) = []
but_last (f ∷ g ∷ fs) = f ∷ but_last (g ∷ fs)

-- `calc_body_length()` and `calc_check_sum()`.
unfoldable pub calc_body_length : Message → ℕ
unfolding sum_sizes
calc_body_length m = sum_sizes (drop 2 m.header_fields ++ m.fields)

unfoldable pub calc_check_sum : Message → Text
unfolding sum_checksums but_last three_digits
calc_check_sum m =
    three_digits (sum_checksums (m.header_fields ++ m.fields ++ but_last m.footer_fields) % 256)

abbrev pub body_length_tag : Text
body_length_tag = codes "9"

abbrev pub check_sum_tag : Text
check_sum_tag = codes "10"

abbrev pub msg_seq_num_tag : Text
msg_seq_num_tag = codes "34"

abbrev pub begin_string_tag : Text
begin_string_tag = codes "8"

-- `header_fields[1] = f`; an index out of range raises.
unfoldable pub set_second : List Field → Field → Option (List Field)
set_second (a ∷ b ∷ fs) f = some (a ∷ f ∷ fs)
set_second _ f = none

-- `footer_fields[-1] = f`
unfoldable pub set_last : List Field → Field → Option (List Field)
set_last [] f = none
set_last (a ∷ fs) f = some (but_last (a ∷ fs) ++ f ∷ [])

-- `calc_body_length(mutate=True)` and `calc_check_sum(mutate=True)`; `none` is an `IndexError`.
unfoldable pub set_body_length : Message → Option Message
unfolding set_second calc_body_length field
set_body_length m =
    elim (set_second m.header_fields (field body_length_tag (int (calc_body_length m)))) [
      | none ↦ none
      | some hs ↦ some (record m { header_fields = hs })
    ]

unfoldable pub set_check_sum : Message → Option Message
unfolding set_last calc_check_sum field
set_check_sum m = elim (set_last m.footer_fields (field check_sum_tag (str (calc_check_sum m)))) [
  | none ↦ none
  | some fs ↦ some (record m { footer_fields = fs })
]

-- `calc_body_length(mutate=True)` and then `calc_check_sum(mutate=True)`.
unfoldable pub seal : Message → Option Message
unfolding set_body_length set_check_sum
seal m = elim (set_body_length m) [ none ↦ none | some n ↦ set_check_sum n ]

-- How a message fails the integrity checks, and the error of an index out of range.
pub data Fault : Type 0 where
  index_error bad_check_sum bad_body_length no_seq_num no_header no_begin no_body_length no_footer
        no_check_sum :
      Fault

pub data Check : Type 0 where
  sound : Check
  fault : Fault → Check

infixl 5 ◌>>◌
abbrev pub ◌>>◌ : Check → Check → Check
sound >> c = c
fault e >> c = fault e

unfoldable pub get_last : List Field → Option Field
get_last [] = none
get_last (f ∷ []) = some f
get_last (f ∷ g ∷ fs) = get_last (g ∷ fs)

-- `a == b` of native values.
unfoldable pub native_eq : Native → Native → Bool
native_eq (int m) (int n) = m == n
native_eq (str s) (str t) = text_eq s t
native_eq no_value no_value = true
native_eq _ _ = false

unfoldable pub check_checksum : Message → Check
unfolding get_last native_eq calc_check_sum
check_checksum m = elim (get_last m.footer_fields) [
  | none ↦ fault index_error
  | some f ↦ if native_eq (str (calc_check_sum m)) f.value then sound else fault bad_check_sum
]

unfoldable pub get_second : List Field → Option Field
get_second (a ∷ b ∷ fs) = some b
get_second _ = none

unfoldable pub check_body_length : Message → Check
unfolding get_second native_eq calc_body_length
check_body_length m = elim (get_second m.header_fields) [
  | none ↦ fault index_error
  | some f ↦ if native_eq (int (calc_body_length m)) f.value then sound else fault bad_body_length
]

-- `get_header_field`, and the same search in other lists.
unfoldable pub find_field : Text → List Field → Option Field
find_field tag [] = none
find_field tag (f ∷ fs) = if text_eq f.tag tag then some f else find_field tag fs

-- `get_header_field_value(MsgSeqNum)` of a parsed message.
abbrev pub number_of : Native → Option ℕ
number_of (int n) = some n
number_of (str s) = none
number_of no_value = none

unfoldable pub seq_num : Message → Option ℕ
unfolding find_field
seq_num m = elim (find_field msg_seq_num_tag m.header_fields) [
  | none ↦ none
  | some f ↦ number_of f.value
]

unfoldable pub has_tag : Text → Option Field → Bool
has_tag tag none = false
has_tag tag (some f) = text_eq f.tag tag

abbrev require : Bool → Fault → Check
require b e = if b then sound else fault e

abbrev is_some : Option Field → Bool
is_some none = false
is_some (some f) = true

unfoldable pub find_first : List Field → Option Field
find_first [] = none
find_first (f ∷ fs) = some f

unfoldable pub first_is : Text → List Field → Bool
first_is tag [] = false
first_is tag (f ∷ fs) = text_eq f.tag tag

-- `check_structure`: a test of `header_fields[1]` with one field raises an `IndexError`.
unfoldable pub check_structure : Message → Check
unfolding find_field has_tag get_second find_first first_is
check_structure m =
    require (is_some (find_field msg_seq_num_tag m.header_fields)) no_seq_num
    >> require (is_some (find_first m.header_fields)) no_header
    >> require (first_is begin_string_tag m.header_fields) no_begin
    >> require (is_some (get_second m.header_fields)) index_error
    >> require (has_tag body_length_tag (get_second m.header_fields)) no_body_length
    >> (elim m.footer_fields [ [] ↦ fault no_footer | _ ∷ _ ↦ sound ])
    >> require (is_some (find_field check_sum_tag m.footer_fields)) no_check_sum

-- The first part of `validate`.
unfoldable pub check_integrity : Message → Check
unfolding check_body_length check_checksum check_structure
check_integrity m = check_body_length m >> check_checksum m >> check_structure m
