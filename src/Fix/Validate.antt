-- ===== src/Fix/Validate.antt =====
-- `Message.validate` of pyfix/FIXSpec.py. What `parse_specification` reads from the XML files is a
-- record of tables; whether the value of a field is right is one of them.
pub mod Accepts
use pyfix.Base.{Bool, true, false, List, [], ◌∷◌, Text, text_eq, any, if◌then◌else◌}
use pyfix.Fix.Message.{Field, Message, Fault, Check, sound, fault, check_integrity}

-- The tags of the mandatory fields of the standard header and trailer, and of each type of messages;
-- all tags of a type; and the outcome of `Field.validate`.
pub record Spec : Type 0 where
  pub header : List Text
  pub trailer : List Text
  pub mandatory : Text → List Text
  pub allowed : Text → List Text
  pub field_ok : Field → Bool

pub data Reject : Type 0 where
  bad_value : Field → Reject
  not_defined : Field → Reject
  missing_header missing_fields missing_trailer : List Text → Reject

-- `MessageIntegrityException` (or an index out of range) and `BusinessReject`.
pub data Verdict : Type 0 where
  accepted : Verdict
  integrity : Fault → Verdict
  business : Reject → Verdict

-- `del missing[field.__class__]`, if it is there.
unfoldable pub strike : List Text → Text → List Text
strike [] tag = []
strike (t ∷ ts) tag = if text_eq t tag then strike ts tag else t ∷ strike ts tag

-- What a loop over fields leaves: an exception, or the tags that are still missing.
pub data Scan : Type 0 where
  rejected : Reject → Scan
  left : List Text → Scan

-- `field in allFieldDict`
unfoldable pub is_allowed : List Text → Field → Bool
is_allowed allowed f = any (λ t. text_eq t f.tag) allowed

module _ (spec : Spec) where
  -- The loop over the header or trailer, and the loop over the fields of the body.
  unfoldable pub scan : List Field → List Text → Scan
  unfolding strike
  scan [] missing = left missing
  scan (f ∷ fs) missing =
      let rest = scan fs (strike missing f.tag) in
      if spec.field_ok f then rest else rejected (bad_value f)

  unfoldable pub scan_body : List Text → List Field → List Text → Scan
  unfolding strike is_allowed
  scan_body allowed [] missing = left missing
  scan_body allowed (f ∷ fs) missing =
      let rest = scan_body allowed fs (strike missing f.tag) in
      if spec.field_ok f
      then (if is_allowed allowed f then rest else rejected (not_defined f))
      else rejected (bad_value f)

-- `if missing: raise BusinessReject(…)`, and what follows.
unfoldable pub unless_missing : Scan → (List Text → Reject) → Verdict → Verdict
unless_missing (rejected r) e next = business r
unless_missing (left []) e next = next
unless_missing (left (t ∷ ts)) e next = business (e (t ∷ ts))

unfoldable pub after_check : Check → Verdict → Verdict
after_check sound next = next
after_check (fault e) next = integrity e

module _ (spec : Spec) where
  unfoldable pub validate : Message → Verdict
  unfolding check_integrity after_check unless_missing scan scan_body
  validate m = after_check (check_integrity m) (
      unless_missing (scan spec m.header_fields spec.header) missing_header (
        unless_missing
          (scan_body spec (spec.allowed m.msg_type.fix_value) m.fields
            (spec.mandatory m.msg_type.fix_value))
          missing_fields
          (unless_missing (scan spec m.footer_fields spec.trailer) missing_trailer accepted)))
