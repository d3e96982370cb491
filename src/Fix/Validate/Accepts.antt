-- ===== src/Fix/Validate/Accepts.antt =====
-- When `validate` accepts a message.
use pyfix.Base.{◌≡◌, ◌↔◌, true, List, [], ◌∷◌, Text, text_eq_iff, All, Exists, arith}
use pyfix.Fix.Message.{Field, Message, Check, sound, fault, check_integrity}
use pyfix.Fix.Validate.{
  Spec, Reject, missing_header, missing_fields, missing_trailer, Verdict, accepted, strike, Scan,
  rejected, left, is_allowed, scan, scan_body, unless_missing, after_check, validate,
}

-- A field with the tag stands among the fields.
abbrev pub Has : List Field → Text → Type 0
Has fs t = Exists (λ (f : Field). t ≡ f.tag) fs

-- Every tag is among the fields.
abbrev pub HasAll : List Field → List Text → Type 0
HasAll fs tags = All (Has fs) tags

HasAll-strike :
    (f : Field) (fs : List Field) (tags : List Text)
    → HasAll fs (strike tags f.tag) ↔ HasAll (f ∷ fs) tags
unfolding strike
HasAll-strike f fs [] = (λ h. tt, λ h. tt)
HasAll-strike f fs (t ∷ ts) = ground (arith, HasAll-strike f fs ts, text_eq_iff t f.tag)

left_nil_iff : (missing : List Text) → (left missing ≡ left []) ↔ HasAll [] missing
left_nil_iff [] = ground arith
left_nil_iff (t ∷ ts) = (λ e. absurd (cc), λ h. absurd h.0)

abbrev pub IsOk : Spec → Field → Type 0
IsOk spec f = spec.field_ok f ≡ true

scan_iff :
    (spec : Spec) (fs : List Field) (missing : List Text)
    → (scan spec fs missing ≡ left []) ↔ (All (IsOk spec) fs × HasAll fs missing)
unfolding scan
scan_iff spec [] missing = ground (arith, left_nil_iff missing)
scan_iff spec (f ∷ fs) missing =
    ground (arith, scan_iff spec fs (strike missing f.tag), HasAll-strike f fs missing)

-- A field of the body is right, and belongs to the message.
abbrev pub IsMember : Spec → List Text → Field → Type 0
IsMember spec allowed f = (spec.field_ok f ≡ true) × (is_allowed allowed f ≡ true)

scan_body_iff :
    (spec : Spec) (allowed : List Text) (fs : List Field) (missing : List Text)
    → (scan_body spec allowed fs missing ≡ left [])
      ↔ (All (IsMember spec allowed) fs × HasAll fs missing)
unfolding scan_body
scan_body_iff spec allowed [] missing = ground (arith, left_nil_iff missing)
scan_body_iff spec allowed (f ∷ fs) missing =
    ground (arith, scan_body_iff spec allowed fs (strike missing f.tag), HasAll-strike f fs missing)

unless_missing_iff :
    (s : Scan) (e : List Text → Reject) (next : Verdict)
    → (unless_missing s e next ≡ accepted) ↔ ((s ≡ left []) × (next ≡ accepted))
unfolding unless_missing
unless_missing_iff (rejected r) e next = ground arith
unless_missing_iff (left []) e next = ground arith
unless_missing_iff (left (t ∷ ts)) e next = ground arith

after_check_iff :
    (c : Check) (next : Verdict)
    → (after_check c next ≡ accepted) ↔ ((c ≡ sound) × (next ≡ accepted))
unfolding after_check
after_check_iff sound next = ground arith
after_check_iff (fault e) next = ground arith

stages_iff :
    (c : Check) (s1 s2 s3 : Scan) (e1 e2 e3 : List Text → Reject)
    → (after_check c (unless_missing s1 e1 (unless_missing s2 e2 (unless_missing s3 e3 accepted)))
        ≡ accepted)
      ↔ ((c ≡ sound) × (s1 ≡ left []) × (s2 ≡ left []) × (s3 ≡ left []))
stages_iff c s1 s2 s3 e1 e2 e3 = ground (
  arith,
  after_check_iff c (unless_missing s1 e1 (unless_missing s2 e2 (unless_missing s3 e3 accepted))),
  unless_missing_iff s1 e1 (unless_missing s2 e2 (unless_missing s3 e3 accepted)),
  unless_missing_iff s2 e2 (unless_missing s3 e3 accepted),
  unless_missing_iff s3 e3 accepted,
)

-- `validate` raises nothing exactly if the integrity checks pass, every field of the header, the body
-- and the trailer has a right value, every field of the body belongs to the message, and all
-- mandatory fields of the header, the message and the trailer are there.
pub validate_iff :
    (spec : Spec) (m : Message)
    → (validate spec m ≡ accepted) ↔ (
        (check_integrity m ≡ sound)
        × (All (IsOk spec) m.header_fields × HasAll m.header_fields spec.header)
        × (All (IsMember spec (spec.allowed m.msg_type.fix_value)) m.fields
            × HasAll m.fields (spec.mandatory m.msg_type.fix_value))
        × (All (IsOk spec) m.footer_fields × HasAll m.footer_fields spec.trailer))
unfolding validate
validate_iff spec m =
    let allowed = spec.allowed m.msg_type.fix_value in
    let mandatory = spec.mandatory m.msg_type.fix_value in
    let stages =
      stages_iff (check_integrity m) (scan spec m.header_fields spec.header)
        (scan_body spec allowed m.fields mandatory) (scan spec m.footer_fields spec.trailer)
        missing_header missing_fields missing_trailer in
    let header = scan_iff spec m.header_fields spec.header in
    let body = scan_body_iff spec allowed m.fields mandatory in
    let trailer = scan_iff spec m.footer_fields spec.trailer in
    (
      λ e. let (c, h, b, t) = stages.0 e in (c, header.0 h, body.0 b, trailer.0 t),
      λ h. stages.1 (h.0, header.1 h.1, body.1 h.2, trailer.1 h.3),
    )
