-- ===== src/Fix/Session/Compile.antt =====
-- What `compile_message` sends.
use pyfix.Base.{
  ◌≡◌, refl, ap, ◌∙◌, List, [], ◌∷◌, ◌++◌, none, some, codes, ◌||◌, arith, if◌then◌else◌,
}
use pyfix.Fix.Message.{
  Native, int, str, Field, field, Message, to_fix, seal, body_length_tag, check_sum_tag,
  msg_seq_num_tag, find_field, check_structure, check_integrity, sound, check_body_length,
  check_checksum, set_body_length,
}
use pyfix.Fix.Message.Integrity.{seal_lem}
use pyfix.Fix.Recno.{Recno}
use pyfix.Fix.Validate.{Spec, validate}
use pyfix.Fix.Session.{
  Options, before_last, number_for, is_accepted, Session, base_header, make_header, prepare, finish,
  compile_message, poss_dup_flag_tag, orig_sending_time_tag, sending_time_tag,
}

-- The optional fields stand before the sending time.
abbrev flags : Options → List Field
flags o =
    (if o.poss_dup then field poss_dup_flag_tag (str (codes "Y")) ∷ [] else [])
    ++ (elim o.orig_sending_time [ none ↦ [] | some t ↦ field orig_sending_time_tag t ∷ [] ])

module _ (r : Recno) where
  -- The header behind its two first fields.
  abbrev pub rest_of_header : Session r → Message → Options → Native → List Field
  rest_of_header s m o now =
      m.msg_type
        ∷ s.sender_compid
        ∷ s.target_compid
        ∷ field msg_seq_num_tag (int (number_for o.force_sequence_number s.out_msg_seq_num))
        ∷ flags o
      ++ field sending_time_tag now ∷ []

  make_header-eq :
      (s : Session r) (m : Message) (o : Options) (now : Native)
      → make_header r s m o now
        ≡ s.begin_string ∷ field body_length_tag (int 0) ∷ rest_of_header s m o now
  unfolding make_header base_header before_last
  make_header-eq s m o now = ground arith

  -- The fields of the session and the message have the tags of their classes.
  abbrev pub IsNamed : Session r → Message → Type 0
  IsNamed s m =
      (s.begin_string.tag ≡ codes "8")
      × (m.msg_type.tag ≡ codes "35")
      × (s.sender_compid.tag ≡ codes "49")
      × (s.target_compid.tag ≡ codes "56")

  find_field-rest_of_header :
      (s : Session r) (m : Message) (o : Options) (now : Native) (len : Native)
      → IsNamed s m
      → find_field msg_seq_num_tag
          (s.begin_string ∷ field body_length_tag len ∷ rest_of_header s m o now)
        ≡ some (field msg_seq_num_tag (int (number_for o.force_sequence_number s.out_msg_seq_num)))
  unfolding find_field field
  find_field-rest_of_header s m o now len (e, f, g, h) = rw (e, f, g, h) refl

  check_structure_of :
      (s : Session r) (m n : Message) (o : Options) (now len sum : Native)
      → IsNamed s m
      → n.header_fields ≡ s.begin_string ∷ field body_length_tag len ∷ rest_of_header s m o now
      → n.footer_fields ≡ field check_sum_tag sum ∷ []
      → check_structure n ≡ sound
  unfolding check_structure find_field field
  check_structure_of s m n o now len sum (e, f, g, h) header footer =
      rw (header, footer, e, f, g, h) refl

  check_integrity_of :
      (n : Message)
      → check_body_length n ≡ sound
      → check_checksum n ≡ sound
      → check_structure n ≡ sound
      → check_integrity n ≡ sound
  unfolding check_integrity
  check_integrity_of n e f g = rw (e, f, g) refl

  compile_message-sealed :
      (spec : Spec) (s : Session r) (m n : Message) (o : Options) (now : Native)
      → seal (prepare r s m o now) ≡ some n
      → compile_message r spec s m o now ≡ (
          if o.disable_validation || is_accepted (validate spec n)
          then some (to_fix n, n, finish r s o (to_fix n))
          else none)
  unfolding compile_message
  compile_message-sealed spec s m n o now e = rw (e, compile_message) refl

  -- What is sealed and sent for the message `m`.
  abbrev pub IsCompiled : Session r → Message → Options → Message → Type 0
  IsCompiled s m o n =
      (check_integrity n ≡ sound)
      × (n.fields ≡ m.fields)
      × (n.msg_type ≡ m.msg_type)
      × (find_field msg_seq_num_tag n.header_fields
          ≡ some
              (field msg_seq_num_tag (int (number_for o.force_sequence_number s.out_msg_seq_num))))

  -- If the fields of the session and the message have the tags of their classes, then the header and
  -- trailer that `compile_message` writes can be sealed: the result passes the integrity checks,
  -- keeps the type and the fields of the message and has the forced or the next number. It is sent
  -- unless a validation that is not disabled rejects it.
  pub compile_message_lem :
      (spec : Spec) (s : Session r) (m : Message) (o : Options) (now : Native)
      → IsNamed s m
      → (n : Message) × IsCompiled s m o n
        × (compile_message r spec s m o now ≡ (
            if o.disable_validation || is_accepted (validate spec n)
            then some (to_fix n, n, finish r s o (to_fix n))
            else none))
  unfolding prepare pyfix.Fix.Message.but_last
  compile_message_lem spec s m o now named =
      let (n, sealed, header, body, type, footer, len, sum) =
        seal_lem (prepare r s m o now) _ _ _ _ [] (make_header-eq s m o now) refl in
      (
        n,
        (
          check_integrity_of n len sum (check_structure_of s m n o now _ _ named header footer),
          body,
          type,
          ap (find_field msg_seq_num_tag) header ∙ find_field-rest_of_header s m o now _ named,
        ),
        compile_message-sealed spec s m n o now sealed,
      )
