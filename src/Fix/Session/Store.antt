-- ===== src/Fix/Session/Store.antt =====
-- The numbers of a session and the databases behind them, over any sequence of messages compiled and
-- stored.
use pyfix.Base.{
  ℕ, ◌+◌, ◌≤◌, ◌<◌, [], ap, Option-cases, ◌≡◌, refl, sym, ◌∙◌, Bool, true, false, Option, none,
  some, Text, ◌||◌, arith, if◌then◌else◌, ◌⊎◌, inl, inr, le→leb, lt→not_leb, subst, some-injective,
}
use pyfix.Fix.Message.{Native, Message, to_fix, seal, seq_num}
use pyfix.Fix.Parser.{Grammar}
use pyfix.Fix.Parser.Synchronous.{
  Synchronous, Parsed, returned, raised, no_message, reset_all, parse, parse-to_fix,
}
use pyfix.Fix.Parser.Sent.{IsSendable}
use pyfix.Fix.Recno.{Recno}
use pyfix.Fix.Validate.{Spec, validate}
use pyfix.Fix.Session.{
  Options, is_accepted, Session, persist_in_msg, persist_out_msg, get_next_seq, prepare, finish,
  compile_message, persist_numbered, persist_and_advance,
}

le_or_lt : (a b : ℕ) → (a ≤ b) ⊎ (b < a)
le_or_lt a b = omega arith

module _ (r : Recno) where
  -- A database after a record was put under the next number, or a later one.
  get_next_seq-put :
      (d : r.Db) (q : ℕ) (t : Text) → get_next_seq r d ≤ q → get_next_seq r (r.put d q t) ≡ q + 1
  unfolding get_next_seq
  get_next_seq-put d q t h = ground (arith, r.last-put d q t)

  -- The end of `compile_message`, for what was sealed.
  abbrev outcome : Spec → Session r → Options → Option Message → Option (Text × Message × Session r)
  outcome spec s o none = none
  outcome spec s o (some n) =
      if o.disable_validation || is_accepted (validate spec n)
      then some (to_fix n, n, finish r s o (to_fix n))
      else none

  compile_message-outcome :
      (spec : Spec) (s : Session r) (m : Message) (o : Options) (now : Native)
      → compile_message r spec s m o now ≡ outcome spec s o (seal (prepare r s m o now))
  unfolding compile_message
  compile_message-outcome spec s m o now = refl

  sent-finish :
      (b : Bool) (s s2 : Session r) (n0 n : Message) (o : Options) (t : Text)
      → if◌then◌else◌ {A = Option (Text × Message × Session r)} b
          (some (to_fix n0, n0, finish r s o (to_fix n0)))
          none
        ≡ some (t, n, s2)
      → s2 ≡ finish r s o t
  sent-finish true s s2 n0 n o t e = cc
  sent-finish false s s2 n0 n o t e = absurd (cc)

  outcome-finish :
      (spec : Spec) (s s2 : Session r) (n : Message) (o : Options) (t : Text)
      (sealed : Option Message)
      → outcome spec s o sealed ≡ some (t, n, s2)
      → s2 ≡ finish r s o t
  outcome-finish spec s s2 n o t none e = absurd (cc)
  outcome-finish spec s s2 n o t (some n0) e =
      sent-finish (o.disable_validation || is_accepted (validate spec n0)) s s2 n0 n o t e

  pub compile_message-finish :
      (spec : Spec) (s s2 : Session r) (m n : Message) (o : Options) (now : Native) (t : Text)
      → compile_message r spec s m o now ≡ some (t, n, s2)
      → s2 ≡ finish r s o t
  compile_message-finish spec s s2 m n o now t e =
      outcome-finish spec s s2 n o t (seal (prepare r s m o now))
        (sym (compile_message-outcome spec s m o now) ∙ e)

  -- The numbers of the session are those that its databases give, as after a restart.
  abbrev pub IsInStep : Session r → Type 0
  IsInStep s =
      (get_next_seq r s.persister.out_db ≡ s.out_msg_seq_num)
      × (get_next_seq r s.persister.in_db ≡ s.in_msg_seq_num)

  -- What one message leaves of the session.
  pub record Leaves (s s1 : Session r) : Type 0 where
    pub in_step : IsInStep s → IsInStep s1
    pub in_up : IsInStep s → s.in_msg_seq_num ≤ s1.in_msg_seq_num
    pub kept :
        (j : ℕ) → j < s.out_msg_seq_num → r.get s1.persister.out_db j ≡ r.get s.persister.out_db j

  -- The session after a new message was stored.
  abbrev pub stored : Session r → Text → Session r
  stored s t = record s {
    persister = persist_out_msg r s.persister s.out_msg_seq_num t;
    out_msg_seq_num = s.out_msg_seq_num + 1;
  }

  pub finish-stored :
      (s : Session r) (o : Options) (t : Text)
      → o.poss_dup ≡ false
      → o.persist ≡ true
      → finish r s o t ≡ stored s t
  unfolding finish
  finish-stored s o t e f = rw (e, f) refl

  pub get_put-same : (d : r.Db) (k : ℕ) (t : Text) → r.get (r.put d k t) k ≡ some t
  get_put-same d k t = ground (arith, r.get-put d k t k)

  get_put-below : (d : r.Db) (k j : ℕ) (t : Text) → j < k → r.get (r.put d k t) j ≡ r.get d j
  get_put-below d k j t h = ground (arith, r.get-put d k t j)

  pub stored-Leaves : (s : Session r) (t : Text) → Leaves s (stored s t)
  unfolding persist_out_msg
  stored-Leaves s t = record {
    in_step =
        λ h. (get_next_seq-put s.persister.out_db s.out_msg_seq_num t (omega (arith, h.0)), h.1);
    in_up = λ h. omega arith;
    kept = λ j h. get_put-below s.persister.out_db s.out_msg_seq_num j t h;
  }

  pub resent-finish :
      (s : Session r) (o : Options) (t : Text) → o.poss_dup ≡ true → finish r s o t ≡ s
  unfolding finish
  resent-finish s o t e = rw e refl

  -- The session after an incoming message was stored.
  abbrev advanced : Session r → Text → ℕ → Session r
  advanced s t q = record s { persister = persist_in_msg r s.persister q t; in_msg_seq_num = q + 1 }

  persist_numbered-advanced :
      (s : Session r) (t : Text) (q : ℕ)
      → get_next_seq r s.persister.in_db ≤ q
      → persist_numbered r s t q true ≡ some (advanced s t q)
  unfolding persist_numbered
  persist_numbered-advanced s t q h = rw (le→leb _ _ h) refl

  persist_numbered-none :
      (s : Session r) (t : Text) (q : ℕ)
      → q < get_next_seq r s.persister.in_db
      → persist_numbered r s t q true ≡ none
  unfolding persist_numbered
  persist_numbered-none s t q h = rw (lt→not_leb _ _ h) refl

  advanced-Leaves :
      (s : Session r) (t : Text) (q : ℕ)
      → get_next_seq r s.persister.in_db ≤ q
      → Leaves s (advanced s t q)
  unfolding persist_in_msg
  advanced-Leaves s t q h = record {
    in_step = λ g. (g.0, get_next_seq-put s.persister.in_db q t h);
    in_up = λ g. omega (arith, g.1);
    kept = λ j g. refl;
  }

  pub numbered-Leaves :
      (s s1 : Session r) (t : Text) (q : ℕ)
      → persist_numbered r s t q true ≡ some s1
      → Leaves s s1 × (s1.out_msg_seq_num ≡ s.out_msg_seq_num)
  numbered-Leaves s s1 t q e = elim (le_or_lt (get_next_seq r s.persister.in_db) q) [
    | inl h ↦
        let same : advanced s t q ≡ s1 =
          some-injective _ _ (sym (persist_numbered-advanced s t q h) ∙ e) in
        subst (λ s1. Leaves s s1 × (s1.out_msg_seq_num ≡ s.out_msg_seq_num)) same
          (advanced-Leaves s t q h, refl)
    | inr h ↦ absurd (cc (persist_numbered-none s t q h, e))
  ]

  -- A text that is parsed to a message with a number.
  pub persist_and_advance-parsed :
      (g : Grammar) (s : Session r) (t : Text) (check_in_sequence : Bool) (m : Message)
      (fix_string : Option Text) (discarded_text : Text) (q : Synchronous) (n : ℕ)
      → parse g s.sp t ≡ (returned m fix_string discarded_text, q)
      → seq_num m ≡ some n
      → persist_and_advance r g s t check_in_sequence
        ≡ persist_numbered r (record s { sp = q }) t n check_in_sequence
  unfolding persist_and_advance
  persist_and_advance-parsed g s t c m x y q n e h = ground (arith, e, h)

  numbered :
      (g : Grammar) (s s1 : Session r) (t : Text)
      → persist_and_advance r g s t true ≡ some s1
      → (q : Synchronous) × (n : ℕ) × (persist_numbered r (record s { sp = q }) t n true ≡ some s1)
  unfolding persist_and_advance
  numbered g s s1 t e = after_parse (parse g s.sp t).0 e
    where
      after_parse :
          (result : Parsed)
          → (elim result as (λ _. Option (Session r)) [
            | raised e ↦ none
            | no_message ↦ none
            | returned m fix_string discarded_text ↦ elim (seq_num m) as (λ _. Option (Session r)) [
              | none ↦ none
              | some n ↦ persist_numbered r (record s { sp = (parse g s.sp t).1 }) t n true
            ]
          ])
            ≡ some s1
          → (q : Synchronous) × (n : ℕ) × (persist_numbered r (record s { sp = q }) t n true
              ≡ some s1)
      after_parse (raised e) h = absurd (cc)
      after_parse no_message h = absurd (cc)
      after_parse (returned m x y) h = elim (Option-cases (seq_num m)) [
        | inl k ↦ let never : ⊥ = ground (arith, k, h) in absurd never
        | inr (n, k) ↦ ((parse g s.sp t).1, n, ground (arith, k, h))
      ]

  pub received-Leaves :
      (g : Grammar) (s s1 : Session r) (t : Text)
      → persist_and_advance r g s t true ≡ some s1
      → Leaves s s1 × (s1.out_msg_seq_num ≡ s.out_msg_seq_num)
  received-Leaves g s s1 t e =
      let (q, n, h) = numbered g s s1 t e in
      let (leaves, same) = numbered-Leaves (record s { sp = q }) s1 t n h in
      (record { in_step = leaves.in_step; in_up = leaves.in_up; kept = leaves.kept }, same)

  -- The text of a message that can be sent comes in, at a session whose numbers are those of its
  -- databases and whose parser is as it was made. With a number below the incoming one it is refused.
  -- With another number it is stored under this number, which the next one follows, the outgoing
  -- number stays, and the numbers are again those of the databases.
  pub persist_and_advance-to_fix :
      (g : Grammar) (s : Session r) (m : Message) (n : ℕ)
      → IsInStep s
      → s.sp ≡ reset_all
      → IsSendable g m
      → seq_num m ≡ some n
      → (n < s.in_msg_seq_num → persist_and_advance r g s (to_fix m) true ≡ none)
        × (s.in_msg_seq_num ≤ n
            → (s1 : Session r) × (persist_and_advance r g s (to_fix m) true ≡ some s1)
              × (r.get s1.persister.in_db n ≡ some (to_fix m))
              × (s1.in_msg_seq_num ≡ n + 1)
              × (s1.out_msg_seq_num ≡ s.out_msg_seq_num)
              × (s1.sp ≡ reset_all)
              × IsInStep s1)
  unfolding persist_in_msg
  persist_and_advance-to_fix g s m n (out, in_step) fresh h k =
      let read = ap (λ p. parse g p (to_fix m)) fresh ∙ parse-to_fix g m h in
      let same = persist_and_advance-parsed g s (to_fix m) true m none [] reset_all n read k in
      let s0 = record s { sp = reset_all } in
      (
        λ low. same ∙ persist_numbered-none s0 (to_fix m) n (omega (arith, in_step, low)),
        λ high.
            let below : get_next_seq r s.persister.in_db ≤ n = omega (arith, in_step, high) in
            (
              advanced s0 (to_fix m) n,
              same ∙ persist_numbered-advanced s0 (to_fix m) n below,
              get_put-same s.persister.in_db n (to_fix m),
              refl,
              refl,
              refl,
              (advanced-Leaves s0 (to_fix m) n below).in_step (out, in_step),
            ),
      )
