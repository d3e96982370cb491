-- ===== src/Fix/Session/Runs.antt =====
-- A session over any sequence of messages sent, sent again and received.
use pyfix.Base.{
  ℕ, zero, suc, ◌+◌, ◌≤◌, ◌<◌, ◌≡◌, refl, sym, subst, ◌∙◌, List, [], ◌∷◌, some, Text, true, false,
  length, get_elem?, arith,
}
use pyfix.Fix.Parser.{Grammar}
use pyfix.Fix.Recno.{Recno}
use pyfix.Fix.Validate.{Spec}
use pyfix.Fix.Message.{Native, Message}
use pyfix.Fix.Session.{Options, compile_message, persist_and_advance, Session, persist_out_msg}
use pyfix.Fix.Session.Store.{
  IsInStep, Leaves, stored, stored-Leaves, finish-stored, resent-finish, received-Leaves,
  compile_message-finish, get_put-same,
}

module _ (r : Recno) (g : Grammar) where
  -- The sessions that a session reaches: it sends new messages that it stores, whose texts are listed,
  -- sends messages again, and stores messages that come in and pass the check of the sequence.
  pub data Run (spec : Spec) : Session r → List Text → Session r → Type 0 where
    start : {s : Session r} → Run spec s [] s
    sent :
        {ts : List Text} {s s1 s2 : Session r} (m n : Message) (o : Options) (now : Native)
        (t : Text)
        → o.poss_dup ≡ false
        → o.persist ≡ true
        → compile_message r spec s m o now ≡ some (t, n, s1)
        → Run spec s1 ts s2
        → Run spec s (t ∷ ts) s2
    resent :
        {ts : List Text} {s s1 s2 : Session r} (m n : Message) (o : Options) (now : Native)
        (t : Text)
        → o.poss_dup ≡ true
        → compile_message r spec s m o now ≡ some (t, n, s1)
        → Run spec s1 ts s2
        → Run spec s ts s2
    received :
        {ts : List Text} {s s1 s2 : Session r} (t : Text)
        → persist_and_advance r g s t true ≡ some s1
        → Run spec s1 ts s2
        → Run spec s ts s2

  -- What a run leaves of a session.
  record IsLog (s : Session r) (ts : List Text) (s2 : Session r) : Type 0 where
    in_step : IsInStep r s2
    in_up : s.in_msg_seq_num ≤ s2.in_msg_seq_num
    out_up : s2.out_msg_seq_num ≡ s.out_msg_seq_num + length ts
    logged :
        (i : ℕ) (t : Text)
        → get_elem? ts i ≡ some t
        → r.get s2.persister.out_db (s.out_msg_seq_num + i) ≡ some t
    kept :
        (j : ℕ) → j < s.out_msg_seq_num → r.get s2.persister.out_db j ≡ r.get s.persister.out_db j

  start-IsLog : (s : Session r) → IsInStep r s → IsLog s [] s
  start-IsLog s h = record {
    in_step = h;
    in_up = omega arith;
    out_up = omega arith;
    logged = λ i t e. absurd (cc);
    kept = λ j g. refl;
  }

  stored-logged :
      (s s2 : Session r) (t : Text) (ts : List Text)
      → IsLog (stored r s t) ts s2
      → (i : ℕ) (u : Text) → get_elem? (t ∷ ts) i ≡ some u
      → r.get s2.persister.out_db (s.out_msg_seq_num + i) ≡ some u
  unfolding persist_out_msg
  stored-logged s s2 t ts log zero u e =
      let first : s.out_msg_seq_num + 0 ≡ s.out_msg_seq_num = omega arith in
      rw first (
        log.kept s.out_msg_seq_num (omega arith)
        ∙ get_put-same r s.persister.out_db s.out_msg_seq_num t
        ∙ e)
  stored-logged s s2 t ts log (suc i) u e =
      let next : s.out_msg_seq_num + suc i ≡ s.out_msg_seq_num + 1 + i = omega arith in
      rw next (log.logged i u e)

  stored-IsLog :
      (s s2 : Session r) (t : Text) (ts : List Text)
      → IsLog (stored r s t) ts s2
      → IsLog s (t ∷ ts) s2
  stored-IsLog s s2 t ts log = record {
    in_step = log.in_step;
    in_up = log.in_up;
    out_up = omega (arith, log.out_up);
    logged = stored-logged s s2 t ts log;
    kept = λ j h. log.kept j (omega (arith, h)) ∙ (stored-Leaves r s t).kept j h;
  }

  received-IsLog :
      (s s1 s2 : Session r) (ts : List Text)
      → IsInStep r s
      → Leaves r s s1
      → s1.out_msg_seq_num ≡ s.out_msg_seq_num
      → IsLog s1 ts s2
      → IsLog s ts s2
  received-IsLog s s1 s2 ts h leaves out log = record {
    in_step = log.in_step;
    in_up = omega (arith, leaves.in_up h, log.in_up);
    out_up = omega (arith, out, log.out_up);
    logged = λ i t e. rw (sym out) (log.logged i t e);
    kept = λ j g. log.kept j (omega (arith, out)) ∙ leaves.kept j g;
  }

  Run-IsLog :
      (spec : Spec) (s s2 : Session r) (ts : List Text)
      → IsInStep r s
      → Run spec s ts s2
      → IsLog s ts s2
  Run-IsLog spec s s2 ts h start = start-IsLog s h
  Run-IsLog spec s s2 (_ ∷ ts) h (sent {s1 = s1} m n o now t dup persist e run) =
      let same =
        compile_message-finish r spec s s1 m n o now t e ∙ finish-stored r s o t dup persist in
      stored-IsLog s s2 t ts (
        subst (λ s1. IsLog s1 ts s2) same
          (Run-IsLog spec s1 s2 ts (subst (IsInStep r) (sym same) ((stored-Leaves r s t).in_step h))
            run))
  Run-IsLog spec s s2 ts h (resent {s1 = s1} m n o now t dup e run) =
      let same = compile_message-finish r spec s s1 m n o now t e ∙ resent-finish r s o t dup in
      subst (λ s1. IsLog s1 ts s2) same
        (Run-IsLog spec s1 s2 ts (subst (IsInStep r) (sym same) h) run)
  Run-IsLog spec s s2 ts h (received {s1 = s1} t e run) =
      let (leaves, out) = received-Leaves r g s s1 t e in
      received-IsLog s s1 s2 ts h leaves out (Run-IsLog spec s1 s2 ts (leaves.in_step h) run)

  -- A session whose numbers are those that its databases give, as after a restart, stays so over any
  -- sequence of new messages that are compiled and persisted, messages that are compiled again as
  -- possible duplicates, and texts that are stored with `check_in_sequence`. Its outgoing number grows
  -- by one for each new message, and its incoming number never falls. A message that is compiled
  -- with `persist=False` and a handler that sets the incoming number itself are not among these.
  pub Run-IsInStep :
      (spec : Spec) (s s2 : Session r) (ts : List Text)
      → IsInStep r s
      → Run spec s ts s2
      → IsInStep r s2
        × (s2.out_msg_seq_num ≡ s.out_msg_seq_num + length ts)
        × (s.in_msg_seq_num ≤ s2.in_msg_seq_num)
  Run-IsInStep spec s s2 ts h run =
      let log = Run-IsLog spec s s2 ts h run in (log.in_step, log.out_up, log.in_up)

  -- After a run from a session whose numbers are those of its databases, the text of the new message
  -- number `i` of the run stands in the outgoing database `i` places behind the first number.
  pub get-Run :
      (spec : Spec) (s s2 : Session r) (ts : List Text)
      → IsInStep r s
      → Run spec s ts s2
      → (i : ℕ) (t : Text) → get_elem? ts i ≡ some t
      → r.get s2.persister.out_db (s.out_msg_seq_num + i) ≡ some t
  get-Run spec s s2 ts h run = (Run-IsLog spec s s2 ts h run).logged

  -- A run from a session whose numbers are those of its databases changes nothing that the outgoing
  -- database holds below the next number.
  pub get-Run_below :
      (spec : Spec) (s s2 : Session r) (ts : List Text)
      → IsInStep r s
      → Run spec s ts s2
      → (j : ℕ) → j < s.out_msg_seq_num
      → r.get s2.persister.out_db j ≡ r.get s.persister.out_db j
  get-Run_below spec s s2 ts h run = (Run-IsLog spec s s2 ts h run).kept
