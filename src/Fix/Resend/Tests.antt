-- ===== src/Fix/Resend/Tests.antt =====
-- A request for three numbers: an order, a heartbeat, and a number without a message.
use pyfix.Base.{
  ◌≡◌, refl, subst, Bool, Bool-cases, [], ◌∷◌, none, some, codes, text_eq, ◌==◌, inl, inr, arith,
}
use pyfix.Base.Int.{◌+ℤ◌, ◌-ℤ◌}
use pyfix.Fix.Message.{str, field, Message, to_fix}
use pyfix.Fix.Recno.{records}
use pyfix.Fix.Session.{Session}
use pyfix.Fix.Parser.{Grammar}
use pyfix.Fix.Parser.Synchronous.{reset_all, returned, parse, parse-to_fix}
use pyfix.Fix.Parser.Samples.{grammar, order, heartbeat, order-IsSendable, heartbeat-IsSendable}
use pyfix.Fix.Resend.{gap, again, resend_details}
use pyfix.Fix.Message.{seq_num}
use pyfix.Fix.Resend.Covered.{IsRecord, IsReadable}

abbrev pub is_session : Message → Bool
is_session m = text_eq m.msg_type.fix_value (codes "0")

abbrev pub sent : Session records
sent = record {
  sender_compid = field (codes "49") (str (codes "SENDER"));
  target_compid = field (codes "56") (str (codes "TARGET"));
  begin_string = field (codes "8") (str (codes "FIX.4.2"));
  out_msg_seq_num = 4;
  in_msg_seq_num = 1;
  persister = record {
    in_db = [];
    out_db = (1, to_fix order) ∷ (2, to_fix heartbeat) ∷ [];
    ledger = [];
    ledger_idx = 1;
  };
  sp = reset_all;
}

order-IsRecord : IsRecord grammar 1 (to_fix order)
unfolding field seq_num
order-IsRecord = record {
  msg = order;
  fix_string = none;
  discarded_text = [];
  parsed = parse-to_fix grammar order order-IsSendable;
  numbered = refl;
}

heartbeat-IsRecord : IsRecord grammar 2 (to_fix heartbeat)
unfolding field seq_num
heartbeat-IsRecord = record {
  msg = heartbeat;
  fix_string = none;
  discarded_text = [];
  parsed = parse-to_fix grammar heartbeat heartbeat-IsSendable;
  numbered = refl;
}

pub sent-IsReadable : IsReadable grammar records sent.persister.out_db
sent-IsReadable i text h = elim (Bool-cases (1 == i)) [
  | inl k ↦
      let number : 1 ≡ i = ground (arith, k) in
      let same : to_fix order ≡ text = ground (arith, h, k) in
      subst (λ j. IsRecord grammar j text) number (subst (IsRecord grammar 1) same order-IsRecord)
  | inr k ↦ elim (Bool-cases (2 == i)) [
    | inl j ↦
        let number : 2 ≡ i = ground (arith, j) in
        let same : to_fix heartbeat ≡ text = ground (arith, h, k, j) in
        subst (λ n. IsRecord grammar n text) number
          (subst (IsRecord grammar 2) same heartbeat-IsRecord)
    | inr j ↦ let never : ⊥ = ground (arith, h, k, j) in absurd never
  ]
]

pub resend_details_runs :
    resend_details grammar is_session records sent 1 0 ≡ some (again order ∷ gap 2 3 ∷ [])
unfolding resend_details pyfix.Fix.Parser.Synchronous.parse to_fix field pyfix.Fix.Parser.reset
    pyfix.Fix.Parser.feed pyfix.Fix.Parser.process pyfix.Fix.Parser.scan pyfix.Fix.Parser.drop_crud
    pyfix.Fix.Parser.take_bits pyfix.Doctools.split pyfix.Fix.Parser.pop_last
    pyfix.Fix.Parser.partition pyfix.Fix.Parser.keep pyfix.Fix.Parser.deliver
    pyfix.Fix.Parser.after_scan pyfix.Fix.Parser.crud_size pyfix.Fix.Parser.no_fields
    pyfix.Fix.Parser.discards pyfix.Fix.Parser.callbacks pyfix.Fix.Parser.message_of
    pyfix.Fix.Parser.min_size ◌+ℤ◌ ◌-ℤ◌ pyfix.Fix.Parser.Synchronous.take_event
resend_details_runs = refl
