-- ===== src/Fix/Tests.antt =====
-- An order sent, sent again and answered, and the theorems at it.
use pyfix.Base.{
  ◌%◌, ◌≤◌, ◌<◌, ◌≡◌, refl, ◌↔◌, true, [], ◌∷◌, ◌++◌, none, some, Text, codes, length, drop, All,
  arith, map, String, ◌==◌, if◌then◌else◌,
}
use pyfix.Fix.Decimal.{three_digits}
use pyfix.Fix.Message.{
  Native, int, str, field, Message, to_fix, seq_num, join_fields, field_to_fix, sum,
  calc_body_length, calc_check_sum, seal, check_body_length, check_checksum, check_integrity, sound,
  bad_body_length, get_last, body_length_tag, check_sum_tag, but_last,
}
use pyfix.Fix.Message.Wire.{calc_body_length_lem, calc_check_sum_lem}
use pyfix.Fix.Message.Integrity.{seal_lem}
use pyfix.Fix.Recno.{records}
use pyfix.Fix.Validate.{Spec, validate, accepted, integrity}
use pyfix.Fix.Validate.Accepts.{IsOk, IsMember, HasAll, validate_iff}
use pyfix.Fix.Session.{
  Options, defaults, Session, compile_message, persist_numbered, persist_and_advance, finish,
  get_next_seq, is_accepted,
}
use pyfix.Fix.Session.Compile.{IsNamed, IsCompiled, compile_message_lem}
use pyfix.Fix.Parser.Synchronous.{reset_all, parse-to_fix}
use pyfix.Fix.Parser.Samples
use pyfix.Fix.Parser.Samples.{grammar, heartbeat, heartbeat-IsSendable}
use pyfix.Fix.Session.Store.{IsInStep, persist_and_advance-parsed, persist_and_advance-to_fix}
use pyfix.Fix.Session.Runs.{
  Run, start, sent, resent, received, Run-IsInStep, get-Run, get-Run_below,
}

abbrev pub spec : Spec
spec = record {
  header =
      codes "8" ∷ codes "9" ∷ codes "35" ∷ codes "49" ∷ codes "56" ∷ codes "34" ∷ codes "52" ∷ [];
  trailer = codes "10" ∷ [];
  mandatory = λ t. codes "11" ∷ [];
  allowed = λ t. codes "11" ∷ codes "55" ∷ [];
  field_ok = λ f. true;
}

abbrev order : Message
order = record {
  msg_type = field (codes "35") (str (codes "D"));
  header_fields = [];
  fields = field (codes "11") (str (codes "A1")) ∷ [];
  footer_fields = [];
}

abbrev noon : Native
noon = str (codes "20240102-12:00:00")

abbrev opened : Session records
opened = record {
  sender_compid = field (codes "49") (str (codes "SENDER"));
  target_compid = field (codes "56") (str (codes "TARGET"));
  begin_string = field (codes "8") (str (codes "FIX.4.2"));
  out_msg_seq_num = 1;
  in_msg_seq_num = 1;
  persister = record { in_db = []; out_db = []; ledger = []; ledger_idx = 1 };
  sp = reset_all;
}

abbrev wire : String → Text
wire s = map (λ c. if c == b'|' then 1 else c) (codes s)

abbrev first_wire : Text
first_wire = wire "8=FIX.4.2|9=57|35=D|49=SENDER|56=TARGET|34=1|52=20240102-12:00:00|11=A1|10=164|"

-- The session after the order was sent.
abbrev after_order : Session records
after_order = record opened {
  persister = record {
    in_db = [];
    out_db = (1, first_wire) ∷ [];
    ledger = (1, first_wire) ∷ [];
    ledger_idx = 2;
  };
  out_msg_seq_num = 2;
}

abbrev sealed_order : Message
sealed_order = record order {
  header_fields =
      opened.begin_string
      ∷ field (codes "9") (int 57)
      ∷ order.msg_type
      ∷ opened.sender_compid
      ∷ opened.target_compid
      ∷ field (codes "34") (int 1)
      ∷ field (codes "52") noon
      ∷ [];
  footer_fields = field (codes "10") (str (codes "164")) ∷ [];
}

compile_message_runs :
    compile_message records spec opened order defaults noon
    ≡ some (first_wire, sealed_order, after_order)
unfolding compile_message
compile_message_runs = refl

abbrev again : Options
again = record defaults { poss_dup = true; force_sequence_number = some 1 }

abbrev again_wire : Text
again_wire =
    wire "8=FIX.4.2|9=62|35=D|49=SENDER|56=TARGET|34=1|43=Y|52=20240102-12:00:00|11=A1|10=158|"

abbrev sealed_again : Message
sealed_again = record order {
  header_fields =
      opened.begin_string
      ∷ field (codes "9") (int 62)
      ∷ order.msg_type
      ∷ opened.sender_compid
      ∷ opened.target_compid
      ∷ field (codes "34") (int 1)
      ∷ field (codes "43") (str (codes "Y"))
      ∷ field (codes "52") noon
      ∷ [];
  footer_fields = field (codes "10") (str (codes "158")) ∷ [];
}

compile_message-again_runs :
    compile_message records spec after_order order again noon
    ≡ some (again_wire, sealed_again, after_order)
unfolding compile_message
compile_message-again_runs = refl

-- The message number 2 comes in, and number 1 after it is refused.
abbrev reply : Text
reply = to_fix heartbeat

abbrev after_reply : Session records
after_reply = record after_order {
  persister = record {
    in_db = (2, reply) ∷ [];
    out_db = (1, first_wire) ∷ [];
    ledger = (2, reply) ∷ (1, first_wire) ∷ [];
    ledger_idx = 3;
  };
  in_msg_seq_num = 3;
}

persist_and_advance_runs :
    (persist_and_advance records grammar after_order reply true ≡ some after_reply)
    × (persist_and_advance records grammar after_reply (to_fix Samples.order) true ≡ none)
unfolding persist_numbered seq_num field
persist_and_advance_runs = (
  persist_and_advance-parsed records grammar after_order reply true heartbeat none [] reset_all 2
      (parse-to_fix grammar heartbeat heartbeat-IsSendable) refl,
  persist_and_advance-parsed records grammar after_reply (to_fix Samples.order) true Samples.order
      none [] reset_all 1 (parse-to_fix grammar Samples.order Samples.order-IsSendable) refl,
)

run : Run records grammar spec opened (first_wire ∷ []) after_reply
run = sent order sealed_order defaults noon first_wire refl refl compile_message_runs (
    resent order sealed_again again noon again_wire refl compile_message-again_runs
      (received reply (persist_and_advance_runs.0) start))

opened-IsInStep : IsInStep records opened
unfolding get_next_seq
opened-IsInStep = (refl, refl)

Run-IsInStep_example :
    IsInStep records after_reply
    × (after_reply.out_msg_seq_num ≡ 2)
    × (opened.in_msg_seq_num ≤ after_reply.in_msg_seq_num)
Run-IsInStep_example =
    Run-IsInStep records grammar spec opened after_reply (first_wire ∷ []) opened-IsInStep run

get-Run_example : records.get after_reply.persister.out_db 1 ≡ some first_wire
get-Run_example =
    get-Run records grammar spec opened after_reply (first_wire ∷ []) opened-IsInStep run 0
      first_wire refl

get-Run_below_runs :
    records.get after_reply.persister.out_db 0 ≡ records.get opened.persister.out_db 0
get-Run_below_runs =
    get-Run_below records grammar spec opened after_reply (first_wire ∷ []) opened-IsInStep run 0
      (omega arith)

heartbeat-numbered : seq_num heartbeat ≡ some 2
unfolding seq_num field
heartbeat-numbered = refl

persist_and_advance-to_fix_example :
    (2 < 1 → persist_and_advance records grammar opened (to_fix heartbeat) true ≡ none)
    × (1 ≤ 2
        → (s1 : Session records) × (persist_and_advance records grammar opened
              (to_fix heartbeat)
              true
            ≡ some s1)
          × (records.get s1.persister.in_db 2 ≡ some (to_fix heartbeat))
          × (s1.in_msg_seq_num ≡ 3)
          × (s1.out_msg_seq_num ≡ 1)
          × (s1.sp ≡ reset_all)
          × IsInStep records s1)
persist_and_advance-to_fix_example =
    persist_and_advance-to_fix records grammar opened heartbeat 2 opened-IsInStep refl
      heartbeat-IsSendable heartbeat-numbered

opened-IsNamed : IsNamed records opened order
unfolding field
opened-IsNamed = (refl, refl, refl, refl)

compile_message_lem_example :
    (n : Message) × IsCompiled records opened order defaults n
    × (compile_message records spec opened order defaults noon ≡ (
        if is_accepted (validate spec n)
        then some (to_fix n, n, finish records opened defaults (to_fix n))
        else none))
compile_message_lem_example =
    compile_message_lem records spec opened order defaults noon opened-IsNamed

seal_lem_example :
    (n : Message) × (seal sealed_order ≡ some n)
    × (n.header_fields
        ≡ opened.begin_string
          ∷ field body_length_tag (int (calc_body_length n))
          ∷ drop 2 sealed_order.header_fields)
    × (n.fields ≡ order.fields)
    × (n.msg_type ≡ order.msg_type)
    × (n.footer_fields ≡ field check_sum_tag (str (calc_check_sum n)) ∷ [])
    × (check_body_length n ≡ sound)
    × (check_checksum n ≡ sound)
unfolding but_last
seal_lem_example = seal_lem sealed_order _ _ _ (drop 2 sealed_order.header_fields) [] refl refl

calc_body_length_lem_example :
    (body : Text) × (to_fix sealed_order
      ≡ join_fields (opened.begin_string ∷ field (codes "9") (int 57) ∷ [])
        ++ (body ++ join_fields sealed_order.footer_fields))
    × (calc_body_length sealed_order ≡ length body)
calc_body_length_lem_example =
    calc_body_length_lem sealed_order opened.begin_string (field (codes "9") (int 57))
      (drop 2 sealed_order.header_fields) refl

calc_check_sum_lem_example :
    (before : Text) × (to_fix sealed_order
      ≡ before ++ field_to_fix (field (codes "10") (str (codes "164"))))
    × (calc_check_sum sealed_order ≡ three_digits (sum before % 256))
unfolding get_last
calc_check_sum_lem_example =
    calc_check_sum_lem sealed_order (field (codes "10") (str (codes "164"))) refl

validate_iff_example : (validate spec sealed_order ≡ accepted) ↔ (
    (check_integrity sealed_order ≡ sound)
    × (All (IsOk spec) sealed_order.header_fields × HasAll sealed_order.header_fields spec.header)
    × (All (IsMember spec (codes "11" ∷ codes "55" ∷ [])) order.fields
        × HasAll order.fields (codes "11" ∷ []))
    × (All (IsOk spec) sealed_order.footer_fields × HasAll sealed_order.footer_fields spec.trailer))
validate_iff_example = validate_iff spec sealed_order

validate_runs :
    (validate spec sealed_order ≡ accepted)
    × (validate spec (record sealed_order { fields = [] }) ≡ integrity bad_body_length)
unfolding validate field
validate_runs = (refl, refl)
