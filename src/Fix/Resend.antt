-- ===== src/Fix/Resend.antt =====
-- `on_resend_request` of pyfix/FIXProtocol.py: how a request for messages that were lost is
-- answered from the database of outgoing messages. What is printed is left out.
pub mod Covered
pub mod Tests
use pyfix.Base.{
  ℕ, zero, suc, ◌+◌, ◌-◌, Bool, true, List, [], ◌∷◌, ◌++◌, Option, none, some, Text, codes, ◌==◌,
  if◌then◌else◌,
}
use pyfix.Fix.Message.{
  number_of, seq_num, Native, int, str, no_value, Field, field, Message, find_field,
  msg_seq_num_tag,
}
use pyfix.Fix.Recno.{Recno}
use pyfix.Fix.Validate.{Spec}
use pyfix.Fix.Session.{Options, defaults, Session, compile_message, sending_time_tag}
use pyfix.Fix.Parser.{Grammar}
use pyfix.Fix.Parser.Synchronous.{
  Synchronous, Parsed, returned, raised, no_message, reset_all, parse,
}

-- `range(a, b)`
unfoldable pub count_from : ℕ → ℕ → List ℕ
count_from a zero = []
count_from a (suc n) = a ∷ count_from (a + 1) n

unfoldable pub range : ℕ → ℕ → List ℕ
unfolding count_from
range a b = count_from a (b - a)

-- `resend_details`: a gap from a number to a number, or a message.
pub data Detail : Type 0 where
  gap : ℕ → ℕ → Detail
  again : Message → Detail

-- The loop's `resend_details` and `gap`.
pub record Details : Type 0 where
  pub done : List Detail
  pub open_gap : Option (ℕ × ℕ)

unfoldable pub close : Option (ℕ × ℕ) → List Detail
close none = []
close (some (a, b)) = gap a b ∷ []

unfoldable pub add_message : Message → Details → Details
unfolding close
add_message m d = record { done = d.done ++ close d.open_gap ++ again m ∷ []; open_gap = none }

unfoldable pub add_missing : ℕ → Details → Details
add_missing i d = record d {
  open_gap = some (elim d.open_gap [ none ↦ (i, i) | some (a, b) ↦ (a, i) ]);
}

abbrev pub new_seq_no_tag : Text
new_seq_no_tag = codes "36"

abbrev pub gap_fill_flag_tag : Text
gap_fill_flag_tag = codes "123"

-- `SequenceReset(fields=[NewSeqNo(last + 1), GapFillFlag('Y')])`
unfoldable pub gap_fill : ℕ → Message
unfolding field
gap_fill last = record {
  msg_type = field (codes "35") (str (codes "4"));
  header_fields = [];
  fields = field new_seq_no_tag (int (last + 1)) ∷ field gap_fill_flag_tag (str (codes "Y")) ∷ [];
  footer_fields = [];
}

-- The number behind the last one: the request names the last one, or 0 for all that were sent.
unfoldable pub stop_number : ℕ → ℕ → ℕ
stop_number out_msg_seq_num zero = out_msg_seq_num
stop_number out_msg_seq_num (suc n) = suc n + 1

-- What is compiled for a detail, and with which arguments.
unfoldable pub resent_message : Detail → Message
unfolding gap_fill
resent_message (gap a b) = gap_fill b
resent_message (again m) = m

unfoldable pub sending_time_of : Message → Option Native
unfolding find_field
sending_time_of m = elim (find_field sending_time_tag m.header_fields) [
  | none ↦ none
  | some f ↦ some f.value
]

unfoldable pub resend_options : Detail → Options
unfolding seq_num sending_time_of
resend_options (gap a b) = record defaults { poss_dup = true; force_sequence_number = some a }
resend_options (again m) = record defaults {
  poss_dup = true;
  force_sequence_number = seq_num m;
  orig_sending_time = sending_time_of m;
}

-- Whether the line that is printed for a detail raises nothing.
unfoldable pub is_printed : Bool → Detail → Bool
is_printed can_format (gap a b) = true
is_printed can_format (again m) = can_format

module _ (g : Grammar) (is_session : Message → Bool) (r : Recno) where
  -- A turn of the loop, with the parser that the loop uses; `none` is an exception of the parser.
  unfoldable pub resend_step : r.Db → ℕ → Details × Synchronous → Option (Details × Synchronous)
  unfolding parse add_message add_missing
  resend_step db i (d, p) = elim (r.get db i) [
    | none ↦ some (add_missing i d, p)
    | some text ↦
        let (result, q) = parse g p text in
        elim result [
          | returned m s x ↦ some ((if is_session m then add_missing i d else add_message m d), q)
          | raised e ↦ none
          | no_message ↦ none
        ]
  ]

  unfoldable pub resend_loop :
      r.Db → List ℕ → Details × Synchronous → Option (Details × Synchronous)
  unfolding resend_step
  resend_loop db [] s = some s
  resend_loop db (i ∷ is) s = elim (resend_step db i s) [
    | none ↦ none
    | some t ↦ resend_loop db is t
  ]

  unfoldable pub resend_details : Session r → ℕ → ℕ → Option (List Detail)
  unfolding resend_loop stop_number range close reset_all
  resend_details s begin tmp_end =
      elim (resend_loop s.persister.out_db (range begin (stop_number s.out_msg_seq_num tmp_end))
        (record { done = []; open_gap = none }, reset_all)) [
          | none ↦ none
          | some (d, p) ↦ some (d.done ++ close d.open_gap)
        ]

  -- The texts that are written to the connection; `now n` is the time of the compilation n. Before a
  -- message is sent again it is printed with the format "10s", for which Python 3 raises and Python 2
  -- does not: `can_format` says which.
  unfoldable pub send_details :
      Bool → Spec → (ℕ → Native) → ℕ → Session r → List Detail → Option (List Text × Session r)
  unfolding compile_message resent_message resend_options is_printed
  send_details can_format spec now n s [] = some ([], s)
  send_details can_format spec now n s (d ∷ ds) =
      if is_printed can_format d
      then elim (compile_message r spec s (resent_message d) (resend_options d) (now n)) [
        | none ↦ none
        | some (text, m, t) ↦ elim (send_details can_format spec now (n + 1) t ds) [
          | none ↦ none
          | some (texts, u) ↦ some (text ∷ texts, u)
        ]
      ]
      else none

  unfoldable pub on_resend_request :
      Bool → Spec → (ℕ → Native) → Session r → ℕ → ℕ → Option (List Text × Session r)
  unfolding resend_details send_details
  on_resend_request can_format spec now s begin tmp_end = elim (resend_details s begin tmp_end) [
    | none ↦ none
    | some ds ↦ send_details can_format spec now 0 s ds
  ]
