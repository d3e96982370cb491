-- ===== src/Fix/Gaps.antt =====
-- `GapProcessing` of pyfix/FIXProtocol.py: messages that were lost are asked for again, and the later
-- ones wait. `none` is an exception. A dictionary is a list of its keys, or of its keys and values.
pub mod Filled
pub mod Answered
pub mod Stored
pub mod Queued
pub mod Closing
pub mod Recovered
mod Tests
use pyfix.Base.{
  ℕ, zero, suc, ◌+◌, Bool, true, false, not, ◌||◌, List, [], ◌∷◌, ◌++◌, Option, none, some, Text,
  codes, text_eq, ◌==◌, ltb, leb, max, any, map, if◌then◌else◌,
}
use pyfix.Fix.Message.{Native, int, str, Field, field, Message, to_fix, find_field}
use pyfix.Fix.Recno.{Recno}
use pyfix.Fix.Validate.{Spec}
use pyfix.Fix.Session.{Session, Options, defaults, compile_message, persist_and_advance}
use pyfix.Fix.Parser.{Grammar}
use pyfix.Fix.Resend.{range, new_seq_no_tag, gap_fill_flag_tag, on_resend_request}
use pyfix.Fix.Message.{number_of, seq_num}

pub record GapProcessing : Type 0 where
  pub gaps : List ℕ
  pub gap_queue : List (ℕ × Message)
  pub last_sequence : ℕ
  pub pending_application_messages : List (ℕ × Message)

abbrev pub has_key : ℕ → List ℕ → Bool
has_key i is = any (λ j. j == i) is

-- `del self.gaps[i]`
unfoldable pub delete_key : ℕ → List ℕ → List ℕ
delete_key i [] = []
delete_key i (j ∷ js) = let rest = delete_key i js in if j == i then rest else j ∷ rest

-- `d[k] = m`
unfoldable pub set_item : ℕ → Message → List (ℕ × Message) → List (ℕ × Message)
set_item k m [] = (k, m) ∷ []
set_item k m ((j, n) ∷ d) =
    let rest = set_item k m d in if j == k then (k, m) ∷ d else (j, n) ∷ rest

-- The state of the constructor, for the number that was expected and that of the message.
unfoldable pub open_gap : ℕ → ℕ → GapProcessing
unfolding range
open_gap expected msg_seq_num = record {
  gaps = range expected (msg_seq_num + 1);
  gap_queue = [];
  last_sequence = msg_seq_num;
  pending_application_messages = [];
}

-- The loop over the numbers of a gap fill.
unfoldable pub fill_gaps : List ℕ → GapProcessing → Option GapProcessing
unfolding delete_key
fill_gaps [] p = some p
fill_gaps (i ∷ is) p =
    let rest = fill_gaps is (record p { gaps = delete_key i p.gaps }) in
    let skipped = fill_gaps is p in
    if has_key i p.gaps then rest else if ltb p.last_sequence i then skipped else none

-- A message that is sent again.
unfoldable pub recover_message : ℕ → Message → GapProcessing → GapProcessing
unfolding delete_key set_item
recover_message n m p =
    if has_key n p.gaps || ltb p.last_sequence n
    then record p {
      gaps = if has_key n p.gaps then delete_key n p.gaps else p.gaps;
      gap_queue = set_item n m p.gap_queue;
    }
    else p

unfoldable pub queue_message : ℕ → Message → GapProcessing → GapProcessing
unfolding set_item
queue_message n m p = record p {
  pending_application_messages = set_item n m p.pending_application_messages;
}

-- `get_field(klazz)` and the value of a field of numbers.
unfoldable pub field_number : Text → Message → Option ℕ
unfolding find_field
field_number tag m = elim (find_field tag m.fields) [ none ↦ none | some f ↦ number_of f.value ]

-- `get_optional_field_values(GapFillFlag, 'N') == 'N'`
unfoldable pub is_reset : Message → Bool
unfolding find_field
is_reset m = elim (find_field gap_fill_flag_tag m.fields) [
  | none ↦ true
  | some f ↦ text_eq f.fix_value (codes "N")
]

-- `items.sort(key=…)`, by the key.
unfoldable pub place_item : ℕ × Message → List (ℕ × Message) → List (ℕ × Message)
place_item x [] = x ∷ []
place_item x (y ∷ ys) = let rest = place_item x ys in if leb x.0 y.0 then x ∷ y ∷ ys else y ∷ rest

unfoldable pub sort_items : List (ℕ × Message) → List (ℕ × Message)
unfolding place_item
sort_items [] = []
sort_items (x ∷ xs) = place_item x (sort_items xs)

abbrev pub class_is : Message → Text → Bool
class_is m t = text_eq m.msg_type.fix_value t

-- The waiting messages that are kept, from a number on.
abbrev pub from_number : ℕ → List (ℕ × Message) → List (ℕ × Message)
from_number n [] = []
from_number n ((k, m) ∷ xs) = if leb n k then (k, m) ∷ from_number n xs else from_number n xs

module _ (r : Recno) where
  -- A handler's end: the session, the gaps that are left, the texts that are written to the
  -- connection; and, once no gap is left, the calls of the application's `on_message` and the
  -- messages that are handed to the next state, with their numbers.
  pub record Handled : Type 0 where
    pub session : Session r
    pub processing : GapProcessing
    pub written : List Text
    pub delivered : List (ℕ × Message)
    pub replayed : List (ℕ × Message)

module _ (g : Grammar) (r : Recno) where
  -- The recovered messages are stored, but not those below the expected number.
  unfoldable pub store_recovered : Session r → List (ℕ × Message) → Option (Session r)
  unfolding persist_and_advance to_fix seq_num
  store_recovered s [] = some s
  store_recovered s ((k, m) ∷ items) =
      let skipped = store_recovered s items in
      elim (seq_num m) [
        | none ↦ none
        | some n ↦
            if ltb n s.in_msg_seq_num
            then skipped
            else elim (persist_and_advance r g s (to_fix m) false) [
              | none ↦ none
              | some t ↦ store_recovered t items
            ]
      ]

  -- `if not self.gaps`
  unfoldable pub close_gaps : Session r → GapProcessing → List Text → Option (Handled r)
  unfolding store_recovered sort_items
  close_gaps s p written =
      let items = sort_items p.gap_queue in
      elim p.gaps [
        | i ∷ is ↦ some (record {
          session = s;
          processing = p;
          written = written;
          delivered = [];
          replayed = [];
        })
        | [] ↦ elim (store_recovered s items) [
          | none ↦ none
          | some t ↦ some (record {
            session = t;
            processing = record p { gap_queue = [] };
            written = written;
            delivered = items;
            replayed = sort_items (from_number t.in_msg_seq_num p.pending_application_messages);
          })
        ]
      ]

-- `ResendRequest(fields=[BeginSeqNo(begin), EndSeqNo(0)])`
unfoldable pub resend_request : ℕ → Message
unfolding field
resend_request begin = record {
  msg_type = field (codes "35") (str (codes "2"));
  header_fields = [];
  fields = field (codes "7") (int begin) ∷ field (codes "16") (int 0) ∷ [];
  footer_fields = [];
}

module _ (g : Grammar) (is_session : Message → Bool) (r : Recno) (can_format : Bool)
    (spec : Spec) where
  -- The constructor: the request is written, and the later messages are expected behind this one.
  unfoldable pub start_gap : Native → Session r → ℕ → Option (Session r × GapProcessing × Text)
  unfolding compile_message resend_request open_gap
  start_gap now s msg_seq_num =
      elim (compile_message r spec s (resend_request s.in_msg_seq_num) defaults now) [
        | none ↦ none
        | some (text, m, t) ↦ some (
          record t { in_msg_seq_num = msg_seq_num + 1 },
          open_gap s.in_msg_seq_num msg_seq_num,
          text,
        )
      ]

  -- A sequence reset: a plain one fails.
  unfoldable pub on_gap_fill : Session r → GapProcessing → Message → Option (Handled r)
  unfolding fill_gaps close_gaps range field_number is_reset seq_num
  on_gap_fill s p m = elim (field_number new_seq_no_tag m) [
    | none ↦ none
    | some new_seq ↦ if is_reset m then none else elim (seq_num m) [
      | none ↦ none
      | some foreign ↦ elim (fill_gaps (range foreign new_seq) p) [
        | none ↦ none
        | some q ↦ close_gaps g r (record s { in_msg_seq_num = max s.in_msg_seq_num new_seq }) q []
      ]
    ]
  ]

  -- A request of the other side is answered; it is stored if it is the next message.
  unfoldable pub answer_request :
      (ℕ → Native) → Session r → GapProcessing → Message → ℕ → Option (Handled r)
  unfolding on_resend_request persist_and_advance close_gaps to_fix field_number
  answer_request now s p m msg_seq_num = elim (field_number (codes "7") m) [
    | none ↦ none
    | some begin ↦ elim (field_number (codes "16") m) [
      | none ↦ none
      | some end ↦ elim (on_resend_request g is_session r can_format spec now s begin end) [
        | none ↦ none
        | some (texts, t) ↦
            if msg_seq_num == t.in_msg_seq_num
            then elim (persist_and_advance r g t (to_fix m) true) [
              | none ↦ none
              | some u ↦ close_gaps g r u p texts
            ]
            else close_gaps g r t p texts
      ]
    ]
  ]

  unfoldable pub on_msg :
      (ℕ → Native) → Session r → GapProcessing → Message → ℕ → Bool → Option (Handled r)
  unfolding on_gap_fill answer_request recover_message queue_message close_gaps
  on_msg now s p m msg_seq_num pos_dup_flag =
      if class_is m (codes "4")
      then on_gap_fill s p m
      else if not pos_dup_flag
      then (if class_is m (codes "2")
          then answer_request now s p m msg_seq_num
          else close_gaps g r s (queue_message msg_seq_num m p) [])
      else close_gaps g r s (recover_message msg_seq_num m p) []

  -- What `on_msg` of FIXProtocol does with possible duplicates while the state is this one: their
  -- handler, up to the message that closes the last gap; and the messages behind it. `none` is an
  -- exception, or gaps that are still open at the end.
  unfoldable pub receive :
      (ℕ → Native) → Session r → GapProcessing → List Message → Option (Handled r × List Message)
  unfolding on_msg seq_num
  receive now s p [] = none
  receive now s p (m ∷ ms) = elim (seq_num m) [
    | none ↦ none
    | some n ↦ elim (on_msg now s p m n true) [
      | none ↦ none
      | some h ↦ elim h.processing.gaps [
        | [] ↦ some (h, ms)
        | i ∷ is ↦ receive now h.session h.processing ms
      ]
    ]
  ]
