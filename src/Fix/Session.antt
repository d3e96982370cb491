-- ===== src/Fix/Session.antt =====
-- `Session` of pyfix/Session.py and the writes of pyfix/persistence/BerkeleyPersister.py: how a
-- message is compiled and numbered on its way out, and how an incoming message is stored. `none` is
-- an exception.
pub mod Compile
pub mod Store
pub mod Runs
use pyfix.Base.{
  ℕ, zero, suc, ◌+◌, Bool, true, false, not, List, [], ◌∷◌, ◌++◌, Option, none, some, Text, codes,
  ◌||◌, leb, if◌then◌else◌,
}
use pyfix.Fix.Message.{
  Native, int, str, Field, field, Message, to_fix, seal, body_length_tag, check_sum_tag,
  msg_seq_num_tag, seq_num,
}
use pyfix.Fix.Recno.{Recno}
use pyfix.Fix.Parser.{Grammar}
use pyfix.Fix.Parser.Synchronous.{Synchronous, Parsed, returned, raised, no_message, parse}
use pyfix.Fix.Validate.{Spec, Verdict, accepted, validate}

abbrev pub sending_time_tag : Text
sending_time_tag = codes "52"

abbrev pub poss_dup_flag_tag : Text
poss_dup_flag_tag = codes "43"

abbrev pub orig_sending_time_tag : Text
orig_sending_time_tag = codes "122"

-- The keyword arguments of `compile_message`.
pub record Options : Type 0 where
  pub poss_dup : Bool
  pub force_sequence_number : Option ℕ
  pub orig_sending_time : Option Native
  pub persist : Bool
  pub disable_validation : Bool

abbrev pub defaults : Options
defaults = record {
  poss_dup = false;
  force_sequence_number = none;
  orig_sending_time = none;
  persist = true;
  disable_validation = false;
}

-- `header[:-1] + [f] + header[-1:]`
unfoldable pub before_last : List Field → Field → List Field
before_last [] f = f ∷ []
before_last (a ∷ []) f = f ∷ a ∷ []
before_last (a ∷ b ∷ fs) f = a ∷ before_last (b ∷ fs) f

-- `if force_sequence_number`: the number 0 is false.
unfoldable pub number_for : Option ℕ → ℕ → ℕ
number_for none n = n
number_for (some zero) n = n
number_for (some (suc k)) n = suc k

unfoldable pub is_accepted : Verdict → Bool
is_accepted accepted = true
is_accepted v = false

module _ (r : Recno) where
  -- The databases of a `BerkeleyPersister`.
  pub record Persister : Type 0 where
    pub in_db : r.Db
    pub out_db : r.Db
    pub ledger : r.Db
    pub ledger_idx : ℕ

  pub record Session : Type 0 where
    pub sender_compid : Field
    pub target_compid : Field
    pub begin_string : Field
    pub out_msg_seq_num : ℕ
    pub in_msg_seq_num : ℕ
    pub persister : Persister
    pub sp : Synchronous

  unfoldable pub persist_in_msg : Persister → ℕ → Text → Persister
  persist_in_msg p n t = record p {
    in_db = r.put p.in_db n t;
    ledger = r.put p.ledger p.ledger_idx t;
    ledger_idx = p.ledger_idx + 1;
  }

  unfoldable pub persist_out_msg : Persister → ℕ → Text → Persister
  persist_out_msg p n t = record p {
    out_db = r.put p.out_db n t;
    ledger = r.put p.ledger p.ledger_idx t;
    ledger_idx = p.ledger_idx + 1;
  }

  unfoldable pub get_next_seq : r.Db → ℕ
  get_next_seq d = elim (r.last d) [ none ↦ 1 | some q ↦ q + 1 ]

  -- The header of an outgoing message; `now` is the sending time.
  unfoldable pub base_header : Session → Message → ℕ → Native → List Field
  unfolding field
  base_header s m seq now =
      s.begin_string
      ∷ field body_length_tag (int 0)
      ∷ m.msg_type
      ∷ s.sender_compid
      ∷ s.target_compid
      ∷ field msg_seq_num_tag (int seq)
      ∷ field sending_time_tag now
      ∷ []

  unfoldable pub make_header : Session → Message → Options → Native → List Field
  unfolding base_header before_last number_for
  make_header s m o now =
      let base = base_header s m (number_for o.force_sequence_number s.out_msg_seq_num) now in
      let dup =
        if o.poss_dup then before_last base (field poss_dup_flag_tag (str (codes "Y"))) else base in
      elim o.orig_sending_time [
        | none ↦ dup
        | some t ↦ before_last dup (field orig_sending_time_tag t)
      ]

  -- What is sealed: the message with its new header and trailer.
  unfoldable pub prepare : Session → Message → Options → Native → Message
  unfolding make_header
  prepare s m o now = record m {
    header_fields = make_header s m o now;
    footer_fields = field check_sum_tag (int 0) ∷ [];
  }

  -- The end of `compile_message`: an original message takes the next number.
  unfoldable pub finish : Session → Options → Text → Session
  unfolding persist_out_msg
  finish s o text = if o.poss_dup then s else record s {
    persister =
        if o.persist then persist_out_msg s.persister s.out_msg_seq_num text else s.persister;
    out_msg_seq_num = s.out_msg_seq_num + 1;
  }

  unfoldable pub compile_message :
      Spec → Session → Message → Options → Native → Option (Text × Message × Session)
  unfolding prepare seal validate to_fix finish is_accepted
  compile_message spec s m o now = elim (seal (prepare s m o now)) [
    | none ↦ none
    | some n ↦
        if o.disable_validation || is_accepted (validate spec n)
        then some (to_fix n, n, finish s o (to_fix n))
        else none
  ]

  -- `persist_and_advance` behind the parse; with `check_in_sequence`, a number below the next free one
  -- fails the assertion.
  unfoldable pub persist_numbered : Session → Text → ℕ → Bool → Option Session
  unfolding persist_in_msg get_next_seq
  persist_numbered s text msg_seq check_in_sequence =
      if not check_in_sequence || leb (get_next_seq s.persister.in_db) msg_seq
      then some (record s {
        persister = persist_in_msg s.persister msg_seq text;
        in_msg_seq_num = msg_seq + 1;
      })
      else none

  -- The text is parsed by the session's own parser; an exception of it, or a message without a
  -- number, ends the call.
  unfoldable pub persist_and_advance : Grammar → Session → Text → Bool → Option Session
  unfolding persist_numbered parse seq_num
  persist_and_advance g s text check_in_sequence =
      let (result, q) = parse g s.sp text in
      elim result [
        | raised e ↦ none
        | no_message ↦ none
        | returned m fix_string discarded_text ↦ elim (seq_num m) [
          | none ↦ none
          | some n ↦ persist_numbered (record s { sp = q }) text n check_in_sequence
        ]
      ]
