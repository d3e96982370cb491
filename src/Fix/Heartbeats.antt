-- ===== src/Fix/Heartbeats.antt =====
-- The timers of pyfix/FIXProtocol.py: heartbeats, the checks that the other side is alive, and what is
-- cancelled at the end. A message that is written is the one that is given to `compile_message`.
pub mod Waiting
pub mod Ended
mod Tests
use pyfix.Base.{
  ℕ, ◌≡◌, Bool, true, false, List, [], ◌∷◌, ◌++◌, Option, none, some, Text, codes, text_eq, ◌==◌,
  map, if◌then◌else◌,
}
use pyfix.Fix.Message.{Native, str, Field, field, Message}

-- A call that was scheduled by `reactor.callLater`: whether it has fired, and whether it was cancelled.
pub record DelayedCall : Type 0 where
  pub fired : Bool
  pub cancelled : Bool

-- What `cancel` does: it cancels the call, or raises.
pub data CancelResult : Type 0 where
  is_cancelled already_called already_cancelled : CancelResult

-- The documented behaviour of the reactor's calls, a parameter.
pub record Reactor : Type 0 where
  pub cancel : DelayedCall → CancelResult
  pub cancel-pending : cancel (record { fired = false; cancelled = false }) ≡ is_cancelled
  pub cancel-fired : cancel (record { fired = true; cancelled = false }) ≡ already_called
  pub cancel-cancelled : cancel (record { fired = false; cancelled = true }) ≡ already_cancelled

abbrev pub pending : DelayedCall
pending = record { fired = false; cancelled = false }

pub data State : Type 0 where
  normal_message_processing logged_out_state other_state : State

abbrev pub is_normal : State → Bool
is_normal normal_message_processing = true
is_normal logged_out_state = false
is_normal other_state = false

abbrev pub is_logged_out : State → Bool
is_logged_out normal_message_processing = false
is_logged_out logged_out_state = true
is_logged_out other_state = false

-- `has_session`: a session is bound to the protocol.
pub record Protocol : Type 0 where
  pub state : State
  pub send_heartbeat_call : Option DelayedCall
  pub test_request_checks : List (Text × DelayedCall)
  pub heartbeat_checks : List (ℕ × DelayedCall)
  pub has_session : Bool
  pub written : List Message

abbrev pub session_message : Text → List Field → Message
session_message t fs = record {
  msg_type = field (codes "35") (str t);
  header_fields = [];
  fields = fs;
  footer_fields = [];
}

unfoldable pub write : Message → Protocol → Protocol
write m p = record p { written = p.written ++ m ∷ [] }

-- Dictionaries: `d[k] = c`, `d.has_key(k)` and `del d[k]`.
unfoldable pub set_check :
    Text → DelayedCall → List (Text × DelayedCall) → List (Text × DelayedCall)
set_check k c [] = (k, c) ∷ []
set_check k c ((j, b) ∷ d) =
    let rest = set_check k c d in if text_eq j k then (k, c) ∷ d else (j, b) ∷ rest

unfoldable pub get_check : Text → List (Text × DelayedCall) → Option DelayedCall
get_check k [] = none
get_check k ((j, b) ∷ d) = let rest = get_check k d in if text_eq j k then some b else rest

unfoldable pub delete_check : Text → List (Text × DelayedCall) → List (Text × DelayedCall)
delete_check k [] = []
delete_check k ((j, b) ∷ d) =
    let rest = delete_check k d in if text_eq j k then d else (j, b) ∷ rest

unfoldable pub set_token : ℕ → DelayedCall → List (ℕ × DelayedCall) → List (ℕ × DelayedCall)
set_token k c [] = (k, c) ∷ []
set_token k c ((j, b) ∷ d) =
    let rest = set_token k c d in if j == k then (k, c) ∷ d else (j, b) ∷ rest

unfoldable pub get_token : ℕ → List (ℕ × DelayedCall) → Option DelayedCall
get_token k [] = none
get_token k ((j, b) ∷ d) = let rest = get_token k d in if j == k then some b else rest

unfoldable pub delete_token : ℕ → List (ℕ × DelayedCall) → List (ℕ × DelayedCall)
delete_token k [] = []
delete_token k ((j, b) ∷ d) = let rest = delete_token k d in if j == k then d else (j, b) ∷ rest

-- The reactor runs a call: the object is marked, wherever the protocol refers to it.
unfoldable pub fire_heartbeat : Option DelayedCall → Option DelayedCall
fire_heartbeat none = none
fire_heartbeat (some c) = some (record c { fired = true })

-- Which messages `compile_message` accepts, a parameter; for the others it raises.
module _ (compiles : Message → Bool) where
  unfoldable pub write_compiled : Message → Protocol → Option Protocol
  unfolding write
  write_compiled m p = if compiles m then some (write m p) else none

  -- The call of a heartbeat has fired, if there was one, and is replaced by the next; `now` is the
  -- token of the check. `none` is an exception of `compile_message`.
  unfoldable pub send_heartbeat : ℕ → Protocol → Option Protocol
  unfolding write_compiled set_token fire_heartbeat
  send_heartbeat now p =
      let fired = record p { send_heartbeat_call = fire_heartbeat p.send_heartbeat_call } in
      elim (if is_normal p.state
        then write_compiled (session_message (codes "0") []) fired
        else some fired) [
          | none ↦ none
          | some q ↦ some (record q {
            send_heartbeat_call = some pending;
            heartbeat_checks = set_token now pending q.heartbeat_checks;
          })
        ]

  -- A check is due: its call has fired, and its entry is deleted. `none` is a failed assertion or an
  -- exception of `compile_message`.
  unfoldable pub check_heartbeat : Text → ℕ → Protocol → Option Protocol
  unfolding write_compiled get_token delete_token set_token set_check field
  check_heartbeat challenge token p = elim (get_token token p.heartbeat_checks) [
    | none ↦ none
    | some c ↦
        let fired = set_token token (record c { fired = true }) p.heartbeat_checks in
        let q = record p { heartbeat_checks = delete_token token fired } in
        if is_normal p.state
        then elim (write_compiled
            (session_message (codes "1") (field (codes "112") (str challenge) ∷ [])) q) [
              | none ↦ none
              | some w ↦ some (record w {
                test_request_checks = set_check challenge pending w.test_request_checks;
              })
            ]
        else some q
  ]

  -- No answer to a test request has come in time: its call has fired, and its entry stays.
  unfoldable pub check_test_request_acknowledged : Text → Protocol → Option Protocol
  unfolding write_compiled get_check set_check field
  check_test_request_acknowledged challenge p = elim (get_check challenge p.test_request_checks) [
    | none ↦ none
    | some c ↦
        let reason = codes "No response to test request " ++ challenge in
        let fired = set_check challenge (record c { fired = true }) p.test_request_checks in
        write_compiled (session_message (codes "5") (field (codes "58") (str reason) ∷ []))
          (record p { test_request_checks = fired })
  ]

module _ (r : Reactor) where
  -- The heartbeat checks are cancelled one by one; `none` is an exception of `cancel`.
  unfoldable pub cancel_checks : List (ℕ × DelayedCall) → Option (List (ℕ × DelayedCall))
  cancel_checks [] = some []
  cancel_checks ((k, c) ∷ d) =
      let rest = cancel_checks d in
      elim (r.cancel c) [ is_cancelled ↦ rest | already_called ↦ none | already_cancelled ↦ none ]

  -- A heartbeat answers a test request, or is an ordinary one.
  unfoldable pub on_heartbeat : Option Text → Protocol → Option Protocol
  unfolding cancel_checks get_check delete_check
  on_heartbeat none p = elim (cancel_checks p.heartbeat_checks) [
    | none ↦ none
    | some d ↦ some (record p { heartbeat_checks = d })
  ]
  on_heartbeat (some challenge) p = elim (get_check challenge p.test_request_checks) [
    | none ↦ some p
    | some c ↦ elim (r.cancel c) [
      | is_cancelled ↦
          some (record p { test_request_checks = delete_check challenge p.test_request_checks })
      | already_called ↦ none
      | already_cancelled ↦ none
    ]
  ]

  -- The loop over the calls at the end, up to an exception that is not caught; an earlier
  -- cancellation is.
  unfoldable pub cancel_all : List DelayedCall → Bool
  cancel_all [] = true
  cancel_all (c ∷ cs) =
      let rest = cancel_all cs in
      elim (r.cancel c) [ is_cancelled ↦ rest | already_called ↦ false | already_cancelled ↦ rest ]

  abbrev pub calls : Protocol → List DelayedCall
  calls p =
      (elim p.send_heartbeat_call [ none ↦ [] | some c ↦ c ∷ [] ])
      ++ map (λ t. t.1) p.test_request_checks
      ++ map (λ t. t.1) p.heartbeat_checks

  -- The protocol afterwards, and whether no exception was raised.
  unfoldable pub clean_up_and_die : Protocol → Protocol × Bool
  unfolding cancel_all
  clean_up_and_die p =
      if is_logged_out p.state
      then (p, true)
      else if cancel_all (calls p)
      then (record p { state = logged_out_state; has_session = false }, true)
      else (record p { state = logged_out_state }, false)

  unfoldable pub connection_lost : Protocol → Protocol × Bool
  unfolding clean_up_and_die
  connection_lost p = if is_logged_out p.state then (p, true) else clean_up_and_die p
