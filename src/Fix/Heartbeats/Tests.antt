-- ===== src/Fix/Heartbeats/Tests.antt =====
-- A heartbeat, a check, and a test request with and without an answer.
use pyfix.Base.{◌≡◌, refl, true, false, List, [], ◌∷◌, none, some, codes, if◌then◌else◌}
use pyfix.Fix.Message.{str, field}
use pyfix.Fix.Heartbeats.{
  is_cancelled, already_called, already_cancelled, Reactor, pending, normal_message_processing,
  logged_out_state, Protocol, session_message, write, set_check, get_check, set_token, get_token,
  delete_token, check_test_request_acknowledged, clean_up_and_die, connection_lost,
}
use pyfix.Fix.Heartbeats.Waiting.{Event, heartbeat_due, check_due, run, IsWaiting}
use pyfix.Fix.Heartbeats.Ended.{clean_up_and_die-check_test_request_acknowledged}

abbrev reactor : Reactor
reactor = record {
  cancel = λ c.
      if c.cancelled then already_cancelled else if c.fired then already_called else is_cancelled;
  cancel-pending = refl;
  cancel-fired = refl;
  cancel-cancelled = refl;
}

abbrev connected : Protocol
connected = record {
  state = normal_message_processing;
  send_heartbeat_call = none;
  test_request_checks = [];
  heartbeat_checks = [];
  has_session = true;
  written = [];
}

abbrev events : List Event
events = heartbeat_due 1 ∷ check_due (codes "T") 1 ∷ []

-- The check is answered by a test request.
abbrev asked : Protocol
asked = record connected {
  send_heartbeat_call = some pending;
  test_request_checks = (codes "T", pending) ∷ [];
  written =
      session_message (codes "0") []
      ∷ session_message (codes "1") (field (codes "112") (str (codes "T")) ∷ [])
      ∷ [];
}

connected-IsWaiting : IsWaiting connected
connected-IsWaiting = record { heartbeat = tt; tests = tt; checks = tt }

run_runs : run (λ m. true) reactor events connected ≡ some asked
unfolding run write set_token get_token delete_token set_check
run_runs = refl

abbrev unanswered : Protocol
unanswered = record asked {
  test_request_checks = (codes "T", record pending { fired = true }) ∷ [];
  written =
      session_message (codes "0") []
      ∷ session_message (codes "1") (field (codes "112") (str (codes "T")) ∷ [])
      ∷ session_message (codes "5")
          (field (codes "58") (str (codes "No response to test request T")) ∷ [])
      ∷ [];
}

check_runs : check_test_request_acknowledged (λ m. true) (codes "T") asked ≡ some unanswered
unfolding check_test_request_acknowledged write get_check set_check
check_runs = refl

clean_up_and_die-check_test_request_acknowledged_example :
    (clean_up_and_die reactor unanswered ≡ (record unanswered { state = logged_out_state }, false))
    × (connection_lost reactor (clean_up_and_die reactor unanswered).0
        ≡ ((clean_up_and_die reactor unanswered).0, true))
    × ((clean_up_and_die reactor unanswered).0.has_session ≡ true)
clean_up_and_die-check_test_request_acknowledged_example =
    clean_up_and_die-check_test_request_acknowledged (λ m. true) reactor events connected asked
      unanswered (codes "T") connected-IsWaiting refl run_runs check_runs
