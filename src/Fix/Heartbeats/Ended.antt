-- ===== src/Fix/Heartbeats/Ended.antt =====
-- What is left of the timers when a connection ends.
use pyfix.Base.{
  ℕ, ◌≡◌, sym, ap, ◌∙◌, subst, Bool, true, false, Bool-cases, All, List, [], ◌∷◌, ◌++◌, map, Option,
  none, some, Text, append_assoc, arith, text_eq, inl, inr, Option-cases,
}
use pyfix.Fix.Message.{Message}
use pyfix.Fix.Heartbeats.{
  DelayedCall, Reactor, pending, logged_out_state, is_logged_out, Protocol, write, write_compiled,
  set_check, get_check, check_test_request_acknowledged, cancel_all, calls, clean_up_and_die,
  connection_lost,
}
use pyfix.Fix.Heartbeats.Waiting.{Event, run, TextPending, OptionPending, IsWaiting, run-Kept}

module _ (compiles : Message → Bool) (r : Reactor) where
  All-append_pending :
      (cs ds : List DelayedCall)
      → All (λ c. c ≡ pending) cs
      → All (λ c. c ≡ pending) ds
      → All (λ c. c ≡ pending) (cs ++ ds)
  All-append_pending [] ds h k = k
  All-append_pending (c ∷ cs) ds (h, hs) k = (h, All-append_pending cs ds hs k)

  heartbeat_calls-pending :
      (o : Option DelayedCall)
      → OptionPending o
      → All (λ c. c ≡ pending) (elim o as (λ x. List DelayedCall) [ none ↦ [] | some c ↦ c ∷ [] ])
  heartbeat_calls-pending none h = tt
  heartbeat_calls-pending (some c) h = (h, tt)

  cancel_all-fired :
      (cs ds : List DelayedCall)
      → All (λ c. c ≡ pending) cs
      → cancel_all r (cs ++ record { fired = true; cancelled = false } ∷ ds) ≡ false
  unfolding cancel_all
  cancel_all-fired [] ds h = ground (arith, r.cancel-fired)
  cancel_all-fired (c ∷ cs) ds (h, hs) =
      ground (arith, h, r.cancel-pending, cancel_all-fired cs ds hs)

  -- The entry of a call that has fired, behind others.
  set_check-fired :
      (k : Text) (d : List (Text × DelayedCall)) (c : DelayedCall)
      → All TextPending d
      → get_check k d ≡ some c
      → (before after : List DelayedCall) × (map
            (λ (t : Text × DelayedCall). t.1)
            (set_check k (record c { fired = true }) d)
          ≡ before ++ record { fired = true; cancelled = false } ∷ after)
        × All (λ a. a ≡ pending) before
  unfolding set_check get_check
  set_check-fired k [] c h e = let never : ⊥ = cc in absurd never
  set_check-fired k ((j, b) ∷ d) c (h, hs) e = elim (Bool-cases (text_eq j k)) [
    | inl f ↦
        let same : c ≡ pending = ground (arith, f, h, e) in
        ([], map (λ (t : Text × DelayedCall). t.1) d, ground (arith, f, same), tt)
    | inr f ↦
        let (before, after, m, p) = set_check-fired k d c hs (ground (arith, f, e)) in
        (b ∷ before, after, ground (arith, f, m), (h, p))
  ]

  fired-fails :
      (f : Protocol) (before after : List DelayedCall)
      → OptionPending f.send_heartbeat_call
      → map (λ (t : Text × DelayedCall). t.1) f.test_request_checks
        ≡ before ++ record { fired = true; cancelled = false } ∷ after
      → All (λ c. c ≡ pending) before
      → cancel_all r (calls r f) ≡ false
  fired-fails f before after o m w =
      let first = elim f.send_heartbeat_call as (λ x. List DelayedCall) [
        | none ↦ []
        | some c ↦ c ∷ []
      ] in
      let late = map (λ (t : ℕ × DelayedCall). t.1) f.heartbeat_checks in
      let tail = record { fired = true; cancelled = false } ∷ after in
      ap (cancel_all r) (
        ap (λ t. first ++ t ++ late) m
        ∙ ap (λ t. t ++ late) (sym (append_assoc first before tail))
        ∙ append_assoc (first ++ before) tail late)
      ∙ cancel_all-fired (first ++ before) (after ++ late)
          (All-append_pending first before (heartbeat_calls-pending f.send_heartbeat_call o) w)

  ended-early :
      (f : Protocol) {session : Bool}
      → cancel_all r (calls r f) ≡ false
      → is_logged_out f.state ≡ false
      → f.has_session ≡ session
      → (clean_up_and_die r f ≡ (record f { state = logged_out_state }, false))
        × (connection_lost r (clean_up_and_die r f).0 ≡ ((clean_up_and_die r f).0, true))
        × ((clean_up_and_die r f).0.has_session ≡ session)
  unfolding clean_up_and_die connection_lost
  ended-early f h k e = (ground (arith, h, k), ground (arith, h, k), ground (arith, h, k, e))

  -- If after such a run a test request is not answered in time, the end of the connection raises an
  -- exception before it releases the session, because the check that has fired is still among the
  -- calls and cannot be cancelled; and the loss of the connection changes nothing more.
  pub clean_up_and_die-check_test_request_acknowledged :
      (es : List Event) (p q f : Protocol) (challenge : Text)
      → IsWaiting p
      → is_logged_out p.state ≡ false
      → run compiles r es p ≡ some q
      → check_test_request_acknowledged compiles challenge q ≡ some f
      → (clean_up_and_die r f ≡ (record f { state = logged_out_state }, false))
        × (connection_lost r (clean_up_and_die r f).0 ≡ ((clean_up_and_die r f).0, true))
        × ((clean_up_and_die r f).0.has_session ≡ p.has_session)
  unfolding check_test_request_acknowledged write_compiled write
  clean_up_and_die-check_test_request_acknowledged es p q f challenge w n h k =
      let (v, s, b) = run-Kept compiles r es p q h w in
      elim (Option-cases (get_check challenge q.test_request_checks)) [
        | inl e ↦ let never : ⊥ = ground (arith, e, k) in absurd never
        | inr (c, e) ↦
            let (before, after, m, w2) =
              set_check-fired challenge q.test_request_checks c v.tests e in
            let tests : f.test_request_checks
                ≡ set_check challenge (record c { fired = true }) q.test_request_checks =
              ground (arith, e, k) in
            let same : (f.state ≡ q.state)
                × (f.has_session ≡ q.has_session)
                × (f.send_heartbeat_call ≡ q.send_heartbeat_call) =
              (ground (arith, e, k), ground (arith, e, k), ground (arith, e, k)) in
            let waiting = subst OptionPending (sym same.2) v.heartbeat in
            let failed =
              fired-fails f before after waiting
                (ap (map (λ (t : Text × DelayedCall). t.1)) tests ∙ m) w2 in
            let open_state : is_logged_out f.state ≡ false = ap is_logged_out (same.0 ∙ s) ∙ n in
            ended-early f failed open_state (same.1 ∙ b)
      ]
