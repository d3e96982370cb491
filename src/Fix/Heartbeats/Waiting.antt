-- ===== src/Fix/Heartbeats/Waiting.antt =====
-- While a connection lasts, the calls that the protocol knows are still to come.
use pyfix.Base.{
  ℕ, ◌≡◌, refl, sym, ap, ◌∙◌, subst, Bool-cases, Bool, true, All, List, [], ◌∷◌, Option, none, some,
  some-injective, Text, arith, text_eq, ◌==◌, ◌⊎◌, inl, inr, Option-cases,
}
use pyfix.Fix.Message.{Message}
use pyfix.Fix.Heartbeats.{
  DelayedCall, is_cancelled, Reactor, pending, is_normal, Protocol, write, write_compiled,
  set_check, get_check, delete_check, set_token, get_token, delete_token, send_heartbeat,
  check_heartbeat, cancel_checks, on_heartbeat,
}

-- A timer that fires, or a heartbeat that arrives.
pub data Event : Type 0 where
  heartbeat_due : ℕ → Event
  check_due : Text → ℕ → Event
  got_heartbeat : Option Text → Event

unfoldable pub handle : (Message → Bool) → Reactor → Event → Protocol → Option Protocol
unfolding send_heartbeat check_heartbeat on_heartbeat
handle compiles r (heartbeat_due now) p = send_heartbeat compiles now p
handle compiles r (check_due challenge token) p = check_heartbeat compiles challenge token p
handle compiles r (got_heartbeat t) p = on_heartbeat r t p

unfoldable pub run : (Message → Bool) → Reactor → List Event → Protocol → Option Protocol
unfolding handle
run compiles r [] p = some p
run compiles r (e ∷ es) p = elim (handle compiles r e p) [
  | none ↦ none
  | some q ↦ run compiles r es q
]

abbrev pub TextPending : Text × DelayedCall → Type 0
TextPending t = t.1 ≡ pending

abbrev pub TokenPending : ℕ × DelayedCall → Type 0
TokenPending t = t.1 ≡ pending

abbrev pub OptionPending : Option DelayedCall → Type 0
OptionPending none = Unit
OptionPending (some c) = c ≡ pending

-- Every call that the protocol knows is still to come.
pub record IsWaiting (p : Protocol) : Type 0 where
  pub heartbeat : OptionPending p.send_heartbeat_call
  pub tests : All TextPending p.test_request_checks
  pub checks : All TokenPending p.heartbeat_checks

set_check-pending :
    (k : Text) (d : List (Text × DelayedCall))
    → All TextPending d
    → All TextPending (set_check k pending d)
unfolding set_check
set_check-pending k [] h = (refl, tt)
set_check-pending k ((j, b) ∷ d) (h, hs) = elim (Bool-cases (text_eq j k)) [
  | inl e ↦ subst (All TextPending) {x = (k, pending) ∷ d} (ground (arith, e)) (refl, hs)
  | inr e ↦
      subst (All TextPending) {x = (j, b) ∷ set_check k pending d} (ground (arith, e))
        (h, set_check-pending k d hs)
]

delete_check-pending :
    (k : Text) (d : List (Text × DelayedCall))
    → All TextPending d
    → All TextPending (delete_check k d)
unfolding delete_check
delete_check-pending k [] h = tt
delete_check-pending k ((j, b) ∷ d) (h, hs) = elim (Bool-cases (text_eq j k)) [
  | inl e ↦ subst (All TextPending) {x = d} (ground (arith, e)) hs
  | inr e ↦
      subst (All TextPending) {x = (j, b) ∷ delete_check k d} (ground (arith, e))
        (h, delete_check-pending k d hs)
]

get_check-pending :
    (k : Text) (d : List (Text × DelayedCall)) (c : DelayedCall)
    → All TextPending d
    → get_check k d ≡ some c
    → c ≡ pending
unfolding get_check
get_check-pending k [] c h e = let never : ⊥ = cc in absurd never
get_check-pending k ((j, b) ∷ d) c (h, hs) e = elim (Bool-cases (text_eq j k)) [
  | inl f ↦ ground (arith, f)
  | inr f ↦ get_check-pending k d c hs (ground (arith, f))
]

set_token-pending :
    (k : ℕ) (d : List (ℕ × DelayedCall))
    → All TokenPending d
    → All TokenPending (set_token k pending d)
unfolding set_token
set_token-pending k [] h = (refl, tt)
set_token-pending k ((j, b) ∷ d) (h, hs) = elim (Bool-cases (j == k)) [
  | inl e ↦ subst (All TokenPending) {x = (k, pending) ∷ d} (ground (arith, e)) (refl, hs)
  | inr e ↦
      subst (All TokenPending) {x = (j, b) ∷ set_token k pending d} (ground (arith, e))
        (h, set_token-pending k d hs)
]

delete_token-pending :
    (k : ℕ) (d : List (ℕ × DelayedCall)) → All TokenPending d → All TokenPending (delete_token k d)
unfolding delete_token
delete_token-pending k [] h = tt
delete_token-pending k ((j, b) ∷ d) (h, hs) = elim (Bool-cases (j == k)) [
  | inl e ↦ subst (All TokenPending) {x = d} (ground (arith, e)) hs
  | inr e ↦
      subst (All TokenPending) {x = (j, b) ∷ delete_token k d} (ground (arith, e))
        (h, delete_token-pending k d hs)
]

-- The entry of a call that has fired is deleted like any other.
delete_token-set_token :
    (k : ℕ) (c : DelayedCall) (d : List (ℕ × DelayedCall))
    → delete_token k (set_token k c d) ≡ delete_token k d
unfolding delete_token set_token
delete_token-set_token k c [] = ground arith
delete_token-set_token k c ((j, b) ∷ d) = ground (arith, delete_token-set_token k c d)

module _ (compiles : Message → Bool) (r : Reactor) where
  cancel_checks-pending :
      (d : List (ℕ × DelayedCall)) → All TokenPending d → cancel_checks r d ≡ some []
  unfolding cancel_checks
  cancel_checks-pending [] h = refl
  cancel_checks-pending ((k, c) ∷ d) (h, hs) =
      ground (arith, h, r.cancel-pending, cancel_checks-pending d hs)

  abbrev pub Kept : Protocol → Protocol → Type 0
  Kept p q = IsWaiting q × (q.state ≡ p.state) × (q.has_session ≡ p.has_session)

  send_heartbeat-Kept :
      (now : ℕ) (p q : Protocol) → send_heartbeat compiles now p ≡ some q → IsWaiting p → Kept p q
  unfolding send_heartbeat write_compiled write
  send_heartbeat-Kept now p q h w =
      let calls : q.send_heartbeat_call ≡ some pending = ground (arith, h) in
      let tests : q.test_request_checks ≡ p.test_request_checks = ground (arith, h) in
      let checks : q.heartbeat_checks ≡ set_token now pending p.heartbeat_checks =
        ground (arith, h) in
      (
        record {
          heartbeat = subst OptionPending (sym calls) refl;
          tests = subst (All TextPending) (sym tests) w.tests;
          checks =
              subst (All TokenPending) (sym checks)
                (set_token-pending now p.heartbeat_checks w.checks);
        },
        ground (arith, h),
        ground (arith, h),
      )

  check_heartbeat-Kept :
      (challenge : Text) (token : ℕ) (p q : Protocol)
      → check_heartbeat compiles challenge token p ≡ some q
      → IsWaiting p
      → Kept p q
  unfolding check_heartbeat write_compiled write
  check_heartbeat-Kept challenge token p q h w =
      elim (Option-cases (get_token token p.heartbeat_checks)) [
        | inl k ↦ let never : ⊥ = ground (arith, k) in absurd never
        | inr (c, k) ↦
            let calls : q.send_heartbeat_call ≡ p.send_heartbeat_call = ground (arith, k) in
            let checks : q.heartbeat_checks
                ≡ delete_token token
                    (set_token token (record c { fired = true }) p.heartbeat_checks) =
              ground (arith, k) in
            let tests : (q.test_request_checks ≡ set_check challenge pending p.test_request_checks)
                ⊎ (q.test_request_checks ≡ p.test_request_checks) =
              elim (Bool-cases (is_normal p.state)) [
                | inl n ↦ inl (ground (arith, k, n))
                | inr n ↦ inr (ground (arith, k, n))
              ] in
            (
              record {
                heartbeat = subst OptionPending (sym calls) w.heartbeat;
                tests = elim tests [
                  | inl e ↦
                      subst (All TextPending) (sym e)
                        (set_check-pending challenge p.test_request_checks w.tests)
                  | inr e ↦ subst (All TextPending) (sym e) w.tests
                ];
                checks =
                    subst (All TokenPending)
                      (sym (
                        checks
                        ∙ delete_token-set_token token (record c { fired = true })
                            p.heartbeat_checks))
                      (delete_token-pending token p.heartbeat_checks w.checks);
              },
              ground (arith, k),
              ground (arith, k),
            )
      ]

  on_heartbeat-Kept :
      (t : Option Text) (p q : Protocol) → on_heartbeat r t p ≡ some q → IsWaiting p → Kept p q
  unfolding on_heartbeat
  on_heartbeat-Kept none p q h w =
      let k = cancel_checks-pending p.heartbeat_checks w.checks in
      subst (Kept p) {x = record p { heartbeat_checks = [] }} (ground (arith, k))
        (record { heartbeat = w.heartbeat; tests = w.tests; checks = tt }, refl, refl)
  on_heartbeat-Kept (some challenge) p q h w =
      elim (Option-cases (get_check challenge p.test_request_checks)) [
        | inl k ↦ subst (Kept p) {x = p} (ground (arith, k)) (w, refl, refl)
        | inr (c, k) ↦
            let waiting = get_check-pending challenge p.test_request_checks c w.tests k in
            let cancel : r.cancel c ≡ is_cancelled = ap r.cancel waiting ∙ r.cancel-pending in
            subst (Kept p)
              {x = record p { test_request_checks = delete_check challenge p.test_request_checks }}
              (ground (arith, k, cancel))
              (
                record {
                  heartbeat = w.heartbeat;
                  tests = delete_check-pending challenge p.test_request_checks w.tests;
                  checks = w.checks;
                },
                refl,
                refl,
              )
      ]

  handle-Kept :
      (e : Event) (p q : Protocol) → handle compiles r e p ≡ some q → IsWaiting p → Kept p q
  unfolding handle
  handle-Kept (heartbeat_due now) p q h w = send_heartbeat-Kept now p q h w
  handle-Kept (check_due challenge token) p q h w = check_heartbeat-Kept challenge token p q h w
  handle-Kept (got_heartbeat t) p q h w = on_heartbeat-Kept t p q h w

  pub run-Kept :
      (es : List Event) (p q : Protocol) → run compiles r es p ≡ some q → IsWaiting p → Kept p q
  unfolding run
  run-Kept [] p q h w = subst (Kept p) (some-injective _ _ h) (w, refl, refl)
  run-Kept (e ∷ es) p q h w = elim (Option-cases (handle compiles r e p)) [
    | inl k ↦ let never : ⊥ = ground (arith, k) in absurd never
    | inr (m, k) ↦
        let (v, s, b) = handle-Kept e p m k w in
        let (u, t, c) = run-Kept es m q (ground (arith, k, h)) v in (u, t ∙ s, c ∙ b)
  ]
