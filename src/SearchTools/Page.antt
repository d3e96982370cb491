-- ===== src/SearchTools/Page.antt =====
-- The state of the search page in doc/build/html/_static/searchtools.js: the index that arrives late,
-- the query that waits for it, and the pulsing dots.
pub mod Queries
pub mod Pulse
mod Tests
use pyfix.Base.{
  ℕ, zero, suc, ◌+◌, ◌%◌, Bool, true, false, not, List, [], ◌∷◌, ◌++◌, Option, none, some, Text,
  if◌then◌else◌,
}
use pyfix.Base.Int.{ℤ, pos, negsuc, ltb_ℤ}

module _ (I : Type 0) where
  -- The fields of `Search`, the number of timers that wait for `pulse`, and the queries run so far,
  -- each with its index.
  pub record Search : Type 0 where
    pub index : Option I
    pub queued_query : Option Text
    pub pulse_status : ℤ
    pub dots : Text
    pub timers : ℕ
    pub queries : List (I × Text)

-- `-n`
abbrev pub negated : ℕ → ℤ
negated zero = pos 0
negated (suc n) = negsuc n

-- `(status + 1) % 4`, whose sign is that of `status + 1`.
unfoldable pub next_status : ℤ → ℤ
next_status (pos n) = pos ((n + 1) % 4)
next_status (negsuc n) = negated (n % 4)

-- A dot for each `i` from 0 below the status.
unfoldable pub dots_of : ℕ → Text
dots_of zero = []
dots_of (suc n) = b'.' ∷ dots_of n

unfoldable pub dot_string : ℤ → Text
unfolding dots_of
dot_string (pos n) = dots_of n
dot_string (negsuc n) = []

module _ {I : Type 0} where
  unfoldable pub start_page : Search I
  start_page = record {
    index = none;
    queued_query = none;
    pulse_status = negsuc 0;
    dots = [];
    timers = 0;
    queries = [];
  }

  -- `query`, once there is an index.
  unfoldable pub run_query : I → Text → Search I → Search I
  run_query i q s = record s { queries = s.queries ++ (i, q) ∷ [] }

  unfoldable pub set_index : I → Search I → Search I
  unfolding run_query
  set_index i s = elim s.queued_query [
    | none ↦ record s { index = some i }
    | some q ↦ run_query i q (record s { index = some i; queued_query = none })
  ]

  unfoldable pub defer_query : Text → Search I → Search I
  defer_query q s = record s { queued_query = some q }

  unfoldable pub stop_pulse : Search I → Search I
  stop_pulse s = record s { pulse_status = pos 0 }

  unfoldable pub pulse : Search I → Search I
  unfolding next_status dot_string
  pulse s =
      let n = next_status s.pulse_status in
      record s {
        pulse_status = n;
        dots = dot_string n;
        timers = if ltb_ℤ (negsuc 0) n then s.timers + 1 else s.timers;
      }

  unfoldable pub start_pulse : Search I → Search I
  unfolding pulse
  start_pulse s = if not (ltb_ℤ s.pulse_status (pos 0)) then s else pulse s

  unfoldable pub perform_search : Text → Search I → Search I
  unfolding start_pulse run_query defer_query
  perform_search q s =
      let t = start_pulse s in elim t.index [ none ↦ defer_query q t | some i ↦ run_query i q t ]

-- What happens to the page: a search, the arrival of an index, a timer that fires, and the end of the
-- display of results.
pub data Event (I : Type 0) : Type 0 where
  search : Text → Event I
  arrive : I → Event I
  fire : Event I
  shown : Event I

module _ {I : Type 0} where
  -- A timer that fires is no longer waiting.
  unfoldable pub fire_timer : Search I → Search I
  unfolding pulse
  fire_timer s = elim s.timers [ zero ↦ s | suc k ↦ pulse (record s { timers = k }) ]

  unfoldable pub handle : Event I → Search I → Search I
  unfolding perform_search set_index fire_timer stop_pulse
  handle (search q) s = perform_search q s
  handle (arrive i) s = set_index i s
  handle fire s = fire_timer s
  handle shown s = stop_pulse s

  unfoldable pub handle_all : List (Event I) → Search I → Search I
  unfolding handle
  handle_all [] s = s
  handle_all (e ∷ es) s = handle_all es (handle e s)

  -- The queries of the searches, in order.
  unfoldable pub asked : List (Event I) → List Text
  asked [] = []
  asked (search q ∷ es) = q ∷ asked es
  asked (arrive i ∷ es) = asked es
  asked (fire ∷ es) = asked es
  asked (shown ∷ es) = asked es
