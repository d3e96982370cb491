-- ===== src/SearchTools/Page/Pulse.antt =====
-- The timers behind the dots.
use pyfix.Base.{ℕ, ◌<◌, ◌≡◌}
use pyfix.Base.Int.{pos, negsuc}
use pyfix.SearchTools.Page.{Search}

module _ {I : Type 0} where
  abbrev pub IsIdle : Search I → Type 0
  IsIdle s = (s.timers ≡ 0) × (s.pulse_status ≡ negsuc 0)

  -- One timer is waiting, and the dots run from none to three.
  abbrev pub IsPulsing : Search I → Type 0
  IsPulsing s = (n : ℕ) × (s.timers ≡ 1) × (n < 4) × (s.pulse_status ≡ pos n)
