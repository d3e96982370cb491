-- ===== src/Comments/Autogrow/Timers.antt =====
-- The timers of a text area.
use pyfix.Base.{ℕ, zero, suc, ◌≡◌, [], arith}
use pyfix.Comments.Autogrow.{TextArea, focus_area, clear_interval, blur_area}

-- The focus comes and goes so many times.
abbrev pub visits : ℕ → TextArea → TextArea
visits zero a = a
visits (suc n) a = visits n (blur_area (focus_area a))

running-blur_area : (a : TextArea) → a.running ≡ [] → (blur_area (focus_area a)).running ≡ []
unfolding blur_area focus_area clear_interval
running-blur_area a h = ground arith

-- A text area from which the focus has gone as often as it came has no timer left.
pub running-visits : (n : ℕ) (a : TextArea) → a.running ≡ [] → (visits n a).running ≡ []
running-visits zero a h = h
running-visits (suc n) a h = running-visits n (blur_area (focus_area a)) (running-blur_area a h)
