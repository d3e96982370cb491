-- ===== src/Comments/Autogrow.antt =====
-- `$.fn.autogrow` of doc/build/html/_static/websupport.js: the timers by which a text area grows
-- while it has the focus.
mod Tests
pub mod Timers
use pyfix.Base.{
  ℕ, ◌+◌, Bool, true, false, List, [], ◌∷◌, ◌++◌, Option, none, some, Text, ◌==◌, if◌then◌else◌,
}

-- A text area: `interval`, the timers that run for it, and the number of the next timer.
pub record TextArea : Type 0 where
  pub interval : Option ℕ
  pub running : List ℕ
  pub next : ℕ

unfoldable pub grow_area : ℕ → TextArea
grow_area next = record { interval = none; running = []; next = next }

-- `setInterval` gives a number that no earlier timer had.
unfoldable pub focus_area : TextArea → TextArea
focus_area a = record {
  interval = some a.next;
  running = a.running ++ a.next ∷ [];
  next = a.next + 1;
}

unfoldable pub clear_interval : ℕ → List ℕ → List ℕ
clear_interval n [] = []
clear_interval n (m ∷ ms) = let rest = clear_interval n ms in if m == n then rest else m ∷ rest

unfoldable pub blur_area : TextArea → TextArea
unfolding clear_interval
blur_area a = elim a.interval [
  | none ↦ a
  | some n ↦ record a { running = clear_interval n a.running }
]
