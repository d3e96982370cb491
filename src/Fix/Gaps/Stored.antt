-- ===== src/Fix/Gaps/Stored.antt =====
-- What is stored of the messages that were sent again.
use pyfix.Base.{
  ℕ, ◌<◌, ◌≡◌, refl, subst, Bool-cases, All, List, [], ◌∷◌, some, Text, arith, leb, inl, inr,
}
use pyfix.Fix.Message.{Message}
use pyfix.Fix.Parser.{Grammar}
use pyfix.Fix.Recno.{Recno}
use pyfix.Fix.Session.{Session}
use pyfix.Fix.Message.{seq_num}
use pyfix.Fix.Gaps.{GapProcessing, place_item, sort_items, from_number, store_recovered, close_gaps}

-- A message whose number is below another one.
abbrev pub IsBelow : ℕ → ℕ × Message → Type 0
IsBelow n (k, m) = (i : ℕ) × (seq_num m ≡ some i) × (i < n)

place_item-IsBelow :
    (n : ℕ) (x : ℕ × Message) (ys : List (ℕ × Message))
    → IsBelow n x
    → All (IsBelow n) ys
    → All (IsBelow n) (place_item x ys)
unfolding place_item
place_item-IsBelow n x [] h hs = (h, tt)
place_item-IsBelow n x (y ∷ ys) h (k, hs) = elim (Bool-cases (leb x.0 y.0)) [
  | inl e ↦ subst (All (IsBelow n)) {x = x ∷ y ∷ ys} (ground (arith, e)) (h, (k, hs))
  | inr e ↦
      subst (All (IsBelow n)) {x = y ∷ place_item x ys} (ground (arith, e))
        (k, place_item-IsBelow n x ys h hs)
]

sort_items-IsBelow :
    (n : ℕ) (xs : List (ℕ × Message)) → All (IsBelow n) xs → All (IsBelow n) (sort_items xs)
unfolding sort_items
sort_items-IsBelow n [] h = tt
sort_items-IsBelow n (x ∷ xs) (h, hs) =
    place_item-IsBelow n x (sort_items xs) h (sort_items-IsBelow n xs hs)

module _ (g : Grammar) (r : Recno) where
  store_recovered-IsBelow :
      (s : Session r) (items : List (ℕ × Message))
      → All (IsBelow s.in_msg_seq_num) items
      → store_recovered g r s items ≡ some s
  unfolding store_recovered
  store_recovered-IsBelow s [] h = refl
  store_recovered-IsBelow s ((k, m) ∷ items) ((i, e, l), hs) =
      ground (arith, e, l, store_recovered-IsBelow s items hs)

  -- When the last gap closes, recovered messages with numbers below the expected one leave the session
  -- as it is.
  pub close_gaps-IsBelow :
      (s : Session r) (p : GapProcessing) (written : List Text)
      → p.gaps ≡ []
      → All (IsBelow s.in_msg_seq_num) p.gap_queue
      → close_gaps g r s p written
        ≡ some (record {
          session = s;
          processing = record p { gap_queue = [] };
          written = written;
          delivered = sort_items p.gap_queue;
          replayed = sort_items (from_number s.in_msg_seq_num p.pending_application_messages);
        })
  unfolding close_gaps
  close_gaps-IsBelow s p written h b = ground (
    arith,
    h,
    store_recovered-IsBelow s (sort_items p.gap_queue)
        (sort_items-IsBelow s.in_msg_seq_num p.gap_queue b),
  )
