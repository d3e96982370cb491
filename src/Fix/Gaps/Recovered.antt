-- ===== src/Fix/Gaps/Recovered.antt =====
-- One side answers a request, and the other side takes the answer message by message.
use pyfix.Base.{
  ℕ, zero, suc, ◌+◌, ◌-◌, ◌<◌, ◌≤◌, ◌≡◌, refl, sym, ap, ◌∙◌, subst, Bool, true, All, List, [], ◌∷◌,
  ◌++◌, map, Option, some, arith, max,
}
use pyfix.Fix.Message.{Native, Message, seq_num, find_field, field}
use pyfix.Fix.Recno.{Recno}
use pyfix.Fix.Validate.{Spec}
use pyfix.Fix.Session.{Session}
use pyfix.Fix.Parser.{Grammar}
use pyfix.Fix.Resend.{count_from, range, Detail, gap, again, gap_fill, stop_number, resend_details}
use pyfix.Fix.Resend.Covered.{entries, stored, IsReadable, resend_details-entries}
use pyfix.Fix.Gaps.{
  GapProcessing, open_gap, fill_gaps, recover_message, field_number, is_reset, Handled, close_gaps,
  on_gap_fill, on_msg, receive,
}
use pyfix.Fix.Gaps.Filled.{AllBelow, recover-one, AllBelow-append}
use pyfix.Fix.Gaps.Answered.{items_of, numbered, fill_gaps-Reached}
use pyfix.Fix.Gaps.Stored.{IsBelow}
use pyfix.Fix.Gaps.Queued.{
  Arrives, AllArrive, contents, contents-append, contents-delivered, contents-placed, IsAscending,
  IsAscending-append, IsBelow-up, IsBelow-append,
}
use pyfix.Fix.Gaps.Closing.{Waits, Recovers, receive-Recovers}

module _ (g : Grammar) (is_session : Message → Bool) (r : Recno) (can_format : Bool) (spec : Spec)
    (now : ℕ → Native) (f : ℕ → Option Message) where
  on_msg-gap :
      (s : Session r) (p q : GapProcessing) (a b : ℕ) (m : Message)
      → Arrives (gap a b) m
      → fill_gaps (range a (b + 1)) p ≡ some q
      → on_msg g is_session r can_format spec now s p m a true
        ≡ close_gaps g r (record s { in_msg_seq_num = max s.in_msg_seq_num (b + 1) }) q []
  unfolding on_msg on_gap_fill field_number is_reset find_field gap_fill field
  on_msg-gap s p q a b m (c, e, h) k = ground (arith, c, e, h, k)

  on_msg-again :
      (s : Session r) (p : GapProcessing) (a : ℕ) (o m : Message)
      → Arrives (again o) m
      → on_msg g is_session r can_format spec now s p m a true
        ≡ close_gaps g r s (recover_message a m p) []
  unfolding on_msg
  on_msg-again s p a o m (c, e, h, k) = ground (arith, c)

  receive-AllArrive :
      (ds : List Detail) (ms : List Message) (s : Session r) (p : GapProcessing) (i n : ℕ)
      → AllArrive ds ms
      → entries ds ≡ map (numbered f) (count_from i n)
      → Waits g is_session r can_format spec now f s p i n
      → i ≤ p.last_sequence
      → Recovers g is_session r can_format spec now f s p i n ms
  unfolding count_from
  receive-AllArrive [] [] s p i zero v e w l =
      let never : ⊥ = omega (arith, w.within, l) in absurd never
  receive-AllArrive [] [] s p i (suc n) v e w l = let never : ⊥ = cc in absurd never
  receive-AllArrive [] (m ∷ ms) s p i n v e w l = absurd v
  receive-AllArrive (d ∷ ds) [] s p i n v e w l = absurd v
  receive-AllArrive (gap a b ∷ ds) (m ∷ ms) s p i n (v, vs) e w l =
      let (q, filled, same, reached) =
        fill_gaps-Reached f (range a (b + 1)) p i n (entries ds) e w.is_from w.below in
      let t = record s { in_msg_seq_num = max s.in_msg_seq_num (b + 1) } in
      let up : s.in_msg_seq_num ≤ t.in_msg_seq_num = ground arith in
      let waits : Waits g is_session r can_format spec now f t q reached.at reached.count = record {
        is_from = reached.is_from;
        below = reached.below;
        ascending = subst IsAscending (sym same) w.ascending;
        known =
            subst (All (IsBelow t.in_msg_seq_num)) (sym same)
              (IsBelow-up s.in_msg_seq_num t.in_msg_seq_num p.gap_queue up w.known);
        before = ground (arith, reached.last, w.before, up);
        within = ground (arith, reached.last, w.within, reached.total);
      } in
      receive-Recovers g is_session r can_format spec now f s t p q a i n reached.at reached.count m
        ms v.1 (on_msg-gap s p q a b m v filled) waits reached.last refl reached.total
        (sym (contents-append q.gap_queue (items_of f (count_from reached.at reached.count)))
          ∙ ap contents (sym reached.items)
          ∙ contents-append p.gap_queue (items_of f (count_from i n)))
        (receive-AllArrive ds ms t q reached.at reached.count vs reached.still waits)
  receive-AllArrive (again o ∷ ds) (m ∷ ms) s p i zero v e w l = let never : ⊥ = cc in absurd never
  receive-AllArrive (again o ∷ ds) (m ∷ ms) s p i (suc n) (v, vs) e w l =
      let number : seq_num o ≡ some i = ground (arith, e) in
      let held : f i ≡ some o = ground (arith, e) in
      let tail : entries ds ≡ map (numbered f) (count_from (i + 1) n) = ground (arith, e) in
      let q = recover_message i m p in
      let (is_from, last, queue) = recover-one i m p w.is_from w.below in
      let arrived : seq_num m ≡ some i = v.1 ∙ number in
      let waits : Waits g is_session r can_format spec now f s q (i + 1) n = record {
        is_from = is_from;
        below = subst (AllBelow (i + 1)) (sym queue) (AllBelow-append i m p.gap_queue w.below);
        ascending =
            subst IsAscending (sym queue) (IsAscending-append i m p.gap_queue w.ascending w.below);
        known = subst (All (IsBelow s.in_msg_seq_num)) (sym queue) (
            IsBelow-append i s.in_msg_seq_num m p.gap_queue w.known arrived
              (omega (arith, l, w.before)));
        before = ground (arith, last, w.before);
        within = ground (arith, last, w.within);
      } in
      receive-Recovers g is_session r can_format spec now f s s p q i i (suc n) (i + 1) n m ms
        arrived (on_msg-again s p i o m v) waits last refl (omega arith)
        (contents-placed f i m o q p (count_from (i + 1) n) queue held v.2 v.3)
        (receive-AllArrive ds ms s q (i + 1) n vs tail waits)

module _ (g : Grammar) (is_session : Message → Bool) (r : Recno) (can_format : Bool) (spec : Spec)
    (now : ℕ → Native) where
  -- A side with readable outgoing storage, which has sent the number `msg_seq_num`, lists the details
  -- of a request from `expected` to the last number, and `expected` is not above `msg_seq_num`. The
  -- other side's expected number is above `msg_seq_num` when it waits for the gaps from `expected` to
  -- `msg_seq_num`. If each detail arrives as a possible duplicate, in the order of the list, a gap as a
  -- gap fill with its first number and a message with its number, type and fields, then the gaps
  -- close behind a number from `msg_seq_num` on; the application messages stored up to this number,
  -- from `expected` on, are delivered in the order of their numbers; and nothing is stored.
  pub receive-resend_details :
      (s t : Session r) (expected msg_seq_num : ℕ) (ds : List Detail) (ms : List Message)
      → IsReadable g r s.persister.out_db
      → msg_seq_num < s.out_msg_seq_num
      → expected ≤ msg_seq_num
      → msg_seq_num < t.in_msg_seq_num
      → resend_details g is_session r s expected 0 ≡ some ds
      → AllArrive ds ms
      → (handled : Handled r) × (rest : List Message) × (next : ℕ) × (receive g is_session r
            can_format spec now t
            (open_gap expected msg_seq_num)
            ms
          ≡ some (handled, rest))
        × (msg_seq_num < next)
        × (contents handled.delivered
            ≡ contents (items_of (stored g is_session r s.persister.out_db) (range expected next)))
        × (handled.session.persister ≡ t.persister)
  unfolding open_gap stop_number range
  receive-resend_details s t expected number ds ms readable sent before above listed arrived =
      let f = stored g is_session r s.persister.out_db in
      let (es, same, e) = resend_details-entries g is_session r s expected 0 readable in
      let equal : es ≡ ds = ground (arith, same, listed) in
      let found =
        receive-AllArrive g is_session r can_format spec now f ds ms t (open_gap expected number)
          expected (s.out_msg_seq_num - expected) arrived (ap entries (sym equal) ∙ e)
          (record {
            is_from = refl;
            below = tt;
            ascending = tt;
            known = tt;
            before = above;
            within = omega (arith, sent, before);
          })
          before in
      let at : expected + (found.at - expected) ≡ found.at = omega (arith, before, found.beyond) in
      let all : found.at - expected + found.count ≡ s.out_msg_seq_num - expected =
        omega (arith, before, found.beyond, found.total) in
      (
        found.handled,
        found.rest,
        found.at,
        found.ran,
        found.beyond,
        contents-delivered f found.handled.delivered expected (found.at - expected) found.count (
            ap
              (λ a.
                contents found.handled.delivered
                ++ contents (items_of f (count_from a found.count)))
              at
            ∙ found.items
            ∙ ap (λ k. contents (items_of f (count_from expected k))) (sym all)),
        found.unstored,
      )
