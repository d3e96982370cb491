-- ===== src/Fix/Gaps/Closing.antt =====
-- A message after which gaps are left, or none.
use pyfix.Base.{
  ℕ, ◌+◌, ◌<◌, ◌≤◌, ◌≡◌, refl, ap, ◌∙◌, Bool, true, false, Bool-cases, All, List, [], ◌∷◌, ◌++◌,
  Option, some, arith, ltb, inl, inr,
}
use pyfix.Fix.Message.{Native, Message, seq_num}
use pyfix.Fix.Recno.{Recno}
use pyfix.Fix.Validate.{Spec}
use pyfix.Fix.Session.{Session}
use pyfix.Fix.Parser.{Grammar}
use pyfix.Fix.Resend.{count_from, range}
use pyfix.Fix.Gaps.{GapProcessing, sort_items, Handled, close_gaps, from_number, on_msg, receive}
use pyfix.Fix.Gaps.Filled.{IsFrom, AllBelow, range-cons, range-nil}
use pyfix.Fix.Gaps.Answered.{items_of}
use pyfix.Fix.Gaps.Stored.{IsBelow, close_gaps-IsBelow}
use pyfix.Fix.Gaps.Queued.{contents, IsAscending, sort_items-IsAscending}

module _ (g : Grammar) (is_session : Message → Bool) (r : Recno) (can_format : Bool) (spec : Spec)
    (now : ℕ → Native) (f : ℕ → Option Message) where
  -- The gaps begin at the number i, and n numbers are still to be answered.
  pub record Waits (s : Session r) (p : GapProcessing) (i n : ℕ) : Type 0 where
    pub is_from : IsFrom i p
    pub below : AllBelow i p.gap_queue
    pub ascending : IsAscending p.gap_queue
    pub known : All (IsBelow s.in_msg_seq_num) p.gap_queue
    pub before : p.last_sequence < s.in_msg_seq_num
    pub within : p.last_sequence < i + n

  -- The gaps close behind some of these numbers.
  pub record Recovers (s : Session r) (p : GapProcessing) (i n : ℕ) (ms : List Message)
      : Type 0 where
    pub handled : Handled r
    pub rest : List Message
    pub at : ℕ
    pub count : ℕ
    pub ran : receive g is_session r can_format spec now s p ms ≡ some (handled, rest)
    pub total : at + count ≡ i + n
    pub beyond : p.last_sequence < at
    pub unstored : handled.session.persister ≡ s.persister
    pub items :
        contents handled.delivered ++ contents (items_of f (count_from at count))
        ≡ contents p.gap_queue ++ contents (items_of f (count_from i n))

  receive-closed :
      (s t : Session r) (p q : GapProcessing) (a j k : ℕ) (m : Message) (ms : List Message)
      → seq_num m ≡ some a
      → on_msg g is_session r can_format spec now s p m a true ≡ close_gaps g r t q []
      → Waits t q j k
      → ltb q.last_sequence j ≡ true
      → (h : Handled r) × (receive g is_session r can_format spec now s p (m ∷ ms) ≡ some (h, ms))
        × (h.session ≡ t)
        × (h.delivered ≡ q.gap_queue)
  unfolding receive
  receive-closed s t p q a j k m ms e o w l =
      let closed : q.gaps ≡ [] = w.is_from ∙ range-nil j q.last_sequence l in
      let done = close_gaps-IsBelow g r t q [] closed w.known in
      (
        record {
          session = t;
          processing = record q { gap_queue = [] };
          written = [];
          delivered = sort_items q.gap_queue;
          replayed = sort_items (from_number t.in_msg_seq_num q.pending_application_messages);
        },
        ground (arith, e, o ∙ done, closed),
        refl,
        sort_items-IsAscending q.gap_queue w.ascending,
      )

  receive-open :
      (s t : Session r) (p q : GapProcessing) (a j k : ℕ) (m : Message) (ms : List Message)
      → seq_num m ≡ some a
      → on_msg g is_session r can_format spec now s p m a true ≡ close_gaps g r t q []
      → Waits t q j k
      → ltb q.last_sequence j ≡ false
      → receive g is_session r can_format spec now s p (m ∷ ms)
        ≡ receive g is_session r can_format spec now t q ms
  unfolding receive
  receive-open s t p q a j k m ms e o w l =
      let first : q.gaps ≡ j ∷ range (j + 1) (q.last_sequence + 1) =
        w.is_from ∙ range-cons j q.last_sequence l in
      let left : close_gaps g r t q []
          ≡ some (record {
            session = t;
            processing = q;
            written = [];
            delivered = [];
            replayed = [];
          }) =
        unfold close_gaps in ground (arith, first) in
      ground (arith, e, o ∙ left, first)

  -- A message after which the gaps begin at the number j.
  pub receive-Recovers :
      (s t : Session r) (p q : GapProcessing) (a i n j k : ℕ) (m : Message) (ms : List Message)
      → seq_num m ≡ some a
      → on_msg g is_session r can_format spec now s p m a true ≡ close_gaps g r t q []
      → Waits t q j k
      → q.last_sequence ≡ p.last_sequence
      → t.persister ≡ s.persister
      → j + k ≡ i + n
      → contents q.gap_queue ++ contents (items_of f (count_from j k))
        ≡ contents p.gap_queue ++ contents (items_of f (count_from i n))
      → (j ≤ q.last_sequence → Recovers t q j k ms)
      → Recovers s p i n (m ∷ ms)
  receive-Recovers s t p q a i n j k m ms e o w l u total items next =
      elim (Bool-cases (ltb q.last_sequence j)) [
        | inl c ↦
            let (h, ran, same, delivered) = receive-closed s t p q a j k m ms e o w c in
            record {
              handled = h;
              rest = ms;
              at = j;
              count = k;
              ran = ran;
              total = total;
              beyond = ground (arith, c, l);
              unstored = ap (λ (x : Session r). x.persister) same ∙ u;
              items =
                  ap (λ d. contents d ++ contents (items_of f (count_from j k))) delivered ∙ items;
            }
        | inr c ↦
            let found = next (ground (arith, c)) in
            record {
              handled = found.handled;
              rest = found.rest;
              at = found.at;
              count = found.count;
              ran = receive-open s t p q a j k m ms e o w c ∙ found.ran;
              total = found.total ∙ total;
              beyond = ground (arith, found.beyond, l);
              unstored = found.unstored ∙ u;
              items = found.items ∙ items;
            }
      ]
