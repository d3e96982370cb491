-- ===== src/Fix/Gaps/Tests.antt =====
-- The first messages of a session are lost, asked for, and sent again.
use pyfix.Base.{true, ℕ, ◌<◌, codes, ◌≡◌, refl, All, List, [], ◌∷◌, some, arith}
use pyfix.Fix.Message.{field, int, str, Message}
use pyfix.Fix.Recno.{records}
use pyfix.Fix.Session.{Session}
use pyfix.Fix.Parser.Samples.{grammar, order, heartbeat}
use pyfix.Fix.Resend.{gap, again, gap_fill, range}
use pyfix.Fix.Message.{seq_num}
use pyfix.Fix.Resend.Covered.{stored}
use pyfix.Fix.Resend.Tests.{is_session, sent, sent-IsReadable, resend_details_runs}
use pyfix.Fix.Gaps.{GapProcessing, Handled, receive, open_gap, close_gaps, sort_items, from_number}
use pyfix.Fix.Tests.{spec}
use pyfix.Fix.Gaps.Answered.{items_of}
use pyfix.Fix.Gaps.Queued.{AllArrive, contents}
use pyfix.Fix.Gaps.Recovered.{receive-resend_details}
use pyfix.Fix.Gaps.Stored.{IsBelow, close_gaps-IsBelow}

abbrev receiver : Session records
receiver = record sent { in_msg_seq_num = 4 }

-- What the other side receives for the two details.
abbrev order_again : Message
order_again = record order { header_fields = field (codes "34") (int 1) ∷ [] }

abbrev gap_filled : Message
gap_filled = record (gap_fill 3) { header_fields = field (codes "34") (int 2) ∷ [] }

arrived : AllArrive (again order ∷ gap 2 3 ∷ []) (order_again ∷ gap_filled ∷ [])
unfolding field seq_num gap_fill
arrived = ((refl, refl, refl, refl), ((refl, refl, refl), tt))

receive-resend_details_example :
    (handled : Handled records) × (rest : List Message) × (next : ℕ) × (receive grammar is_session
        records true spec
        (λ n. str [])
        receiver
        (open_gap 1 3)
        (order_again ∷ gap_filled ∷ [])
      ≡ some (handled, rest))
    × (3 < next)
    × (contents handled.delivered
        ≡ contents
            (items_of (stored grammar is_session records sent.persister.out_db) (range 1 next)))
    × (handled.session.persister ≡ receiver.persister)
receive-resend_details_example =
    receive-resend_details grammar is_session records true spec (λ n. str []) sent receiver 1 3
      (again order ∷ gap 2 3 ∷ []) (order_again ∷ gap_filled ∷ []) sent-IsReadable (omega arith)
      (omega arith) (omega arith) resend_details_runs arrived

-- The order is recovered, and a message 4 waits.
abbrev filled : GapProcessing
filled = record {
  gaps = [];
  gap_queue = (2, heartbeat) ∷ (1, order) ∷ [];
  last_sequence = 3;
  pending_application_messages = (4, order) ∷ [];
}

filled-IsBelow : All (IsBelow 4) filled.gap_queue
unfolding seq_num field
filled-IsBelow = ((2, refl, omega arith), ((1, refl, omega arith), tt))

close_gaps-IsBelow_runs :
    close_gaps grammar records receiver filled []
    ≡ some (record {
      session = receiver;
      processing = record filled { gap_queue = [] };
      written = [];
      delivered = sort_items ((2, heartbeat) ∷ (1, order) ∷ []);
      replayed = sort_items (from_number 4 ((4, order) ∷ []));
    })
close_gaps-IsBelow_runs = close_gaps-IsBelow grammar records receiver filled [] refl filled-IsBelow
