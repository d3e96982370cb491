-- ===== src/Fix/Parser/Chunks.antt =====
-- A stream of messages in chunks: nothing is kept back at its end.
use pyfix.Base.{
  ◌+◌, ◌≡◌, ◌≢◌, refl, sym, ap, ◌∙◌, subst, Bool, true, false, List, [], ◌∷◌, ◌++◌, none, some,
  Text, codes, append_assoc, append-nil, starts_with, contains, length, length-append, Bool-cases,
  ◌⊎◌, inl, inr, arith, if◌then◌else◌,
}
use pyfix.Base.Int.{pos, ◌+ℤ◌, ltb_ℤ, pos_add}
use pyfix.Fix.Message.{soh}
use pyfix.Fix.Parser.{
  min_size, Grammar, Event, message, Parser, Fed, reset, join_parts, callbacks, process, feed,
  feed_all,
}
use pyfix.Fix.Parser.Frames.{Frame, parts_of, messages_of, cut-append, join_parts-append}
use pyfix.Fix.Parser.Stream.{concat, ahead-part, length-join_parts, Holding, Handed, process-Handed}

contains-append : (s t k : Text) → contains t k ≡ true → contains (s ++ t) k ≡ true
contains-append [] t k h = h
contains-append (x ∷ s) t k h = ground (arith, contains-append s t k h)

starts_with-append : (x y k : Text) → starts_with x k ≡ true → starts_with (x ++ y) k ≡ true
starts_with-append x y [] h = ground arith
starts_with-append [] y (c ∷ k) h = cc
starts_with-append (v ∷ x) y (c ∷ k) h = ground (arith, starts_with-append x y k)

contains-starts_with : (x k : Text) → starts_with x k ≡ true → contains x k ≡ true
contains-starts_with [] k h = h
contains-starts_with (v ∷ x) k h = ground arith

pub not-one : (c b : List Text) (s : Text) → s ∷ [] ≡ c ++ b → c ≢ [] → b ≢ [] → ⊥
not-one [] b s e n m = n refl
not-one (x ∷ c) [] s e n m = m refl
not-one (x ∷ []) (y ∷ b) s e n m = cc
not-one (x ∷ z ∷ c) (y ∷ b) s e n m = cc

last-part :
    (left b front : List Text) (s : Text)
    → left ++ b ≡ front ++ s ∷ []
    → b ≢ []
    → (c : List Text) × (b ≡ c ++ s ∷ [])
last-part left b front s e n = elim (cut-append left b front (s ∷ []) e) [
  | inl (c, m, p, q) ↦ absurd (not-one c b s q m n)
  | inr (c, p, q) ↦ (c, q)
]

contains-join_parts :
    (c : List Text) (s : Text) (more : List Text)
    → starts_with s (codes "10=") ≡ true
    → contains (join_parts (c ++ s ∷ more)) (codes "10=") ≡ true
contains-join_parts c s more h =
    subst (λ t. contains t (codes "10=") ≡ true) (sym (join_parts-append c (s ∷ more)))
      (contains-append (join_parts c) (s ++ soh ∷ join_parts more) (codes "10=") (
        contains-starts_with (s ++ soh ∷ join_parts more) (codes "10=")
          (starts_with-append s (soh ∷ join_parts more) (codes "10=") h)))

module _ (g : Grammar) where
  -- At the end of a stream, a message that is still held has its check sum in the buffer, and the
  -- parser has more bytes than the least message.
  held_ready :
      (q : Parser) (f : Frame) (fs : List Frame)
      → Holding g q (f ∷ fs) []
      → (contains q.buf (codes "10=") ≡ true) × (ltb_ℤ (pos (min_size g)) q.bytes_in_buffer ≡ true)
  held_ready q f fs h =
      let is_frame = h.are_frames.0 in
      let (b, n, p) = h.is_part in
      let (c, last) =
        last-part q.triplets b is_frame.front is_frame.check_sum (sym p ∙ is_frame.ends) n in
      let buffer : q.buf ≡ join_parts h.ahead = sym (append-nil q.buf) ∙ h.open_part in
      let ahead : h.ahead ≡ c ++ is_frame.check_sum ∷ parts_of fs =
        ahead-part f fs q.triplets h.ahead b p h.coming
        ∙ ap (λ t. t ++ parts_of fs) last
        ∙ append_assoc c (is_frame.check_sum ∷ []) (parts_of fs) in
      let total : length (join_parts q.triplets) + length (join_parts h.ahead)
          ≡ length (join_parts f.parts) + length (join_parts (parts_of fs)) =
        sym (length-join_parts q.triplets h.ahead)
        ∙ ap (λ t. length (join_parts t)) h.coming
        ∙ length-join_parts f.parts (parts_of fs) in
      (
        subst (λ t. contains t (codes "10=") ≡ true) (sym (buffer ∙ ap join_parts ahead))
            (contains-join_parts c is_frame.check_sum (parts_of fs) is_frame.ends_with_sum),
        subst (λ n. ltb_ℤ (pos (min_size g)) n ≡ true) (sym h.counted)
            (ground (arith, total, ap length buffer, is_frame.is_long)),
      )

  module _ (on_discard send_data : Bool) where
    -- A call that only takes the bytes in.
    waits : Parser → Fed
    waits q = record { events = []; parser = q; failure = none }

    waits-Handed :
        (q : Parser) (fs : List Frame) (z : Text)
        → Holding g q fs z
        → (z ≡ [] → fs ≡ [])
        → Handed g on_discard send_data (waits q) fs z
    unfolding waits callbacks
    waits-Handed q fs z h last = record {
      done = [];
      next = fs;
      frames = refl;
      events = refl;
      failure = refl;
      holding = h;
      closed = last;
    }

    extended : Parser → Text → Parser
    extended p s = record p {
      buf = p.buf ++ s;
      bytes_in_buffer = p.bytes_in_buffer +ℤ pos (length s);
    }

    extended-Holding :
        (p : Parser) (fs : List Frame) (s z : Text)
        → Holding g p fs (s ++ z)
        → Holding g (extended p s) fs z
    unfolding extended
    extended-Holding p fs s z h = record {
      ahead = h.ahead;
      coming = h.coming;
      open_part = append_assoc p.buf s z ∙ h.open_part;
      is_part = h.is_part;
      counted =
          ap (λ n. n +ℤ pos (length s)) h.counted
          ∙ pos_add (length (join_parts p.triplets) + length p.buf) (length s)
          ∙ ap pos (omega (arith, length-append p.buf s));
      are_frames = h.are_frames;
    }

    no_more :
        (q : Parser) (fs : List Frame)
        → Holding g q fs []
        → (contains q.buf (codes "10=") ≡ false)
          ⊎ (ltb_ℤ (pos (min_size g)) q.bytes_in_buffer ≡ false)
        → fs ≡ []
    no_more q [] h e = refl
    no_more q (f ∷ fs) h e =
        let ready = held_ready q f fs h in
        let never : ⊥ = ground (arith, ready.0, ready.1) in absurd never

    feed-cases :
        (p : Parser) (s : Text)
        → (feed g on_discard send_data p s ≡ process g on_discard send_data (extended p s))
          ⊎ ((feed g on_discard send_data p s ≡ waits (extended p s))
              × ((contains (extended p s).buf (codes "10=") ≡ false)
                  ⊎ (ltb_ℤ (pos (min_size g)) (extended p s).bytes_in_buffer ≡ false)))
    unfolding feed waits extended
    feed-cases p s =
        elim (Bool-cases (ltb_ℤ (pos (min_size g)) (p.bytes_in_buffer +ℤ pos (length s)))) [
          | inl h ↦ elim (Bool-cases (contains (p.buf ++ s) (codes "10="))) [
            | inl k ↦ inl (ground (arith, h, k))
            | inr k ↦ inr (ground (arith, h, k), inl k)
          ]
          | inr h ↦ inr (ground (arith, h), inr h)
        ]

    feed-Handed :
        (p : Parser) (fs : List Frame) (s z : Text)
        → Holding g p fs (s ++ z)
        → Handed g on_discard send_data (feed g on_discard send_data p s) fs z
    feed-Handed p fs s z h =
        let q = extended p s in
        let held = extended-Holding p fs s z h in
        elim (feed-cases p s) [
          | inl e ↦
              subst (λ d. Handed g on_discard send_data d fs z) (sym e)
                (process-Handed g on_discard send_data q fs z held)
          | inr (e, short) ↦
              subst (λ d. Handed g on_discard send_data d fs z) (sym e)
                (waits-Handed q fs z held
                  (λ done. no_more q fs (subst (Holding g q fs) done held) short))
        ]

    reset_if : (p : Parser) → p.triplets ≡ [] → p.buf ≡ [] → p.bytes_in_buffer ≡ pos 0 → p ≡ reset
    unfolding reset
    reset_if p t b n = cc

    nothing_held : (p : Parser) → Holding g p [] [] → p ≡ reset
    nothing_held p h =
        let ahead : h.ahead ≡ [] = ap (λ t. t ++ h.ahead) (sym h.is_part) ∙ h.coming in
        let buffer : p.buf ≡ [] = sym (append-nil p.buf) ∙ h.open_part ∙ ap join_parts ahead in
        reset_if p h.is_part buffer (
          h.counted
          ∙ ap (λ (t : List Text). pos (length (join_parts t) + length p.buf)) h.is_part
          ∙ ap (λ (t : Text). pos (0 + length t)) buffer)

    callbacks-append :
        (fs hs : List Frame)
        → callbacks send_data (messages_of (fs ++ hs))
          ≡ callbacks send_data (messages_of fs) ++ callbacks send_data (messages_of hs)
    unfolding callbacks
    callbacks-append [] hs = refl
    callbacks-append (f ∷ fs) hs =
        ap (message f.msg (if send_data then some (join_parts f.parts) else none) ∷◌)
          (callbacks-append fs hs)

    feed_all-cons :
        (p : Parser) (s : Text) (ss : List Text) (events : List Event)
        → (feed g on_discard send_data p s).failure ≡ none
        → feed_all g on_discard send_data (feed g on_discard send_data p s).parser ss
          ≡ record { events = events; parser = reset; failure = none }
        → feed_all g on_discard send_data p (s ∷ ss) ≡ record {
          events = (feed g on_discard send_data p s).events ++ events;
          parser = reset;
          failure = none;
        }
    unfolding feed_all
    feed_all-cons p s ss events h e = ground arith

    -- Every message of the stream is handed on, and then nothing is held.
    abbrev pub all_found : List Frame → Fed
    all_found fs = record {
      events = callbacks send_data (messages_of fs);
      parser = reset;
      failure = none;
    }

    -- Chunks of a stream, of which there is at least one if a message is to be found.
    pub feed_all-Holding :
        (p : Parser) (fs : List Frame) (ss : List Text)
        → Holding g p fs (concat ss)
        → (ss ≡ [] → fs ≡ [])
        → feed_all g on_discard send_data p ss ≡ all_found fs
    unfolding feed_all callbacks
    feed_all-Holding p fs [] h last =
        let none_left = last refl in
        ap (λ q. record { events = []; parser = q; failure = none })
          (nothing_held p (subst (λ l. Holding g p l []) none_left h))
        ∙ ap
            (λ l. record {
              events = callbacks send_data (messages_of l);
              parser = reset;
              failure = none;
            })
            (sym none_left)
    feed_all-Holding p fs (s ∷ ss) h last =
        let fed = feed-Handed p fs s (concat ss) h in
        let ih =
          feed_all-Holding (feed g on_discard send_data p s).parser fed.next ss fed.holding
            (λ e. fed.closed (ap concat e)) in
        feed_all-cons p s ss (callbacks send_data (messages_of fed.next)) fed.failure ih
        ∙ ap
            (λ es. record {
              events = es ++ callbacks send_data (messages_of fed.next);
              parser = reset;
              failure = none;
            })
            fed.events
        ∙ ap (λ es. record { events = es; parser = reset; failure = none })
            (sym (callbacks-append fed.done fed.next)
              ∙ ap (λ l. callbacks send_data (messages_of l)) (sym fed.frames))
