-- ===== src/Fix/Parser/Kept.antt =====
-- No byte is lost: what a call of the parser hands on and what it keeps is what it had.
use pyfix.Base.{
  ℕ, subst, ◌≡◌, refl, sym, ap, ◌∙◌, true, List, [], ◌∷◌, ◌++◌, none, some, Text, codes, contains,
  append_assoc, append-nil, length, Bool-cases, Option-cases, inl, inr, arith,
}
use pyfix.Base.Int.{pos, ◌+ℤ◌, ◌-ℤ◌, ltb_ℤ}
use pyfix.Doctools.{split}
use pyfix.Doctools.Parameters.{split-cons}
use pyfix.Fix.Message.{Message, soh}
use pyfix.Fix.Parser.{
  min_size, Grammar, Event, message, discarded, Collector, Scanned, Parser, Fed, no_fields, deliver,
  stop, scan, join_parts, pop_last, take_bits, drop_crud, crud_size, found_size, discards,
  callbacks, after_scan, process, feed, feed_all,
}
use pyfix.Fix.Parser.Frames.{join_parts-append}
use pyfix.Fix.Parser.Stream.{concat}
use pyfix.Fix.Parser.Turns.{ends, goes_on, gives_out, turn}

-- The bytes of a call of `callback` or of `on_discard`.
abbrev pub event_text : Event → Text
event_text (message m none) = []
event_text (message m (some s)) = s
event_text (discarded s) = s

abbrev pub events_text : List Event → Text
events_text [] = []
events_text (e ∷ es) = event_text e ++ events_text es

-- The bytes that the parser holds.
abbrev pub held_text : Parser → Text
held_text p = join_parts p.triplets ++ p.buf

bits_text : List Text × Text → Text
bits_text b = join_parts b.0 ++ b.1

-- A longer first field makes a longer text.
pop_last-cons :
    (c : ℕ) (x : Text) (ys : List Text)
    → bits_text (pop_last (c ∷ x) ys) ≡ c ∷ bits_text (pop_last x ys)
unfolding pop_last bits_text
pop_last-cons c x [] = refl
pop_last-cons c x (y ∷ ys) = refl

take_bits-text : (s : Text) → bits_text (take_bits s) ≡ s
unfolding take_bits pop_last split bits_text
take_bits-text [] = refl
take_bits-text (c ∷ s) =
    let (p, ps, e) = split-cons soh s in ground (arith, take_bits-text s, pop_last-cons c p ps)

drop_crud-append : (xs : List Text) → (drop_crud xs).0 ++ (drop_crud xs).1 ≡ xs
unfolding drop_crud
drop_crud-append [] = refl
drop_crud-append (x ∷ xs) = ground (arith, drop_crud-append xs)

discards-text : (xs : List Text) → events_text (discards true xs) ≡ join_parts xs
unfolding discards
discards-text [] = refl
discards-text (x ∷ xs) = ground (arith, discards-text xs, append_assoc x (soh ∷ []) (join_parts xs))

found_parts : List (Message × List Text) → List Text
found_parts [] = []
found_parts ((m, parts) ∷ ms) = parts ++ found_parts ms

callbacks-text :
    (ms : List (Message × List Text))
    → events_text (callbacks true ms) ≡ join_parts (found_parts ms)
unfolding callbacks found_parts
callbacks-text [] = refl
callbacks-text ((m, parts) ∷ ms) =
    ap (λ t. join_parts parts ++ t) (callbacks-text ms)
    ∙ sym (join_parts-append parts (found_parts ms))

events_text-append :
    (es ds : List Event) → events_text (es ++ ds) ≡ events_text es ++ events_text ds
events_text-append [] ds = refl
events_text-append (e ∷ es) ds =
    ap (λ t. event_text e ++ t) (events_text-append es ds)
    ∙ sym (append_assoc (event_text e) (events_text es) (events_text ds))

module _ (g : Grammar) where
  -- The loop gives out its fields in their order.
  scan-parts :
      (c : Collector) (xs : List Text)
      → (scan g c xs).failure ≡ none
      → found_parts (scan g c xs).found ++ (scan g c xs).left ≡ c.parts ++ xs
  unfolding scan found_parts stop deliver no_fields
  scan-parts c [] h = sym (append-nil c.parts)
  scan-parts c (x ∷ xs) h = elim (turn g c x) [
    | ends e k ↦ let never : ⊥ = ground (arith, k xs) in absurd never
    | goes_on d p k ↦ ground (arith, p, k xs, scan-parts d xs, append_assoc c.parts (x ∷ []) xs)
    | gives_out m k ↦
        let rest : (scan g no_fields xs).failure ≡ none =
          sym (ap (λ (t : Scanned). t.failure) (k xs)) ∙ h in
        ap (λ (t : Scanned). found_parts t.found ++ t.left) (k xs)
        ∙ append_assoc (c.parts ++ x ∷ []) (found_parts (scan g no_fields xs).found)
            (scan g no_fields xs).left
        ∙ ap (λ t. c.parts ++ x ∷ [] ++ t) (scan-parts no_fields xs rest)
        ∙ append_assoc c.parts (x ∷ []) xs
  ]

  process-kept :
      (p : Parser) (b : List Text × Text) (u : List Text × List Text) (sc : Scanned)
      → take_bits p.buf ≡ b
      → drop_crud (p.triplets ++ b.0) ≡ u
      → scan g no_fields u.1 ≡ sc
      → sc.failure ≡ none
      → process g true true p ≡ record {
        events = discards true u.0 ++ callbacks true sc.found;
        parser = record {
          buf = b.1;
          triplets = sc.left;
          bytes_in_buffer = p.bytes_in_buffer -ℤ pos (crud_size u.0) -ℤ pos (found_size sc.found);
        };
        failure = none;
      }
  unfolding process after_scan
  process-kept p b u sc h k l e = ground arith

  Keeps : Fed → Text → Type 0
  Keeps fed s = events_text fed.events ++ held_text fed.parser ≡ s

  kept_text :
      (u : List Text) (found : List (Message × List Text)) (left : List Text) (p : Parser)
      → u ++ (found_parts found ++ left) ≡ p.triplets ++ (take_bits p.buf).0
      → events_text (discards true u ++ callbacks true found)
          ++ (join_parts left ++ (take_bits p.buf).1)
        ≡ held_text p
  unfolding bits_text
  kept_text u found left p h =
      let b = take_bits p.buf in
      let parts = found_parts found in
      ap (λ t. t ++ (join_parts left ++ b.1))
        (events_text-append (discards true u) (callbacks true found)
          ∙ ap (λ t. t ++ events_text (callbacks true found)) (discards-text u)
          ∙ ap (λ t. join_parts u ++ t) (callbacks-text found))
      ∙ sym (append_assoc (join_parts u ++ join_parts parts) (join_parts left) b.1)
      ∙ ap (λ t. t ++ b.1)
          (append_assoc (join_parts u) (join_parts parts) (join_parts left)
            ∙ ap (λ t. join_parts u ++ t) (sym (join_parts-append parts left))
            ∙ sym (join_parts-append u (parts ++ left))
            ∙ ap join_parts h
            ∙ join_parts-append p.triplets b.0)
      ∙ append_assoc (join_parts p.triplets) (join_parts b.0) b.1
      ∙ ap (λ t. join_parts p.triplets ++ t) (take_bits-text p.buf)

  process-Keeps :
      (p : Parser)
      → (process g true true p).failure ≡ none
      → Keeps (process g true true p) (held_text p)
  unfolding process Keeps bits_text no_fields
  process-Keeps p h =
      let b = take_bits p.buf in
      let u = drop_crud (p.triplets ++ b.0) in
      let sc = scan g no_fields u.1 in
      subst (λ d. Keeps d (held_text p)) (sym (process-kept p b u sc refl refl refl h))
        (kept_text u.0 sc.found sc.left p
          (ap (λ t. u.0 ++ t) (scan-parts no_fields u.1 h) ∙ drop_crud-append (p.triplets ++ b.0)))

  abbrev pub extended : Parser → Text → Parser
  extended p s = record p {
    buf = p.buf ++ s;
    bytes_in_buffer = p.bytes_in_buffer +ℤ pos (length s);
  }

  feed-Keeps :
      (p : Parser) (s : Text)
      → (feed g true true p s).failure ≡ none
      → Keeps (feed g true true p s) (held_text p ++ s)
  unfolding feed Keeps
  feed-Keeps p s h =
      let q = extended p s in
      let held = append_assoc (join_parts p.triplets) p.buf s in
      elim (Bool-cases (ltb_ℤ (pos (min_size g)) q.bytes_in_buffer)) [
        | inr j ↦ ground (arith, j, held)
        | inl j ↦ elim (Bool-cases (contains q.buf (codes "10="))) [
          | inr k ↦ ground (arith, j, k, held)
          | inl k ↦
              let same : feed g true true p s ≡ process g true true q = ground (arith, j, k) in
              let ended : (process g true true q).failure ≡ none =
                ap (λ (d : Fed). d.failure) (sym same) ∙ h in
              subst (λ d. Keeps d (held_text p ++ s)) (sym same) (process-Keeps q ended ∙ sym held)
        ]
      ]

  pub feed_all-kept :
      (p : Parser) (ss : List Text)
      → (feed_all g true true p ss).failure ≡ none
      → events_text (feed_all g true true p ss).events
          ++ held_text (feed_all g true true p ss).parser
        ≡ held_text p ++ concat ss
  unfolding feed_all Keeps
  feed_all-kept p [] h = sym (append-nil (held_text p))
  feed_all-kept p (s ∷ ss) h = elim (Option-cases (feed g true true p s).failure) [
    | inr (e, k) ↦ let never : ⊥ = ground (arith, k) in absurd never
    | inl k ↦
        let first = feed g true true p s in
        let rest = feed_all g true true first.parser ss in
        let same : feed_all g true true p (s ∷ ss)
            ≡ record rest { events = first.events ++ rest.events } =
          ground (arith, k) in
        ap (λ (d : Fed). events_text d.events ++ held_text d.parser) same
        ∙ ap (λ t. t ++ held_text rest.parser) (events_text-append first.events rest.events)
        ∙ append_assoc (events_text first.events) (events_text rest.events) (held_text rest.parser)
        ∙ ap (λ t. events_text first.events ++ t)
            (feed_all-kept first.parser ss (ap (λ (d : Fed). d.failure) (sym same) ∙ h))
        ∙ sym (append_assoc (events_text first.events) (held_text first.parser) (concat ss))
        ∙ ap (λ t. t ++ concat ss) (feed-Keeps p s k)
        ∙ append_assoc (held_text p) s (concat ss)
  ]
