-- ===== src/Fix/Parser/Failed.antt =====
-- After an exception: the fields stay, and so do the messages that were handed on.
use pyfix.Base.{
  ◌≡◌, ◌≢◌, refl, sym, ap, ◌∙◌, Bool, true, false, List, [], ◌∷◌, ◌++◌, some, Text, codes, contains,
  starts_with, length, Bool-cases, inl, inr, arith,
}
use pyfix.Base.Int.{ℤ, pos, ◌+ℤ◌, ◌-ℤ◌, ltb_ℤ}
use pyfix.Fix.Parser.{
  min_size, Grammar, fix_preamble, Collector, Scanned, Parser, Fed, Failure, malformed, unknown_tag,
  no_msg_type, unknown_type, no_fields, deliver, stop, scan, take_bits, drop_crud, crud_size,
  discards, callbacks, after_scan, process, feed,
}
use pyfix.Fix.Parser.Turns.{ends, goes_on, gives_out, turn}

-- A check sum without a type resets the parser; the other exceptions do not.
abbrev pub keeps_fields : Failure → Bool
keeps_fields (no_msg_type x) = false
keeps_fields (malformed x) = true
keeps_fields (unknown_tag x) = true
keeps_fields (unknown_type x) = true

-- What is left of the fields begins with the preamble.
drop_crud-again :
    (xs ys : List Text)
    → (drop_crud xs).1 ≢ []
    → drop_crud ((drop_crud xs).1 ++ ys) ≡ ([], (drop_crud xs).1 ++ ys)
unfolding drop_crud
drop_crud-again [] ys h = absurd (h refl)
drop_crud-again (x ∷ xs) ys h = elim (Bool-cases (starts_with x fix_preamble)) [
  | inl k ↦ ground (arith, k)
  | inr k ↦ ground (arith, k, drop_crud-again xs ys)
]

module _ (g : Grammar) where
  -- Behind an exception nothing is read.
  scan-failed :
      (c : Collector) (xs ys : List Text) (e : Failure)
      → (scan g c xs).failure ≡ some e
      → scan g c (xs ++ ys) ≡ scan g c xs
  unfolding scan stop deliver no_fields
  scan-failed c [] ys e h = let never : ⊥ = cc in absurd never
  scan-failed c (x ∷ xs) ys e h = elim (turn g c x) [
    | ends d k ↦ k (xs ++ ys) ∙ sym (k xs)
    | goes_on d p k ↦
        k (xs ++ ys)
        ∙ scan-failed d xs ys e (sym (ap (λ (t : Scanned). t.failure) (k xs)) ∙ h)
        ∙ sym (k xs)
    | gives_out m k ↦
        k (xs ++ ys)
        ∙ ap (deliver m (c.parts ++ x ∷ []))
            (scan-failed no_fields xs ys e (sym (ap (λ (t : Scanned). t.failure) (k xs)) ∙ h))
        ∙ sym (k xs)
  ]

  after_scan-triplets :
      (buf : Text) (triplets : List Text) (n : ℤ) (sc : Scanned) (e : Failure)
      → sc.failure ≡ some e
      → keeps_fields e ≡ true
      → (after_scan buf triplets n sc).triplets ≡ triplets
  unfolding after_scan
  after_scan-triplets buf triplets n sc (malformed x) h k = ground (arith, h)
  after_scan-triplets buf triplets n sc (unknown_tag x) h k = ground (arith, h)
  after_scan-triplets buf triplets n sc (unknown_type x) h k = ground (arith, h)
  after_scan-triplets buf triplets n sc (no_msg_type x) h k = cc

  scan-nil : (e : Failure) → (scan g no_fields []).failure ≢ some e
  unfolding scan
  scan-nil e h = cc

  module _ (on_discard send_data : Bool) where
    process-again :
        (q : Parser) (xs : List Text) (e : Failure)
        → q.triplets ≡ (drop_crud xs).1
        → (scan g no_fields (drop_crud xs).1).failure ≡ some e
        → ((process g on_discard send_data q).failure ≡ some e)
          × ((process g on_discard send_data q).events
              ≡ callbacks send_data (scan g no_fields (drop_crud xs).1).found)
    unfolding process discards
    process-again q xs e h k =
        let bits = (take_bits q.buf).0 in
        let some_left : (drop_crud xs).1 ≢ [] =
          λ none_left. scan-nil e (ap (λ us. (scan g no_fields us).failure) (sym none_left) ∙ k) in
        let cut : drop_crud (q.triplets ++ bits) ≡ ([], (drop_crud xs).1 ++ bits) =
          ap (λ us. drop_crud (us ++ bits)) h ∙ drop_crud-again xs bits some_left in
        let same = scan-failed no_fields (drop_crud xs).1 bits e k in
        (
          ap (λ (u : List Text × List Text). (scan g no_fields u.1).failure) cut
              ∙ ap (λ (sc : Scanned). sc.failure) same
              ∙ k,
          ap
                (λ (u : List Text × List Text).
                  discards on_discard u.0 ++ callbacks send_data (scan g no_fields u.1).found)
                cut
              ∙ ap (λ (sc : Scanned). callbacks send_data sc.found) same,
        )

    extended : Parser → Text → Parser
    extended p s = record p {
      buf = p.buf ++ s;
      bytes_in_buffer = p.bytes_in_buffer +ℤ pos (length s);
    }

    -- A call that failed took the buffer apart.
    feed-failed :
        (p : Parser) (s : Text) (e : Failure)
        → (feed g on_discard send_data p s).failure ≡ some e
        → feed g on_discard send_data p s ≡ process g on_discard send_data (extended p s)
    unfolding feed extended
    feed-failed p s e h =
        elim (Bool-cases (ltb_ℤ (pos (min_size g)) (p.bytes_in_buffer +ℤ pos (length s)))) [
          | inr j ↦ let never : ⊥ = ground (arith, j) in absurd never
          | inl j ↦ elim (Bool-cases (contains (p.buf ++ s) (codes "10="))) [
            | inr k ↦ let never : ⊥ = ground (arith, j, k) in absurd never
            | inl k ↦ ground (arith, j, k)
          ]
        ]

    feed-processes :
        (p : Parser) (t : Text)
        → contains (p.buf ++ t) (codes "10=") ≡ true
        → ltb_ℤ (pos (min_size g)) (p.bytes_in_buffer +ℤ pos (length t)) ≡ true
        → feed g on_discard send_data p t ≡ process g on_discard send_data (extended p t)
    unfolding feed extended
    feed-processes p t h k = ground (arith, h, k)

    -- A call that raised an exception, other than that of a check sum without a type, has kept its
    -- fields: the next call that takes the buffer apart raises the same exception, and hands on the
    -- messages of the first call again.
    pub feed-feed_failed :
        (p : Parser) (s t : Text) (e : Failure)
        → (feed g on_discard send_data p s).failure ≡ some e
        → keeps_fields e ≡ true
        → contains ((feed g on_discard send_data p s).parser.buf ++ t) (codes "10=") ≡ true
        → ltb_ℤ
            (pos (min_size g))
            ((feed g on_discard send_data p s).parser.bytes_in_buffer +ℤ pos (length t))
          ≡ true
        → ((feed g on_discard send_data (feed g on_discard send_data p s).parser t).failure
            ≡ some e)
          × ((u : List Text) × ((feed g on_discard send_data p s).events
                ≡ discards on_discard u
                  ++ (feed g on_discard send_data
                      (feed g on_discard send_data p s).parser
                      t).events))
    unfolding process extended
    feed-feed_failed p s t e h k m n =
        let q = extended p s in
        let first = feed-failed p s e h in
        let u = drop_crud (q.triplets ++ (take_bits q.buf).0) in
        let r = (feed g on_discard send_data p s).parser in
        let ended : (scan g no_fields u.1).failure ≡ some e =
          sym (ap (λ (d : Fed). d.failure) first) ∙ h in
        let left : r.triplets ≡ u.1 =
          ap (λ (d : Fed). d.parser.triplets) first
          ∙ after_scan-triplets (take_bits q.buf).1 u.1 (q.bytes_in_buffer -ℤ pos (crud_size u.0))
              (scan g no_fields u.1) e ended k in
        let (again, events) =
          process-again (extended r t) (q.triplets ++ (take_bits q.buf).0) e left ended in
        let second = feed-processes r t m n in
        (
          ap (λ (d : Fed). d.failure) second ∙ again,
          (
            u.0,
            ap (λ (d : Fed). d.events) first
                ∙ ap (λ es. discards on_discard u.0 ++ es)
                    (sym (ap (λ (d : Fed). d.events) second ∙ events)),
          ),
        )
