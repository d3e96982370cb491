-- ===== src/Fix/Parser/Sent.antt =====
-- Messages that the engine sends, read by its parser.
use pyfix.Base.{
  ◌<◌, ◌≡◌, ◌≢◌, refl, sym, ap, ◌∙◌, subst, true, All, List, [], ◌∷◌, ◌++◌, map, none, some, Text,
  codes, append_assoc, append-nil, starts_with, length, arith,
}
use pyfix.Doctools.Parameters.{IsFree}
use pyfix.Fix.Message.{str, Field, Message, check_sum_tag}
use pyfix.Fix.Parser.{
  min_size, Grammar, Slot, header, body, trailer, Collector, msg_type_tag, fix_preamble, no_fields,
  collect, keep, make_field, message_of, deliver, scan, join_parts,
}
use pyfix.Fix.Parser.Wires.{IsField}
use pyfix.Fix.Parser.Frames.{Frame, IsFrame, waiting}
use pyfix.Fix.Parser.Chunks.{not-one}
use pyfix.Fix.Parser.Reading.{
  raw, last_type, Reads, gathered, scan-read, scan-gather, gather-gathered, partition-append,
}

-- The fields of a message in their order.
abbrev pub all_fields : Message → List Field
all_fields m = m.header_fields ++ m.fields ++ m.footer_fields

module _ (g : Grammar) where
  -- A message as the engine sends it: the parser reads its fields as they were, each in its part; the
  -- last field of the trailer and no other is the check sum; the type of the message is that of its
  -- last field with the tag of types; the first field begins with "8=FIX"; and the message is longer
  -- than the least message.
  pub record IsSendable (m : Message) : Type 0 where
    pub front : List Field
    pub check_sum : Field
    pub footer : m.footer_fields ≡ front ++ check_sum ∷ []
    pub header_reads : All (Reads g header) m.header_fields
    pub body_reads : All (Reads g body) m.fields
    pub front_reads : All (Reads g trailer) front
    pub sum_tag : check_sum.tag ≡ check_sum_tag
    pub sum_slot : g.slot check_sum_tag ≡ some trailer
    pub sum_field : IsField (raw check_sum)
    pub sum_native : check_sum.value ≡ g.native check_sum_tag check_sum.fix_value
    pub type_value : Text
    pub typed :
        last_type front (last_type m.fields (last_type m.header_fields none)) ≡ some type_value
    pub msg_type :
        m.msg_type ≡ record { tag = msg_type_tag; value = str type_value; fix_value = type_value }
    pub first : Field
    pub others : List Field
    pub begins : m.header_fields ≡ first ∷ others
    pub preamble : starts_with (raw first) fix_preamble ≡ true
    pub is_long : min_size g < length (join_parts (map raw (all_fields m)))

  scan-gathered :
      (s : Slot) (fs : List Field) (c : Collector) (xs : List Text)
      → All (Reads g s) fs
      → scan g c (map raw fs ++ xs) ≡ scan g (gathered s fs c) xs
  scan-gathered s fs c xs h =
      scan-gather g s fs c xs h ∙ ap (λ d. scan g d xs) (gather-gathered g s fs c h)

  -- The collectors before the check sum.
  collected : Message → List Field → Collector
  collected m front =
      gathered trailer front (gathered body m.fields (gathered header m.header_fields no_fields))

  scan_sum :
      (f : Field) (c : Collector) (t : Text) (xs : List Text)
      → f.tag ≡ check_sum_tag
      → g.slot check_sum_tag ≡ some trailer
      → c.msg_class ≡ some t
      → scan g c (raw f ∷ xs)
        ≡ deliver
            (message_of (keep g trailer (raw f) f.tag f.fix_value c) t)
            (keep g trailer (raw f) f.tag f.fix_value c).parts
            (scan g no_fields xs)
  unfolding scan
  scan_sum f c t xs h k e =
      let free : IsFree b'=' f.tag = subst (IsFree b'=') (sym h) refl in
      ground (arith, partition-append f.tag f.fix_value free, h, k, e)

  pub parts-keep :
      (s : Slot) (x k v : Text) (c : Collector) → (keep g s x k v c).parts ≡ c.parts ++ x ∷ []
  unfolding keep collect
  parts-keep header x k v c = refl
  parts-keep body x k v c = refl
  parts-keep trailer x k v c = refl

  abbrev Readable : Field → Type 0
  Readable f = (s : Slot) × Reads g s f

  -- Fields without the check sum are kept.
  scan-part :
      (fs : List Field) (c : Collector) (x : Text) (a b : List Text)
      → All Readable fs
      → map raw fs ++ x ∷ [] ≡ a ++ b
      → b ≢ []
      → scan g c a ≡ waiting (c.parts ++ a)
  unfolding scan
  scan-part fs c x [] b h e n = ap waiting (sym (append-nil c.parts))
  scan-part [] c x (y ∷ a) b h e n = absurd (not-one (y ∷ a) b x e (λ k. cc) n)
  scan-part (f ∷ fs) c x (y ∷ a) b ((s, h), hs) e n =
      let d = keep g s (raw f) f.tag f.fix_value c in
      let same : y ≡ raw f = cc in
      let rest : map raw fs ++ x ∷ [] ≡ a ++ b = cc in
      ap (λ t. scan g c (t ∷ a)) same
      ∙ scan-read g s f c a h
      ∙ scan-part fs d x a b hs rest n
      ∙ ap (λ t. waiting (t ++ a)) (parts-keep s (raw f) f.tag f.fix_value c)
      ∙ ap waiting (append_assoc c.parts (raw f ∷ []) a)
      ∙ ap (λ t. waiting (c.parts ++ t ∷ a)) (sym same)

  -- A message and its fields on the wire.
  abbrev pub frame_of : Message → Frame
  frame_of m = record { parts = map raw (all_fields m); msg = m }

  map-append_raw : (fs hs : List Field) → map raw (fs ++ hs) ≡ map raw fs ++ map raw hs
  map-append_raw [] hs = refl
  map-append_raw (f ∷ fs) hs = ap (raw f ∷◌) (map-append_raw fs hs)

  All-Readable : (s : Slot) (fs : List Field) → All (Reads g s) fs → All Readable fs
  All-Readable s [] h = tt
  All-Readable s (f ∷ fs) (h, hs) = ((s, h), All-Readable s fs hs)

  All-append-Readable :
      (fs hs : List Field) → All Readable fs → All Readable hs → All Readable (fs ++ hs)
  All-append-Readable [] hs h k = k
  All-append-Readable (f ∷ fs) hs (h, hs2) k = (h, All-append-Readable fs hs hs2 k)

  before_sum : (m : Message) → IsSendable m → List Field
  before_sum m h = m.header_fields ++ m.fields ++ h.front

  before_sum-Readable : (m : Message) (h : IsSendable m) → All Readable (before_sum m h)
  unfolding before_sum
  before_sum-Readable m h =
      All-append-Readable (m.header_fields ++ m.fields) h.front
        (All-append-Readable m.header_fields m.fields
          (All-Readable header m.header_fields h.header_reads)
          (All-Readable body m.fields h.body_reads))
        (All-Readable trailer h.front h.front_reads)

  -- The parts of a message are those before the check sum, and the check sum.
  before_sum-parts :
      (m : Message) (h : IsSendable m)
      → (frame_of m).parts ≡ map raw (before_sum m h) ++ raw h.check_sum ∷ []
  unfolding before_sum
  before_sum-parts m h =
      ap (map raw) (
        ap (λ t. m.header_fields ++ m.fields ++ t) h.footer
        ∙ sym (append_assoc (m.header_fields ++ m.fields) h.front (h.check_sum ∷ [])))
      ∙ map-append_raw (m.header_fields ++ m.fields ++ h.front) (h.check_sum ∷ [])

  -- They come part by part.
  map-before_sum :
      (m : Message) (h : IsSendable m)
      → map raw (before_sum m h) ≡ map raw m.header_fields ++ map raw m.fields ++ map raw h.front
  unfolding before_sum
  map-before_sum m h =
      map-append_raw (m.header_fields ++ m.fields) h.front
      ∙ ap (λ t. t ++ map raw h.front) (map-append_raw m.header_fields m.fields)

  are_fields-Readable :
      (fs : List Field) (x : Text)
      → All Readable fs
      → IsField x
      → All IsField (map raw fs ++ x ∷ [])
  are_fields-Readable [] x h k = (k, tt)
  are_fields-Readable (f ∷ fs) x ((s, h), hs) k = (h.is_field, are_fields-Readable fs x hs k)

  -- The collector after the check sum.
  at_sum : (m : Message) → IsSendable m → Collector
  at_sum m h =
      keep g trailer (raw h.check_sum) h.check_sum.tag h.check_sum.fix_value (collected m h.front)

  at_sum-message : (m : Message) (h : IsSendable m) → message_of (at_sum m h) h.type_value ≡ m
  unfolding at_sum keep collect make_field message_of collected no_fields
  at_sum-message m h = ground (
    arith,
    h.footer,
    h.sum_native,
    h.sum_tag,
    h.msg_type,
    append-nil m.header_fields,
    append-nil m.fields,
  )

  at_sum-parts : (m : Message) (h : IsSendable m) → (at_sum m h).parts ≡ (frame_of m).parts
  unfolding at_sum keep collect collected no_fields
  at_sum-parts m h =
      ap (λ t. t ++ raw h.check_sum ∷ []) (sym (map-before_sum m h)) ∙ sym (before_sum-parts m h)

  parts-append :
      (m : Message) (h : IsSendable m) (xs : List Text)
      → (frame_of m).parts ++ xs
        ≡ map raw m.header_fields ++ (map raw m.fields ++ (map raw h.front ++ raw h.check_sum ∷ xs))
  parts-append m h xs =
      ap (λ t. t ++ xs)
        (before_sum-parts m h ∙ ap (λ t. t ++ raw h.check_sum ∷ []) (map-before_sum m h))
      ∙ append_assoc (map raw m.header_fields ++ map raw m.fields ++ map raw h.front)
          (raw h.check_sum ∷ []) xs
      ∙ append_assoc (map raw m.header_fields ++ map raw m.fields) (map raw h.front)
          (raw h.check_sum ∷ xs)
      ∙ append_assoc (map raw m.header_fields) (map raw m.fields)
          (map raw h.front ++ raw h.check_sum ∷ xs)

  frame_complete :
      (m : Message) (h : IsSendable m) (xs : List Text)
      → scan g no_fields ((frame_of m).parts ++ xs)
        ≡ deliver m (frame_of m).parts (scan g no_fields xs)
  unfolding at_sum collected no_fields
  frame_complete m h xs =
      let at_body = gathered header m.header_fields no_fields in
      let at_trailer = gathered body m.fields at_body in
      ap (scan g no_fields) (parts-append m h xs)
      ∙ scan-gathered header m.header_fields no_fields
          (map raw m.fields ++ (map raw h.front ++ raw h.check_sum ∷ xs)) h.header_reads
      ∙ scan-gathered body m.fields at_body (map raw h.front ++ raw h.check_sum ∷ xs) h.body_reads
      ∙ scan-gathered trailer h.front at_trailer (raw h.check_sum ∷ xs) h.front_reads
      ∙ scan_sum h.check_sum (collected m h.front) h.type_value xs h.sum_tag h.sum_slot h.typed
      ∙ ap (λ n. deliver n (at_sum m h).parts (scan g no_fields xs)) (at_sum-message m h)
      ∙ ap (λ ps. deliver m ps (scan g no_fields xs)) (at_sum-parts m h)

  frame_partial :
      (m : Message) (h : IsSendable m) (a b : List Text)
      → (frame_of m).parts ≡ a ++ b
      → b ≢ []
      → scan g no_fields a ≡ waiting a
  unfolding no_fields
  frame_partial m h a b e n =
      scan-part (before_sum m h) no_fields (raw h.check_sum) a b (before_sum-Readable m h)
        (sym (before_sum-parts m h) ∙ e) n

  pub frame_of-IsFrame : (m : Message) → IsSendable m → IsFrame g (frame_of m)
  frame_of-IsFrame m h = record {
    complete = frame_complete m h;
    partial = frame_partial m h;
    first = raw h.first;
    others = map raw (h.others ++ m.fields ++ m.footer_fields);
    begins = ap (λ t. map raw (t ++ m.fields ++ m.footer_fields)) h.begins;
    preamble = h.preamble;
    are_fields = subst (All IsField) (sym (before_sum-parts m h)) (
        are_fields-Readable (before_sum m h) (raw h.check_sum) (before_sum-Readable m h)
          h.sum_field);
    front = map raw (before_sum m h);
    check_sum = raw h.check_sum;
    ends = before_sum-parts m h;
    ends_with_sum =
        subst (λ t. starts_with (t ++ b'=' ∷ h.check_sum.fix_value) (codes "10=") ≡ true)
          (sym h.sum_tag) (ground arith);
    is_long = h.is_long;
  }
