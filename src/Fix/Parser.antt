-- ===== src/Fix/Parser.antt =====
-- `FIXParser` of pyfix/FIXParser.py: how the bytes of a connection become messages. The number of
-- bytes is an integer: an exception keeps fields that were counted out, and they are counted out again.
pub mod Wires
pub mod Frames
pub mod Stream
pub mod Chunks
pub mod Reading
pub mod Sent
pub mod Received
pub mod Turns
pub mod Kept
pub mod Heard
pub mod Failed
pub mod Synchronous
pub mod Samples
mod Tests
use pyfix.Base.{
  ℕ, ◌+◌, Bool, true, false, List, [], ◌∷◌, ◌++◌, Option, none, some, Text, codes, text_eq,
  starts_with, contains, length, ◌==◌, if◌then◌else◌,
}
use pyfix.Base.Int.{ℤ, pos, ◌+ℤ◌, ◌-ℤ◌, ltb_ℤ}
use pyfix.Doctools.{split}
use pyfix.Fix.Message.{Native, str, Field, Message, soh, check_sum_tag}

abbrev pub msg_type_tag : Text
msg_type_tag = codes "35"

abbrev pub fix_preamble : Text
fix_preamble = codes "8=FIX"

-- `collector_index`: the header, the body or the trailer.
pub data Slot : Type 0 where
  header body trailer : Slot

-- What the parser reads of the specification: the tags of the mandatory fields of the standard header
-- and trailer, the place of the fields
-- of a tag (`none` for a tag that no message has), their `fix2native`, and the types of messages.
pub record Grammar : Type 0 where
  pub mandatory_tags : List Text
  pub slot : Text → Option Slot
  pub native : Text → Text → Native
  pub is_type : Text → Bool

-- `min_size`: the bytes of the mandatory fields of the header and the trailer without their values.
unfoldable pub tag_sizes : List Text → ℕ
tag_sizes [] = 0
tag_sizes (t ∷ ts) = length t + 2 + tag_sizes ts

unfoldable pub min_size : Grammar → ℕ
unfolding tag_sizes
min_size g = tag_sizes g.mandatory_tags

-- The exceptions of `feed`: a field without "=", a tag that is unknown or belongs to no message, a
-- check sum with no type before it, and a type that is unknown, for which the call of
-- `BusinessReject` lacks two arguments.
pub data Failure : Type 0 where
  malformed unknown_tag no_msg_type unknown_type : Text → Failure

-- A call of `callback` or of `on_discard`.
pub data Event : Type 0 where
  message : Message → Option Text → Event
  discarded : Text → Event

pub record Parser : Type 0 where
  pub buf : Text
  pub triplets : List Text
  pub bytes_in_buffer : ℤ

unfoldable pub reset : Parser
reset = record { buf = []; triplets = []; bytes_in_buffer = pos 0 }

-- `x.partition('=')`, `none` where there is no "=".
unfoldable pub partition : Text → Option (Text × Text)
partition [] = none
partition (c ∷ s) =
    let rest = partition s in
    if c == b'=' then some ([], s) else elim rest [ none ↦ none | some (k, v) ↦ some (c ∷ k, v) ]

-- What the loop over the fields keeps of the current message: its type, its fields as they came, and
-- the three collectors.
pub record Collector : Type 0 where
  pub msg_class : Option Text
  pub parts : List Text
  pub header_fields : List Field
  pub fields : List Field
  pub footer_fields : List Field

unfoldable pub no_fields : Collector
no_fields = record {
  msg_class = none;
  parts = [];
  header_fields = [];
  fields = [];
  footer_fields = [];
}

-- `collector[self.collector_index].append(self)`
unfoldable pub collect : Slot → Field → Collector → Collector
collect header f c = record c { header_fields = c.header_fields ++ f ∷ [] }
collect body f c = record c { fields = c.fields ++ f ∷ [] }
collect trailer f c = record c { footer_fields = c.footer_fields ++ f ∷ [] }

abbrev pub join_parts : List Text → Text
join_parts [] = []
join_parts (x ∷ xs) = x ++ soh ∷ join_parts xs

-- The message of a check sum.
unfoldable pub message_of : Collector → Text → Message
message_of c t = record {
  msg_type = record { tag = msg_type_tag; value = str t; fix_value = t };
  header_fields = c.header_fields;
  fields = c.fields;
  footer_fields = c.footer_fields;
}

-- What the loop comes to: the messages with their fields, the fields behind the last of them, and the
-- exception that ended it.
pub record Scanned : Type 0 where
  pub found : List (Message × List Text)
  pub left : List Text
  pub failure : Option Failure

unfoldable pub deliver : Message → List Text → Scanned → Scanned
deliver m parts s = record s { found = (m, parts) ∷ s.found }

unfoldable pub stop : Failure → Scanned
stop e = record { found = []; left = []; failure = some e }

module _ (g : Grammar) where
  -- `fix.field_by_id[key](val, is_native=False, …)`
  unfoldable pub make_field : Text → Text → Field
  make_field k v = record { tag = k; value = g.native k v; fix_value = v }

  -- A field that was made: it is kept in its collector and among the parts.
  unfoldable pub keep : Slot → Text → Text → Text → Collector → Collector
  unfolding collect make_field
  keep s x k v c =
      let d = collect s (make_field k v) c in
      record d {
        parts = d.parts ++ x ∷ [];
        msg_class = if text_eq k msg_type_tag then some v else d.msg_class;
      }

  -- The loop over the triplets.
  unfoldable pub scan : Collector → List Text → Scanned
  scan c [] = record { found = []; left = c.parts; failure = none }
  scan c (x ∷ xs) = elim (partition x) [
    | none ↦ stop (malformed x)
    | some (k, v) ↦ elim (g.slot k) [
      | none ↦ stop (unknown_tag k)
      | some s ↦
          let d = keep s x k v c in
          let more = scan d xs in
          let next = scan no_fields xs in
          if text_eq k msg_type_tag
          then (if g.is_type v then more else stop (unknown_type v))
          else if text_eq k check_sum_tag
          then elim c.msg_class [
            | none ↦ stop (no_msg_type x)
            | some t ↦ deliver (message_of d t) d.parts next
          ]
          else more
    ]
  ]

-- `bits`: the fields that are complete, and what goes back to the buffer, which is empty if the buffer
-- ends with SOH.
unfoldable pub pop_last : Text → List Text → List Text × Text
pop_last x [] = ([], x)
pop_last x (y ∷ ys) = let rest = pop_last y ys in (x ∷ rest.0, rest.1)

abbrev pub pop_bits : List Text → List Text × Text
pop_bits [] = ([], [])
pop_bits (x ∷ xs) = pop_last x xs

unfoldable pub take_bits : Text → List Text × Text
take_bits s = pop_bits (split soh s)

-- The fields before the first "8=FIX", which the first loop throws away, and the fields from there.
unfoldable pub drop_crud : List Text → List Text × List Text
drop_crud [] = ([], [])
drop_crud (x ∷ xs) =
    let rest = drop_crud xs in
    if starts_with x fix_preamble then ([], x ∷ xs) else (x ∷ rest.0, rest.1)

-- What the loop subtracts for them: the SOH is not counted.
unfoldable pub crud_size : List Text → ℕ
crud_size [] = 0
crud_size (x ∷ xs) = length x + crud_size xs

unfoldable pub found_size : List (Message × List Text) → ℕ
found_size [] = 0
found_size ((m, parts) ∷ ms) = length (join_parts parts) + found_size ms

-- The calls of `on_discard`, if there is one, and of `callback`.
unfoldable pub discards : Bool → List Text → List Event
discards on_discard [] = []
discards on_discard (x ∷ xs) =
    let rest = discards on_discard xs in
    if on_discard then discarded (x ++ soh ∷ []) ∷ rest else rest

unfoldable pub callbacks : Bool → List (Message × List Text) → List Event
callbacks send_data [] = []
callbacks send_data ((m, parts) ∷ ms) =
    message m (if send_data then some (join_parts parts) else none) ∷ callbacks send_data ms

-- The calls that a chunk of data leads to, the parser after it, and an exception.
pub record Fed : Type 0 where
  pub events : List Event
  pub parser : Parser
  pub failure : Option Failure

-- The parser after the loop: an exception leaves the triplets as they are, but a check sum with no
-- type resets everything.
unfoldable pub after_scan : Text → List Text → ℤ → Scanned → Parser
unfolding found_size reset
after_scan buf triplets bytes sc =
    let n = bytes -ℤ pos (found_size sc.found) in
    elim sc.failure [
      | none ↦ record { buf = buf; triplets = sc.left; bytes_in_buffer = n }
      | some (no_msg_type x) ↦ reset
      | some (malformed x) ↦ record { buf = buf; triplets = triplets; bytes_in_buffer = n }
      | some (unknown_tag x) ↦ record { buf = buf; triplets = triplets; bytes_in_buffer = n }
      | some (unknown_type x) ↦ record { buf = buf; triplets = triplets; bytes_in_buffer = n }
    ]

module _ (g : Grammar) (on_discard send_data : Bool) where
  -- `feed`, from the line that takes the buffer apart.
  unfoldable pub process : Parser → Fed
  process p =
      let bits = take_bits p.buf in
      let cut = drop_crud (p.triplets ++ bits.0) in
      let sc = scan g no_fields cut.1 in
      record {
        events = discards on_discard cut.0 ++ callbacks send_data sc.found;
        parser = after_scan bits.1 cut.1 (p.bytes_in_buffer -ℤ pos (crud_size cut.0)) sc;
        failure = sc.failure;
      }

  unfoldable pub feed : Parser → Text → Fed
  feed p s =
      let q : Parser = record p {
        buf = p.buf ++ s;
        bytes_in_buffer = p.bytes_in_buffer +ℤ pos (length s);
      } in
      if ltb_ℤ (pos (min_size g)) q.bytes_in_buffer
      then (if contains q.buf (codes "10=")
          then process q
          else record { events = []; parser = q; failure = none })
      else record { events = []; parser = q; failure = none }

  -- The chunks of a connection, up to an exception.
  unfoldable pub feed_all : Parser → List Text → Fed
  feed_all p [] = record { events = []; parser = p; failure = none }
  feed_all p (s ∷ ss) =
      let first = feed p s in
      let rest = feed_all first.parser ss in
      elim first.failure [
        | none ↦ record rest { events = first.events ++ rest.events }
        | some e ↦ first
      ]
