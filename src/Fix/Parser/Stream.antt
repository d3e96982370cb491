-- ===== src/Fix/Parser/Stream.antt =====
-- The chunks of a stream of messages, however it is cut.
use pyfix.Base.{
  ◌+◌, ◌≡◌, refl, sym, ap, ◌∙◌, subst, Bool, All, List, [], ◌∷◌, ◌++◌, none, Text, append_assoc,
  append-nil, length, length-append, arith,
}
use pyfix.Base.Int.{pos, ◌-ℤ◌, pos_sub, sub_zero}
use pyfix.Fix.Message.{Message, soh}
use pyfix.Fix.Parser.{
  Grammar, Parser, Fed, no_fields, scan, join_parts, take_bits, drop_crud, crud_size, found_size,
  discards, callbacks, after_scan, process,
}
use pyfix.Fix.Parser.Wires.{IsField, Cut-stream}
use pyfix.Fix.Parser.Frames.{
  Frame, parts_of, messages_of, IsFrame, IsPart, scan-frames, drop_crud-frames, join_parts-append,
  found_size-messages_of,
}

abbrev pub concat : List Text → Text
concat [] = []
concat (s ∷ ss) = s ++ concat ss

All-append_right : (xs ys : List Text) → All IsField (xs ++ ys) → All IsField ys
All-append_right [] ys h = h
All-append_right (x ∷ xs) ys (h, hs) = All-append_right xs ys hs

All-append_fields : (xs ys : List Text) → All IsField xs → All IsField ys → All IsField (xs ++ ys)
All-append_fields [] ys h k = k
All-append_fields (x ∷ xs) ys (h, hs) k = (h, All-append_fields xs ys hs k)

IsField-not : (x w : Text) → ¬ IsField (x ++ soh ∷ w)
IsField-not [] w h = cc
IsField-not (v ∷ x) w h = IsField-not x w (ground arith)

pub length-join_parts :
    (xs ys : List Text)
    → length (join_parts (xs ++ ys)) ≡ length (join_parts xs) + length (join_parts ys)
length-join_parts xs ys =
    ap length (join_parts-append xs ys) ∙ length-append (join_parts xs) (join_parts ys)

append-cancel : (xs ys zs : List Text) → xs ++ ys ≡ xs ++ zs → ys ≡ zs
append-cancel [] ys zs h = h
append-cancel (x ∷ xs) ys zs h = append-cancel xs ys zs (ground arith)

-- What is to come, where a part of the next message is there.
pub ahead-part :
    (f : Frame) (fs : List Frame) (left more b : List Text)
    → f.parts ≡ left ++ b
    → left ++ more ≡ parts_of (f ∷ fs)
    → more ≡ b ++ parts_of fs
ahead-part f fs left more b p e =
    append-cancel left more (b ++ parts_of fs)
      (e ∙ ap (λ t. t ++ parts_of fs) p ∙ append_assoc left b (parts_of fs))

-- Where no part of a field is left over, no message is.
closed-part :
    (fs : List Frame) (left more : List Text) (r : Text)
    → IsPart fs left
    → left ++ more ≡ parts_of fs
    → IsField r
    → r ++ [] ≡ join_parts more
    → fs ≡ []
closed-part [] left more r h e k o = refl
closed-part (f ∷ fs) left [] r ([], n, p) e k o = absurd (n refl)
closed-part (f ∷ fs) left [] r (b ∷ bs, n, p) e k o =
    let same = ahead-part f fs left [] (b ∷ bs) p e in let never : ⊥ = cc in absurd never
closed-part (f ∷ fs) left (u ∷ more) r h e k o =
    absurd (IsField-not u (join_parts more) (subst IsField (sym (append-nil r) ∙ o) k))

module _ (g : Grammar) where
  parts_of-fields : (fs : List Frame) → All (IsFrame g) fs → All IsField (parts_of fs)
  parts_of-fields [] h = tt
  parts_of-fields (f ∷ fs) (h, hs) =
      All-append_fields f.parts (parts_of fs) h.are_fields (parts_of-fields fs hs)

  -- The parser holds the beginning of what is still to be found: a part of the next message, and
  -- bytes that `z` continues to the fields behind it.
  pub record Holding (p : Parser) (fs : List Frame) (z : Text) : Type 0 where
    pub ahead : List Text
    pub coming : p.triplets ++ ahead ≡ parts_of fs
    pub open_part : p.buf ++ z ≡ join_parts ahead
    pub is_part : IsPart fs p.triplets
    pub counted : p.bytes_in_buffer ≡ pos (length (join_parts p.triplets) + length p.buf)
    pub are_frames : All (IsFrame g) fs

  module _ (on_discard send_data : Bool) where
    -- A call has handed on the first of the messages, and holds the beginning of the others.
    pub record Handed (fed : Fed) (fs : List Frame) (z : Text) : Type 0 where
      pub done : List Frame
      pub next : List Frame
      pub frames : fs ≡ done ++ next
      pub events : fed.events ≡ callbacks send_data (messages_of done)
      pub failure : fed.failure ≡ none
      pub holding : Holding fed.parser next z
      pub closed : z ≡ [] → next ≡ []

    process-eq :
        (q : Parser) (d : List Text) (r : Text) (ps : List Text)
        (found : List (Message × List Text)) (left : List Text)
        → take_bits q.buf ≡ (d, r)
        → q.triplets ++ d ≡ ps
        → drop_crud ps ≡ ([], ps)
        → scan g no_fields ps ≡ record { found = found; left = left; failure = none }
        → process g on_discard send_data q ≡ record {
          events = callbacks send_data found;
          parser = record {
            buf = r;
            triplets = left;
            bytes_in_buffer = q.bytes_in_buffer -ℤ pos (found_size found);
          };
          failure = none;
        }
    unfolding process after_scan discards crud_size
    process-eq q d r ps found left h e k l = ground (arith, sub_zero q.bytes_in_buffer)

    pub process-Handed :
        (q : Parser) (fs : List Frame) (z : Text)
        → Holding q fs z
        → Handed (process g on_discard send_data q) fs z
    process-Handed q fs z h =
        let fields : All IsField h.ahead =
          All-append_right q.triplets h.ahead
            (subst (All IsField) (sym h.coming) (parts_of-fields fs h.are_frames)) in
        let cut = Cut-stream h.ahead q.buf z fields h.open_part in
        let ps = q.triplets ++ cut.done in
        let whole : parts_of fs ≡ ps ++ cut.more =
          sym h.coming
          ∙ ap (λ t. q.triplets ++ t) cut.fields
          ∙ sym (append_assoc q.triplets cut.done cut.more) in
        let made = scan-frames g fs ps cut.more h.are_frames whole in
        let result =
          process-eq q cut.done cut.rest ps (messages_of made.done) made.left cut.taken refl
            (drop_crud-frames g fs ps cut.more h.are_frames whole) made.scanned in
        let sizes : length (join_parts q.triplets) + length (join_parts cut.done)
            ≡ length (join_parts (parts_of made.done)) + length (join_parts made.left) =
          sym (length-join_parts q.triplets cut.done)
          ∙ ap (λ t. length (join_parts t)) made.fields
          ∙ length-join_parts (parts_of made.done) made.left in
        let buffer : length q.buf ≡ length (join_parts cut.done) + length cut.rest =
          ap length cut.text ∙ length-append (join_parts cut.done) cut.rest in
        let counted : q.bytes_in_buffer -ℤ pos (found_size (messages_of made.done))
            ≡ pos (length (join_parts made.left) + length cut.rest) =
          ap (λ n. n -ℤ pos (found_size (messages_of made.done))) h.counted
          ∙ pos_sub _ _ _ (omega (arith, sizes, buffer, found_size-messages_of made.done)) in
        record {
          done = made.done;
          next = made.next;
          frames = made.frames;
          events = ap (λ (d : Fed). d.events) result;
          failure = ap (λ (d : Fed). d.failure) result;
          holding =
              subst (λ (d : Fed). Holding d.parser made.next z) (sym result)
                (record {
                  ahead = cut.more;
                  coming = made.coming;
                  open_part = cut.open_part;
                  is_part = made.is_part;
                  counted = counted;
                  are_frames = made.are_frames;
                });
          closed = λ e.
              closed-part made.next made.left cut.more cut.rest made.is_part made.coming
                cut.is_field (ap (λ t. cut.rest ++ t) (sym e) ∙ cut.open_part);
        }
