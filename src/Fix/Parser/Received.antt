-- ===== src/Fix/Parser/Received.antt =====
-- Messages that the engine sends, and the parser at the other end of the connection.
use pyfix.Base.{
  ℕ, ◌<◌, ◌≡◌, refl, sym, ap, ◌∙◌, subst, Bool, All, List, [], ◌∷◌, ◌++◌, map, none, some, Text,
  append_assoc, length, arith, if◌then◌else◌,
}
use pyfix.Fix.Message.{Field, Message, soh, to_fix, join_fields, field_to_fix}
use pyfix.Fix.Parser.{min_size, Grammar, Event, message, reset, join_parts, callbacks, feed_all}
use pyfix.Fix.Parser.Frames.{Frame, IsFrame, IsPart, parts_of, messages_of, join_parts-append}
use pyfix.Fix.Parser.Stream.{concat, Holding}
use pyfix.Fix.Parser.Chunks.{feed_all-Holding}
use pyfix.Fix.Parser.Reading.{raw}
use pyfix.Fix.Parser.Sent.{all_fields, IsSendable, frame_of, frame_of-IsFrame}

-- The text of messages that are sent one behind the other.
abbrev pub sent : List Message → Text
sent [] = []
sent (m ∷ ms) = to_fix m ++ sent ms

-- The calls of `callback` for them.
abbrev pub received : Bool → List Message → List Event
received send_data [] = []
received send_data (m ∷ ms) =
    message m (if send_data then some (to_fix m) else none) ∷ received send_data ms

join_fields-join_parts : (fs : List Field) → join_fields fs ≡ join_parts (map raw fs)
unfolding join_fields field_to_fix
join_fields-join_parts [] = refl
join_fields-join_parts (f ∷ fs) = ground (
  arith,
  join_fields-join_parts fs,
  append_assoc f.tag (b'=' ∷ (f.fix_value ++ soh ∷ [])) (join_fields fs),
  append_assoc f.fix_value (soh ∷ []) (join_fields fs),
  append_assoc f.tag (b'=' ∷ f.fix_value) (soh ∷ join_fields fs),
)

to_fix-join_parts : (m : Message) → to_fix m ≡ join_parts (map raw (all_fields m))
unfolding to_fix
to_fix-join_parts m = join_fields-join_parts (all_fields m)

append-not_nil : (x y : Text) (n : ℕ) → n < length x → ¬ ([] ≡ x ++ y)
append-not_nil [] y n h e = let never : ⊥ = omega (arith, h) in absurd never
append-not_nil (c ∷ x) y n h e = cc

IsPart-nil : (g : Grammar) (fs : List Frame) → All (IsFrame g) fs → IsPart fs []
IsPart-nil g [] h = refl
IsPart-nil g (f ∷ fs) (h, hs) =
    (f.parts, (λ e. let never : ⊥ = cc (h.begins, e) in absurd never), refl)

module _ (g : Grammar) where
  frames : List Message → List Frame
  frames ms = map (frame_of g) ms

  sent-frames : (ms : List Message) → sent ms ≡ join_parts (parts_of (frames ms))
  unfolding frames
  sent-frames [] = refl
  sent-frames (m ∷ ms) =
      ap (λ t. t ++ sent ms) (to_fix-join_parts m)
      ∙ ap (λ t. join_parts (map raw (all_fields m)) ++ t) (sent-frames ms)
      ∙ sym (join_parts-append (map raw (all_fields m)) (parts_of (frames ms)))

  received-frames :
      (send_data : Bool) (ms : List Message)
      → callbacks send_data (messages_of (frames ms)) ≡ received send_data ms
  unfolding frames callbacks
  received-frames send_data [] = refl
  received-frames send_data (m ∷ ms) =
      ap
        (λ t.
          message m (if send_data then some t else none)
          ∷ callbacks send_data (messages_of (frames ms)))
        (sym (to_fix-join_parts m))
      ∙ ap (message m (if send_data then some (to_fix m) else none) ∷◌)
          (received-frames send_data ms)

  frames-IsFrame : (ms : List Message) → All (IsSendable g) ms → All (IsFrame g) (frames ms)
  unfolding frames
  frames-IsFrame [] h = tt
  frames-IsFrame (m ∷ ms) (h, hs) = (frame_of-IsFrame g m h, frames-IsFrame ms hs)

  -- Messages have bytes.
  sent-nil : (ms : List Message) → All (IsSendable g) ms → [] ≡ sent ms → ms ≡ []
  sent-nil [] h e = refl
  sent-nil (m ∷ ms) (h, hs) e =
      let long : min_size g < length (to_fix m) =
        subst (λ t. min_size g < length t) (sym (to_fix-join_parts m)) h.is_long in
      let never : ⊥ = append-not_nil (to_fix m) (sent ms) (min_size g) long e in absurd never

  reset-Holding :
      (ms : List Message) (ss : List Text)
      → All (IsSendable g) ms
      → concat ss ≡ sent ms
      → Holding g reset (frames ms) (concat ss)
  unfolding reset frames
  reset-Holding ms ss h e = record {
    ahead = parts_of (frames ms);
    coming = refl;
    open_part = e ∙ sent-frames ms;
    is_part = IsPart-nil g (frames ms) (frames-IsFrame ms h);
    counted = refl;
    are_frames = frames-IsFrame ms h;
  }

  -- Chunks that are together the text of messages that can be sent, cut anywhere: a new parser calls
  -- back with these messages in their order, with their texts if it sends data, raises nothing, and
  -- holds nothing at the end.
  pub feed_all-sent :
      (on_discard send_data : Bool) (ms : List Message) (ss : List Text)
      → All (IsSendable g) ms
      → concat ss ≡ sent ms
      → feed_all g on_discard send_data reset ss
        ≡ record { events = received send_data ms; parser = reset; failure = none }
  unfolding frames
  feed_all-sent on_discard send_data ms ss h e =
      feed_all-Holding g on_discard send_data reset (frames ms) ss (reset-Holding ms ss h e)
        (λ k. ap frames (sent-nil ms h (ap concat (sym k) ∙ e)))
      ∙ ap (λ es. record { events = es; parser = reset; failure = none })
          (received-frames send_data ms)
