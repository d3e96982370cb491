-- ===== src/Fix/Parser/Tests.antt =====
-- Messages in pieces, and the theorems at them.
use pyfix.Base.{
  false, ◌≡◌, refl, ap, ◌∙◌, true, List, [], ◌∷◌, ◌++◌, none, some, Text, codes, contains, length,
}
use pyfix.Base.Int.{pos, ltb_ℤ, ◌+ℤ◌, ◌-ℤ◌}
use pyfix.Fix.Message.{str, field, to_fix}
use pyfix.Fix.Parser.{
  min_size, Slot, header, body, trailer, Grammar, Event, message, discarded, Parser, Fed, malformed,
  unknown_tag, no_msg_type, unknown_type, discards, reset, feed, feed_all,
}
use pyfix.Fix.Parser.Stream.{concat}
use pyfix.Fix.Parser.Received.{feed_all-sent}
use pyfix.Fix.Parser.Failed.{feed-feed_failed}
use pyfix.Fix.Parser.Synchronous.{reset_all, returned, parse, parse-to_fix}
use pyfix.Fix.Parser.Kept.{events_text, held_text}
use pyfix.Fix.Parser.Heard.{heard, feed_all-heard}
use pyfix.Fix.Parser.Samples.{
  grammar, order, heartbeat, wire, chunks, sent-chunks, order-IsSendable, heartbeat-IsSendable,
}

feed_all-sent_example : feed_all grammar true true reset chunks ≡ record {
  events = message order (some (to_fix order)) ∷ message heartbeat (some (to_fix heartbeat)) ∷ [];
  parser = reset;
  failure = none;
}
feed_all-sent_example =
    feed_all-sent grammar true true (order ∷ heartbeat ∷ []) chunks
      (order-IsSendable, (heartbeat-IsSendable, tt)) sent-chunks

-- Bytes before the first message are discarded.
abbrev crud : List Text
crud = wire "zz|58=x|8=FIX.4.2|9=18|35=D|34=1|11=A1|10=117|" ∷ wire "8=FIX.4.2|9=10|35=0" ∷ []

crud_runs : feed_all grammar true true reset crud ≡ record {
  events =
      discarded (wire "zz|")
      ∷ discarded (wire "58=x|")
      ∷ message order (some (wire "8=FIX.4.2|9=18|35=D|34=1|11=A1|10=117|"))
      ∷ [];
  parser = record { buf = wire "8=FIX.4.2|9=10|35=0"; triplets = []; bytes_in_buffer = pos 21 };
  failure = none;
}
unfolding reset field feed_all feed pyfix.Fix.Parser.process pyfix.Fix.Parser.scan
    pyfix.Fix.Parser.drop_crud pyfix.Fix.Parser.take_bits pyfix.Doctools.split
    pyfix.Fix.Parser.pop_last pyfix.Fix.Parser.partition pyfix.Fix.Parser.keep
    pyfix.Fix.Parser.deliver pyfix.Fix.Parser.after_scan pyfix.Fix.Parser.crud_size
    pyfix.Fix.Parser.no_fields pyfix.Fix.Parser.discards pyfix.Fix.Parser.callbacks
    pyfix.Fix.Parser.message_of pyfix.Fix.Parser.stop ◌+ℤ◌ ◌-ℤ◌ min_size
crud_runs = refl

crud_ends : (feed_all grammar false true reset crud).failure ≡ none
unfolding reset field feed_all feed pyfix.Fix.Parser.process pyfix.Fix.Parser.scan
    pyfix.Fix.Parser.drop_crud pyfix.Fix.Parser.take_bits pyfix.Doctools.split
    pyfix.Fix.Parser.pop_last pyfix.Fix.Parser.partition pyfix.Fix.Parser.keep
    pyfix.Fix.Parser.deliver pyfix.Fix.Parser.after_scan pyfix.Fix.Parser.crud_size
    pyfix.Fix.Parser.no_fields pyfix.Fix.Parser.discards pyfix.Fix.Parser.callbacks
    pyfix.Fix.Parser.message_of pyfix.Fix.Parser.stop ◌+ℤ◌ ◌-ℤ◌ min_size
crud_ends = refl

feed_all-heard_example :
    ((feed_all grammar false true reset crud).events
      ≡ heard false true (feed_all grammar true true reset crud).events)
    × (events_text (feed_all grammar true true reset crud).events
          ++ held_text (feed_all grammar false true reset crud).parser
        ≡ held_text reset ++ concat crud)
feed_all-heard_example = feed_all-heard false true grammar reset crud crud_ends

-- A field between two messages becomes part of the second.
between :
    (feed grammar true true reset
      (wire "8=FIX.4.2|9=18|35=D|34=1|11=A1|10=117|11=B|8=FIX.4.2|9=10|35=0|34=2|10=117|")).events
    ≡ message order (some (wire "8=FIX.4.2|9=18|35=D|34=1|11=A1|10=117|"))
      ∷ message
          (record heartbeat { fields = field (codes "11") (str (codes "B")) ∷ [] })
          (some (wire "11=B|8=FIX.4.2|9=10|35=0|34=2|10=117|"))
      ∷ []
unfolding reset field feed_all feed pyfix.Fix.Parser.process pyfix.Fix.Parser.scan
    pyfix.Fix.Parser.drop_crud pyfix.Fix.Parser.take_bits pyfix.Doctools.split
    pyfix.Fix.Parser.pop_last pyfix.Fix.Parser.partition pyfix.Fix.Parser.keep
    pyfix.Fix.Parser.deliver pyfix.Fix.Parser.after_scan pyfix.Fix.Parser.crud_size
    pyfix.Fix.Parser.no_fields pyfix.Fix.Parser.discards pyfix.Fix.Parser.callbacks
    pyfix.Fix.Parser.message_of pyfix.Fix.Parser.stop ◌+ℤ◌ ◌-ℤ◌ min_size
between = refl

-- A second message is malformed: the first is handed on, and handed on again with the next bytes.
abbrev bad : Text
bad = wire "8=FIX.4.2|9=18|35=D|34=1|11=A1|10=117|8=FIX.4.2|x|"

abbrev more : Text
more = wire "8=FIX.4.2|9=10|35=0|34=2|10=117|"

bad_runs : feed grammar true true reset bad ≡ record {
  events = message order (some (wire "8=FIX.4.2|9=18|35=D|34=1|11=A1|10=117|")) ∷ [];
  parser = record {
    buf = [];
    triplets =
        wire "8=FIX.4.2"
        ∷ wire "9=18"
        ∷ wire "35=D"
        ∷ wire "34=1"
        ∷ wire "11=A1"
        ∷ wire "10=117"
        ∷ wire "8=FIX.4.2"
        ∷ wire "x"
        ∷ [];
    bytes_in_buffer = pos 12;
  };
  failure = some (malformed (wire "x"));
}
unfolding reset field feed_all feed pyfix.Fix.Parser.process pyfix.Fix.Parser.scan
    pyfix.Fix.Parser.drop_crud pyfix.Fix.Parser.take_bits pyfix.Doctools.split
    pyfix.Fix.Parser.pop_last pyfix.Fix.Parser.partition pyfix.Fix.Parser.keep
    pyfix.Fix.Parser.deliver pyfix.Fix.Parser.after_scan pyfix.Fix.Parser.crud_size
    pyfix.Fix.Parser.no_fields pyfix.Fix.Parser.discards pyfix.Fix.Parser.callbacks
    pyfix.Fix.Parser.message_of pyfix.Fix.Parser.stop ◌+ℤ◌ ◌-ℤ◌ min_size
bad_runs = refl

feed-feed_failed_example :
    ((feed grammar true true (feed grammar true true reset bad).parser more).failure
      ≡ some (malformed (wire "x")))
    × ((u : List Text) × ((feed grammar true true reset bad).events
          ≡ discards true u
            ++ (feed grammar true true (feed grammar true true reset bad).parser more).events))
feed-feed_failed_example =
    feed-feed_failed grammar true true reset bad more (malformed (wire "x"))
      (ap (λ (d : Fed). d.failure) bad_runs) refl
      (ap (λ (d : Fed). contains (d.parser.buf ++ more) (codes "10=")) bad_runs)
      (ap
          (λ (d : Fed).
            ltb_ℤ (pos (min_size grammar)) (d.parser.bytes_in_buffer +ℤ pos (length more)))
          bad_runs
        ∙ unfold ◌+ℤ◌ min_size in refl)

parse-to_fix_example : parse grammar reset_all (to_fix order) ≡ (returned order none [], reset_all)
parse-to_fix_example = parse-to_fix grammar order order-IsSendable
