-- ===== src/Fix/Parser/Synchronous.antt =====
-- `SynchronousParser` of pyfix/FIXParser.py, which parses one message that is there as a whole.
use pyfix.Base.{
  ◌≡◌, refl, true, false, List, [], ◌∷◌, ◌++◌, Option, none, some, Text, append-nil, arith,
  Option-cases, inl, inr,
}
use pyfix.Fix.Message.{Message, to_fix}
use pyfix.Fix.Parser.{
  Grammar, Event, message, discarded, Parser, Failure, malformed, unknown_tag, no_msg_type,
  unknown_type, reset, feed, feed_all,
}
use pyfix.Fix.Parser.Sent.{IsSendable}
use pyfix.Fix.Parser.Received.{feed_all-sent}

pub record Synchronous : Type 0 where
  pub parser : Parser
  pub msg : Option Message
  pub fix_string : Option Text
  pub discarded_text : Text

-- The `reset` of the subclass.
unfoldable pub reset_all : Synchronous
unfolding reset
reset_all = record { parser = reset; msg = none; fix_string = none; discarded_text = [] }

-- `collect` and `discard`, the callbacks.
unfoldable pub take_event : Event → Synchronous → Synchronous
take_event (message m text) s = record s { msg = some m; fix_string = text }
take_event (discarded x) s = record s { discarded_text = s.discarded_text ++ x }

unfoldable pub take_events : List Event → Synchronous → Synchronous
take_events [] s = s
take_events (e ∷ es) s = take_events es (take_event e s)

-- What `parse` comes to: a message with its text and the bytes that were discarded; an exception of
-- the loop; or the exception that no message was found.
pub data Parsed : Type 0 where
  returned : Message → Option Text → Text → Parsed
  raised : Failure → Parsed
  no_message : Parsed

-- An exception leaves the parser as it is, but a check sum without a type has reset it.
unfoldable pub after_failure : Failure → Synchronous → Synchronous
unfolding reset_all
after_failure (no_msg_type x) s = reset_all
after_failure (malformed x) s = s
after_failure (unknown_tag x) s = s
after_failure (unknown_type x) s = s

-- `feed`, which is also `parse`.
unfoldable pub parse : Grammar → Synchronous → Text → Parsed × Synchronous
unfolding take_events after_failure reset_all
parse g s text =
    let fed = feed g true false s.parser text in
    let t = take_events fed.events (record s { parser = fed.parser }) in
    elim fed.failure [
      | some e ↦ (raised e, after_failure e t)
      | none ↦ elim t.msg [
        | none ↦ (no_message, t)
        | some m ↦ (returned m t.fix_string t.discarded_text, reset_all)
      ]
    ]

feed_all-one :
    (g : Grammar) (p : Parser) (s : Text) (es : List Event) (q : Parser)
    → feed_all g true false p (s ∷ []) ≡ record { events = es; parser = q; failure = none }
    → feed g true false p s ≡ record { events = es; parser = q; failure = none }
unfolding feed_all
feed_all-one g p s es q h = elim (Option-cases (feed g true false p s).failure) [
  | inl k ↦ ground (arith, k, h, append-nil (feed g true false p s).events)
  | inr (e, k) ↦ let never : ⊥ = ground (arith, k, h) in absurd never
]

-- A message that can be sent is parsed to itself, nothing is discarded, and the parser is as it was
-- made.
pub parse-to_fix :
    (g : Grammar) (m : Message)
    → IsSendable g m
    → parse g reset_all (to_fix m) ≡ (returned m none [], reset_all)
unfolding parse take_events take_event reset_all
parse-to_fix g m h =
    let whole =
      feed_all-one g reset (to_fix m) _ _
        (feed_all-sent g true false (m ∷ []) (to_fix m ∷ []) (h, tt) refl) in
    ground (arith, whole)
