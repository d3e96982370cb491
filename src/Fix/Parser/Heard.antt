-- ===== src/Fix/Parser/Heard.antt =====
-- What the parser's user learns of the fields: `on_discard` is called where it was given, and
-- `callback` has the text of a message where `send_data` was set.
use pyfix.Base.{
  ◌≡◌, refl, sym, ap, ◌∙◌, Bool, true, List, [], ◌∷◌, ◌++◌, none, Text, if◌then◌else◌, arith,
}
use pyfix.Fix.Message.{Message}
use pyfix.Fix.Parser.{
  Grammar, Event, message, discarded, Parser, Fed, discards, callbacks, take_bits, drop_crud, scan,
  no_fields, process, feed, feed_all,
}
use pyfix.Fix.Parser.Stream.{concat}
use pyfix.Fix.Parser.Kept.{events_text, held_text, extended, feed_all-kept}

-- The calls that a user hears of.
abbrev pub heard : Bool → Bool → List Event → List Event
heard on_discard send_data [] = []
heard on_discard send_data (discarded s ∷ es) =
    let rest = heard on_discard send_data es in if on_discard then discarded s ∷ rest else rest
heard on_discard send_data (message m s ∷ es) =
    message m (if send_data then s else none) ∷ heard on_discard send_data es

module _ (on_discard send_data : Bool) where
  heard-append :
      (es ds : List Event)
      → heard on_discard send_data (es ++ ds)
        ≡ heard on_discard send_data es ++ heard on_discard send_data ds
  heard-append [] ds = refl
  heard-append (discarded s ∷ es) ds = ground (arith, heard-append es ds)
  heard-append (message m s ∷ es) ds = ground (arith, heard-append es ds)

  heard-discards :
      (xs : List Text) → discards on_discard xs ≡ heard on_discard send_data (discards true xs)
  unfolding discards
  heard-discards [] = refl
  heard-discards (x ∷ xs) = ground (arith, heard-discards xs)

  heard-callbacks :
      (ms : List (Message × List Text))
      → callbacks send_data ms ≡ heard on_discard send_data (callbacks true ms)
  unfolding callbacks
  heard-callbacks [] = refl
  heard-callbacks ((m, parts) ∷ ms) = ground (arith, heard-callbacks ms)

  abbrev hear : Fed → Fed
  hear d = record d { events = heard on_discard send_data d.events }

  module _ (g : Grammar) where
    process-hear : (p : Parser) → process g on_discard send_data p ≡ hear (process g true true p)
    unfolding process
    process-hear p =
        let u = drop_crud (p.triplets ++ (take_bits p.buf).0) in
        let sc = scan g no_fields u.1 in
        let all = process g true true p in
        ap (λ es. record all { events = es })
          (ap (λ t. t ++ callbacks send_data sc.found) (heard-discards u.0)
            ∙ ap (λ t. heard on_discard send_data (discards true u.0) ++ t)
                (heard-callbacks sc.found)
            ∙ sym (heard-append (discards true u.0) (callbacks true sc.found)))

    feed-hear :
        (p : Parser) (s : Text) → feed g on_discard send_data p s ≡ hear (feed g true true p s)
    unfolding feed
    feed-hear p s = ground (arith, process-hear (extended g p s))

    feed_all-hear :
        (p : Parser) (ss : List Text)
        → feed_all g on_discard send_data p ss ≡ hear (feed_all g true true p ss)
    unfolding feed_all
    feed_all-hear p [] = refl
    feed_all-hear p (s ∷ ss) = ground (
      arith,
      feed-hear p s,
      feed_all-hear (feed g true true p s).parser ss,
      heard-append (feed g true true p s).events
          (feed_all g true true (feed g true true p s).parser ss).events,
    )

    -- Chunks without an exception, for a parser with or without `on_discard` and `send_data`: its calls
    -- are those of the parser with both, less the calls of `on_discard` where it is not given, and
    -- less the texts of the messages without `send_data`. The bytes of all calls of the parser with
    -- both, as messages or as discarded fields, and those that this parser holds at the end, are
    -- the bytes it held at first and the chunks, in their order.
    pub feed_all-heard :
        (p : Parser) (ss : List Text)
        → (feed_all g on_discard send_data p ss).failure ≡ none
        → ((feed_all g on_discard send_data p ss).events
            ≡ heard on_discard send_data (feed_all g true true p ss).events)
          × (events_text (feed_all g true true p ss).events
                ++ held_text (feed_all g on_discard send_data p ss).parser
              ≡ held_text p ++ concat ss)
    feed_all-heard p ss h =
        let same = feed_all-hear p ss in
        let ended : (feed_all g true true p ss).failure ≡ none =
          ap (λ (d : Fed). d.failure) (sym same) ∙ h in
        (
          ap (λ (d : Fed). d.events) same,
          ap (λ (d : Fed). events_text (feed_all g true true p ss).events ++ held_text d.parser)
                same
              ∙ feed_all-kept g p ss ended,
        )
