-- ===== src/Fix/Parser/Turns.antt =====
-- What the loop of the parser does with a field, whatever follows it.
use pyfix.Base.{text_eq, ◌≡◌, List, [], ◌∷◌, ◌++◌, Text, Bool-cases, Option-cases, inl, inr, arith}
use pyfix.Fix.Message.{Message, check_sum_tag}
use pyfix.Fix.Parser.{
  Grammar, partition, msg_type_tag, Collector, Failure, malformed, unknown_tag, no_msg_type,
  unknown_type, no_fields, keep, message_of, deliver, stop, scan,
}
use pyfix.Fix.Parser.Sent.{parts-keep}

module _ (g : Grammar) where
  -- What the loop does with a field.
  pub data Turn (c : Collector) (x : Text) : Type 0 where
    ends : (e : Failure) → ((xs : List Text) → scan g c (x ∷ xs) ≡ stop e) → Turn c x
    goes_on :
        (d : Collector)
        → d.parts ≡ c.parts ++ x ∷ []
        → ((xs : List Text) → scan g c (x ∷ xs) ≡ scan g d xs)
        → Turn c x
    gives_out :
        (m : Message)
        → ((xs : List Text)
            → scan g c (x ∷ xs) ≡ deliver m (c.parts ++ x ∷ []) (scan g no_fields xs))
        → Turn c x

  pub turn : (c : Collector) (x : Text) → Turn c x
  unfolding scan
  turn c x = elim (Option-cases (partition x)) [
    | inl h ↦ ends (malformed x) (λ xs. ground (arith, h))
    | inr ((k, v), h) ↦ elim (Option-cases (g.slot k)) [
      | inl i ↦ ends (unknown_tag k) (λ xs. ground (arith, h, i))
      | inr (s, i) ↦
          let p = parts-keep g s x k v c in
          elim (Bool-cases (text_eq k msg_type_tag)) [
            | inl j ↦ elim (Bool-cases (g.is_type v)) [
              | inl l ↦ goes_on (keep g s x k v c) p (λ xs. ground (arith, h, i, j, l))
              | inr l ↦ ends (unknown_type v) (λ xs. ground (arith, h, i, j, l))
            ]
            | inr j ↦ elim (Bool-cases (text_eq k check_sum_tag)) [
              | inr l ↦ goes_on (keep g s x k v c) p (λ xs. ground (arith, h, i, j, l))
              | inl l ↦ elim (Option-cases c.msg_class) [
                | inl e ↦ ends (no_msg_type x) (λ xs. ground (arith, h, i, j, l, e))
                | inr (t, e) ↦
                    gives_out (message_of (keep g s x k v c) t)
                      (λ xs. ground (arith, h, i, j, l, e, p))
              ]
            ]
          ]
    ]
  ]
