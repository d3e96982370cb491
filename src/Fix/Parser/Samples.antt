-- ===== src/Fix/Parser/Samples.antt =====
-- A specification and two messages that can be sent, for the tests.
use pyfix.Base.{
  ℕ, ◌+◌, ◌*◌, ◌-◌, ◌≡◌, refl, sym, ap, ◌∙◌, subst, Bool, true, false, List, [], ◌∷◌, ◌++◌, none,
  some, Text, codes, text_eq, String, map, ◌==◌, arith, if◌then◌else◌,
}
use pyfix.Fix.Message.{int, str, field, native2fix, Message, to_fix}
use pyfix.Fix.Parser.{min_size, header, body, trailer, Grammar}
use pyfix.Fix.Parser.Stream.{concat}
use pyfix.Fix.Parser.Wires.{IsField}
use pyfix.Fix.Parser.Reading.{Reads}
use pyfix.Fix.Parser.Sent.{IsSendable}
use pyfix.Fix.Parser.Received.{sent}

-- Two fields of numbers, and the types D and 0.
abbrev number : ℕ → Text → ℕ
number n [] = n
number n (c ∷ s) = number (n * 10 + (c - b'0')) s

abbrev is_in : Text → List Text → Bool
is_in k [] = false
is_in k (x ∷ xs) = if text_eq k x then true else is_in k xs

abbrev pub grammar : Grammar
grammar = record {
  mandatory_tags = codes "8" ∷ codes "9" ∷ codes "35" ∷ codes "34" ∷ codes "10" ∷ [];
  slot = λ k.
      if is_in k (codes "8" ∷ codes "9" ∷ codes "35" ∷ codes "34" ∷ [])
      then some header
      else if is_in k (codes "11" ∷ codes "55" ∷ [])
      then some body
      else if text_eq k (codes "10")
      then some trailer
      else none;
  native = λ k v. if is_in k (codes "9" ∷ codes "34" ∷ []) then int (number 0 v) else str v;
  is_type = λ t. is_in t (codes "D" ∷ codes "0" ∷ []);
}

abbrev pub order : Message
order = record {
  msg_type = field (codes "35") (str (codes "D"));
  header_fields =
      field (codes "8") (str (codes "FIX.4.2"))
      ∷ field (codes "9") (int 18)
      ∷ field (codes "35") (str (codes "D"))
      ∷ field (codes "34") (int 1)
      ∷ [];
  fields = field (codes "11") (str (codes "A1")) ∷ [];
  footer_fields = field (codes "10") (str (codes "117")) ∷ [];
}

abbrev pub heartbeat : Message
heartbeat = record order {
  msg_type = field (codes "35") (str (codes "0"));
  header_fields =
      field (codes "8") (str (codes "FIX.4.2"))
      ∷ field (codes "9") (int 10)
      ∷ field (codes "35") (str (codes "0"))
      ∷ field (codes "34") (int 2)
      ∷ [];
  fields = [];
}

abbrev pub wire : String → Text
wire s = map (λ c. if c == b'|' then 1 else c) (codes s)

-- The two messages, cut within a tag, within a check sum and before a SOH.
abbrev pub chunks : List Text
chunks =
    wire "8=FIX.4.2|9=18|3"
    ∷ wire "5=D|34=1|11=A1|10=1"
    ∷ wire "17"
    ∷ wire "|8=FIX.4.2|9=10|35=0|34=2|10=117|"
    ∷ []

pub order_sent : to_fix order ≡ wire "8=FIX.4.2|9=18|35=D|34=1|11=A1|10=117|"
unfolding to_fix field
order_sent = refl

pub sent-chunks : concat chunks ≡ sent (order ∷ heartbeat ∷ [])
unfolding to_fix field
sent-chunks = refl

begin-Reads : Reads grammar header (field (codes "8") (str (codes "FIX.4.2")))
unfolding field min_size
begin-Reads = record {
  tag_free = refl;
  is_field = refl;
  slot = refl;
  native = refl;
  no_sum = refl;
  known_type = λ e. cc;
}

length-Reads :
    (n : ℕ) (s : Text)
    → native2fix (int n) ≡ s
    → IsField (codes "9=" ++ s)
    → number 0 s ≡ n
    → Reads grammar header (field (codes "9") (int n))
unfolding field min_size
length-Reads n s h k e = record {
  tag_free = refl;
  is_field = subst (λ t. IsField (codes "9=" ++ t)) (sym h) k;
  slot = refl;
  native = ap int (sym e ∙ ap (number 0) (sym h));
  no_sum = refl;
  known_type = λ e. cc;
}

number-Reads :
    (n : ℕ) (s : Text)
    → native2fix (int n) ≡ s
    → IsField (codes "34=" ++ s)
    → number 0 s ≡ n
    → Reads grammar header (field (codes "34") (int n))
unfolding field min_size
number-Reads n s h k e = record {
  tag_free = refl;
  is_field = subst (λ t. IsField (codes "34=" ++ t)) (sym h) k;
  slot = refl;
  native = ap int (sym e ∙ ap (number 0) (sym h));
  no_sum = refl;
  known_type = λ e. cc;
}

type-Reads :
    (t : Text)
    → IsField (codes "35=" ++ t)
    → grammar.is_type t ≡ true
    → Reads grammar header (field (codes "35") (str t))
unfolding field min_size
type-Reads t h k = record {
  tag_free = refl;
  is_field = h;
  slot = refl;
  native = refl;
  no_sum = refl;
  known_type = λ e. k;
}

order_id-Reads : Reads grammar body (field (codes "11") (str (codes "A1")))
unfolding field min_size
order_id-Reads = record {
  tag_free = refl;
  is_field = refl;
  slot = refl;
  native = refl;
  no_sum = refl;
  known_type = λ e. cc;
}

pub order-IsSendable : IsSendable grammar order
unfolding field min_size
order-IsSendable = record {
  front = [];
  check_sum = field (codes "10") (str (codes "117"));
  footer = refl;
  header_reads = (
    begin-Reads,
    (
      length-Reads 18 (codes "18") refl refl refl,
      (type-Reads (codes "D") refl refl, (number-Reads 1 (codes "1") refl refl refl, tt)),
    ),
  );
  body_reads = (order_id-Reads, tt);
  front_reads = tt;
  sum_tag = refl;
  sum_slot = refl;
  sum_field = refl;
  sum_native = refl;
  type_value = codes "D";
  typed = refl;
  msg_type = refl;
  first = field (codes "8") (str (codes "FIX.4.2"));
  others = _;
  begins = refl;
  preamble = refl;
  is_long = omega arith;
}

pub heartbeat-IsSendable : IsSendable grammar heartbeat
unfolding field min_size
heartbeat-IsSendable = record {
  front = [];
  check_sum = field (codes "10") (str (codes "117"));
  footer = refl;
  header_reads = (
    begin-Reads,
    (
      length-Reads 10 (codes "10") refl refl refl,
      (type-Reads (codes "0") refl refl, (number-Reads 2 (codes "2") refl refl refl, tt)),
    ),
  );
  body_reads = tt;
  front_reads = tt;
  sum_tag = refl;
  sum_slot = refl;
  sum_field = refl;
  sum_native = refl;
  type_value = codes "0";
  typed = refl;
  msg_type = refl;
  first = field (codes "8") (str (codes "FIX.4.2"));
  others = _;
  begins = refl;
  preamble = refl;
  is_long = omega arith;
}
