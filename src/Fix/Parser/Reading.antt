-- ===== src/Fix/Parser/Reading.antt =====
-- Fields of a message that the engine sends, read by its parser.
use pyfix.Base.{
  ◌≡◌, refl, sym, ap, ◌∙◌, true, false, All, List, [], ◌∷◌, ◌++◌, map, Option, some, Text, text_eq,
  append_assoc, append-nil, arith, if◌then◌else◌,
}
use pyfix.Doctools.Parameters.{IsFree}
use pyfix.Fix.Message.{Field, check_sum_tag}
use pyfix.Fix.Parser.{
  Grammar, Slot, header, body, trailer, Collector, msg_type_tag, partition, collect, keep,
  make_field, scan,
}
use pyfix.Fix.Parser.Wires.{IsField}

-- A field as the parser cuts it out.
abbrev pub raw : Field → Text
raw f = f.tag ++ b'=' ∷ f.fix_value

pub partition-append : (k v : Text) → IsFree b'=' k → partition (k ++ b'=' ∷ v) ≡ some (k, v)
unfolding partition
partition-append [] v h = ground arith
partition-append (c ∷ k) v h = ground (arith, partition-append k v)

-- The value of the last field with the tag of types.
abbrev pub last_type : List Field → Option Text → Option Text
last_type [] t = t
last_type (f ∷ fs) t = last_type fs (if text_eq f.tag msg_type_tag then some f.fix_value else t)

-- The fields of a part, for the collector of a part.
abbrev pub chosen : Slot → Slot → List Field → List Field
chosen header header fs = fs
chosen body body fs = fs
chosen trailer trailer fs = fs
chosen _ _ fs = []

-- The collectors with more fields of one part.
abbrev pub gathered : Slot → List Field → Collector → Collector
gathered s fs c = record {
  msg_class = last_type fs c.msg_class;
  parts = c.parts ++ map raw fs;
  header_fields = c.header_fields ++ chosen header s fs;
  fields = c.fields ++ chosen body s fs;
  footer_fields = c.footer_fields ++ chosen trailer s fs;
}

chosen-nil : (t s : Slot) → chosen t s [] ≡ []
chosen-nil header header = refl
chosen-nil header body = refl
chosen-nil header trailer = refl
chosen-nil body header = refl
chosen-nil body body = refl
chosen-nil body trailer = refl
chosen-nil trailer header = refl
chosen-nil trailer body = refl
chosen-nil trailer trailer = refl

module _ (g : Grammar) where
  -- A field of a part of messages, which the parser reads as it was.
  pub record Reads (s : Slot) (f : Field) : Type 0 where
    pub tag_free : IsFree b'=' f.tag
    pub is_field : IsField (raw f)
    pub slot : g.slot f.tag ≡ some s
    pub native : f.value ≡ g.native f.tag f.fix_value
    pub no_sum : text_eq f.tag check_sum_tag ≡ false
    pub known_type : text_eq f.tag msg_type_tag ≡ true → g.is_type f.fix_value ≡ true

  -- What the collectors are after fields of one part.
  unfoldable pub gather : Slot → List Field → Collector → Collector
  gather s [] c = c
  gather s (f ∷ fs) c = gather s fs (keep g s (raw f) f.tag f.fix_value c)

  pub scan-read :
      (s : Slot) (f : Field) (c : Collector) (xs : List Text)
      → Reads s f
      → scan g c (raw f ∷ xs) ≡ scan g (keep g s (raw f) f.tag f.fix_value c) xs
  unfolding scan
  scan-read s f c xs h =
      ground (arith, partition-append f.tag f.fix_value h.tag_free, h.slot, h.no_sum, h.known_type)

  pub scan-gather :
      (s : Slot) (fs : List Field) (c : Collector) (xs : List Text)
      → All (Reads s) fs
      → scan g c (map raw fs ++ xs) ≡ scan g (gather s fs c) xs
  unfolding gather
  scan-gather s [] c xs h = refl
  scan-gather s (f ∷ fs) c xs (h, hs) =
      scan-read s f c (map raw fs ++ xs) h
      ∙ scan-gather s fs (keep g s (raw f) f.tag f.fix_value c) xs hs

  pub make_field-read : (s : Slot) (f : Field) → Reads s f → make_field g f.tag f.fix_value ≡ f
  unfolding make_field
  make_field-read s f h = ap (λ v. record f { value = v }) (sym h.native)

  gathered-nil : (s : Slot) (c : Collector) → c ≡ gathered s [] c
  gathered-nil s c = ground (
    arith,
    chosen-nil header s,
    chosen-nil body s,
    chosen-nil trailer s,
    append-nil c.parts,
    append-nil c.header_fields,
    append-nil c.fields,
    append-nil c.footer_fields,
  )

  gathered-cons :
      (s : Slot) (f : Field) (fs : List Field) (c : Collector)
      → Reads s f
      → gathered s fs (keep g s (raw f) f.tag f.fix_value c) ≡ gathered s (f ∷ fs) c
  unfolding keep collect
  gathered-cons header f fs c h = ground (
    arith,
    make_field-read header f h,
    append_assoc c.parts (raw f ∷ []) (map raw fs),
    append_assoc c.header_fields (f ∷ []) fs,
  )
  gathered-cons body f fs c h = ground (
    arith,
    make_field-read body f h,
    append_assoc c.parts (raw f ∷ []) (map raw fs),
    append_assoc c.fields (f ∷ []) fs,
  )
  gathered-cons trailer f fs c h = ground (
    arith,
    make_field-read trailer f h,
    append_assoc c.parts (raw f ∷ []) (map raw fs),
    append_assoc c.footer_fields (f ∷ []) fs,
  )

  pub gather-gathered :
      (s : Slot) (fs : List Field) (c : Collector)
      → All (Reads s) fs
      → gather s fs c ≡ gathered s fs c
  unfolding gather
  gather-gathered s [] c h = gathered-nil s c
  gather-gathered s (f ∷ fs) c (h, hs) =
      gather-gathered s fs (keep g s (raw f) f.tag f.fix_value c) hs ∙ gathered-cons s f fs c h
