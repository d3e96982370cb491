-- ===== src/Fix/Parser/Frames.antt =====
-- A stream of messages, as the loop of the parser sees it: each message with its fields as they
-- came, and the part of the next one that has arrived.
use pyfix.Base.{
  ◌+◌, ◌<◌, ◌≡◌, ◌≢◌, refl, sym, ap, ◌∙◌, true, All, List, [], ◌∷◌, ◌++◌, map, none, Text, codes,
  append_assoc, starts_with, length, length-append, ◌⊎◌, inl, inr, arith,
}
use pyfix.Fix.Message.{Message, soh}
use pyfix.Fix.Parser.{
  min_size, Grammar, Scanned, no_fields, deliver, scan, join_parts, drop_crud, fix_preamble,
  found_size,
}
use pyfix.Fix.Parser.Wires.{IsField}

pub record Frame : Type 0 where
  pub parts : List Text
  pub msg : Message

abbrev pub parts_of : List Frame → List Text
parts_of [] = []
parts_of (f ∷ fs) = f.parts ++ parts_of fs

abbrev pub messages_of : List Frame → List (Message × List Text)
messages_of fs = map (λ f. (f.msg, f.parts)) fs

-- Nothing is found yet.
abbrev pub waiting : List Text → Scanned
waiting left = record { found = []; left = left; failure = none }

module _ (g : Grammar) where
  -- What the loop does with the fields of a message, and how they look.
  pub record IsFrame (f : Frame) : Type 0 where
    pub complete :
        (xs : List Text)
        → scan g no_fields (f.parts ++ xs) ≡ deliver f.msg f.parts (scan g no_fields xs)
    pub partial : (a b : List Text) → f.parts ≡ a ++ b → b ≢ [] → scan g no_fields a ≡ waiting a
    pub first : Text
    pub others : List Text
    pub begins : f.parts ≡ first ∷ others
    pub preamble : starts_with first fix_preamble ≡ true
    pub are_fields : All IsField f.parts
    pub front : List Text
    pub check_sum : Text
    pub ends : f.parts ≡ front ++ check_sum ∷ []
    pub ends_with_sum : starts_with check_sum (codes "10=") ≡ true
    pub is_long : min_size g < length (join_parts f.parts)

deliver-found :
    (m : Message) (parts : List Text) (ms : List (Message × List Text)) (left : List Text)
    → deliver m parts (record { found = ms; left = left; failure = none })
      ≡ record { found = (m, parts) ∷ ms; left = left; failure = none }
unfolding deliver
deliver-found m parts ms left = refl

-- A proper part of the next message.
abbrev pub IsPart : List Frame → List Text → Type 0
IsPart [] left = left ≡ []
IsPart (f ∷ fs) left = (b : List Text) × (b ≢ []) × (f.parts ≡ left ++ b)

-- Two ways to cut a list: the first cut lies behind the second, or before it.
pub cut-append :
    (xs ys ps bs : List Text)
    → xs ++ ys ≡ ps ++ bs
    → ((c : List Text) × (c ≢ []) × (xs ≡ ps ++ c) × (bs ≡ c ++ ys))
      ⊎ ((c : List Text) × (ps ≡ xs ++ c) × (ys ≡ c ++ bs))
cut-append [] ys ps bs h = inr (ps, refl, h)
cut-append (x ∷ xs) ys [] bs h = inl (x ∷ xs, λ e. cc, refl, sym h)
cut-append (x ∷ xs) ys (a ∷ ps) bs h = elim (cut-append xs ys ps bs (ground arith)) [
  | inl (c, n, p, q) ↦ inl (c, n, ground arith, q)
  | inr (c, p, q) ↦ inr (c, ground arith, q)
]

module _ (g : Grammar) where
  -- The messages that are complete in the first fields of a stream.
  pub record Progress (fs : List Frame) (ps us : List Text) : Type 0 where
    pub done : List Frame
    pub next : List Frame
    pub left : List Text
    pub frames : fs ≡ done ++ next
    pub fields : ps ≡ parts_of done ++ left
    pub scanned :
        scan g no_fields ps ≡ record { found = messages_of done; left = left; failure = none }
    pub is_part : IsPart next left
    pub coming : left ++ us ≡ parts_of next
    pub are_frames : All (IsFrame g) next

  pub scan-frames :
      (fs : List Frame) (ps us : List Text)
      → All (IsFrame g) fs
      → parts_of fs ≡ ps ++ us
      → Progress fs ps us
  scan-frames [] [] us h e = record {
    done = [];
    next = [];
    left = [];
    frames = refl;
    fields = refl;
    scanned = unfold scan no_fields in refl;
    is_part = refl;
    coming = sym e;
    are_frames = tt;
  }
  scan-frames [] (a ∷ ps) us h e = let never : ⊥ = cc in absurd never
  scan-frames (f ∷ fs) ps us (h, hs) e = elim (cut-append f.parts (parts_of fs) ps us e) [
    | inl (c, n, p, q) ↦ record {
      done = [];
      next = f ∷ fs;
      left = ps;
      frames = refl;
      fields = refl;
      scanned = h.partial ps c p n;
      is_part = (c, n, p);
      coming = sym e;
      are_frames = (h, hs);
    }
    | inr (c, p, q) ↦
        let ih = scan-frames fs c us hs q in
        record {
          done = f ∷ ih.done;
          next = ih.next;
          left = ih.left;
          frames = ap (f ∷◌) ih.frames;
          fields =
              p
              ∙ ap (λ t. f.parts ++ t) ih.fields
              ∙ sym (append_assoc f.parts (parts_of ih.done) ih.left);
          scanned =
              ap (scan g no_fields) p
              ∙ h.complete c
              ∙ ap (deliver f.msg f.parts) ih.scanned
              ∙ deliver-found f.msg f.parts (messages_of ih.done) ih.left;
          is_part = ih.is_part;
          coming = ih.coming;
          are_frames = ih.are_frames;
        }
  ]

  -- Nothing stands before the first message.
  pub drop_crud-frames :
      (fs : List Frame) (ps us : List Text)
      → All (IsFrame g) fs
      → parts_of fs ≡ ps ++ us
      → drop_crud ps ≡ ([], ps)
  unfolding drop_crud
  drop_crud-frames fs [] us h e = refl
  drop_crud-frames [] (a ∷ ps) us h e = let never : ⊥ = cc in absurd never
  drop_crud-frames (f ∷ fs) (a ∷ ps) us (h, hs) e =
      let same : f.parts ++ parts_of fs ≡ a ∷ ps ++ us = e in
      let front : h.first ∷ (h.others ++ parts_of fs) ≡ a ∷ ps ++ us =
        ap (λ p. p ++ parts_of fs) (sym h.begins) ∙ same in
      ground (arith, h.preamble)

pub join_parts-append : (xs ys : List Text) → join_parts (xs ++ ys) ≡ join_parts xs ++ join_parts ys
join_parts-append [] ys = refl
join_parts-append (x ∷ xs) ys =
    ap (λ t. x ++ soh ∷ t) (join_parts-append xs ys)
    ∙ sym (append_assoc x (soh ∷ join_parts xs) (join_parts ys))

pub found_size-messages_of :
    (fs : List Frame) → found_size (messages_of fs) ≡ length (join_parts (parts_of fs))
unfolding found_size
found_size-messages_of [] = refl
found_size-messages_of (f ∷ fs) =
    ap (λ n. length (join_parts f.parts) + n) (found_size-messages_of fs)
    ∙ sym (length-append (join_parts f.parts) (join_parts (parts_of fs)))
    ∙ ap length (sym (join_parts-append f.parts (parts_of fs)))
