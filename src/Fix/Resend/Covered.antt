-- ===== src/Fix/Resend/Covered.antt =====
-- What the details of an answer say of each number that was asked for.
use pyfix.Base.{
  ℕ, zero, suc, ◌+◌, ◌-◌, ◌≤◌, ◌≡◌, refl, sym, ap, ◌∙◌, Bool, Bool-cases, List, [], ◌∷◌, ◌++◌, map,
  Option, none, some, Text, append_assoc, append-nil, arith, inl, inr, Option-cases, if◌then◌else◌,
}
use pyfix.Fix.Message.{Message}
use pyfix.Fix.Recno.{Recno}
use pyfix.Fix.Session.{Session}
use pyfix.Fix.Parser.{Grammar}
use pyfix.Fix.Parser.Synchronous.{returned, raised, no_message, reset_all, parse}
use pyfix.Fix.Resend.{
  count_from, range, Detail, gap, again, Details, close, add_message, add_missing, resend_step,
  resend_loop, stop_number, resend_details,
}
use pyfix.Fix.Message.{seq_num}

-- A number that was asked for: with a message, or without one.
abbrev pub Entry : Type 0
Entry = Option ℕ × Option Message

abbrev pub missing : ℕ → Entry
missing i = (some i, none)

-- What a receiver reads in a detail: the numbers of a gap have no message.
abbrev pub entries_of : Detail → List Entry
entries_of (gap a b) = map missing (range a (b + 1))
entries_of (again m) = (seq_num m, some m) ∷ []

abbrev pub entries : List Detail → List Entry
entries [] = []
entries (d ∷ ds) = entries_of d ++ entries ds

entries-append : (ds es : List Detail) → entries (ds ++ es) ≡ entries ds ++ entries es
entries-append [] es = refl
entries-append (d ∷ ds) es =
    ap (λ t. entries_of d ++ t) (entries-append ds es)
    ∙ sym (append_assoc (entries_of d) (entries ds) (entries es))

map-append_missing : (is js : List ℕ) → map missing (is ++ js) ≡ map missing is ++ map missing js
map-append_missing [] js = refl
map-append_missing (i ∷ is) js = ap (missing i ∷◌) (map-append_missing is js)

count_from-add : (a n : ℕ) → count_from a (n + 1) ≡ count_from a n ++ (a + n) ∷ []
unfolding count_from
count_from-add a zero = ground arith
count_from-add a (suc n) = ground (arith, count_from-add (a + 1) n)

range-suc : (a i : ℕ) → a ≤ i → range a (i + 1) ≡ range a i ++ i ∷ []
unfolding range
range-suc a i h =
    let same : i + 1 - a ≡ i - a + 1 = omega (arith, h) in
    let last : a + (i - a) ≡ i = omega (arith, h) in
    ap (count_from a) same
    ∙ count_from-add a (i - a)
    ∙ ap (λ k. count_from a (i - a) ++ k ∷ []) last

-- An open gap ends before the number i.
abbrev IsOpen : Option (ℕ × ℕ) → ℕ → Type 0
IsOpen none i = Unit
IsOpen (some (a, b)) i = (a ≤ b) × (b + 1 ≡ i)

-- The entries so far.
so_far : Details → List Entry
unfolding close
so_far d = entries (d.done ++ close d.open_gap)

abbrev with_gap : List Detail → Option (ℕ × ℕ) → Details
with_gap ds o = record { done = ds; open_gap = o }

add_missing-IsOpen :
    (i : ℕ) (ds : List Detail) (o : Option (ℕ × ℕ))
    → IsOpen o i
    → IsOpen (add_missing i (with_gap ds o)).open_gap (i + 1)
unfolding add_missing
add_missing-IsOpen i ds none h = (omega arith, refl)
add_missing-IsOpen i ds (some (a, b)) (h, k) = (omega (arith, h, k), refl)

entries-gap :
    (ds : List Detail) (a b : ℕ)
    → entries (ds ++ gap a b ∷ []) ≡ entries ds ++ map missing (range a (b + 1))
entries-gap ds a b =
    entries-append ds (gap a b ∷ [])
    ∙ ap (λ t. entries ds ++ t) (append-nil (map missing (range a (b + 1))))

range-one : (i : ℕ) → range i (i + 1) ≡ i ∷ []
unfolding range count_from
range-one i = ap (count_from i) {y = 1} (omega arith)

add_missing-so_far :
    (i : ℕ) (ds : List Detail) (o : Option (ℕ × ℕ))
    → IsOpen o i
    → so_far (add_missing i (with_gap ds o)) ≡ so_far (with_gap ds o) ++ missing i ∷ []
unfolding add_missing so_far close
add_missing-so_far i ds none h =
    entries-gap ds i i
    ∙ ap (λ is. entries ds ++ map missing is) (range-one i)
    ∙ ap (λ es. entries es ++ missing i ∷ []) (sym (append-nil ds))
add_missing-so_far i ds (some (a, b)) (h, k) =
    entries-gap ds a i
    ∙ ap (λ is. entries ds ++ map missing is) (range-suc a i (omega (arith, h, k)))
    ∙ ap (λ t. entries ds ++ t) (map-append_missing (range a i) (i ∷ []))
    ∙ sym (append_assoc (entries ds) (map missing (range a i)) (missing i ∷ []))
    ∙ ap (λ j. entries ds ++ map missing (range a j) ++ missing i ∷ []) (sym k)
    ∙ ap (λ t. t ++ missing i ∷ []) (sym (entries-gap ds a b))

add_message-so_far :
    (m : Message) (d : Details) → so_far (add_message m d) ≡ so_far d ++ (seq_num m, some m) ∷ []
unfolding add_message so_far close
add_message-so_far m d =
    ap entries (append-nil (d.done ++ close d.open_gap ++ again m ∷ []))
    ∙ entries-append (d.done ++ close d.open_gap) (again m ∷ [])

module _ (g : Grammar) where
  -- The record of a number is the text of one message, which has this number.
  pub record IsRecord (i : ℕ) (text : Text) : Type 0 where
    pub msg : Message
    pub fix_string : Option Text
    pub discarded_text : Text
    pub parsed : parse g reset_all text ≡ (returned msg fix_string discarded_text, reset_all)
    pub numbered : seq_num msg ≡ some i

  module _ (r : Recno) where
    -- Each record of the database is the text of one message with the number of the record.
    abbrev pub IsReadable : r.Db → Type 0
    IsReadable db = (i : ℕ) (text : Text) → r.get db i ≡ some text → IsRecord i text

module _ (g : Grammar) (is_session : Message → Bool) (r : Recno) where
  -- The application message that is stored under a number.
  unfoldable pub stored : r.Db → ℕ → Option Message
  unfolding parse
  stored db i = elim (r.get db i) [
    | none ↦ none
    | some text ↦ elim (parse g reset_all text).0 [
      | returned m s x ↦ if is_session m then none else some m
      | raised e ↦ none
      | no_message ↦ none
    ]
  ]

  -- A turn of the loop adds the entry of its number.
  step-so_far :
      (db : r.Db) (i : ℕ) (d : Details)
      → ((text : Text) → r.get db i ≡ some text → IsRecord g i text)
      → IsOpen d.open_gap i
      → (e : Details) × (resend_step g is_session r db i (d, reset_all) ≡ some (e, reset_all))
        × (so_far e ≡ so_far d ++ (some i, stored db i) ∷ [])
        × IsOpen e.open_gap (i + 1)
  unfolding resend_step stored
  step-so_far db i d h o = elim (Option-cases (r.get db i)) [
    | inl k ↦ (
      add_missing i d,
      ground (arith, k),
      ground (arith, k, add_missing-so_far i d.done d.open_gap o),
      add_missing-IsOpen i d.done d.open_gap o,
    )
    | inr (text, k) ↦
        let rec = h text k in
        elim (Bool-cases (is_session rec.msg)) [
          | inl j ↦ (
            add_missing i d,
            ground (arith, k, rec.parsed, j),
            add_missing-so_far i d.done d.open_gap o
                ∙ ap (λ m. so_far d ++ (some i, m) ∷ []) (ground (arith, k, rec.parsed, j)),
            add_missing-IsOpen i d.done d.open_gap o,
          )
          | inr j ↦ (
            add_message rec.msg d,
            ground (arith, k, rec.parsed, j),
            add_message-so_far rec.msg d
                ∙ ap (λ n. so_far d ++ (n, some rec.msg) ∷ []) rec.numbered
                ∙ ap (λ m. so_far d ++ (some i, m) ∷ []) (ground (arith, k, rec.parsed, j)),
            unfold add_message in tt,
          )
        ]
  ]

  -- What is expected of a number.
  abbrev pub entry : r.Db → ℕ → Entry
  entry db i = (some i, stored db i)

  loop-so_far :
      (db : r.Db) (a n : ℕ) (d : Details)
      → IsReadable g r db
      → IsOpen d.open_gap a
      → (e : Details) × (resend_loop g is_session r db (count_from a n) (d, reset_all)
          ≡ some (e, reset_all))
        × (so_far e ≡ so_far d ++ map (entry db) (count_from a n))
  unfolding resend_loop count_from
  loop-so_far db a zero d h o = (d, refl, sym (append-nil (so_far d)))
  loop-so_far db a (suc n) d h o =
      let (e, k, p, q) = step-so_far db a d (h a) o in
      let (f, l, m) = loop-so_far db (a + 1) n e h q in
      (
        f,
        ground (arith, k, l),
        m
            ∙ ap (λ t. t ++ map (entry db) (count_from (a + 1) n)) p
            ∙ append_assoc (so_far d) (entry db a ∷ []) (map (entry db) (count_from (a + 1) n)),
      )

  pub resend_details-entries :
      (s : Session r) (begin tmp_end : ℕ)
      → IsReadable g r s.persister.out_db
      → (ds : List Detail) × (resend_details g is_session r s begin tmp_end ≡ some ds)
        × (entries ds
            ≡ map (entry s.persister.out_db) (range begin (stop_number s.out_msg_seq_num tmp_end)))
  unfolding resend_details so_far range close
  resend_details-entries s begin tmp_end h =
      let (d, k, p) =
        loop-so_far s.persister.out_db begin (stop_number s.out_msg_seq_num tmp_end - begin)
          (with_gap [] none) h tt in
      (d.done ++ close d.open_gap, ground (arith, k), p)
