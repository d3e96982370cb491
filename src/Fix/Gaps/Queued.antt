-- ===== src/Fix/Gaps/Queued.antt =====
-- The messages that wait in a queue while the gaps are open, in the order of their numbers.
use pyfix.Base.{
  ℕ, zero, suc, ◌+◌, ◌<◌, ◌≤◌, ◌≡◌, refl, sym, ap, ◌∙◌, true, false, All, List, [], ◌∷◌, ◌++◌, map,
  Option, some, codes, append_assoc, append_cancel_right, Option-cases, arith, inl, inr,
}
use pyfix.Fix.Message.{Field, Message, seq_num}
use pyfix.Fix.Resend.{count_from, Detail, gap, again, gap_fill}
use pyfix.Fix.Gaps.{GapProcessing, class_is, place_item, sort_items}
use pyfix.Fix.Gaps.Filled.{AllBelow}
use pyfix.Fix.Gaps.Answered.{items_of}
use pyfix.Fix.Gaps.Stored.{IsBelow}

-- How a detail looks when it arrives: a gap as a gap fill with its first number, a message with its
-- number, its type and its fields, whatever else its new header has.
abbrev pub Arrives : Detail → Message → Type 0
Arrives (gap a b) m =
    (class_is m (codes "4") ≡ true) × (seq_num m ≡ some a) × (m.fields ≡ (gap_fill b).fields)
Arrives (again o) m =
    (class_is m (codes "4") ≡ false)
    × (seq_num m ≡ seq_num o)
    × (m.msg_type ≡ o.msg_type)
    × (m.fields ≡ o.fields)

abbrev pub AllArrive : List Detail → List Message → Type 0
AllArrive [] [] = Unit
AllArrive (d ∷ ds) (m ∷ ms) = Arrives d m × AllArrive ds ms
AllArrive _ _ = ⊥

-- What a header does not change.
abbrev pub content : ℕ × Message → ℕ × (Field × List Field)
content t = (t.0, (t.1.msg_type, t.1.fields))

abbrev pub contents : List (ℕ × Message) → List (ℕ × (Field × List Field))
contents xs = map content xs

pub contents-append :
    (xs ys : List (ℕ × Message)) → contents (xs ++ ys) ≡ contents xs ++ contents ys
contents-append [] ys = refl
contents-append (x ∷ xs) ys = ap (content x ∷◌) (contents-append xs ys)

-- A queue in the order of its numbers.
abbrev AreAbove : ℕ → List (ℕ × Message) → Type 0
AreAbove i [] = Unit
AreAbove i ((k, m) ∷ d) = (i ≤ k) × AreAbove i d

abbrev pub IsAscending : List (ℕ × Message) → Type 0
IsAscending [] = Unit
IsAscending ((k, m) ∷ d) = AreAbove k d × IsAscending d

AreAbove-append :
    (i j : ℕ) (m : Message) (d : List (ℕ × Message))
    → AreAbove i d
    → i ≤ j
    → AreAbove i (d ++ (j, m) ∷ [])
AreAbove-append i j m [] h k = (k, tt)
AreAbove-append i j m ((a, b) ∷ d) (h, hs) k = (h, AreAbove-append i j m d hs k)

pub IsAscending-append :
    (i : ℕ) (m : Message) (d : List (ℕ × Message))
    → IsAscending d
    → AllBelow i d
    → IsAscending (d ++ (i, m) ∷ [])
IsAscending-append i m [] h b = (tt, tt)
IsAscending-append i m ((a, n) ∷ d) (h, hs) (b, bs) =
    (AreAbove-append a i m d h (omega (arith, b)), IsAscending-append i m d hs bs)

place_item-AreAbove :
    (k : ℕ) (m : Message) (d : List (ℕ × Message)) → AreAbove k d → place_item (k, m) d ≡ (k, m) ∷ d
unfolding place_item
place_item-AreAbove k m [] h = refl
place_item-AreAbove k m ((a, n) ∷ d) (h, hs) = ground (arith, h)

pub sort_items-IsAscending : (d : List (ℕ × Message)) → IsAscending d → sort_items d ≡ d
unfolding sort_items
sort_items-IsAscending [] h = refl
sort_items-IsAscending ((k, m) ∷ d) (h, hs) =
    ap (place_item (k, m)) (sort_items-IsAscending d hs) ∙ place_item-AreAbove k m d h

pub IsBelow-up : (i j : ℕ) (d : List (ℕ × Message)) → i ≤ j → All (IsBelow i) d → All (IsBelow j) d
IsBelow-up i j [] h b = tt
IsBelow-up i j ((k, m) ∷ d) h ((n, e, l), bs) = ((n, e, omega (arith, l, h)), IsBelow-up i j d h bs)

pub IsBelow-append :
    (i n : ℕ) (m : Message) (d : List (ℕ × Message))
    → All (IsBelow n) d
    → seq_num m ≡ some i
    → i < n
    → All (IsBelow n) (d ++ (i, m) ∷ [])
IsBelow-append i n m [] b e l = ((i, e, l), tt)
IsBelow-append i n m (x ∷ d) (b, bs) e l = (b, IsBelow-append i n m d bs e l)

count_from-append : (i k n : ℕ) → count_from i (k + n) ≡ count_from i k ++ count_from (i + k) n
unfolding count_from
count_from-append i zero n =
    ap (count_from i) {x = 0 + n} {y = n} (omega arith)
    ∙ ap (λ a. count_from a n) {x = i} {y = i + 0} (omega arith)
count_from-append i (suc k) n =
    ap (count_from i) {x = suc k + n} {y = suc (k + n)} (omega arith)
    ∙ ap (i ∷◌) (
        count_from-append (i + 1) k n
        ∙ ap (λ a. count_from (i + 1) k ++ count_from a n) {x = i + 1 + k} {y = i + suc k}
            (omega arith))

module _ (f : ℕ → Option Message) where
  items_of-append : (is js : List ℕ) → items_of f (is ++ js) ≡ items_of f is ++ items_of f js
  items_of-append [] js = refl
  items_of-append (i ∷ is) js = elim (Option-cases (f i)) [
    | inl h ↦ ground (arith, h, items_of-append is js)
    | inr (m, h) ↦ ground (arith, h, items_of-append is js)
  ]

  pub contents-delivered :
      (delivered : List (ℕ × Message)) (i k n : ℕ)
      → contents delivered ++ contents (items_of f (count_from (i + k) n))
        ≡ contents (items_of f (count_from i (k + n)))
      → contents delivered ≡ contents (items_of f (count_from i k))
  contents-delivered delivered i k n e =
      let behind = items_of f (count_from (i + k) n) in
      append_cancel_right (contents delivered) (contents (items_of f (count_from i k)))
        (contents behind)
        (e
          ∙ ap (λ is. contents (items_of f is)) (count_from-append i k n)
          ∙ ap contents (items_of-append (count_from i k) (count_from (i + k) n))
          ∙ contents-append (items_of f (count_from i k)) behind)

  pub contents-placed :
      (i : ℕ) (m o : Message) (q p : GapProcessing) (is : List ℕ)
      → q.gap_queue ≡ p.gap_queue ++ (i, m) ∷ []
      → f i ≡ some o
      → m.msg_type ≡ o.msg_type
      → m.fields ≡ o.fields
      → contents q.gap_queue ++ contents (items_of f is)
        ≡ contents p.gap_queue ++ contents (items_of f (i ∷ is))
  contents-placed i m o q p is queue held t h =
      let same : content (i, m) ≡ content (i, o) =
        ap (λ (x : Field). (i, (x, m.fields))) t
        ∙ ap (λ (x : List Field). (i, (o.msg_type, x))) h in
      let listed : items_of f (i ∷ is) ≡ (i, o) ∷ items_of f is = ground (arith, held) in
      ap (λ d. contents d ++ contents (items_of f is)) queue
      ∙ ap (λ d. d ++ contents (items_of f is)) (contents-append p.gap_queue ((i, m) ∷ []))
      ∙ append_assoc (contents p.gap_queue) (contents ((i, m) ∷ [])) (contents (items_of f is))
      ∙ ap (λ c. contents p.gap_queue ++ c ∷ contents (items_of f is)) same
      ∙ ap (λ d. contents p.gap_queue ++ contents d) (sym listed)
