-- ===== src/Fix/Gaps/Filled.antt =====
-- Numbers that are struck off the gaps in their order.
use pyfix.Base.{
  ℕ, zero, suc, ◌+◌, ◌-◌, ◌<◌, ◌≡◌, refl, sym, ap, ◌∙◌, true, false, Bool-cases, List, [], ◌∷◌,
  ◌++◌, arith, ltb, ◌⊎◌, inl, inr,
}
use pyfix.Fix.Message.{Message}
use pyfix.Fix.Resend.{count_from, range}
use pyfix.Fix.Gaps.{GapProcessing, has_key, delete_key, set_item, fill_gaps, recover_message}

-- The gaps from a number to the last one.
abbrev pub IsFrom : ℕ → GapProcessing → Type 0
IsFrom i p = p.gaps ≡ range i (p.last_sequence + 1)

has_key-below : (i a n : ℕ) → i < a → has_key i (count_from a n) ≡ false
unfolding count_from
has_key-below i a zero h = refl
has_key-below i a (suc n) h = ground (arith, h, has_key-below i (a + 1) n)

delete_key-below : (i a n : ℕ) → i < a → delete_key i (count_from a n) ≡ count_from a n
unfolding count_from delete_key
delete_key-below i a zero h = refl
delete_key-below i a (suc n) h = ground (arith, h, delete_key-below i (a + 1) n)

delete_key-range : (i l : ℕ) → delete_key i (range (i + 1) l) ≡ range (i + 1) l
unfolding range
delete_key-range i l = delete_key-below i (i + 1) (l - (i + 1)) (omega arith)

pub range-cons : (i l : ℕ) → ltb l i ≡ false → range i (l + 1) ≡ i ∷ range (i + 1) (l + 1)
unfolding range count_from
range-cons i l h = ap (count_from i) {y = suc (l + 1 - (i + 1))} (ground (arith, h))

pub range-nil : (i l : ℕ) → ltb l i ≡ true → range i (l + 1) ≡ []
unfolding range count_from
range-nil i l h = ap (count_from i) {y = 0} (ground (arith, h))

-- The number i is the first gap, or behind the last one; without it the gaps begin behind it.
next-gap :
    (i l : ℕ)
    → ((has_key i (range i (l + 1)) ≡ true)
        × (delete_key i (range i (l + 1)) ≡ range (i + 1) (l + 1)))
      ⊎ ((has_key i (range i (l + 1)) ≡ false)
          × (ltb l i ≡ true)
          × (range i (l + 1) ≡ range (i + 1) (l + 1)))
unfolding delete_key
next-gap i l = elim (Bool-cases (ltb l i)) [
  | inl h ↦ inr (
    ap (has_key i) (range-nil i l h),
    h,
    range-nil i l h ∙ sym (range-nil (i + 1) l (ground (arith, h))),
  )
  | inr h ↦ inl (
    ap (has_key i) (range-cons i l h) ∙ ground arith,
    ap (delete_key i) (range-cons i l h) ∙ ground (arith, delete_key-range i (l + 1)),
  )
]

pub fill-one :
    (i : ℕ) (is : List ℕ) (p : GapProcessing)
    → IsFrom i p
    → (q : GapProcessing) × (fill_gaps (i ∷ is) p ≡ fill_gaps is q)
      × IsFrom (i + 1) q
      × (q.last_sequence ≡ p.last_sequence)
      × (q.gap_queue ≡ p.gap_queue)
unfolding fill_gaps
fill-one i is p h = elim (next-gap i p.last_sequence) [
  | inl (k, d) ↦ (
    record p { gaps = delete_key i p.gaps },
    ground (arith, k, h),
    ap (delete_key i) h ∙ d,
    refl,
    refl,
  )
  | inr (k, o, e) ↦ (p, ground (arith, k, h, o), h ∙ e, refl, refl)
]

abbrev pub AllBelow : ℕ → List (ℕ × Message) → Type 0
AllBelow i [] = Unit
AllBelow i ((k, m) ∷ d) = (k < i) × AllBelow i d

set_item-new :
    (i : ℕ) (m : Message) (d : List (ℕ × Message))
    → AllBelow i d
    → set_item i m d ≡ d ++ (i, m) ∷ []
unfolding set_item
set_item-new i m [] h = refl
set_item-new i m ((k, n) ∷ d) (h, hs) = ground (arith, h, set_item-new i m d hs)

pub recover-one :
    (i : ℕ) (m : Message) (p : GapProcessing)
    → IsFrom i p
    → AllBelow i p.gap_queue
    → IsFrom (i + 1) (recover_message i m p)
      × ((recover_message i m p).last_sequence ≡ p.last_sequence)
      × ((recover_message i m p).gap_queue ≡ p.gap_queue ++ (i, m) ∷ [])
unfolding recover_message
recover-one i m p h b = elim (next-gap i p.last_sequence) [
  | inl (k, d) ↦
      let known : has_key i p.gaps ≡ true = ap (has_key i) h ∙ k in
      let deleted : delete_key i p.gaps ≡ range (i + 1) (p.last_sequence + 1) =
        ap (delete_key i) h ∙ d in
      (
        ground (arith, known, deleted),
        ground (arith, known),
        ground (arith, known, set_item-new i m p.gap_queue b),
      )
  | inr (k, o, e) ↦
      let unknown : has_key i p.gaps ≡ false = ap (has_key i) h ∙ k in
      (
        ground (arith, unknown, o, h, e),
        ground (arith, unknown, o),
        ground (arith, unknown, o, set_item-new i m p.gap_queue b),
      )
]

pub AllBelow-append :
    (i : ℕ) (m : Message) (d : List (ℕ × Message))
    → AllBelow i d
    → AllBelow (i + 1) (d ++ (i, m) ∷ [])
AllBelow-append i m [] h = (omega arith, tt)
AllBelow-append i m ((k, n) ∷ d) (h, hs) = (omega (arith, h), AllBelow-append i m d hs)

pub AllBelow-suc : (i : ℕ) (d : List (ℕ × Message)) → AllBelow i d → AllBelow (i + 1) d
AllBelow-suc i [] h = tt
AllBelow-suc i ((k, m) ∷ d) (h, hs) = (omega (arith, h), AllBelow-suc i d hs)
