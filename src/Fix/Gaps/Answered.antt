-- ===== src/Fix/Gaps/Answered.antt =====
-- A gap fill strikes off the numbers that have no message.
use pyfix.Base.{
  ℕ, zero, suc, ◌+◌, ◌≡◌, refl, sym, ap, ◌∙◌, subst, List, [], ◌∷◌, ◌++◌, map, Option, none, some,
  arith,
}
use pyfix.Fix.Message.{Message}
use pyfix.Fix.Resend.{count_from}
use pyfix.Fix.Resend.Covered.{Entry, missing}
use pyfix.Fix.Gaps.{GapProcessing, fill_gaps}
use pyfix.Fix.Gaps.Filled.{IsFrom, AllBelow, fill-one, AllBelow-suc}

-- The messages of some numbers, with their numbers.
abbrev pub items_of : (ℕ → Option Message) → List ℕ → List (ℕ × Message)
items_of f [] = []
items_of f (i ∷ is) = elim (f i) [ none ↦ items_of f is | some m ↦ (i, m) ∷ items_of f is ]

module _ (f : ℕ → Option Message) where
  abbrev pub numbered : ℕ → Entry
  numbered i = (some i, f i)

  -- How far the first entries lead.
  pub record Reached (p q : GapProcessing) (i n : ℕ) (rest : List Entry) : Type 0 where
    pub at : ℕ
    pub count : ℕ
    pub total : at + count ≡ i + n
    pub still : rest ≡ map numbered (count_from at count)
    pub is_from : IsFrom at q
    pub below : AllBelow at q.gap_queue
    pub last : q.last_sequence ≡ p.last_sequence
    pub items :
        p.gap_queue ++ items_of f (count_from i n) ≡ q.gap_queue ++ items_of f (count_from at count)

  -- A number more.
  Reached-suc :
      (p q r : GapProcessing) (i n : ℕ) (rest : List Entry)
      → q.last_sequence ≡ p.last_sequence
      → p.gap_queue ++ items_of f (count_from i (suc n))
        ≡ q.gap_queue ++ items_of f (count_from (i + 1) n)
      → Reached q r (i + 1) n rest
      → Reached p r i (suc n) rest
  Reached-suc p q r i n rest l e h = record {
    at = h.at;
    count = h.count;
    total = omega (arith, h.total);
    still = h.still;
    is_from = h.is_from;
    below = h.below;
    last = h.last ∙ l;
    items = e ∙ h.items;
  }

  pub fill_gaps-Reached :
      (is : List ℕ) (p : GapProcessing) (i n : ℕ) (rest : List Entry)
      → map missing is ++ rest ≡ map numbered (count_from i n)
      → IsFrom i p
      → AllBelow i p.gap_queue
      → (q : GapProcessing) × (fill_gaps is p ≡ some q)
        × (q.gap_queue ≡ p.gap_queue)
        × Reached p q i n rest
  unfolding count_from
  fill_gaps-Reached [] p i n rest e h b = (
    p,
    unfold fill_gaps in refl,
    refl,
    record {
      at = i;
      count = n;
      total = refl;
      still = e;
      is_from = h;
      below = b;
      last = refl;
      items = refl;
    },
  )
  fill_gaps-Reached (j ∷ is) p i zero rest e h b = let never : ⊥ = cc in absurd never
  fill_gaps-Reached (j ∷ is) p i (suc n) rest e h b =
      let same : j ≡ i = ground (arith, e) in
      let no_message : f i ≡ none = ground (arith, e) in
      let tail : map missing is ++ rest ≡ map numbered (count_from (i + 1) n) = ground (arith, e) in
      let (q, k, g, l, u) = fill-one i is p h in
      let below : AllBelow (i + 1) q.gap_queue =
        subst (AllBelow (i + 1)) (sym u) (AllBelow-suc i p.gap_queue b) in
      let (r, m, v, reached) = fill_gaps-Reached is q (i + 1) n rest tail g below in
      (
        r,
        ap (λ t. fill_gaps (t ∷ is) p) same ∙ k ∙ m,
        v ∙ u,
        Reached-suc p q r i n rest l (ground (arith, no_message, u)) reached,
      )
