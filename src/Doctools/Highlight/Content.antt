-- ===== src/Doctools/Highlight/Content.antt =====
-- What the highlighting keeps, and what it wraps.
use pyfix.Base.{
  ℕ, zero, suc, ◌+◌, ◌≡◌, refl, sym, ap, ◌∙◌, Bool, true, false, List, [], ◌∷◌, ◌++◌, Option, none,
  some, Text, index_of, take, drop, length, append_assoc, append-nil, arith, if◌then◌else◌,
}
use pyfix.Doctools.Highlight.{
  Nodes, nil, text, element, child_count, has_class, is_control, highlight_at, highlight_run,
  highlight_nodes, highlight_text,
}

-- The text that a reader sees.
abbrev pub content : Nodes → Text
content nil = []
content (text v more) = v ++ content more
content (element tag classes kids more) = content kids ++ content more

append-take-drop : (n : ℕ) (s : Text) → take n s ++ drop n s ≡ s
append-take-drop zero s = refl
append-take-drop (suc n) [] = refl
append-take-drop (suc n) (x ∷ s) = ap (x ∷◌) (append-take-drop n s)

drop-nil : (n : ℕ) → drop {A = ℕ} n [] ≡ []
drop-nil zero = refl
drop-nil (suc n) = refl

drop-drop : (n k : ℕ) (s : Text) → drop k (drop n s) ≡ drop (n + k) s
drop-drop zero k s = ground arith
drop-drop (suc n) k [] = drop-nil k ∙ sym (drop-nil (suc n + k))
drop-drop (suc n) k (x ∷ s) =
    let moved : suc (n + k) ≡ suc n + k = omega arith in
    drop-drop n k s ∙ ap (λ i. drop i (x ∷ s)) moved

-- A text cut at two places.
cut_lem :
    (p k : ℕ) (val rest more : Text)
    → rest ≡ drop (p + k) val ++ more
    → take p val ++ ((take k (drop p val) ++ []) ++ rest) ≡ val ++ more
cut_lem p k val rest more h =
    let d = drop p val in
    ap (λ t. take p val ++ (t ++ rest)) (append-nil (take k d))
    ∙ ap (λ t. take p val ++ (take k d ++ t)) (h ∙ ap (λ t. t ++ more) (sym (drop-drop p k val)))
    ∙ ap (λ t. take p val ++ t)
        (sym (append_assoc (take k d) (drop k d) more) ∙ ap (λ t. t ++ more) (append-take-drop k d))
    ∙ sym (append_assoc (take p val) d more)
    ∙ ap (λ t. t ++ more) (append-take-drop p val)

content-if :
    (b : Bool) (kids inner : Nodes)
    → content inner ≡ content kids
    → content (if b then kids else inner) ≡ content kids
content-if true kids inner h = refl
content-if false kids inner h = h

module _ (lower : Text → Text) (term class_name : Text) where
  content-highlight_at :
      (o : Option ℕ) (rest : ℕ → (Nodes → Nodes) × ℕ) (left : ℕ) (val : Text) (more : Nodes)
      → ((p : ℕ) → content ((rest p).0 more) ≡ drop (p + length term) val ++ content more)
      → content ((highlight_at lower term class_name o rest left val).0 more) ≡ val ++ content more
  content-highlight_at none rest left val more h = refl
  content-highlight_at (some p) rest left val more h =
      cut_lem p (length term) val (content ((rest p).0 more)) (content more) (h p)

  content-highlight_run :
      (n : ℕ) (val : Text) (more : Nodes)
      → content ((highlight_run lower term class_name n val).0 more) ≡ val ++ content more
  unfolding highlight_run
  content-highlight_run zero val more = refl
  content-highlight_run (suc zero) val more =
      content-highlight_at (index_of (lower val) term) _ 0 val more (λ p. refl)
  content-highlight_run (suc (suc n)) val more =
      content-highlight_at (index_of (lower val) term) _ (suc n) val more
        (λ p. content-highlight_run n (drop (p + length term) val) more)

  content-highlight_nodes :
      (marked : Bool) (n : ℕ) (ns : Nodes)
      → content (highlight_nodes lower term class_name marked n ns) ≡ content ns
  unfolding highlight_nodes
  content-highlight_nodes marked n nil = refl
  content-highlight_nodes marked zero (text val more) = refl
  content-highlight_nodes marked zero (element tag classes kids more) = refl
  content-highlight_nodes true (suc n) (text val more) =
      ap (λ t. val ++ t) (content-highlight_nodes true n more)
  content-highlight_nodes false (suc n) (text val more) =
      let run = highlight_run lower term class_name (suc n) val in
      content-highlight_run (suc n) val (highlight_nodes lower term class_name false run.1 more)
      ∙ ap (λ t. val ++ t) (content-highlight_nodes false run.1 more)
  content-highlight_nodes marked (suc n) (element tag classes kids more) =
      ap (λ t. t ++ content (highlight_nodes lower term class_name marked n more))
        (content-if (is_control tag) kids _
          (content-highlight_nodes (has_class class_name classes) (child_count kids) kids))
      ∙ ap (λ t. content kids ++ t) (content-highlight_nodes marked n more)

  -- The highlighting changes nothing of the text that a reader sees.
  pub content-highlight_text :
      (tag : Text) (classes : List Text) (kids : Nodes)
      → content (highlight_text lower term class_name tag classes kids) ≡ content kids
  unfolding highlight_text
  content-highlight_text tag classes kids =
      content-if (is_control tag) kids _
        (content-highlight_nodes (has_class class_name classes) (child_count kids) kids)
