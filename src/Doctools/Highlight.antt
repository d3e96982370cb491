-- ===== src/Doctools/Highlight.antt =====
-- `jQuery.fn.highlightText` of doc/build/html/_static/doctools.js, on a tree of nodes. `jQuery.each`
-- visits as many positions as there are child nodes when it starts, and the list of child nodes grows
-- under it.
pub mod Content
mod Tests
use pyfix.Base.{
  ℕ, zero, suc, ◌+◌, Bool, true, false, ◌||◌, List, [], ◌∷◌, ◌++◌, Option, none, some, Text, codes,
  text_eq, any, index_of, take, drop, length, if◌then◌else◌,
}

-- Child nodes: each is a text, or an element with its name, its classes and its own child nodes, and
-- then come the siblings behind it.
pub data Nodes : Type 0 where
  nil : Nodes
  text : Text → Nodes → Nodes
  element : Text → List Text → Nodes → Nodes → Nodes

unfoldable pub child_count : Nodes → ℕ
child_count nil = 0
child_count (text v more) = suc (child_count more)
child_count (element tag classes kids more) = suc (child_count more)

abbrev pub has_class : Text → List Text → Bool
has_class name classes = any (text_eq name) classes

-- `jQuery(node).is("button, select, textarea")`
unfoldable pub is_control : Text → Bool
is_control tag =
    text_eq tag (codes "button") || text_eq tag (codes "select") || text_eq tag (codes "textarea")

module _ (lower : Text → Text) (term class_name : Text) where
  -- The text before a match, the new element for it, and what stands behind it.
  abbrev pub wrap_match : ℕ → Text → Nodes → Nodes
  wrap_match p val behind =
      text (take p val) (
        element (codes "span") (class_name ∷ []) (text (take (length term) (drop p val)) nil)
          behind)

  -- A text with the place of its match, if there is one; `rest` does what is left for the text behind
  -- the match.
  abbrev pub highlight_at : Option ℕ → (ℕ → (Nodes → Nodes) × ℕ) → ℕ → Text → (Nodes → Nodes) × ℕ
  highlight_at none rest left val = (text val, left)
  highlight_at (some p) rest left val = (λ more. wrap_match p val ((rest p).0 more), (rest p).1)

  -- A text that `n` visits reach in an element that has not the class, and the visits left over. The
  -- visit after a match finds the new element and leaves it alone, the one after that finds the text
  -- behind the match.
  unfoldable pub highlight_run : ℕ → Text → (Nodes → Nodes) × ℕ
  highlight_run zero val = (text val, 0)
  highlight_run (suc zero) val =
      highlight_at (index_of (lower val) term) (λ p. (text (drop (p + length term) val), 0)) 0 val
  highlight_run (suc (suc n)) val =
      highlight_at (index_of (lower val) term) (λ p. highlight_run n (drop (p + length term) val))
        (suc n) val

  -- The nodes that `n` visits reach below an element; `marked` says that it has the class.
  unfoldable pub highlight_nodes : Bool → ℕ → Nodes → Nodes
  unfolding highlight_run child_count is_control
  highlight_nodes marked n nil = nil
  highlight_nodes marked zero (text val more) = text val more
  highlight_nodes marked zero (element tag classes kids more) = element tag classes kids more
  highlight_nodes marked (suc n) (text val more) =
      let run = if marked then (text val, n) else highlight_run (suc n) val in
      run.0 (highlight_nodes marked run.1 more)
  highlight_nodes marked (suc n) (element tag classes kids more) =
      let inner = highlight_nodes (has_class class_name classes) (child_count kids) kids in
      element tag classes (if is_control tag then kids else inner) (highlight_nodes marked n more)

  -- `highlight(node)` for an element, by its name, classes and child nodes.
  unfoldable pub highlight_text : Text → List Text → Nodes → Nodes
  unfolding highlight_nodes child_count is_control
  highlight_text tag classes kids =
      if is_control tag
      then kids
      else highlight_nodes (has_class class_name classes) (child_count kids) kids
