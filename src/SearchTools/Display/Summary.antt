-- ===== src/SearchTools/Display/Summary.antt =====
-- `makeSearchSummary` of doc/build/html/_static/searchtools.js.
use pyfix.Base.{
  ℕ, ◌+◌, ◌-◌, List, [], ◌∷◌, ◌++◌, none, some, Text, codes, length, take, drop, index_of, ltb,
  ◌==◌, if◌then◌else◌,
}
use pyfix.SearchTools.Query.{is_space}
use pyfix.Doctools.Highlight.{Nodes, nil, text, highlight_text}

-- `$.trim`
unfoldable pub trim_left : Text → Text
unfolding is_space
trim_left [] = []
trim_left (c ∷ s) = let rest = trim_left s in if is_space c then rest else c ∷ s

-- A text without the spaces at its end.
unfoldable pub trim_right : Text → Text
unfolding is_space
trim_right [] = []
trim_right (c ∷ s) =
    let rest = trim_right s in
    elim rest [ [] ↦ if is_space c then [] else c ∷ [] | d ∷ t ↦ c ∷ d ∷ t ]

unfoldable pub trim : Text → Text
unfolding trim_left trim_right
trim s = trim_right (trim_left s)

-- The text of the summary, from its first place in the page.
abbrev pub excerpt_at : Text → ℕ → Text
excerpt_at source start =
    (if ltb 0 start then codes "..." else [])
    ++ (trim (take 240 (drop start source))
        ++ (if start + 240 == length source then [] else codes "..."))

-- The text of the summary, from the place of a keyword.
unfoldable pub excerpt : Text → ℕ → Text
excerpt source found = excerpt_at source (found - 120)

-- `lower` is `toLowerCase`.
module _ (lower : Text → Text) where
  -- The place of the last keyword that stands in the text.
  unfoldable pub summary_start : Text → ℕ → List Text → ℕ
  summary_start text_lower start [] = start
  summary_start text_lower start (k ∷ keywords) =
      summary_start text_lower (elim (index_of text_lower (lower k)) [ none ↦ start | some i ↦ i ])
        keywords

  unfoldable pub highlight_all : List Text → Nodes → Nodes
  unfolding highlight_text
  highlight_all [] ns = ns
  highlight_all (w ∷ hlwords) ns =
      highlight_all hlwords
        (highlight_text lower w (codes "highlighted") (codes "div") (codes "context" ∷ []) ns)

  unfoldable pub make_search_summary : Text → List Text → List Text → Nodes
  unfolding summary_start excerpt highlight_all
  make_search_summary source keywords hlwords =
      highlight_all hlwords (text (excerpt source (summary_start (lower source) 0 keywords)) nil)
