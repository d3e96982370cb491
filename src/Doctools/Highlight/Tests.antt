-- ===== src/Doctools/Highlight/Tests.antt =====
-- Paragraphs in which a word is highlighted.
use pyfix.Base.{◌≡◌, refl, [], ◌∷◌, Text, codes}
use pyfix.Doctools.Highlight.{Nodes, nil, text, element, highlight_text}
use pyfix.Doctools.Highlight.Content.{content, content-highlight_text}

abbrev lower : Text → Text
lower s = s

abbrev marked : Text
marked = codes "highlighted"

abbrev mark : Text → Nodes → Nodes
mark t more = element (codes "span") (marked ∷ []) (text t nil) more

-- The word stands twice, and once more in a part of its own: the first place alone is found.
abbrev paragraph : Nodes
paragraph =
    text (codes "a fix, a fix and ") (element (codes "em") [] (text (codes "a fix") nil) nil)

highlight_text_runs :
    highlight_text lower (codes "fix") marked (codes "p") [] paragraph
    ≡ text (codes "a ") (
        mark
          (codes "fix")
          (text (codes ", a fix and ") (element (codes "em") [] (text (codes "a fix") nil) nil)))
unfolding highlight_text
highlight_text_runs = refl

content-highlight_text_example :
    content (highlight_text lower (codes "fix") marked (codes "p") [] paragraph) ≡ content paragraph
content-highlight_text_example =
    content-highlight_text lower (codes "fix") marked (codes "p") [] paragraph
