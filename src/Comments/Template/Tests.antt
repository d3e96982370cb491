-- ===== src/Comments/Template/Tests.antt =====
-- A template filled in.
use pyfix.Base.{
  ◌↔◌, ◌≡◌, refl, List, [], ◌∷◌, ◌++◌, none, some, Text, codes, text_eq, if◌then◌else◌,
}
use pyfix.Comments.Template.{
  Value, missing, written, object, Piece, plain, slot, fill_all, render_template,
}
use pyfix.Comments.Template.Rendered.{Part, character, escaped, raw, Renders, render_template_iff}

abbrev marked : Text → Text
marked t = b'[' ∷ (t ++ b']' ∷ [])

abbrev nested : Value
nested = object (λ n. if text_eq n (codes "delta") then written (codes "now") else missing)

abbrev context : Value
context = object (λ n.
    if text_eq n (codes "id")
    then written (codes "7")
    else if text_eq n (codes "time")
    then nested
    else missing)

render_template_runs :
    (render_template marked (codes "<b><%id%></b><#time.delta#><%text%><#text#>") context
      ≡ some (codes "<b>[7]</b>now[]undefined"))
    × (render_template marked (codes "<%text.delta%>") context ≡ none)
    × (render_template marked (codes "a < b <%id#>") context ≡ some (codes "a < b <%id#>"))
unfolding render_template
render_template_runs = (refl, refl, refl)

abbrev parts : List Part
parts =
    character b'<'
    ∷ character b'b'
    ∷ character b'>'
    ∷ escaped (codes "id") []
    ∷ character b'<'
    ∷ raw (codes "time") (codes "delta" ∷ [])
    ∷ []

render_template_iff_example :
    (render_template marked (codes "<b><%id%><<#time.delta#>") context ≡ some (codes "<b>[7]<now"))
    ↔ Renders marked context parts (codes "<b>[7]<now")
unfolding pyfix.Comments.Template.is_word pyfix.Comments.Template.is_mark
render_template_iff_example =
    render_template_iff marked context parts (codes "<b>[7]<now")
      (refl, (refl, (refl, (refl, refl, (refl, (refl, refl, tt))))))
      (tt, (tt, (tt, ((refl, tt), (tt, ((refl, (refl, tt)), tt))))))
