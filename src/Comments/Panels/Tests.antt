-- ===== src/Comments/Panels/Tests.antt =====
-- The links of two comments clicked.
use pyfix.Base.{◌≡◌, refl, Bool, true, false, List, [], ◌∷◌, Text, codes, ◌||◌, starts_with}
use pyfix.JQuery.{ids}
use pyfix.Comments.Panels.{grown_height}
use pyfix.Comments.Panels.Toggles.{
  Click, proposal_shown, proposal_hidden, change_shown, click_all, IsExclusive,
  click_all-IsExclusive,
}

-- The template hides the links that close a panel by their class.
abbrev fresh : Text → Bool
fresh x = starts_with x (codes "sp") || starts_with x (codes "pc")

abbrev clicks : List Click
clicks =
    proposal_shown (codes "1")
    ∷ change_shown 12 80 (codes "text") (codes "2")
    ∷ proposal_hidden (codes "2")
    ∷ []

click_all_runs :
    (click_all ids clicks fresh (codes "hp1") ≡ true)
    × (click_all ids clicks fresh (codes "sp1") ≡ false)
    × (click_all ids clicks fresh (codes "pt2") ≡ true)
    × (grown_height 12 3 (codes "abcd\n\nab") ≡ 60)
unfolding click_all grown_height
click_all_runs = (refl, refl, refl, refl)

click_all-IsExclusive_example : IsExclusive (click_all ids clicks fresh) (codes "1")
click_all-IsExclusive_example =
    click_all-IsExclusive ids clicks fresh (codes "1") (refl, refl, refl, refl)
