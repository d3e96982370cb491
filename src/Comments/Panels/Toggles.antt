-- ===== src/Comments/Panels/Toggles.antt =====
-- The links of a comment that open and close its proposals.
use pyfix.Base.{
  ℕ, ◌≡◌, refl, sym, subst, fun_ext, Bool, not, List, [], ◌∷◌, ◌++◌, Text, codes, All, arith,
}
use pyfix.JQuery.{JQuery, perform_all, shown_by, IsPlain, is_shown-perform_all, Call}
use pyfix.Comments.Panels.{
  show_proposal, hide_proposal, show_propose_change, hide_propose_change, resize,
}

-- A click on one of the four links of a comment.
pub data Click : Type 0 where
  proposal_shown proposal_hidden change_hidden : Text → Click
  change_shown : ℕ → ℕ → Text → Text → Click

unfoldable pub calls_of : Click → List Call
unfolding show_proposal hide_proposal show_propose_change hide_propose_change
calls_of (proposal_shown id) = show_proposal id
calls_of (proposal_hidden id) = hide_proposal id
calls_of (change_shown line_height columns source id) =
    show_propose_change line_height columns source id
calls_of (change_hidden id) = hide_propose_change id

-- Of each pair of links exactly one is shown, and the panel is shown with the link that hides it.
abbrev pub IsExclusive : (Text → Bool) → Text → Type 0
IsExclusive f id =
    (f (codes "sp" ++ id) ≡ not (f (codes "hp" ++ id)))
    × (f (codes "pr" ++ id) ≡ f (codes "hp" ++ id))
    × (f (codes "pc" ++ id) ≡ not (f (codes "hc" ++ id)))
    × (f (codes "pt" ++ id) ≡ f (codes "hc" ++ id))

calls_of-IsPlain : (c : Click) → All IsPlain (calls_of c)
unfolding calls_of resize
calls_of-IsPlain (proposal_shown id) = (refl, (refl, (refl, tt)))
calls_of-IsPlain (proposal_hidden id) = (refl, (refl, (refl, tt)))
calls_of-IsPlain (change_hidden id) = (refl, (refl, (refl, (refl, (refl, tt)))))
calls_of-IsPlain (change_shown line_height columns source id) =
    (refl, (refl, (refl, (refl, (refl, tt)))))

shown_by-IsExclusive :
    (c : Click) (f : Text → Bool) (id : Text)
    → IsExclusive f id
    → IsExclusive (shown_by (calls_of c) f) id
unfolding calls_of resize shown_by
shown_by-IsExclusive (proposal_shown x) f id h = ground arith
shown_by-IsExclusive (proposal_hidden x) f id h = ground arith
shown_by-IsExclusive (change_hidden x) f id h = ground arith
shown_by-IsExclusive (change_shown line_height columns source x) f id h = ground arith

same_shown :
    (f g : Text → Bool) (id : Text) → ((x : Text) → f x ≡ g x) → IsExclusive f id → IsExclusive g id
same_shown f g id same h = subst (λ f. IsExclusive f id) (fun_ext same) h

module _ (j : JQuery) where
  unfoldable pub click_all : List Click → j.Page → j.Page
  unfolding perform_all calls_of
  click_all [] p = p
  click_all (c ∷ cs) p = click_all cs (perform_all j (calls_of c) p)

  -- Whatever links are clicked, of whatever comments: of each pair of links of a comment exactly one
  -- stays shown, and each panel stays shown exactly with the link that hides it, if this was so for
  -- this comment before.
  pub click_all-IsExclusive :
      (cs : List Click) (p : j.Page) (id : Text)
      → IsExclusive (j.is_shown p) id
      → IsExclusive (j.is_shown (click_all cs p)) id
  unfolding click_all
  click_all-IsExclusive [] p id h = h
  click_all-IsExclusive (c ∷ cs) p id h =
      click_all-IsExclusive cs (perform_all j (calls_of c) p) id (
        same_shown (shown_by (calls_of c) (j.is_shown p))
          (j.is_shown (perform_all j (calls_of c) p)) id
          (λ x. sym (
            is_shown-perform_all j (calls_of c) p (j.is_shown p) (calls_of-IsPlain c) (λ y. refl)
              x))
          (shown_by-IsExclusive c (j.is_shown p) id h))
