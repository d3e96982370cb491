-- ===== src/Comments/Autogrow/Tests.antt =====
-- A text area that has the focus.
use pyfix.Base.{◌≡◌, refl, [], ◌∷◌}
use pyfix.Comments.Autogrow.{grow_area, focus_area, blur_area}

-- A focus without a blur before it leaves the first timer running.
focus_area_runs : (blur_area (focus_area (focus_area (grow_area 0)))).running ≡ 0 ∷ []
unfolding grow_area focus_area blur_area
focus_area_runs = refl
