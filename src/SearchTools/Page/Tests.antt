-- ===== src/SearchTools/Page/Tests.antt =====
-- A page that is searched before and after its index arrives.
use pyfix.Base.{ℕ, ◌≡◌, refl, List, [], ◌∷◌, ◌++◌, codes}
use pyfix.SearchTools.Page.{Event, search, arrive, fire, shown, start_page, handle_all}
use pyfix.SearchTools.Page.Queries.{queries-handle_all}

abbrev early : List (Event ℕ)
early = search (codes "one") ∷ fire ∷ search (codes "two") ∷ []

abbrev late : List (Event ℕ)
late = shown ∷ search (codes "three") ∷ fire ∷ []

handle_all_runs :
    ((handle_all (early ++ arrive 7 ∷ late) start_page).queries
      ≡ (7, codes "two") ∷ (7, codes "three") ∷ [])
    × ((handle_all early start_page).dots ≡ codes ".")
    × ((handle_all (early ++ arrive 7 ∷ shown ∷ fire ∷ []) start_page).timers ≡ 1)
unfolding handle_all start_page
handle_all_runs = (refl, refl, refl)

queries-handle_all_example :
    (handle_all (early ++ arrive 7 ∷ late) start_page).queries
    ≡ (7, codes "two") ∷ (7, codes "three") ∷ []
unfolding pyfix.SearchTools.Page.asked
queries-handle_all_example =
    queries-handle_all 7 early late (tt, (tt, (tt, tt))) (tt, (tt, (tt, tt)))
