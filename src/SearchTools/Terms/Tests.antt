-- ===== src/SearchTools/Terms/Tests.antt =====
-- A small index searched for terms, and the theorems at it.
use pyfix.Base.{
  ◌≡◌, refl, ◌≢◌, ◌↔◌, ◌⊎◌, List, [], ◌∷◌, Option, none, some, Text, codes, text_eq, All, In, arith,
  if◌then◌else◌,
}
use pyfix.Underscore.{underscore}
use pyfix.SearchTools.Index.{Posting, one, many, files_of, Index}
use pyfix.SearchTools.Terms.{matching_files, file_score}
use pyfix.SearchTools.Terms.Counts.{indexed, IsDisjoint}
use pyfix.SearchTools.Terms.Matches.{IsOnly, matching_files_iff}
use pyfix.SearchTools.Terms.Scores.{InTitle, file_score_lem}

abbrev order_terms : Text → Option Posting
order_terms w =
    if text_eq w (codes "order")
    then some (many (0 ∷ 2 ∷ []))
    else if text_eq w (codes "fill")
    then some (many (1 ∷ 2 ∷ []))
    else none

abbrev order_titles : Text → Option Posting
order_titles w = if text_eq w (codes "order") then some (one 1) else none

abbrev pages : Index
pages = record {
  filenames = codes "intro" ∷ codes "orders" ∷ codes "session" ∷ [];
  titles = codes "Introduction" ∷ codes "Orders" ∷ codes "Sessions" ∷ [];
  terms = order_terms;
  titleterms = order_titles;
  objects = [];
  objnames = λ k. record { short = []; name = [] };
}

pages-IsDisjoint : IsDisjoint pages
unfolding files_of
pages-IsDisjoint w = ground arith

abbrev asked : List Text
asked = codes "order" ∷ codes "fill" ∷ []

pages_runs :
    (matching_files underscore pages asked [] ≡ 1 ∷ 2 ∷ [])
    × (file_score underscore pages asked 1 ≡ 15)
    × (file_score underscore pages asked 2 ≡ 5)
    -- The excluded word has two files, and rejects neither.
    × (matching_files underscore pages (codes "order" ∷ []) (codes "fill" ∷ []) ≡ 0 ∷ 1 ∷ 2 ∷ [])
unfolding matching_files file_score
pages_runs = (refl, refl, refl, refl)

matching_files_iff_example : In 2 (matching_files underscore pages asked []) ↔ (
    (asked ≢ [])
    × All (λ w. In 2 (indexed pages w)) asked
    × All (λ e. ¬ (IsOnly (pages.terms e) 2 ⊎ IsOnly (pages.titleterms e) 2)) [])
matching_files_iff_example = matching_files_iff underscore pages asked [] 2 pages-IsDisjoint

asked-HasOne : All (λ w. In 1 (indexed pages w)) asked
unfolding files_of
asked-HasOne = ground arith

file_score_lem_example :
    (InTitle pages 1 asked × (file_score underscore pages asked 1 ≡ 15))
    ⊎ ((¬ InTitle pages 1 asked) × (file_score underscore pages asked 1 ≡ 5))
file_score_lem_example = file_score_lem underscore pages asked 1 (λ e. cc) asked-HasOne
