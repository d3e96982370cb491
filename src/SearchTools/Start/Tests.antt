-- ===== src/SearchTools/Start/Tests.antt =====
-- The address of a search page.
use pyfix.Base.{ℕ, ◌≡◌, refl, Bool, [], ◌∷◌, some, Text, codes, text_eq}
use pyfix.JQuery.{select, on, set_val}
use pyfix.Doctools.{urldecode}
use pyfix.Doctools.Parameters.{Pair}
use pyfix.SearchTools.Page.{start_page, perform_search}
use pyfix.SearchTools.Start.{search_elements, init}
use pyfix.SearchTools.Start.Opened.{init-join}

abbrev inherited : Text → Bool
inherited k = text_eq k (codes "constructor")

abbrev same : Text → Text
same t = t

abbrev word : Pair
word = record {
  key = codes "q";
  value = codes "fix session";
  key_text = codes "q";
  value_text = codes "fix+session";
}

init-join_example :
    init same some inherited (codes "?q=fix+session") (start_page {I = ℕ})
    ≡ some (
      perform_search (codes "fix session") start_page,
      on (select (codes "input[name=\"q\"]")) (set_val (codes "fix session"))
          ∷ search_elements same,
    )
unfolding urldecode
init-join_example =
    init-join same some inherited word [] (codes "fix session") [] start_page
      (((refl, refl), (refl, refl), refl, refl, refl), tt) refl
