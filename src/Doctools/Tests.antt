-- ===== src/Doctools/Tests.antt =====
-- The parameters of a search.
use pyfix.Base.{◌≡◌, refl, Bool, [], ◌∷◌, none, some, Text, codes, text_eq}
use pyfix.Doctools.{Parameters, get_query_parameters, urldecode}
use pyfix.Doctools.Parameters.{Pair, values, lookup, get_query_parameters-join}

abbrev inherited : Text → Bool
inherited k = text_eq k (codes "constructor")

abbrev word : Pair
word = record {
  key = codes "q";
  value = codes "fix session";
  key_text = codes "q";
  value_text = codes "fix+session";
}

abbrev area : Pair
area = record {
  key = codes "area";
  value = codes "default";
  key_text = codes "area";
  value_text = codes "default";
}

get_query_parameters_runs :
    (get_query_parameters some inherited (codes "?q=fix+session&area=default&q=x")
      ≡ some (
          (codes "q", codes "fix session" ∷ codes "x" ∷ [])
          ∷ (codes "area", codes "default" ∷ [])
          ∷ []))
    × (get_query_parameters some inherited (codes "?q")
        ≡ some ((codes "q", codes "undefined" ∷ []) ∷ []))
    × (get_query_parameters some inherited (codes "?constructor=1") ≡ none)
unfolding get_query_parameters
get_query_parameters_runs = (refl, refl, refl)

get_query_parameters-join_example :
    (ps : Parameters) × (get_query_parameters some inherited (codes "?q=fix+session&area=default")
      ≡ some ps)
    × ((key : Text) → lookup key ps ≡ values key (word ∷ area ∷ []))
unfolding urldecode
get_query_parameters-join_example = get_query_parameters-join some inherited word (area ∷ []) (
  ((refl, refl), (refl, refl), refl, refl, refl),
  (((refl, refl), (refl, refl), refl, refl, refl), tt),
)
