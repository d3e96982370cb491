-- ===== src/SearchTools/Start/Opened.antt =====
-- The search that the address of the page asks for.
use pyfix.Base.{◌≡◌, ap, ◌∙◌, Bool, All, List, [], ◌∷◌, Option, some, Text, codes, arith}
use pyfix.JQuery.{select, on, set_val}
use pyfix.Doctools.{Parameters, get_query_parameters}
use pyfix.Doctools.Parameters.{Pair, IsClean, join, values, lookup, get_query_parameters-join}
use pyfix.Doctools.Documentation.{parameter}
use pyfix.SearchTools.Page.{Search, perform_search}
use pyfix.SearchTools.Start.{search_elements, open_search, init}

parameter-lookup :
    (key v : Text) (vs : List Text) (ps : Parameters)
    → lookup key ps ≡ v ∷ vs
    → parameter key ps ≡ some (v ∷ vs)
unfolding parameter
parameter-lookup key v vs ((k, ws) ∷ ps) h = ground (arith, parameter-lookup key v vs ps)
parameter-lookup key v vs [] h = cc

module _ {I : Type 0} (translate : Text → Text) (decode : Text → Option Text)
    (inherited : Text → Bool) where
  open_search-given :
      (params : Parameters) (q : Text) (more : List Text) (s : Search I)
      → parameter (codes "q") params ≡ some (q ∷ more)
      → open_search translate params s ≡ (
        perform_search q s,
        on (select (codes "input[name=\"q\"]")) (set_val q) ∷ search_elements translate,
      )
  unfolding open_search
  open_search-given params q more s h = ground arith

  init-read :
      (address : Text) (params : Parameters) (s : Search I)
      → get_query_parameters decode inherited address ≡ some params
      → init translate decode inherited address s ≡ some (open_search translate params s)
  unfolding init
  init-read address params s h = ground arith

  -- When the address is a list of pairs whose texts decode to keys and values, contain no "&" and no
  -- "=", and whose keys are not inherited by every object, and "q" is among them, the page starts the
  -- search for the first value of "q", puts it into the input, and shows the elements of the search.
  pub init-join :
      (p : Pair) (ps : List Pair) (q : Text) (more : List Text) (s : Search I)
      → All (IsClean decode inherited) (p ∷ ps)
      → values (codes "q") (p ∷ ps) ≡ q ∷ more
      → init translate decode inherited (b'?' ∷ join (p ∷ ps)) s
        ≡ some (
          perform_search q s,
          on (select (codes "input[name=\"q\"]")) (set_val q) ∷ search_elements translate,
        )
  init-join p ps q more s clean given =
      let (params, read, at) = get_query_parameters-join decode inherited p ps clean in
      init-read (b'?' ∷ join (p ∷ ps)) params s read
      ∙ ap some (
          open_search-given params q more s
            (parameter-lookup (codes "q") q more params (at (codes "q") ∙ given)))
