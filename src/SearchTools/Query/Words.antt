-- ===== src/SearchTools/Query/Words.antt =====
-- `split(/\s+/)`: the words of a query.
use pyfix.Base.{
  ◌≡◌, refl, Bool, true, false, List, [], ◌∷◌, ◌++◌, Text, All, All-append, append_assoc, arith,
  if◌then◌else◌,
}
use pyfix.SearchTools.Query.{is_space, split_from, split_spaces}

abbrev pub NoSpace : Text → Type 0
NoSpace s = All (λ c. is_space c ≡ false) s

-- The text without its spaces, and the words one after the other.
pub visible : Text → Text
visible [] = []
visible (c ∷ s) = if is_space c then visible s else c ∷ visible s

pub joined : List Text → Text
joined [] = []
joined (w ∷ ws) = w ++ joined ws

split_from-NoSpace :
    (cur : Text) (gap : Bool) (s : Text) → NoSpace cur → All NoSpace (split_from cur gap s)
unfolding split_from
split_from-NoSpace cur gap [] h = (h, tt)
split_from-NoSpace cur gap (c ∷ s) h = ground (
  arith,
  split_from-NoSpace cur true s h,
  split_from-NoSpace [] true s tt,
  split_from-NoSpace (cur ++ c ∷ []) false s,
  λ (e : is_space c ≡ false). All-append (λ d. is_space d ≡ false) cur (c ∷ []) h (e, tt),
)

joined-split_from :
    (cur : Text) (gap : Bool) (s : Text) → joined (split_from cur gap s) ≡ cur ++ visible s
unfolding split_from joined visible
joined-split_from cur gap [] = refl
joined-split_from cur gap (c ∷ s) = ground (
  arith,
  joined-split_from cur true s,
  joined-split_from [] true s,
  joined-split_from (cur ++ c ∷ []) false s,
  append_assoc cur (c ∷ []) (visible s),
)

-- The words of a query hold no white space, and together they are the query without its spaces.
pub split_spaces_lem :
    (query : Text)
    → All NoSpace (split_spaces query) × (joined (split_spaces query) ≡ visible query)
unfolding split_spaces
split_spaces_lem query = (split_from-NoSpace [] false query tt, joined-split_from [] false query)
