-- ===== src/SearchTools/Stemmer.antt =====
-- `Stemmer.stemWord` of doc/build/html/_static/searchtools.js, one function for each step. A test
-- `/^(.+?)(…)$/` is a lazy split: the shortest stem whose rest is one of the suffixes.
pub mod Splits
pub mod Bounds
pub mod Measure
mod Tests
use mathlib.Core.Option
use pyfix.Base.{
  ℕ, Bool, true, false, ◌&&◌, ◌||◌, not, List, [], ◌∷◌, ◌++◌, Option, none, some, Text, String,
  codes, text_eq, ◌==◌, ltb, length, if◌then◌else◌,
}
use pyfix.SearchTools.Regex.{test, mgr0, meq1, mgr1, s_v, cvc, in_aeiouy, not_aeiouy, accepts}

-- What `.` matches: anything but a line terminator.
unfoldable pub dot : ℕ → Bool
dot c = not (c == 10 || c == 13 || c == 0x2028 || c == 0x2029)

-- `^(.+?)` followed by what `rest` accepts up to the end: the stem, and what `rest` captures.
unfoldable pub lazy_split : (Text → Option Text) → Text → Option (Text × Text)
unfolding dot
lazy_split rest [] = none
lazy_split rest (x ∷ s) =
    let longer = Option.map (λ (p : Text × Text). (x ∷ p.0, p.1)) (lazy_split rest s) in
    if dot x then (elim (rest s) [ some g ↦ some (x ∷ [], g) | none ↦ longer ]) else none

-- `(a|b|…)$` at the place where the stem ends.
unfoldable pub one_of : List String → Text → Option Text
one_of [] s = none
one_of (a ∷ as_list) s = if text_eq s (codes a) then some s else one_of as_list s

-- The same, with the text that replaces the suffix.
unfoldable pub replaced : List (String × String) → Text → Option Text
replaced [] s = none
replaced ((a, b) ∷ table) s = if text_eq s (codes a) then some (codes b) else replaced table s

-- `/.$/` replaced by the empty text.
unfoldable pub chop : Text → Text
unfolding dot
chop [] = []
chop (x ∷ []) = if dot x then [] else x ∷ []
chop (x ∷ y ∷ s) = x ∷ chop (y ∷ s)

-- `/^(.+?)(ss|i)es$/`, which captures "ss" or "i".
unfoldable pub sses_ies : Text → Option Text
unfolding replaced
sses_ies s = replaced (("sses", "ss") ∷ ("ies", "i") ∷ []) s

-- `/^(.+?)([^s])s$/`, which captures the letter before the last "s".
unfoldable pub other_s : Text → Option Text
other_s (c ∷ d ∷ []) = if not (c == b's') && d == b's' then some (c ∷ []) else none
other_s _ = none

-- `w.replace(re, "$1$2")`
abbrev joined : Text × Text → Text
joined p = p.0 ++ p.1

unfoldable pub step1a : Text → Text
unfolding lazy_split sses_ies other_s
step1a w = elim (lazy_split sses_ies w) [
  | some p ↦ joined p
  | none ↦ elim (lazy_split other_s w) [ some p ↦ joined p | none ↦ w ]
]

-- `/(at|bl|iz)$/`
unfoldable pub ends_at_bl_iz : Text → Bool
ends_at_bl_iz [] = false
ends_at_bl_iz (x ∷ s) =
    text_eq (x ∷ s) (codes "at")
    || text_eq (x ∷ s) (codes "bl")
    || text_eq (x ∷ s) (codes "iz")
    || ends_at_bl_iz s

-- `[^aeiouylsz]` twice at the end.
unfoldable pub ends_double : Text → Bool
unfolding in_aeiouy
ends_double [] = false
ends_double (x ∷ []) = false
ends_double (x ∷ y ∷ []) = not (in_aeiouy x || x == b'l' || x == b's' || x == b'z') && x == y
ends_double (x ∷ y ∷ z ∷ s) = ends_double (y ∷ z ∷ s)

-- What step 1b does to the stem that "ed" or "ing" left.
unfoldable pub repair : Text → Text
unfolding ends_at_bl_iz ends_double chop test cvc
repair w =
    if ends_at_bl_iz w
    then w ++ b'e' ∷ []
    else if ends_double w
    then chop w
    else if test cvc w
    then w ++ b'e' ∷ []
    else w

unfoldable pub step1b : Text → Text
unfolding lazy_split one_of chop test mgr0 s_v repair
step1b w = elim (lazy_split (one_of ("eed" ∷ [])) w) [
  | some p ↦ if test mgr0 p.0 then chop w else w
  | none ↦ elim (lazy_split (one_of ("ed" ∷ "ing" ∷ [])) w) [
    | some p ↦ if test s_v p.0 then repair p.0 else w
    | none ↦ w
  ]
]

unfoldable pub step1c : Text → Text
unfolding lazy_split one_of test s_v
step1c w = elim (lazy_split (one_of ("y" ∷ [])) w) [
  | some p ↦ if test s_v p.0 then p.0 ++ b'i' ∷ [] else w
  | none ↦ w
]

abbrev pub step2list : List (String × String)
step2list =
    ("ational", "ate")
    ∷ ("tional", "tion")
    ∷ ("enci", "ence")
    ∷ ("anci", "ance")
    ∷ ("izer", "ize")
    ∷ ("bli", "ble")
    ∷ ("alli", "al")
    ∷ ("entli", "ent")
    ∷ ("eli", "e")
    ∷ ("ousli", "ous")
    ∷ ("ization", "ize")
    ∷ ("ation", "ate")
    ∷ ("ator", "ate")
    ∷ ("alism", "al")
    ∷ ("iveness", "ive")
    ∷ ("fulness", "ful")
    ∷ ("ousness", "ous")
    ∷ ("aliti", "al")
    ∷ ("iviti", "ive")
    ∷ ("biliti", "ble")
    ∷ ("logi", "log")
    ∷ []

abbrev pub step3list : List (String × String)
step3list =
    ("icate", "ic")
    ∷ ("ative", "")
    ∷ ("alize", "al")
    ∷ ("iciti", "ic")
    ∷ ("ical", "ic")
    ∷ ("ful", "")
    ∷ ("ness", "")
    ∷ []

-- Steps 2 and 3: the suffix is replaced after a stem with m > 0.
unfoldable pub by_table : List (String × String) → Text → Text
unfolding lazy_split replaced test mgr0
by_table table w = elim (lazy_split (replaced table) w) [
  | some p ↦ if test mgr0 p.0 then joined p else w
  | none ↦ w
]

unfoldable pub step2 : Text → Text
unfolding by_table
step2 w = by_table step2list w

unfoldable pub step3 : Text → Text
unfolding by_table
step3 w = by_table step3list w

abbrev pub step4list : List String
step4list =
    "al" ∷ "ance" ∷ "ence" ∷ "er" ∷ "ic" ∷ "able" ∷ "ible" ∷ "ant" ∷ "ement" ∷ "ment" ∷ "ent" ∷ "ou"
    ∷ "ism" ∷ "ate" ∷ "iti" ∷ "ous" ∷ "ive" ∷ "ize" ∷ []

-- `(s|t)(ion)$`, which keeps the "s" or "t".
unfoldable pub sion_tion : Text → Option Text
unfolding replaced
sion_tion s = replaced (("sion", "s") ∷ ("tion", "t") ∷ []) s

unfoldable pub step4 : Text → Text
unfolding lazy_split one_of sion_tion test mgr1
step4 w = elim (lazy_split (one_of step4list) w) [
  | some p ↦ if test mgr1 p.0 then p.0 else w
  | none ↦ elim (lazy_split sion_tion w) [
    | some p ↦ if test mgr1 (joined p) then joined p else w
    | none ↦ w
  ]
]

unfoldable pub drop_e : Text → Text
unfolding lazy_split one_of test mgr1 meq1 cvc
drop_e w = elim (lazy_split (one_of ("e" ∷ [])) w) [
  | some p ↦ if test mgr1 p.0 || test meq1 p.0 && not (test cvc p.0) then p.0 else w
  | none ↦ w
]

-- `/ll$/`
unfoldable pub ends_ll : Text → Bool
ends_ll [] = false
ends_ll (x ∷ s) = text_eq (x ∷ s) (codes "ll") || ends_ll s

unfoldable pub drop_l : Text → Text
unfolding ends_ll test mgr1 chop
drop_l w = if ends_ll w && test mgr1 w then chop w else w

unfoldable pub step5 : Text → Text
unfolding drop_e drop_l
step5 w = drop_l (drop_e w)

unfoldable pub steps : Text → Text
unfolding step1a step1b step1c step2 step3 step4 step5
steps w = step5 (step4 (step3 (step2 (step1c (step1b (step1a w))))))

-- `firstch.toLowerCase() + w.substr(1)`, for the first letter "y".
unfoldable pub lower_first : Text → Text
lower_first [] = b'y' ∷ []
lower_first (_ ∷ s) = b'y' ∷ s

-- An initial "y" is a capital during the steps.
unfoldable pub stem_first : ℕ → Text → Text
stem_first first s = if first == b'y' then lower_first (steps (b'Y' ∷ s)) else steps (first ∷ s)

unfoldable pub stem_word : Text → Text
unfolding stem_first lower_first steps
stem_word [] = []
stem_word (first ∷ s) = if ltb (length (first ∷ s)) 3 then first ∷ s else stem_first first s
