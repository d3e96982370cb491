-- ===== src/SearchTools/Regex.antt =====
-- The regular expressions that the stemmer of doc/build/html/_static/searchtools.js builds: classes
-- of characters, stars of classes, optional groups and `$`, matched from the start of the text.
-- `accepts` is the backtracking matcher of the JavaScript standard, with a continuation.
use pyfix.Base.{ℕ, Bool, true, false, ◌&&◌, ◌||◌, not, [], ◌∷◌, Text, ◌==◌}

pub data Regex : Type 0 where
  -- one character of a class
  cls : (ℕ → Bool) → Regex
  -- any number of characters of a class
  star : (ℕ → Bool) → Regex
  seq : Regex → Regex → Regex
  -- `(r)?`
  opt : Regex → Regex
  -- `$`
  eol : Regex

unfoldable pub star_loop : (ℕ → Bool) → (Text → Bool) → Text → Bool
star_loop p k [] = k []
star_loop p k (c ∷ s) = p c && star_loop p k s || k (c ∷ s)

unfoldable pub accepts : Regex → (Text → Bool) → Text → Bool
unfolding star_loop
accepts (cls p) k [] = false
accepts (cls p) k (c ∷ s) = p c && k s
accepts (star p) k s = star_loop p k s
accepts (seq a b) k s = accepts a (λ t. accepts b k t) s
accepts (opt a) k s = accepts a k s || k s
accepts eol k [] = k []
accepts eol k (c ∷ s) = false

-- `new RegExp("^" + …).test(s)`
unfoldable pub test : Regex → Text → Bool
unfolding accepts
test r s = accepts r (λ t. true) s

-- `[aeiou]`, and `[aeiouy]`, the class `v`.
unfoldable pub in_aeiou : ℕ → Bool
in_aeiou c = c == b'a' || c == b'e' || c == b'i' || c == b'o' || c == b'u'

unfoldable pub in_aeiouy : ℕ → Bool
unfolding in_aeiou
in_aeiouy c = in_aeiou c || c == b'y'

-- `[^aeiou]`, the class `c`, and `[^aeiouy]`.
unfoldable pub not_aeiou : ℕ → Bool
unfolding in_aeiou
not_aeiou c = not (in_aeiou c)

unfoldable pub not_aeiouy : ℕ → Bool
unfolding in_aeiouy
not_aeiouy c = not (in_aeiouy c)

-- `C`, a consonant sequence, and `V`, a vowel sequence.
unfoldable pub consonants : Regex
unfolding not_aeiou not_aeiouy
consonants = seq (cls not_aeiou) (star not_aeiouy)

unfoldable pub vowels : Regex
unfolding in_aeiou in_aeiouy
vowels = seq (cls in_aeiouy) (star in_aeiou)

-- `[C]VC...`, m > 0.
unfoldable pub mgr0 : Regex
unfolding consonants vowels
mgr0 = seq (opt consonants) (seq vowels consonants)

-- `[C]VC[V]`, m = 1.
unfoldable pub meq1 : Regex
unfolding consonants vowels
meq1 = seq (opt consonants) (seq vowels (seq consonants (seq (opt vowels) eol)))

-- `[C]VCVC...`, m > 1.
unfoldable pub mgr1 : Regex
unfolding consonants vowels
mgr1 = seq (opt consonants) (seq vowels (seq consonants (seq vowels consonants)))

-- A vowel in the stem.
unfoldable pub s_v : Regex
unfolding consonants in_aeiouy
s_v = seq (opt consonants) (cls in_aeiouy)

-- `[^aeiouwxy]`
unfoldable pub not_aeiouwxy : ℕ → Bool
unfolding in_aeiouy
not_aeiouwxy c = not (in_aeiouy c || c == b'w' || c == b'x')

-- `"^" + C + v + "[^aeiouwxy]$"`
unfoldable pub cvc : Regex
unfolding consonants in_aeiouy not_aeiouwxy
cvc = seq consonants (seq (cls in_aeiouy) (seq (cls not_aeiouwxy) eol))
