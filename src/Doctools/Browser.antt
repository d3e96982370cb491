-- ===== src/Doctools/Browser.antt =====
-- `jQuery.uaMatch` of doc/build/html/_static/doctools.js, which reads the name and the version of the
-- browser.
mod Tests
use pyfix.Base.{
  ℕ, Bool, true, false, not, ◌||◌, List, [], ◌∷◌, Option, none, some, String, Text, codes,
  starts_with, contains, drop, length, text_eq, ◌==◌, if◌then◌else◌,
}
use pyfix.Comments.Template.{word_at}

-- The first place at which a pattern is found, from the left.
unfoldable pub first_match : (Text → Option Text) → Text → Option Text
first_match at_head [] = at_head []
first_match at_head (c ∷ s) =
    let rest = first_match at_head s in elim (at_head (c ∷ s)) [ none ↦ rest | some v ↦ some v ]

-- `[\w.]+` at the head.
unfoldable pub some_word : Text → Option Text
some_word s = if text_eq (word_at s).0 [] then none else some (word_at s).0

-- `[ \/]([\w.]+)` at the head.
unfoldable pub separated_word : Text → Option Text
separated_word [] = none
separated_word (c ∷ s) = if c == b' ' || c == b'/' then some_word s else none

abbrev pub or_else : Option Text → Option Text → Option Text
or_else none other = other
or_else (some v) other = some v

-- What `.` does not match.
unfoldable pub ends_line : ℕ → Bool
ends_line c = c == 10 || c == 13 || c == 0x2028 || c == 0x2029

-- `/(name)[ \/]([\w.]+)/`, for names without "." and others that stand for more than themselves.
unfoldable pub named_version : String → Text → Option Text
named_version name ua =
    first_match
      (λ s.
        if starts_with s (codes name) then separated_word (drop (length (codes name)) s) else none)
      ua

-- `.*version[ \/]([\w.]+)` at the head, which takes the last "version" of the line that fits.
unfoldable pub last_version : Text → Option Text
last_version [] = none
last_version (c ∷ s) =
    let later = last_version s in
    let here =
      if starts_with (c ∷ s) (codes "version") then separated_word (drop 7 (c ∷ s)) else none in
    if ends_line c then here else or_else later here

unfoldable pub opera_version : Text → Option Text
opera_version ua =
    first_match
      (λ s.
        if starts_with s (codes "opera")
        then or_else (last_version (drop 5 s)) (separated_word (drop 5 s))
        else none)
      ua

unfoldable pub msie_version : Text → Option Text
msie_version ua =
    first_match (λ s. if starts_with s (codes "msie ") then some_word (drop 5 s) else none) ua

-- `.*? rv:([\w.]+)` at the head, which takes the first " rv:" of the line that fits.
unfoldable pub first_revision : Text → Option Text
first_revision [] = none
first_revision (c ∷ s) =
    let later = first_revision s in
    let here = if starts_with (c ∷ s) (codes " rv:") then some_word (drop 4 (c ∷ s)) else none in
    if ends_line c then here else or_else here later

-- The version that follows "mozilla": missing, it reads "0".
unfoldable pub mozilla_version : Text → Option Text
mozilla_version ua =
    first_match
      (λ s.
        if starts_with s (codes "mozilla")
        then some (elim (first_revision (drop 7 s)) [ none ↦ codes "0" | some v ↦ v ])
        else none)
      ua

pub record Browser : Type 0 where
  pub browser : Text
  pub version : Text

-- The first expression that matches decides.
unfoldable pub named_or : String → Option Text → Browser → Browser
named_or name none other = other
named_or name (some v) other = record { browser = codes name; version = v }

-- `lower` is `toLowerCase`.
unfoldable pub ua_match : (Text → Text) → Text → Browser
ua_match lower agent =
    let ua = lower agent in
    named_or "chrome" (named_version "chrome" ua) (
      named_or "webkit" (named_version "webkit" ua) (
        named_or "opera" (opera_version ua) (
          named_or "msie" (msie_version ua) (
            named_or "mozilla"
              (if contains ua (codes "compatible") then none else mozilla_version ua)
              (record { browser = []; version = codes "0" })))))
