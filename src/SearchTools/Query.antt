-- ===== src/SearchTools/Query.antt =====
-- The first part of `Search.query` of doc/build/html/_static/searchtools.js: the query is split into
-- words, and each word goes to the lists that the search uses.
pub mod Words
pub mod Kept
mod Tests
use pyfix.Base.{
  ℕ, Bool, true, false, ◌&&◌, ◌||◌, not, List, [], ◌∷◌, ◌++◌, map, Text, String, codes, text_eq,
  ◌==◌, leb, all, if◌then◌else◌,
}
use pyfix.Underscore.{Underscore, Value, str}
use pyfix.SearchTools.Stemmer.{stem_word}

-- What `\s` matches.
unfoldable pub is_space : ℕ → Bool
is_space c =
    leb 9 c && leb c 13
    || c == 32
    || c == 0xa0
    || c == 0x1680
    || c == 0x180e
    || leb 0x2000 c && leb c 0x200a
    || c == 0x2028
    || c == 0x2029
    || c == 0x202f
    || c == 0x205f
    || c == 0x3000
    || c == 0xfeff

-- `s.split(/\s+/)`: `cur` is the word so far, and `gap` says that a run of spaces is being read.
unfoldable pub split_from : Text → Bool → Text → List Text
unfolding is_space
split_from cur gap [] = cur ∷ []
split_from cur gap (c ∷ s) =
    let inside = split_from cur true s in
    let closed = split_from [] true s in
    let longer = split_from (cur ++ c ∷ []) false s in
    if is_space c then (if gap then inside else cur ∷ closed) else longer

unfoldable pub split_spaces : Text → List Text
unfolding split_from
split_spaces s = split_from [] false s

-- `/^\d+$/`
unfoldable pub is_number : Text → Bool
is_number [] = false
is_number (c ∷ s) = all (λ d. leb b'0' d && leb d b'9') (c ∷ s)

abbrev pub stopwords : List String
stopwords =
    "a" ∷ "and" ∷ "are" ∷ "as" ∷ "at" ∷ "be" ∷ "but" ∷ "by" ∷ "for" ∷ "if" ∷ "in" ∷ "into" ∷ "is"
    ∷ "it" ∷ "near" ∷ "no" ∷ "not" ∷ "of" ∷ "on" ∷ "or" ∷ "such" ∷ "that" ∷ "the" ∷ "their" ∷ "then"
    ∷ "there" ∷ "these" ∷ "they" ∷ "this" ∷ "to" ∷ "was" ∷ "will" ∷ "with" ∷ []

-- The lists that the loop fills.
pub record QueryTerms : Type 0 where
  pub objectterms : List Text
  pub searchterms : List Text
  pub excluded : List Text
  pub hlterms : List Text

abbrev pub no_terms : QueryTerms
no_terms = record { objectterms = []; searchterms = []; excluded = []; hlterms = [] }

-- `u` is underscore.js, and `lower` is `toLowerCase`, whose tables belong to the browser.
module _ (u : Underscore) (lower : Text → Text) where
  -- The "words" that the loop skips.
  unfoldable pub is_skipped : Text → Bool
  unfolding is_number
  is_skipped tok =
      u.contains (map (λ w. str (codes w)) stopwords) (str (lower tok))
      || is_number tok
      || text_eq tok []

  -- `if (!$u.contains(toAppend, word)) toAppend.push(word)`
  unfoldable pub push_new : List Text → Text → List Text
  push_new ws w = if u.contains (map str ws) (str w) then ws else ws ++ w ∷ []

  -- A stemmed word goes to `excluded` without its "-", or to `searchterms`.
  unfoldable pub sort_word : Text → Text → QueryTerms → QueryTerms
  unfolding push_new
  sort_word [] low t = record t {
    hlterms = t.hlterms ++ low ∷ [];
    searchterms = push_new t.searchterms [];
  }
  sort_word (c ∷ w) low t =
      if c == b'-' then record t { excluded = push_new t.excluded w } else record t {
        hlterms = t.hlterms ++ low ∷ [];
        searchterms = push_new t.searchterms (c ∷ w);
      }

  -- `if (tmp[i] !== "") objectterms.push(…)`
  unfoldable pub note_object : QueryTerms → Text → QueryTerms
  note_object t tok =
      if text_eq tok [] then t else record t { objectterms = t.objectterms ++ lower tok ∷ [] }

  -- One round of the loop.
  unfoldable pub add_word : QueryTerms → Text → QueryTerms
  unfolding note_object
  add_word t tok =
      if is_skipped tok
      then note_object t tok
      else sort_word (stem_word (lower tok)) (lower tok) (note_object t tok)

  unfoldable pub add_words : QueryTerms → List Text → QueryTerms
  unfolding add_word
  add_words t [] = t
  add_words t (tok ∷ toks) = add_words (add_word t tok) toks

  unfoldable pub read_query : Text → QueryTerms
  unfolding add_words split_spaces is_skipped sort_word stem_word
  read_query query = add_words no_terms (split_spaces query)
