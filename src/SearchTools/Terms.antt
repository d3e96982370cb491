-- ===== src/SearchTools/Terms.antt =====
-- `Search.performTermsSearch` of doc/build/html/_static/searchtools.js.
pub mod Counts
pub mod Matches
pub mod Scores
mod Tests
use mathlib.Core.List.{foldl}
use pyfix.Base.{
  ℕ, Bool, true, false, ◌&&◌, ◌||◌, not, List, [], ◌∷◌, ◌++◌, map, Option, none, some, Text,
  text_eq, ◌==◌, ltb, length, get_elem?, if◌then◌else◌,
}
use pyfix.Base.Int.{pos}
use pyfix.Underscore.{Underscore, Value, num, key}
use pyfix.SearchTools.Index.{Posting, one, many, files_of, Index, Result}

-- `Scorer.title` and `Scorer.term`.
abbrev pub title_score : ℕ
title_score = 15

abbrev pub term_score : ℕ
term_score = 5

-- `fileMap`. A `for … in` loop goes through names that are numbers in ascending order.
pub record FileMap : Type 0 where
  pub keys : List ℕ
  pub words : ℕ → List Text

unfoldable pub has_key : ℕ → List ℕ → Bool
has_key f [] = false
has_key f (k ∷ ks) = f == k || has_key f ks

unfoldable pub insert_key : ℕ → List ℕ → List ℕ
insert_key f [] = f ∷ []
insert_key f (k ∷ ks) = if ltb f k then f ∷ k ∷ ks else k ∷ insert_key f ks

-- `if (file in fileMap) fileMap[file].push(word); else fileMap[file] = [word];`
unfoldable pub push_file : Text → FileMap → ℕ → FileMap
unfolding has_key insert_key
push_file w m f =
    if has_key f m.keys
    then record m { words = λ g. if g == f then m.words f ++ w ∷ [] else m.words g }
    else record { keys = insert_key f m.keys; words = λ g. if g == f then w ∷ [] else m.words g }

abbrev pub no_files : FileMap
no_files = record { keys = []; words = λ g. [] }

-- `scoreMap`; 0 stands for a score that was not set.
abbrev pub ScoreMap : Type 0
ScoreMap = ℕ → Text → ℕ

unfoldable pub set_score : Text → ℕ → ScoreMap → ℕ → ScoreMap
set_score w score m f g v = if g == f && text_eq v w then score else m g v

pub record Source : Type 0 where
  pub files : Option Posting
  pub score : ℕ

unfoldable pub is_undefined : Option Posting → Bool
is_undefined none = true
is_undefined (some p) = false

-- The callback of `$u.each(_o, …)`: the files of a source are added, with their scores.
unfoldable pub add_source : Text → List ℕ × ScoreMap → Source → List ℕ × ScoreMap
unfolding files_of set_score
add_source w s o = (s.0 ++ files_of o.files, foldl (set_score w o.score) s.1 (files_of o.files))

-- What is known after some search terms.
pub record Found : Type 0 where
  pub files : FileMap
  pub scores : ScoreMap

abbrev pub nothing : Found
nothing = record { files = no_files; scores = λ g v. 0 }

-- `p == file`, where `file` is the name of a property: an array is compared by its joined text.
unfoldable pub loosely_equal : Option Posting → ℕ → Bool
loosely_equal none f = false
loosely_equal (some (one g)) f = g == f
loosely_equal (some (many [])) f = false
loosely_equal (some (many (g ∷ []))) f = g == f
loosely_equal (some (many (g ∷ h ∷ gs))) f = false

-- `p || []`, as the array that `$u.contains` looks through: a single number has no elements.
unfoldable pub elements : Option Posting → List Value
elements none = []
elements (some (one g)) = []
elements (some (many gs)) = map num gs

module _ (u : Underscore) (idx : Index) where
  -- `_o`
  unfoldable pub sources : Text → List Source
  sources w =
      record { files = idx.terms w; score = term_score }
      ∷ record { files = idx.titleterms w; score = title_score }
      ∷ []

  unfoldable pub add_term : Found → Text → Found
  unfolding add_source push_file sources
  add_term found w =
      let (files, scores) = u.each (sources w) (add_source w) ([], found.scores) in
      record { files = foldl (push_file w) found.files files; scores = scores }

  -- The loop over the search terms, which stops at a word that no source has.
  unfoldable pub add_terms : Found → List Text → Found
  unfolding is_undefined add_term sources
  add_terms found [] = found
  add_terms found (w ∷ ws) =
      let rest = add_terms (add_term found w) ws in
      if u.every (sources w) (λ o. is_undefined o.files) then found else rest

  -- The test for one excluded word.
  unfoldable pub rejects : Text → ℕ → Bool
  unfolding loosely_equal elements
  rejects e f =
      loosely_equal (idx.terms e) f
      || loosely_equal (idx.titleterms e) f
      || u.contains (elements (idx.terms e)) (key f)
      || u.contains (elements (idx.titleterms e)) (key f)

  unfoldable pub is_valid : List Text → ℕ → Bool
  unfolding rejects
  is_valid [] f = true
  is_valid (e ∷ es) f = let rest = is_valid es f in if rejects e f then false else rest

  -- The files that the last loop keeps.
  unfoldable pub keep_files : ℕ → List Text → FileMap → List ℕ → List ℕ
  unfolding is_valid
  keep_files n excluded m [] = []
  keep_files n excluded m (f ∷ fs) =
      let rest = keep_files n excluded m fs in
      if length (m.words f) == n && is_valid excluded f then f ∷ rest else rest

  unfoldable pub matching_files : List Text → List Text → List ℕ
  unfolding add_terms keep_files
  matching_files searchterms excluded =
      let m = (add_terms nothing searchterms).files in
      keep_files (length searchterms) excluded m m.keys

  -- `$u.max` of the scores of the words of the file.
  unfoldable pub file_score : List Text → ℕ → ℕ
  unfolding add_terms
  file_score searchterms f =
      let found = add_terms nothing searchterms in
      u.max (u.map_all (found.files.words f) (λ w. found.scores f w))

  unfoldable pub perform_terms_search : List Text → List Text → List Result
  unfolding matching_files file_score
  perform_terms_search searchterms excluded =
      map
        (λ f. record {
          filename = get_elem? idx.filenames f;
          title = get_elem? idx.titles f;
          anchor = [];
          descr = none;
          score = pos (file_score searchterms f);
        })
        (matching_files searchterms excluded)
