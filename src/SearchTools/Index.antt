-- ===== src/SearchTools/Index.antt =====
-- The search index that doc/build/html/searchindex.js hands to `Search.setIndex`, as
-- doc/build/html/_static/searchtools.js reads it. A lookup by a name is a function: the names that
-- every JavaScript object inherits, such as "constructor", are left out.
use pyfix.Base.{ℕ, List, [], ◌∷◌, Option, none, some, Text}
use pyfix.Base.Int.{ℤ}

-- The files of a word: a single number or an array.
pub data Posting : Type 0 where
  one : ℕ → Posting
  many : List ℕ → Posting

-- `_files`, an empty list where the word is missing.
unfoldable pub files_of : Option Posting → List ℕ
files_of none = []
files_of (some (one f)) = f ∷ []
files_of (some (many fs)) = fs

-- `objects[prefix][name]`: the file, the type, the priority and the anchor of an object.
pub record Entry : Type 0 where
  pub file : ℕ
  pub kind : ℕ
  pub prio : ℕ
  pub anchor : Text

-- `objnames[kind]`, its fields 1 and 2.
pub record Kind : Type 0 where
  pub short : Text
  pub name : Text

pub record Index : Type 0 where
  pub filenames : List Text
  pub titles : List Text
  pub terms : Text → Option Posting
  pub titleterms : Text → Option Posting
  pub objects : List (Text × List (Text × Entry))
  pub objnames : ℕ → Kind

-- An entry `[filename, title, anchor, descr, score]` of `results`.
pub record Result : Type 0 where
  pub filename : Option Text
  pub title : Option Text
  pub anchor : Text
  pub descr : Option Text
  pub score : ℤ
