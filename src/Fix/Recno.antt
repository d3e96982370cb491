-- ===== src/Fix/Recno.antt =====
-- What pyfix/persistence/BerkeleyPersister.py uses of a Berkeley database of numbered records: a
-- library that it calls, so the databases are a parameter with their documented behaviour.
use pyfix.Base.{ℕ, ◌≡◌, refl, List, [], ◌∷◌, Option, none, some, Text, ◌==◌, max, if◌then◌else◌}

-- The larger of a new number and the last one.
abbrev pub raise_last : ℕ → Option ℕ → ℕ
raise_last k none = k
raise_last k (some j) = max k j

pub record Recno : Type 1 where
  pub Db : Type 0
  pub empty : Db
  pub get : Db → ℕ → Option Text
  pub put : Db → ℕ → Text → Db
  -- The number of the last record.
  pub last : Db → Option ℕ
  pub get-empty : (j : ℕ) → get empty j ≡ none
  pub last-empty : last empty ≡ none
  pub get-put :
      (d : Db) (k : ℕ) (t : Text) (j : ℕ) → get (put d k t) j ≡ (if k == j then some t else get d j)
  pub last-put : (d : Db) (k : ℕ) (t : Text) → last (put d k t) ≡ some (raise_last k (last d))

-- A model of the parameter.
abbrev pub find : List (ℕ × Text) → ℕ → Option Text
find [] j = none
find ((k, t) ∷ d) j = if k == j then some t else find d j

abbrev pub last_key : List (ℕ × Text) → Option ℕ
last_key [] = none
last_key ((k, t) ∷ d) = some (raise_last k (last_key d))

abbrev pub records : Recno
records = record {
  Db = List (ℕ × Text);
  empty = [];
  get = find;
  put = λ d k t. (k, t) ∷ d;
  last = last_key;
  get-empty = λ j. refl;
  last-empty = refl;
  get-put = λ d k t j. refl;
  last-put = λ d k t. refl;
}
