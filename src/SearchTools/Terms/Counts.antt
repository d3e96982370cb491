-- ===== src/SearchTools/Terms/Counts.antt =====
-- How many words `fileMap` holds for a file after some search terms.
use mathlib.Core.Path.{subst}
use mathlib.Core.List.{foldl}
use pyfix.Base.{
  ℕ, suc, ◌+◌, ◌≤◌, ◌≡◌, refl, ◌≢◌, ◌⊎◌, inl, inr, true, false, ◌||◌, Bool-cases, List, [], ◌∷◌,
  ◌++◌, Text, ◌==◌, length, length-append, All, In, IsNodup, arith, if◌then◌else◌,
}
use pyfix.Underscore.{Underscore}
use pyfix.SearchTools.Index.{files_of, Index}
use pyfix.SearchTools.Terms.{
  FileMap, has_key, insert_key, push_file, no_files, Found, is_undefined, add_source, sources,
  add_term, add_terms,
}

pub count : ℕ → List ℕ → ℕ
count f [] = 0
count f (g ∷ gs) = if f == g then suc (count f gs) else count f gs

count-append : (f : ℕ) (xs ys : List ℕ) → count f (xs ++ ys) ≡ count f xs + count f ys
unfolding count
count-append f [] ys = omega arith
count-append f (x ∷ xs) ys = ground (arith, count-append f xs ys)

-- A list without repetitions counts each of its elements once.
pub count-IsNodup :
    (f : ℕ) (xs : List ℕ)
    → IsNodup xs
    → ((count f xs ≡ 1) × In f xs) ⊎ ((count f xs ≡ 0) × (¬ In f xs))
unfolding count
count-IsNodup f [] h = inr (refl, λ k. k)
count-IsNodup f (x ∷ xs) (fresh, h) = elim (count-IsNodup f xs h) [
  | inl (one_left, inside) ↦ elim (Bool-cases (f == x)) [
    | inl same ↦ absurd (fresh (subst (λ y. In y xs) (ground arith) inside))
    | inr other ↦ inl (ground arith, inr inside)
  ]
  | inr (none_left, outside) ↦ elim (Bool-cases (f == x)) [
    | inl same ↦ inl (ground arith, inl (ground arith))
    | inr other ↦ inr (ground arith, λ h. elim h [ inl e ↦ ground arith | inr k ↦ outside k ])
  ]
]

has_key-insert_key :
    (g f : ℕ) (ks : List ℕ) → has_key g (insert_key f ks) ≡ (g == f || has_key g ks)
unfolding has_key insert_key
has_key-insert_key g f [] = refl
has_key-insert_key g f (k ∷ ks) = ground (arith, has_key-insert_key g f ks)

-- A file has a key exactly if words stand under it.
pub record IsFileMap (m : FileMap) : Type 0 where
  pub absent : (g : ℕ) → has_key g m.keys ≡ false → m.words g ≡ []
  pub present : (g : ℕ) → has_key g m.keys ≡ true → m.words g ≢ []

append-ne-nil : (ws : List Text) (w : Text) → ws ++ w ∷ [] ≢ []
append-ne-nil [] w e = cc
append-ne-nil (v ∷ ws) w e = cc

pub push_file-IsFileMap :
    (w : Text) (m : FileMap) (f : ℕ) → IsFileMap m → IsFileMap (push_file w m f)
unfolding push_file
push_file-IsFileMap w m f h = record {
  absent = λ g k. ground (arith, h.absent g, h.absent f, has_key-insert_key g f m.keys);
  present = λ g k.
      ground (arith, h.present g, has_key-insert_key g f m.keys, append-ne-nil (m.words f) w);
}

pub push_file-words :
    (w : Text) (m : FileMap) (f g : ℕ)
    → IsFileMap m
    → (push_file w m f).words g ≡ (if g == f then m.words g ++ w ∷ [] else m.words g)
unfolding push_file
push_file-words w m f g h = ground (arith, h.absent f)

push_files-IsFileMap :
    (w : Text) (fs : List ℕ) (m : FileMap) → IsFileMap m → IsFileMap (foldl (push_file w) m fs)
push_files-IsFileMap w [] m h = h
push_files-IsFileMap w (f ∷ fs) m h =
    push_files-IsFileMap w fs (push_file w m f) (push_file-IsFileMap w m f h)

-- Each mention of the file adds the word once.
push_files-length :
    (w : Text) (fs : List ℕ) (m : FileMap) (g : ℕ)
    → IsFileMap m
    → length ((foldl (push_file w) m fs).words g) ≡ length (m.words g) + count g fs
unfolding count
push_files-length w [] m g h = omega arith
push_files-length w (f ∷ fs) m g h = ground (
  arith,
  push_files-length w fs (push_file w m f) g (push_file-IsFileMap w m f h),
  push_file-words w m f g h,
  length-append (m.words g) (w ∷ []),
)

pub no_files-IsFileMap : IsFileMap no_files
unfolding has_key
no_files-IsFileMap = record { absent = λ g h. refl; present = λ g h. cc }

module _ (idx : Index) where
  -- The files of a word, in the text or in a title.
  abbrev pub indexed : Text → List ℕ
  indexed w = files_of (idx.terms w) ++ files_of (idx.titleterms w)

  -- What the index builder promises: a word lists a file once, in the text or in the title.
  abbrev pub IsDisjoint : Type 0
  IsDisjoint = (w : Text) → IsNodup (indexed w)

  -- Over a disjoint index a file gains at most one word for each term, and all of them exactly if
  -- every term has the file.
  pub record Gains (f : ℕ) (ws : List Text) (before after : ℕ) : Type 0 where
    pub grows : before ≤ after
    pub bounded : after ≤ before + length ws
    pub full : after ≡ before + length ws → All (λ w. In f (indexed w)) ws
    pub complete : All (λ w. In f (indexed w)) ws → after ≡ before + length ws

  Gains-stop : (f n : ℕ) (w : Text) (ws : List Text) → indexed w ≡ [] → Gains f (w ∷ ws) n n
  Gains-stop f n w ws missing = record {
    grows = omega arith;
    bounded = omega arith;
    full = λ e. absurd (omega arith);
    complete = λ a. absurd (subst (In f) missing a.0);
  }

  Gains-step :
      (f n m : ℕ) (w : Text) (ws : List Text)
      → IsNodup (indexed w)
      → Gains f ws (n + count f (indexed w)) m
      → Gains f (w ∷ ws) n m
  Gains-step f n m w ws clean g = elim (count-IsNodup f (indexed w) clean) [
    | inl (once, inside) ↦ record {
      grows = omega (arith, g.grows);
      bounded = omega (arith, g.bounded);
      full = λ e. (inside, g.full (omega arith));
      complete = λ a. omega (arith, g.complete a.1);
    }
    | inr (never, outside) ↦ record {
      grows = omega (arith, g.grows);
      bounded = omega (arith, g.bounded);
      full = λ e. absurd (omega (arith, g.bounded));
      complete = λ a. absurd (outside a.0);
    }
  ]

module _ (u : Underscore) (idx : Index) where
  pub add_term-files :
      (found : Found) (w : Text)
      → (add_term u idx found w).files ≡ foldl (push_file w) found.files (indexed idx w)
  unfolding add_term add_source sources
  add_term-files found w = rw (u.each_lem (sources u idx w) (add_source w) ([], found.scores))

  pub undefined-indexed :
      (w : Text) → u.every (sources u idx w) (λ o. is_undefined o.files) ≡ true → indexed idx w ≡ []
  unfolding sources is_undefined files_of
  undefined-indexed w h = ground (arith, u.every_lem (sources u idx w) (λ o. is_undefined o.files))

  pub add_term-IsFileMap :
      (found : Found) (w : Text) → IsFileMap found.files → IsFileMap (add_term u idx found w).files
  add_term-IsFileMap found w h =
      rw (add_term-files found w) (push_files-IsFileMap w (indexed idx w) found.files h)

  add_term-length :
      (found : Found) (w : Text) (f : ℕ)
      → IsFileMap found.files
      → length ((add_term u idx found w).files.words f)
        ≡ length (found.files.words f) + count f (indexed idx w)
  add_term-length found w f h =
      rw (add_term-files found w) (push_files-length w (indexed idx w) found.files f h)

  pub add_terms-IsFileMap :
      (ws : List Text) (found : Found)
      → IsFileMap found.files
      → IsFileMap (add_terms u idx found ws).files
  unfolding add_terms
  add_terms-IsFileMap [] found h = h
  add_terms-IsFileMap (w ∷ ws) found h =
      elim (Bool-cases (u.every (sources u idx w) (λ o. is_undefined o.files))) [
        | inl stop ↦ rw stop h
        | inr go ↦
            rw go (add_terms-IsFileMap ws (add_term u idx found w) (add_term-IsFileMap found w h))
      ]

  pub add_terms-Gains :
      (ws : List Text) (found : Found) (f : ℕ)
      → IsDisjoint idx
      → IsFileMap found.files
      → Gains idx f ws
          (length (found.files.words f))
          (length ((add_terms u idx found ws).files.words f))
  unfolding add_terms
  add_terms-Gains [] found f clean h = record {
    grows = omega arith;
    bounded = omega arith;
    full = λ e. tt;
    complete = λ a. omega arith;
  }
  add_terms-Gains (w ∷ ws) found f clean h =
      elim (Bool-cases (u.every (sources u idx w) (λ o. is_undefined o.files))) [
        | inl stop ↦
            rw stop
              (Gains-stop idx f (length (found.files.words f)) w ws (undefined-indexed w stop))
        | inr go ↦ rw go (
            Gains-step idx f (length (found.files.words f)) _ w ws (clean w) (
              rw (← add_term-length found w f h) (
                add_terms-Gains ws (add_term u idx found w) f clean
                  (add_term-IsFileMap found w h))))
      ]
