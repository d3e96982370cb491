-- ===== src/SearchTools/Terms/Matches.antt =====
-- The files that the search for terms finds.
use pyfix.Base.{
  ℕ, ◌<◌, ◌≡◌, refl, ap, ◌≢◌, ◌↔◌, ◌⊎◌, inl, inr, true, Bool-cases, List, [], ◌∷◌, map, Option,
  none, some, Text, length, All, In, arith,
}
use pyfix.Underscore.{Underscore, num, key}
use pyfix.SearchTools.Index.{Posting, one, many, Index}
use pyfix.SearchTools.Terms.{
  FileMap, has_key, nothing, loosely_equal, elements, rejects, is_valid, keep_files, matching_files,
  add_terms,
}
use pyfix.SearchTools.Terms.Counts.{
  IsFileMap, no_files-IsFileMap, indexed, IsDisjoint, add_terms-Gains, add_terms-IsFileMap,
}

pub has_key_iff : (f : ℕ) (ks : List ℕ) → (has_key f ks ≡ true) ↔ In f ks
unfolding has_key
has_key_iff f [] = ground arith
has_key_iff f (k ∷ ks) = ground (arith, has_key_iff f ks)

pub length-pos_iff : (ws : List Text) → (0 < length ws) ↔ (ws ≢ [])
length-pos_iff [] = (λ h. absurd (omega arith), λ n. absurd (n refl))
length-pos_iff (w ∷ ws) = (λ h e. cc, λ n. omega arith)

In-keys_iff : (m : FileMap) (f : ℕ) → IsFileMap m → In f m.keys ↔ (0 < length (m.words f))
In-keys_iff m f h = elim (Bool-cases (has_key f m.keys)) [
  | inl has ↦
      (λ k. (length-pos_iff (m.words f)).1 (h.present f has), λ k. (has_key_iff f m.keys).0 has)
  | inr lacks ↦ (
    λ k. absurd (cc (lacks, (has_key_iff f m.keys).1 k)),
    λ k. absurd (omega (arith, ap length (h.absent f lacks))),
  )
]

-- The word stands in one file only, which is `f`.
abbrev pub IsOnly : Option Posting → ℕ → Type 0
IsOnly p f = (p ≡ some (one f)) ⊎ (p ≡ some (many (f ∷ [])))

loosely_equal_iff : (p : Option Posting) (f : ℕ) → (loosely_equal p f ≡ true) ↔ IsOnly p f
unfolding loosely_equal
loosely_equal_iff none f = ground arith
loosely_equal_iff (some (one g)) f = ground arith
loosely_equal_iff (some (many [])) f = ground arith
loosely_equal_iff (some (many (g ∷ []))) f = ground arith
loosely_equal_iff (some (many (g ∷ h ∷ gs))) f = ground arith

-- No number is identical to the name of a property.
key-not-num : (f : ℕ) (gs : List ℕ) → ¬ In (key f) (map num gs)
key-not-num f [] h = h
key-not-num f (g ∷ gs) (inl e) = cc
key-not-num f (g ∷ gs) (inr h) = key-not-num f gs h

key-not-element : (p : Option Posting) (f : ℕ) → ¬ In (key f) (elements p)
unfolding elements
key-not-element none f h = h
key-not-element (some (one g)) f h = h
key-not-element (some (many gs)) f h = key-not-num f gs h

module _ (u : Underscore) (idx : Index) where
  -- An excluded word rejects a file exactly if the file is its only one in the text, or its only one
  -- in the titles.
  pub rejects_iff :
      (e : Text) (f : ℕ)
      → (rejects u idx e f ≡ true) ↔ (IsOnly (idx.terms e) f ⊎ IsOnly (idx.titleterms e) f)
  unfolding rejects
  rejects_iff e f = ground (
    arith,
    loosely_equal_iff (idx.terms e) f,
    loosely_equal_iff (idx.titleterms e) f,
    u.contains_iff (elements (idx.terms e)) (key f),
    u.contains_iff (elements (idx.titleterms e)) (key f),
    key-not-element (idx.terms e) f,
    key-not-element (idx.titleterms e) f,
  )

  is_valid_iff :
      (excluded : List Text) (f : ℕ)
      → (is_valid u idx excluded f ≡ true)
        ↔ All (λ e. ¬ (IsOnly (idx.terms e) f ⊎ IsOnly (idx.titleterms e) f)) excluded
  unfolding is_valid
  is_valid_iff [] f = ground arith
  is_valid_iff (e ∷ es) f = ground (arith, is_valid_iff es f, rejects_iff e f)

  keep_files_iff :
      (n : ℕ) (excluded : List Text) (m : FileMap) (fs : List ℕ) (f : ℕ)
      → In f (keep_files u idx n excluded m fs)
        ↔ (In f fs × (length (m.words f) ≡ n) × (is_valid u idx excluded f ≡ true))
  unfolding keep_files
  keep_files_iff n excluded m [] f = ground arith
  keep_files_iff n excluded m (g ∷ fs) f = ground (arith, keep_files_iff n excluded m fs f)

  -- Over an index that lists each file once for a word, a file is found exactly if there is a search
  -- term, every search term has the file in its text or title, and for no excluded word the file is
  -- the only one in the text or the only one in the titles.
  pub matching_files_iff :
      (searchterms excluded : List Text) (f : ℕ)
      → IsDisjoint idx
      → In f (matching_files u idx searchterms excluded) ↔ (
          (searchterms ≢ [])
          × All (λ w. In f (indexed idx w)) searchterms
          × All (λ e. ¬ (IsOnly (idx.terms e) f ⊎ IsOnly (idx.titleterms e) f)) excluded)
  unfolding matching_files
  matching_files_iff searchterms excluded f clean =
      let m = (add_terms u idx nothing searchterms).files in
      let g = add_terms-Gains u idx searchterms nothing f clean no_files-IsFileMap in
      let h = add_terms-IsFileMap u idx searchterms nothing no_files-IsFileMap in
      let listed_iff = In-keys_iff m f h in
      let kept = keep_files_iff (length searchterms) excluded m m.keys f in
      let valid = is_valid_iff excluded f in
      (
        λ inside.
            let (listed, enough, fine) = kept.0 inside in
            (
              λ none_given.
                  absurd (omega (arith, enough, ap length none_given, listed_iff.0 listed)),
              g.full (omega (arith, enough)),
              valid.0 fine,
            ),
        λ found. kept.1 (
          listed_iff.1 (omega (arith, g.complete found.1, (length-pos_iff searchterms).1 found.0)),
          omega (arith, g.complete found.1),
          valid.1 found.2,
        ),
      )
