-- ===== src/SearchTools/Objects/Matches.antt =====
-- Which objects the search finds.
use pyfix.Base.{
  ◌≡◌, ◌↔◌, refl, sym, ap, ◌∙◌, inl, inr, Bool, true, List, [], ◌∷◌, Text, contains, all, In, All,
  In-of_cons_if, In-cons_if_first, In-cons_if_rest, In-append_cases, In-append_left,
  In-append_right, subst, arith,
}
use pyfix.SearchTools.Index.{Entry, Index, Result}
use pyfix.SearchTools.Objects.{
  full_name, haystack, is_found, object_result, search_names, search_prefixes,
  perform_object_search,
}

module _ (lower : Text → Text) (in_text : Text) (idx : Index) where
  -- The name, in lower case, contains the word, and all other words are in the name, the kind or the
  -- title of the page.
  abbrev pub IsMatch : Text → List Text → Text → Text → Entry → Type 0
  IsMatch object otherterms prefix name m =
      (contains (lower (full_name prefix name)) object ≡ true)
      × All (λ t. contains (haystack lower in_text idx prefix name m) t ≡ true) otherterms

  all_iff : (p : Text → Bool) (ts : List Text) → (all p ts ≡ true) ↔ All (λ t. p t ≡ true) ts
  all_iff p [] = ground arith
  all_iff p (t ∷ ts) = ground (arith, all_iff p ts)

  is_found_iff :
      (object : Text) (otherterms : List Text) (prefix name : Text) (m : Entry)
      → (is_found lower in_text idx object otherterms prefix name m ≡ true)
        ↔ IsMatch object otherterms prefix name m
  unfolding is_found
  is_found_iff object otherterms prefix name m =
      ground
        (arith, all_iff (λ t. contains (haystack lower in_text idx prefix name m) t) otherterms)

  -- A result for one of the names.
  abbrev FromName : Text → List Text → Text → List (Text × Entry) → Result → Type 0
  FromName object otherterms prefix names res =
      (name : Text) × (m : Entry) × In (name, m) names
      × IsMatch object otherterms prefix name m
      × (res ≡ object_result lower in_text idx object prefix name m)

  FromName-later :
      (object : Text) (otherterms : List Text) (prefix : Text) (x : Text × Entry)
      (names : List (Text × Entry)) (res : Result)
      → FromName object otherterms prefix names res
      → FromName object otherterms prefix (x ∷ names) res
  FromName-later object otherterms prefix x names res (name, m, k, match, e) =
      (name, m, inr k, match, e)

  In-of_search_names :
      (object : Text) (otherterms : List Text) (prefix : Text) (names : List (Text × Entry))
      (res : Result)
      → In res (search_names lower in_text idx object otherterms prefix names)
      → FromName object otherterms prefix names res
  unfolding search_names
  In-of_search_names object otherterms prefix [] res h = absurd h
  In-of_search_names object otherterms prefix ((name, m) ∷ names) res h =
      elim (In-of_cons_if (is_found lower in_text idx object otherterms prefix name m) res _ _ h) [
        | inl k ↦ (name, m, inl refl, (is_found_iff object otherterms prefix name m).0 k.0, k.1)
        | inr k ↦
            FromName-later object otherterms prefix (name, m) names res
              (In-of_search_names object otherterms prefix names res k)
      ]

  In-search_names :
      (object : Text) (otherterms : List Text) (prefix : Text) (names : List (Text × Entry))
      (name : Text) (m : Entry)
      → In (name, m) names
      → IsMatch object otherterms prefix name m
      → In
          (object_result lower in_text idx object prefix name m)
          (search_names lower in_text idx object otherterms prefix names)
  unfolding search_names
  In-search_names object otherterms prefix [] name m h match = absurd h
  In-search_names object otherterms prefix ((x, n) ∷ names) name m (inl e) match =
      In-cons_if_first (is_found lower in_text idx object otherterms prefix x n) _ _ _
        (ap (λ (p : Text × Entry). is_found lower in_text idx object otherterms prefix p.0 p.1)
            (sym e)
          ∙ (is_found_iff object otherterms prefix name m).1 match)
        (ap (λ (p : Text × Entry). object_result lower in_text idx object prefix p.0 p.1) e)
  In-search_names object otherterms prefix ((x, n) ∷ names) name m (inr h) match =
      In-cons_if_rest (is_found lower in_text idx object otherterms prefix x n) _ _ _
        (In-search_names object otherterms prefix names name m h match)

  -- A result for one of the objects of the index.
  abbrev pub FromObject : Text → List Text → List (Text × List (Text × Entry)) → Result → Type 0
  FromObject object otherterms objects res =
      (prefix : Text) × (names : List (Text × Entry)) × In (prefix, names) objects
      × FromName object otherterms prefix names res

  In-of_search_prefixes :
      (object : Text) (otherterms : List Text) (objects : List (Text × List (Text × Entry)))
      (res : Result)
      → In res (search_prefixes lower in_text idx object otherterms objects)
      → FromObject object otherterms objects res
  unfolding search_prefixes
  In-of_search_prefixes object otherterms [] res h = absurd h
  In-of_search_prefixes object otherterms ((prefix, names) ∷ more) res h =
      elim (In-append_cases res (search_names lower in_text idx object otherterms prefix names) _
        h) [
          | inl k ↦
              (prefix, names, inl refl, In-of_search_names object otherterms prefix names res k)
          | inr k ↦
              let (p, ns, inside, found) = In-of_search_prefixes object otherterms more res k in
              (p, ns, inr inside, found)
        ]

  In-search_prefixes :
      (object : Text) (otherterms : List Text) (objects : List (Text × List (Text × Entry)))
      (prefix : Text) (names : List (Text × Entry)) (res : Result)
      → In (prefix, names) objects
      → In res (search_names lower in_text idx object otherterms prefix names)
      → In res (search_prefixes lower in_text idx object otherterms objects)
  unfolding search_prefixes
  In-search_prefixes object otherterms [] prefix names res h k = absurd h
  In-search_prefixes object otherterms ((p, ns) ∷ more) prefix names res (inl e) k =
      In-append_left res (search_names lower in_text idx object otherterms p ns) _ (
        subst
          (λ (q : Text × List (Text × Entry)).
            In res (search_names lower in_text idx object otherterms q.0 q.1))
          e k)
  In-search_prefixes object otherterms ((p, ns) ∷ more) prefix names res (inr h) k =
      In-append_right res (search_names lower in_text idx object otherterms p ns) _
        (In-search_prefixes object otherterms more prefix names res h k)

  -- The results for a word are exactly those for the objects of the index whose full name, in lower
  -- case, contains the word, and whose prefix, name, kind and page title, in lower case, contain
  -- each other word.
  pub perform_object_search_iff :
      (object : Text) (otherterms : List Text) (res : Result)
      → In res (perform_object_search lower in_text idx object otherterms)
        ↔ FromObject object otherterms idx.objects res
  unfolding perform_object_search
  perform_object_search_iff object otherterms res = (
    In-of_search_prefixes object otherterms idx.objects res,
    λ h.
        let (prefix, names, inside, found) = h in
        let (name, m, k, match, e) = found in
        In-search_prefixes object otherterms idx.objects prefix names res inside (
          subst (λ res. In res (search_names lower in_text idx object otherterms prefix names))
            (sym e) (In-search_names object otherterms prefix names name m k match)),
  )
