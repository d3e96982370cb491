-- ===== src/SearchTools/Page/Queries.antt =====
-- Which queries the page runs.
use pyfix.Base.{
  ◌≡◌, refl, sym, ap, ◌∙◌, subst, List, [], ◌∷◌, ◌++◌, map, append_assoc, append-nil, Option, none,
  some, Text, All, map-append, arith,
}
use pyfix.SearchTools.Page.{
  Search, Event, search, arrive, fire, shown, start_page, pulse, start_pulse, stop_pulse,
  perform_search, run_query, defer_query, set_index, fire_timer, handle, handle_all, asked,
}

-- What waits after the searches that come before the index: the last of them.
abbrev pub last_of : Option Text → List Text → Option Text
last_of q [] = q
last_of q (w ∷ ws) = last_of (some w) ws

abbrev pub listed : Option Text → List Text
listed none = []
listed (some q) = q ∷ []

module _ {I : Type 0} where
  -- Not the arrival of an index.
  abbrev pub IsQuiet : Event I → Type 0
  IsQuiet (arrive i) = ⊥
  IsQuiet _ = Unit

  -- The fields that decide about queries.
  abbrev pub IsAt : Search I → Option I → Option Text → List (I × Text) → Type 0
  IsAt s index queued queries =
      (s.index ≡ index) × (s.queued_query ≡ queued) × (s.queries ≡ queries)

  start_pulse-IsAt :
      (s : Search I) (o : Option I) (q : Option Text) (qs : List (I × Text))
      → IsAt s o q qs
      → IsAt (start_pulse s) o q qs
  unfolding start_pulse pulse
  start_pulse-IsAt s o q qs h = ground (arith, h)

  fire_timer-IsAt :
      (s : Search I) (o : Option I) (q : Option Text) (qs : List (I × Text))
      → IsAt s o q qs
      → IsAt (fire_timer s) o q qs
  unfolding fire_timer pulse
  fire_timer-IsAt s o q qs h = ground (arith, h)

  perform_search-deferred :
      (w : Text) (s : Search I)
      → (start_pulse s).index ≡ none
      → perform_search w s ≡ defer_query w (start_pulse s)
  unfolding perform_search
  perform_search-deferred w s e =
      ap
        (λ (o : Option I). elim o as (λ _. Search I) [
          | none ↦ defer_query w (start_pulse s)
          | some i ↦ run_query i w (start_pulse s)
        ])
        e

  perform_search-run :
      (w : Text) (s : Search I) (i : I)
      → (start_pulse s).index ≡ some i
      → perform_search w s ≡ run_query i w (start_pulse s)
  unfolding perform_search
  perform_search-run w s i e =
      ap
        (λ (o : Option I). elim o as (λ _. Search I) [
          | none ↦ defer_query w (start_pulse s)
          | some i ↦ run_query i w (start_pulse s)
        ])
        e

  perform_search-waits :
      (w : Text) (s : Search I) (q : Option Text) (qs : List (I × Text))
      → IsAt s none q qs
      → IsAt (perform_search w s) none (some w) qs
  unfolding defer_query
  perform_search-waits w s q qs h =
      let (index, queued, queries) = start_pulse-IsAt s none q qs h in
      subst (λ t. IsAt t none (some w) qs) (sym (perform_search-deferred w s index))
        (index, refl, queries)

  perform_search-runs :
      (w : Text) (s : Search I) (i : I) (q : Option Text) (qs : List (I × Text))
      → IsAt s (some i) q qs
      → IsAt (perform_search w s) (some i) q (qs ++ (i, w) ∷ [])
  unfolding run_query
  perform_search-runs w s i q qs h =
      let (index, queued, queries) = start_pulse-IsAt s (some i) q qs h in
      subst (λ t. IsAt t (some i) q (qs ++ (i, w) ∷ [])) (sym (perform_search-run w s i index))
        (index, queued, ap (λ qs. qs ++ (i, w) ∷ []) queries)

  -- The index arrives where nothing waits, and where a query waits.
  set_index-alone :
      (i : I) (s : Search I) → s.queued_query ≡ none → set_index i s ≡ record s { index = some i }
  unfolding set_index
  set_index-alone i s e =
      ap
        (λ (o : Option Text). elim o as (λ _. Search I) [
          | none ↦ record s { index = some i }
          | some q ↦ run_query i q (record s { index = some i; queued_query = none })
        ])
        e

  set_index-queued :
      (i : I) (s : Search I) (q : Text)
      → s.queued_query ≡ some q
      → set_index i s ≡ run_query i q (record s { index = some i; queued_query = none })
  unfolding set_index
  set_index-queued i s q e =
      ap
        (λ (o : Option Text). elim o as (λ _. Search I) [
          | none ↦ record s { index = some i }
          | some q ↦ run_query i q (record s { index = some i; queued_query = none })
        ])
        e

  set_index-runs :
      (i : I) (s : Search I) (q : Option Text)
      → IsAt s none q []
      → IsAt (set_index i s) (some i) none (map (λ w. (i, w)) (listed q))
  unfolding run_query
  set_index-runs i s none (index, queued, queries) =
      subst (λ t. IsAt t (some i) none []) (sym (set_index-alone i s queued))
        (refl, queued, queries)
  set_index-runs i s (some q) (index, queued, queries) =
      subst (λ t. IsAt t (some i) none ((i, q) ∷ [])) (sym (set_index-queued i s q queued))
        (refl, refl, ap (λ qs. qs ++ (i, q) ∷ []) queries)

  waiting :
      (es : List (Event I)) (s : Search I) (q : Option Text)
      → All IsQuiet es
      → IsAt s none q []
      → IsAt (handle_all es s) none (last_of q (asked es)) []
  unfolding handle_all handle asked perform_search defer_query stop_pulse
  waiting [] s q quiet h = h
  waiting (search w ∷ es) s q (_, quiet) h =
      waiting es _ (some w) quiet (perform_search-waits w s q [] h)
  waiting (arrive i ∷ es) s q quiet h = absurd quiet.0
  waiting (fire ∷ es) s q (_, quiet) h = waiting es _ q quiet (fire_timer-IsAt s none q [] h)
  waiting (shown ∷ es) s q (_, quiet) h = waiting es _ q quiet h

  running :
      (i : I) (es : List (Event I)) (s : Search I) (qs : List (I × Text))
      → All IsQuiet es
      → IsAt s (some i) none qs
      → IsAt (handle_all es s) (some i) none (qs ++ map (λ w. (i, w)) (asked es))
  unfolding handle_all handle asked perform_search run_query stop_pulse
  running i [] s qs quiet (e, f, g) = (e, f, g ∙ sym (append-nil qs))
  running i (search w ∷ es) s qs (_, quiet) (e, f, g) =
      let (index, queued, queries) =
        running i es _ (qs ++ (i, w) ∷ []) quiet (perform_search-runs w s i none qs (e, f, g)) in
      (index, queued, queries ∙ append_assoc qs ((i, w) ∷ []) (map (λ w. (i, w)) (asked es)))
  running i (arrive j ∷ es) s qs quiet h = absurd quiet.0
  running i (fire ∷ es) s qs (_, quiet) h =
      running i es _ qs quiet (fire_timer-IsAt s (some i) none qs h)
  running i (shown ∷ es) s qs (_, quiet) h = running i es _ qs quiet h

  handle_all-append :
      (es fs : List (Event I)) (s : Search I)
      → handle_all (es ++ fs) s ≡ handle_all fs (handle_all es s)
  unfolding handle_all
  handle_all-append [] fs s = refl
  handle_all-append (e ∷ es) fs s = handle_all-append es fs (handle e s)

  -- When one index arrives, between events of which none is another arrival, the page has run the
  -- last of the searches before it, if any, and every search after it, in order and over this index.
  pub queries-handle_all :
      (i : I) (before after : List (Event I))
      → All IsQuiet before
      → All IsQuiet after
      → (handle_all (before ++ arrive i ∷ after) start_page).queries
        ≡ map (λ w. (i, w)) (listed (last_of none (asked before)) ++ asked after)
  unfolding handle_all handle start_page
  queries-handle_all i before after quiet_before quiet_after =
      let waits = waiting before start_page none quiet_before (refl, refl, refl) in
      let arrived = set_index-runs i (handle_all before start_page) _ waits in
      let (index, queued, queries) = running i after _ _ quiet_after arrived in
      ap (λ (s : Search I). s.queries) (handle_all-append before (arrive i ∷ after) start_page)
      ∙ queries
      ∙ sym (map-append (λ w. (i, w)) (listed (last_of none (asked before))) (asked after))
