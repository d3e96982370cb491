-- ===== src/Doctools/Parameters.antt =====
-- The parameters of a query that is written as pairs of keys and values.
use pyfix.Base.{
  ℕ, ◌≡◌, refl, sym, ap, ◌∙◌, Bool, true, false, List, [], ◌∷◌, ◌++◌, Option, none, some, Text,
  text_eq, text_eq_iff, any, All, ◌==◌, append_assoc, append-nil, map, arith, if◌then◌else◌,
}
use pyfix.Doctools.{
  cons_head, split, after_mark, key_part, value_part, Parameters, push_value, urldecode, store,
  add_parts, get_query_parameters,
}

-- A key and a value, with the texts that stand for them in the query.
pub record Pair : Type 0 where
  pub key : Text
  pub value : Text
  pub key_text : Text
  pub value_text : Text

-- The character does not stand in the text.
abbrev pub IsFree : ℕ → Text → Type 0
IsFree c s = any (λ x. x == c) s ≡ false

abbrev pub part_of : Pair → Text
part_of q = q.key_text ++ b'=' ∷ q.value_text

abbrev pub join : List Pair → Text
join [] = []
join (q ∷ []) = part_of q
join (q ∷ r ∷ qs) = part_of q ++ b'&' ∷ join (r ∷ qs)

-- The values of a key, in order.
abbrev pub values : Text → List Pair → List Text
values key [] = []
values key (q ∷ qs) = if text_eq q.key key then q.value ∷ values key qs else values key qs

abbrev pub lookup : Text → Parameters → List Text
lookup key [] = []
lookup key ((k, vs) ∷ ps) = if text_eq k key then vs else lookup key ps

-- A text has a first part.
pub split-cons : (c : ℕ) (s : Text) → (p : Text) × (ps : List Text) × (split c s ≡ p ∷ ps)
unfolding split
split-cons c [] = ([], [], refl)
split-cons c (x ∷ s) = let (p, ps, e) = split-cons c s in after-one (x == c) p ps e
  where
    after-one :
        (b : Bool) (p : Text) (ps : List Text)
        → split c s ≡ p ∷ ps
        → (q : Text) × (qs : List Text) × ((if b then [] ∷ split c s else cons_head x (split c s))
            ≡ q ∷ qs)
    after-one true p ps e = ([], split c s, refl)
    after-one false p ps e = (x ∷ p, ps, ap (cons_head x) e)

pub split-free : (c : ℕ) (s : Text) → IsFree c s → split c s ≡ s ∷ []
unfolding split
split-free c [] h = refl
split-free c (x ∷ s) h = ground (arith, split-free c s)

pub split-append : (c : ℕ) (s t : Text) → IsFree c s → split c (s ++ c ∷ t) ≡ s ∷ split c t
unfolding split
split-append c [] t h = ground arith
split-append c (x ∷ s) t h = ground (arith, split-append c s t)

IsFree-append :
    (c x : ℕ) (s t : Text) → IsFree c s → IsFree c t → (x == c) ≡ false → IsFree c (s ++ x ∷ t)
IsFree-append c x [] t h k e = ground arith
IsFree-append c x (y ∷ s) t h k e = ground (arith, IsFree-append c x s t)

lookup-push_value :
    (key k v : Text) (ps : Parameters)
    → lookup key (push_value k v ps)
      ≡ (if text_eq k key then lookup key ps ++ v ∷ [] else lookup key ps)
unfolding push_value
lookup-push_value key k v [] = ground arith
lookup-push_value key k v ((x, vs) ∷ ps) =
    ground
      (arith, lookup-push_value key k v ps, text_eq_iff x k, text_eq_iff x key, text_eq_iff k key)

pushed : Parameters → List Pair → Parameters
pushed ps [] = ps
pushed ps (q ∷ qs) = pushed (push_value q.key q.value ps) qs

lookup-pushed :
    (key : Text) (ps : Parameters) (qs : List Pair)
    → lookup key (pushed ps qs) ≡ lookup key ps ++ values key qs
unfolding pushed
lookup-pushed key ps [] = sym (append-nil (lookup key ps))
lookup-pushed key ps (q ∷ qs) =
    lookup-pushed key (push_value q.key q.value ps) qs
    ∙ ap (λ vs. vs ++ values key qs) (lookup-push_value key q.key q.value ps)
    ∙ together (text_eq q.key key) (lookup key ps)
  where
    together :
        (b : Bool) (vs : List Text)
        → (if b then vs ++ q.value ∷ [] else vs) ++ values key qs
          ≡ vs ++ (if b then q.value ∷ values key qs else values key qs)
    together true vs = append_assoc vs (q.value ∷ []) (values key qs)
    together false vs = refl

module _ (decode : Text → Option Text) (inherited : Text → Bool) where
  -- The texts of a pair decode to its key and value, contain no separator, and the key is not one
  -- that every object has.
  abbrev pub IsClean : Pair → Type 0
  IsClean q =
      (IsFree b'&' q.key_text × IsFree b'&' q.value_text)
      × (IsFree b'=' q.key_text × IsFree b'=' q.value_text)
      × (urldecode decode q.key_text ≡ some q.key)
      × (urldecode decode q.value_text ≡ some q.value)
      × (inherited q.key ≡ false)

  part_of-IsFree : (q : Pair) → IsClean q → IsFree b'&' (part_of q)
  part_of-IsFree q h = IsFree-append b'&' b'=' q.key_text q.value_text h.0.0 h.0.1 refl

  split-join :
      (q : Pair) (qs : List Pair)
      → All IsClean (q ∷ qs)
      → split b'&' (join (q ∷ qs)) ≡ map part_of (q ∷ qs)
  split-join q [] (h, hs) = split-free b'&' (part_of q) (part_of-IsFree q h)
  split-join q (r ∷ qs) (h, hs) =
      split-append b'&' (part_of q) (join (r ∷ qs)) (part_of-IsFree q h)
      ∙ ap (part_of q ∷◌) (split-join r qs hs)

  split-part_of : (q : Pair) → IsClean q → split b'=' (part_of q) ≡ q.key_text ∷ q.value_text ∷ []
  split-part_of q h =
      split-append b'=' q.key_text q.value_text h.1.0
      ∙ ap (q.key_text ∷◌) (split-free b'=' q.value_text h.1.1)

  store-clean :
      (ps : Parameters) (q : Pair)
      → IsClean q
      → store decode inherited ps
          (urldecode decode (key_part (split b'=' (part_of q))))
          (urldecode decode (value_part (split b'=' (part_of q))))
        ≡ some (push_value q.key q.value ps)
  unfolding store key_part value_part
  store-clean ps q h = rw (split-part_of q h, h.2, h.3, h.4) refl

  add_parts-pushed :
      (ps : Parameters) (qs : List Pair)
      → All IsClean qs
      → add_parts decode inherited ps (map part_of qs) ≡ some (pushed ps qs)
  unfolding add_parts pushed
  add_parts-pushed ps [] h = refl
  add_parts-pushed ps (q ∷ qs) (h, hs) =
      ap
        (λ (o : Option Parameters). elim o as (λ _. Option Parameters) [
          | none ↦ none
          | some more ↦ add_parts decode inherited more (map part_of qs)
        ])
        (store-clean ps q h)
      ∙ add_parts-pushed (push_value q.key q.value ps) qs hs

  -- The query "?k=v&k=v…" of at least one pair, whose texts decode to the keys and values, contain no
  -- "&" and no "=", and whose keys are not inherited by every object, is read without an exception,
  -- and each key has its values in the order of the query.
  pub get_query_parameters-join :
      (q : Pair) (qs : List Pair)
      → All IsClean (q ∷ qs)
      → (ps : Parameters) × (get_query_parameters decode inherited (b'?' ∷ join (q ∷ qs)) ≡ some ps)
        × ((key : Text) → lookup key ps ≡ values key (q ∷ qs))
  unfolding get_query_parameters after_mark
  get_query_parameters-join q qs h = (
    pushed [] (q ∷ qs),
    ap (add_parts decode inherited []) (split-join q qs h) ∙ add_parts-pushed [] (q ∷ qs) h,
    λ key. lookup-pushed key [] (q ∷ qs),
  )
