-- ===== src/Config/Made.antt =====
-- Which configurations `makeConfig` reads.
use pyfix.Base.{
  ◌≡◌, ◌≢◌, refl, sym, ◌∙◌, Bool, true, false, List, Option, none, some, Text, codes, arith,
}
use pyfix.Config.{
  Json, num, str, dict, array, Fields, Items, item, key_error, attribute_error, Result, ok, raised,
  bind, find, get, SessionConfig, check_args, make_session, with_chunk, make_chunk, make_all,
  make_config,
}

-- A dictionary of Python 3.
abbrev pub no_has_key : Fields → Text → Result Bool
no_has_key d k = raised attribute_error

-- A dictionary that has the method.
abbrev pub has_key : Fields → Text → Result Bool
has_key d k = elim (find k d) [ none ↦ ok false | some v ↦ ok true ]

raised-with_chunk :
    (defaults : Fields) (chunk : Json) (c : SessionConfig)
    → with_chunk no_has_key defaults chunk ≢ ok c
unfolding with_chunk make_session check_args
raised-with_chunk defaults (dict chunk) c h = cc
raised-with_chunk defaults (num n) c h = cc
raised-with_chunk defaults (str t) c h = cc
raised-with_chunk defaults (array xs) c h = cc

raised-make_chunk :
    (d : Fields) (chunk : Json) (c : SessionConfig) → make_chunk no_has_key d chunk ≢ ok c
unfolding make_chunk get
raised-make_chunk d chunk c h = go (find (codes "default") d) h
  where
    go :
        (o : Option Json)
        → bind
            (elim o as (λ _. Result Json) [
              | none ↦ raised (key_error (codes "default"))
              | some v ↦ ok v
            ])
            (λ v. elim v as (λ _. Result SessionConfig) [
              | dict defaults ↦ with_chunk no_has_key defaults chunk
              | num n ↦ raised attribute_error
              | str t ↦ raised attribute_error
              | array xs ↦ raised attribute_error
            ])
          ≡ ok c
        → ⊥
    go none e = cc
    go (some (dict defaults)) e = raised-with_chunk defaults chunk c e
    go (some (num n)) e = cc
    go (some (str t)) e = cc
    go (some (array xs)) e = cc

ok-bind :
    {A B : Type 0} (r : Result A) (f : A → Result B) (b : B)
    → bind r f ≡ ok b
    → (a : A) × (r ≡ ok a)
ok-bind (ok a) f b h = (a, refl)
ok-bind (raised e) f b h = let never : ⊥ = cc in absurd never

make_all-item :
    (d : Fields) (chunk : Json) (chunks : Items) (cs : List SessionConfig)
    → make_all no_has_key d (item chunk chunks) ≢ ok cs
unfolding make_all
make_all-item d chunk chunks cs h =
    let made = ok-bind (make_chunk no_has_key d chunk) _ cs h in
    raised-make_chunk d chunk made.0 made.1

make_config-sessions :
    (d : Fields) (chunks : Items)
    → find (codes "sessions") d ≡ some (array chunks)
    → make_config no_has_key d ≡ make_all no_has_key d chunks
unfolding make_config get
make_config-sessions d chunks h = ground arith

-- Under a Python whose dictionaries have no `has_key`, no configuration with a list of at least one
-- session is read.
pub make_config-raises :
    (d : Fields) (chunk : Json) (chunks : Items) (cs : List SessionConfig)
    → find (codes "sessions") d ≡ some (array (item chunk chunks))
    → make_config no_has_key d ≢ ok cs
make_config-raises d chunk chunks cs h e =
    make_all-item d chunk chunks cs (sym (make_config-sessions d (item chunk chunks) h) ∙ e)
