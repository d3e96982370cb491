-- ===== src/Config/Tests.antt =====
-- The configurations of the examples, as `makeConfig` reads them.
use pyfix.Base.{◌≡◌, refl, codes}
use pyfix.Config.{
  key_error, raised, sender_config, receiver_config, make_config, get, make_all, make_chunk, keys,
}
use pyfix.Config.Made.{has_key}

-- The files name their defaults "defaults", where the function looks for "default".
make_config_runs :
    (make_config has_key sender_config ≡ raised (key_error (codes "default")))
    × (make_config has_key receiver_config ≡ raised (key_error (codes "default")))
unfolding make_config get make_all make_chunk keys
make_config_runs = (refl, refl)
