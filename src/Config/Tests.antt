-- ===== src/Config/Tests.antt =====
-- A configuration from a file, and the theorem about it.
use xmrig2xdag.Common.{◌≡◌, refl, List, [], ◌∷◌, some, true, false, All, codes}
use xmrig2xdag.Common.Options.{◌>>=◌}
use xmrig2xdag.Stratum.Json as Json
use xmrig2xdag.Stratum.Json.{Members, as_map}
use xmrig2xdag.Config.{
  Value, text, int, flag, pos, Field, config, ok, err, missing_value, set_default, set_defaults,
  assign, assign_all, load, check, validate, config_from_file, set_field,
}
use xmrig2xdag.Config.Loaded.{Each, load_field, IsGiven, config_from_file-Each}

abbrev file : Json.Json
file = Json.object (
    Json.field (codes "URL") (Json.string (codes "pool:13656")) (
      Json.field (codes "stats") (Json.number (codes "0"))
        (Json.field (codes "tls") (Json.bool true) Json.end)))

abbrev with_values : List Field → List Value → List Field
with_values [] vs = []
with_values (f ∷ fs) [] = f ∷ fs
with_values (f ∷ fs) (v ∷ vs) = record f { value = v } ∷ with_values fs vs

abbrev loaded : List Field
loaded = with_values config (
    flag false
    ∷ int (pos 3232)
    ∷ text (codes "server.pem")
    ∷ text (codes "server.key")
    ∷ flag true
    ∷ text (codes "pool:13656")
    ∷ int (pos 0)
    ∷ int (pos 2)
    ∷ [])

loads : config_from_file file ≡ ok loaded
unfolding config_from_file set_defaults load assign_all assign set_field check validate
loads = refl

no_url : config_from_file Json.null ≡ err (missing_value (codes "PoolAddr"))
unfolding config_from_file set_defaults load assign_all assign set_field check validate
no_url = refl

config_from_file-Each_example :
    (o : Members) × (as_map file ≡ some o)
    × Each (λ f g. (set_default f >>= load_field o) ≡ some g) config loaded
    × All IsGiven loaded
config_from_file-Each_example = config_from_file-Each file loaded loads
