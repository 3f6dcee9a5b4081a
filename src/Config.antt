-- ===== src/Config.antt =====
-- config/config.go: the configuration from a file. Reflection goes over the fields of the struct; a struct is
-- the list of its fields here, each with its tags. Reading the file, the text of JSON, and the configuration
-- from the environment, which the package envconfig reads, are not modelled.
pub mod Loaded
mod Tests
use xmrig2xdag.Common.{
  ℕ, zero, suc, ◌+◌, ◌-◌, ◌*◌, ◌^◌, ◌≡◌, List, [], ◌∷◌, Option, none, some, Bool, true, false, not,
  ◌&&◌, ◌||◌, leb, ltb, ◌==◌, if◌then◌else◌, codes, list_eq,
}
use xmrig2xdag.Common.Options.{◌>>=◌}
use xmrig2xdag.Stratum.Json.{
  Json, null, bool, number, string, array, object, Members, members, as_map, fold, set_text,
}
use xmrig2xdag.Stratum.Codec.{contains}

-- A Go int.
pub data ℤ : Type 0 where
  pos : ℕ → ℤ
  negsuc : ℕ → ℤ

pub data Value : Type 0 where
  text : List ℕ → Value
  int : ℤ → Value
  flag : Bool → Value

-- A field of Config: its name, its tags json, default and required, and its value.
pub record Field : Type 0 where
  pub name : List ℕ
  pub json : List ℕ
  pub default : List ℕ
  pub required : Bool
  pub value : Value

abbrev pub field : List ℕ → List ℕ → List ℕ → Bool → Value → Field
field name json default required value = record {
  name = name;
  json = json;
  default = default;
  required = required;
  value = value;
}

-- `Config{}`
abbrev pub config : List Field
config =
    field (codes "Debug") (codes "debug") [] false (flag false)
    ∷ field (codes "StratumPort") (codes "strport") (codes "3232") false (int (pos 0))
    ∷ field (codes "CertFile") (codes "tlscert") (codes "server.pem") false (text [])
    ∷ field (codes "KeyFile") (codes "tlskey") (codes "server.key") false (text [])
    ∷ field (codes "Tls") (codes "tls") [] false (flag false)
    ∷ field (codes "PoolAddr") (codes "url") [] true (text [])
    ∷ field (codes "StatInterval") (codes "stats") (codes "60") false (int (pos 0))
    ∷ field (codes "ShareValidation") (codes "validateshares") (codes "2") false (int (pos 0))
    ∷ field (codes "LogFile") (codes "log") [] false (text [])
    ∷ field (codes "DiscardLog") (codes "nolog") [] false (flag false)
    ∷ field (codes "Testnet") (codes "testnet") [] false (flag false)
    ∷ field (codes "Socks5") (codes "socks5") [] false (text [])
    ∷ field (codes "RateLimit") (codes "ratelimit") [] false (int (pos 0))
    ∷ field (codes "TryPoolTimes") (codes "try_pool_times") [] false (int (pos 0))
    ∷ field (codes "TryDelaySeconds") (codes "try_delay_seconds") [] false (int (pos 0))
    ∷ field (codes "ExitOnPoolDown") (codes "exit_on_pool_down") [] false (flag false)
    ∷ []

pub data ConfigError : Type 0 where
  bad_default bad_json : ConfigError
  missing_value : List ℕ → ConfigError

pub data Result {ℓ} (A : Type ℓ) : Type ℓ where
  ok : A → Result A
  err : ConfigError → Result A

-- Digits behind the number that was read so far.
abbrev digits : List ℕ → ℕ → Option ℕ
digits [] n = some n
digits (c ∷ cs) n =
    let rest = digits cs (n * 10 + (c - b'0')) in if leb b'0' c && leb c b'9' then rest else none

abbrev negate : ℕ → ℤ
negate zero = pos zero
negate (suc n) = negsuc n

-- A whole number of 64 bits with an optional minus sign, as strconv.Atoi and the JSON decoder take it. Atoi
-- takes a plus sign too, which no default has.
abbrev pub parse_int : List ℕ → Option ℤ
parse_int [] = none
parse_int (c ∷ []) = if c == b'-' then none else digits (c ∷ []) 0 >>= (λ n. some (pos n))
parse_int (c ∷ d ∷ cs) =
    if c == b'-'
    then digits (d ∷ cs) 0 >>= (λ n. if leb n (2 ^ 63) then some (negate n) else none)
    else digits (c ∷ d ∷ cs) 0 >>= (λ n. if ltb n (2 ^ 63) then some (pos n) else none)

-- strconv.ParseBool
abbrev pub parse_bool : List ℕ → Option Bool
parse_bool s =
    if list_eq s (codes "1")
      || list_eq s (codes "t")
      || list_eq s (codes "T")
      || list_eq s (codes "TRUE")
      || list_eq s (codes "true")
      || list_eq s (codes "True")
    then some true
    else if list_eq s (codes "0")
        || list_eq s (codes "f")
        || list_eq s (codes "F")
        || list_eq s (codes "FALSE")
        || list_eq s (codes "false")
        || list_eq s (codes "False")
    then some false
    else none

abbrev is_zero : ℤ → Bool
is_zero (pos zero) = true
is_zero (pos (suc _)) = false
is_zero (negsuc _) = false

-- The default for a value; `none` is an error.
unfoldable pub default_value : List ℕ → Value → Option Value
default_value default (text t) = some (text (if list_eq t [] then default else t))
default_value default (int n) = parse_int default >>= (λ d. some (int (if is_zero n then d else n)))
default_value default (flag b) = parse_bool default >>= (λ d. some (flag d))

-- One round of setDefaults.
unfoldable pub set_default : Field → Option Field
unfolding default_value
set_default f =
    if list_eq (f.default) []
    then some f
    else default_value (f.default) (f.value) >>= (λ v. some (record f { value = v }))

-- setDefaults
unfoldable pub set_defaults : List Field → Option (List Field)
unfolding set_default
set_defaults [] = some []
set_defaults (f ∷ fs) = set_default f >>= (λ g. set_defaults fs >>= (λ gs. some (g ∷ gs)))

-- A member of the file for a value; `none` is an error, and null changes nothing.
unfoldable pub set_value : Json → Value → Option Value
set_value v (text t) = set_text v t >>= (λ s. some (text s))
set_value null (int n) = some (int n)
set_value (number d) (int n) = parse_int d >>= (λ m. some (int m))
set_value (bool _) (int n) = none
set_value (string _) (int n) = none
set_value (array _) (int n) = none
set_value (object _) (int n) = none
set_value null (flag b) = some (flag b)
set_value (bool c) (flag b) = some (flag c)
set_value (number _) (flag b) = none
set_value (string _) (flag b) = none
set_value (array _) (flag b) = none
set_value (object _) (flag b) = none

abbrev pub matches : List ℕ → Field → Bool
matches key f = list_eq (fold key) (f.json)

unfoldable pub set_field : Json → Field → Option Field
unfolding set_value
set_field v f = set_value v (f.value) >>= (λ w. some (record f { value = w }))

-- The member goes to the field that it names, if there is one.
unfoldable pub assign : List ℕ → Json → List Field → Option (List Field)
assign key v [] = some []
assign key v (f ∷ fs) =
    let rest = assign key v fs >>= (λ gs. some (f ∷ gs)) in
    if matches key f then set_field v f >>= (λ g. some (g ∷ fs)) else rest

-- `json.Unmarshal(data, &cfg)`
unfoldable pub assign_all : Members → List Field → Option (List Field)
assign_all [] fs = some fs
assign_all ((k, v) ∷ o) fs = assign k v fs >>= (λ gs. assign_all o gs)

abbrev is_empty_text : Value → Bool
is_empty_text (text []) = true
is_empty_text (text (_ ∷ _)) = false
is_empty_text (int _) = false
is_empty_text (flag _) = false

-- validate
unfoldable pub validate : List Field → Option ConfigError
validate [] = none
validate (f ∷ fs) =
    let rest = validate fs in
    if f.required && is_empty_text (f.value) then some (missing_value (f.name)) else rest

-- The parts of configFromFile behind setDefaults and behind the decoder.
unfoldable pub check : List Field → Result (List Field)
check gs = elim (validate gs) [ some e ↦ err e | none ↦ ok gs ]

unfoldable pub load : Json → List Field → Result (List Field)
load v fs = elim (as_map v >>= (λ o. assign_all o fs)) [ none ↦ err bad_json | some gs ↦ check gs ]

-- configFromFile, for the JSON value in the file.
unfoldable pub config_from_file : Json → Result (List Field)
config_from_file v = elim (set_defaults config) [ none ↦ err bad_default | some fs ↦ load v fs ]

-- IsMissingConfig
abbrev pub is_missing_config : List ℕ → Bool
is_missing_config message = contains message (codes "required key")
