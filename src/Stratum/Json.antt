-- ===== src/Stratum/Json.antt =====
-- JSON values, and what server/stratum uses of encoding/json: objects decoded into a Go map of raw messages
-- and into the fields of a struct. Texts and the keys of objects are lists of runes. A raw message is kept as
-- the value that it holds, and a nil pointer to one is `none`.
use xmrig2xdag.Common.{
  ℕ, suc, ◌+◌, List, [], ◌∷◌, Option, none, some, Bool, true, false, ◌&&◌, leb, ◌==◌, if◌then◌else◌,
  list_eq,
}

mutual
  pub data Json : Type 0 where
    null : Json
    bool : Bool → Json
    number : List ℕ → Json
    string : List ℕ → Json
    array : Items → Json
    object : Fields → Json

  pub data Items : Type 0 where
    nil : Items
    cons : Json → Items → Items

  pub data Fields : Type 0 where
    end : Fields
    field : List ℕ → Json → Fields → Fields

-- The members of an object, in the order of the text.
abbrev pub Members : Type 0
Members = List (List ℕ × Json)

abbrev pub members : Fields → Members
members end = []
members (field k v fs) = (k, v) ∷ members fs

-- `json.Unmarshal(raw, &o)` for a map `o`: null leaves it empty, another value than an object is an error.
abbrev pub as_map : Json → Option Members
as_map null = some []
as_map (object fs) = some (members fs)
as_map (bool _) = none
as_map (number _) = none
as_map (string _) = none
as_map (array _) = none

-- A pointer to a raw message, as the decoder sets it.
abbrev pub raw : Json → Option Json
raw null = none
raw (bool b) = some (bool b)
raw (number t) = some (number t)
raw (string t) = some (string t)
raw (array a) = some (array a)
raw (object o) = some (object o)

-- `v, ok := o[key]`: of members with one key the last counts.
abbrev pub get_member : List ℕ → Members → Option Json
get_member key [] = none
get_member key ((k, v) ∷ o) = elim (get_member key o) [
  | some later ↦ some later
  | none ↦ if list_eq k key then some v else none
]

-- `_, ok := o[key]`
abbrev pub has_member : List ℕ → Members → Bool
has_member key o = elim (get_member key o) [ none ↦ false | some _ ↦ true ]

-- `o[key]`, a nil pointer for null or a key that is not there.
abbrev pub raw_member : List ℕ → Members → Option Json
raw_member key o = elim (get_member key o) [ none ↦ none | some v ↦ raw v ]

-- `len(o)`, the number of different keys.
abbrev pub size : Members → ℕ
size [] = 0
size ((k, v) ∷ o) = if has_member k o then size o else suc (size o)

-- The key of a member and the name of a struct's field are compared without case, where the long s and the
-- sign for kelvin count as letters.
abbrev pub fold_rune : ℕ → ℕ
fold_rune c =
    if leb b'A' c && leb c b'Z'
    then c + 32
    else if c == 0x17F
    then b's'
    else if c == 0x212A
    then b'k'
    else c

abbrev pub fold : List ℕ → List ℕ
fold [] = []
fold (c ∷ cs) = fold_rune c ∷ fold cs

-- A value for a field of type string: null leaves the field, and another value than a text is an error.
abbrev pub set_text : Json → List ℕ → Option (List ℕ)
set_text null t = some t
set_text (string s) t = some s
set_text (bool _) t = none
set_text (number _) t = none
set_text (array _) t = none
set_text (object _) t = none

-- The first byte of a raw message. That of a number is a sign or a digit, which the code does not tell apart.
abbrev pub first_byte : Json → ℕ
first_byte null = b'n'
first_byte (bool true) = b't'
first_byte (bool false) = b'f'
first_byte (number _) = b'0'
first_byte (string _) = 34
first_byte (array _) = 91
first_byte (object _) = 123
