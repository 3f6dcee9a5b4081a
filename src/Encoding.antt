-- ===== src/Encoding.antt =====
-- What the program takes from Go's encoding/binary and encoding/hex, on lists of bytes.
pub mod Hex
pub mod Numbers
use xmrig2xdag.Common.{
  ℕ, zero, suc, ◌+◌, ◌-◌, ◌*◌, ◌/◌, ◌%◌, List, [], ◌∷◌, ◌++◌, reverse, Option, none, some, Bool,
  ◌&&◌, leb, ltb, if◌then◌else◌,
}
use xmrig2xdag.Common.Digits.{value, horner}

-- The `n` low bytes of a number, lowest first: PutUint32 and PutUint64 of LittleEndian.
abbrev pub le_bytes : ℕ → ℕ → List ℕ
le_bytes zero x = []
le_bytes (suc n) x = x % 256 ∷ le_bytes n (x / 256)

-- The same of BigEndian.
abbrev pub be_bytes : ℕ → ℕ → List ℕ
be_bytes n x = reverse (le_bytes n x)

-- Uint32 and Uint64, on exactly the bytes that they read.
abbrev pub le_value : List ℕ → ℕ
le_value bs = value 256 bs

abbrev pub be_value : List ℕ → ℕ
be_value bs = horner 256 0 bs

unfoldable pub hex_digit : ℕ → ℕ
hex_digit n = if ltb n 10 then b'0' + n else b'a' + (n - 10)

-- hex.EncodeToString
abbrev pub encode_to_string : List ℕ → List ℕ
encode_to_string [] = []
encode_to_string (b ∷ bs) = hex_digit (b / 16) ∷ hex_digit (b % 16) ∷ encode_to_string bs

unfoldable pub hex_value : ℕ → Option ℕ
hex_value c =
    if leb b'0' c && leb c b'9'
    then some (c - b'0')
    else if leb b'a' c && leb c b'f'
    then some (c - b'a' + 10)
    else if leb b'A' c && leb c b'F'
    then some (c - b'A' + 10)
    else none

-- The errors of hex.DecodeString.
pub data HexError : Type 0 where
  invalid_byte : ℕ → HexError
  odd_length : HexError

-- The last digit, when there is an odd number, and two digits before the rest.
abbrev decode_last : ℕ → Option ℕ → List ℕ × Option HexError
decode_last c none = ([], some (invalid_byte c))
decode_last c (some _) = ([], some odd_length)

abbrev decode_pair :
    ℕ → Option ℕ → ℕ → Option ℕ → List ℕ × Option HexError → List ℕ × Option HexError
decode_pair c none d lo rest = ([], some (invalid_byte c))
decode_pair c (some hi) d none rest = ([], some (invalid_byte d))
decode_pair c (some hi) d (some lo) (bytes, error) = ((hi * 16 + lo) ∷ bytes, error)

-- hex.DecodeString: the bytes before the first error, and the error.
abbrev pub decode_string : List ℕ → List ℕ × Option HexError
decode_string [] = ([], none)
decode_string (c ∷ []) = decode_last c (hex_value c)
decode_string (c ∷ d ∷ cs) = decode_pair c (hex_value c) d (hex_value d) (decode_string cs)
