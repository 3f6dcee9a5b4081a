-- ===== src/Base58/Runes.antt =====
-- What Go's `range` over a string hands out: the runes that its bytes encode in UTF-8, and 0xFFFD for
-- each byte that begins no encoded rune.
use xmrig2xdag.Common.{
  ℕ, zero, suc, ◌+◌, ◌-◌, ◌*◌, ◌%◌, ◌≤◌, ◌<◌, ◌≡◌, refl, Bool, ◌&&◌, List, [], ◌∷◌, ltb, leb, ◌==◌,
  if◌then◌else◌, arith, All,
}

abbrev pub rune_error : ℕ
rune_error = 0xFFFD

-- The rune at the front, and its width in bytes.
abbrev invalid : ℕ × ℕ
invalid = (rune_error, 1)

abbrev between : ℕ → ℕ → ℕ → Bool
between lo hi c = leb lo c && leb c hi

two_bytes : ℕ → List ℕ → ℕ × ℕ
two_bytes a (b ∷ _) = if between 0x80 0xBF b then (a % 32 * 64 + b % 64, 2) else invalid
two_bytes a _ = invalid

three_bytes : ℕ → List ℕ → ℕ × ℕ
three_bytes a (b ∷ c ∷ _) =
    if between (if a == 0xE0 then 0xA0 else 0x80) (if a == 0xED then 0x9F else 0xBF) b
      && between 0x80 0xBF c
    then (a % 16 * 4096 + b % 64 * 64 + c % 64, 3)
    else invalid
three_bytes a _ = invalid

four_bytes : ℕ → List ℕ → ℕ × ℕ
four_bytes a (b ∷ c ∷ d ∷ _) =
    if between (if a == 0xF0 then 0x90 else 0x80) (if a == 0xF4 then 0x8F else 0xBF) b
      && (between 0x80 0xBF c && between 0x80 0xBF d)
    then (a % 8 * 262144 + b % 64 * 4096 + c % 64 * 64 + d % 64, 4)
    else invalid
four_bytes a _ = invalid

decode_rune : ℕ → List ℕ → ℕ × ℕ
decode_rune a rest =
    if ltb a 0x80
    then (a, 1)
    else if between 0xC2 0xDF a
    then two_bytes a rest
    else if between 0xE0 0xEF a
    then three_bytes a rest
    else if between 0xF0 0xF4 a
    then four_bytes a rest
    else invalid

-- The runes of a string, of which `skip` bytes belong to a rune that is already out.
unfoldable pub runes : ℕ → List ℕ → List ℕ
unfolding decode_rune two_bytes three_bytes four_bytes
runes skip [] = []
runes zero (a ∷ rest) = (decode_rune a rest).0 ∷ runes ((decode_rune a rest).1 - 1) rest
runes (suc skip) (a ∷ rest) = runes skip rest

-- On ASCII text the runes are the bytes.
pub runes-ascii : (s : List ℕ) → All (λ c. c < 0x80) s → runes 0 s ≡ s
unfolding runes
runes-ascii [] h = refl
runes-ascii (a ∷ rest) h = ground (arith, runes-ascii rest h.1)

two_bytes-high : (a : ℕ) (rest : List ℕ) → 0xC2 ≤ a → a ≤ 0xDF → 0x80 ≤ (two_bytes a rest).0
unfolding two_bytes
two_bytes-high a [] h k = omega arith
two_bytes-high a (b ∷ _) h k = ground arith

three_bytes-high : (a : ℕ) (rest : List ℕ) → 0xE0 ≤ a → a ≤ 0xEF → 0x80 ≤ (three_bytes a rest).0
unfolding three_bytes
three_bytes-high a [] h k = omega arith
three_bytes-high a (b ∷ []) h k = omega arith
three_bytes-high a (b ∷ c ∷ _) h k = ground arith

four_bytes-high : (a : ℕ) (rest : List ℕ) → 0xF0 ≤ a → a ≤ 0xF4 → 0x80 ≤ (four_bytes a rest).0
unfolding four_bytes
four_bytes-high a [] h k = omega arith
four_bytes-high a (b ∷ []) h k = omega arith
four_bytes-high a (b ∷ c ∷ []) h k = omega arith
four_bytes-high a (b ∷ c ∷ d ∷ _) h k = ground arith

decode_rune-high : (a : ℕ) (rest : List ℕ) → 0x80 ≤ a → 0x80 ≤ (decode_rune a rest).0
unfolding decode_rune
decode_rune-high a rest h =
    ground (arith, two_bytes-high a rest, three_bytes-high a rest, four_bytes-high a rest)

-- A byte outside ASCII begins a rune outside ASCII.
pub runes-high :
    (a : ℕ) (rest : List ℕ)
    → 0x80 ≤ a
    → (r : ℕ) × (rs : List ℕ) × (runes 0 (a ∷ rest) ≡ r ∷ rs) × (0x80 ≤ r)
unfolding runes
runes-high a rest h = (
  (decode_rune a rest).0,
  runes ((decode_rune a rest).1 - 1) rest,
  refl,
  decode_rune-high a rest h,
)

pub runes-low : (a : ℕ) (rest : List ℕ) → a < 0x80 → runes 0 (a ∷ rest) ≡ a ∷ runes 0 rest
unfolding runes
runes-low a rest h = ground arith
