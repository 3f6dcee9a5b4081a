-- ===== src/Base58/Alphabet.antt =====
-- base58/alphabet.go, and the program base58/genalphabet.go that writes its table.
use xmrig2xdag.Common.{
  codes, ℕ, zero, suc, ◌+◌, ◌*◌, List, [], ◌∷◌, ◌++◌, Option, none, some, ◌==◌, if◌then◌else◌,
  get_or, ◌≡◌, refl,
}

abbrev pub alphabet : List ℕ
alphabet = codes "123456789ABCDEFGHJKLMNPQRSTUVWXYZabcdefghijkmnopqrstuvwxyz"

abbrev pub alphabet_idx0 : ℕ
alphabet_idx0 = b'1'

abbrev pub b58 : List ℕ
b58 =
    255 ∷ 255 ∷ 255 ∷ 255 ∷ 255 ∷ 255 ∷ 255 ∷ 255 ∷ 255 ∷ 255 ∷ 255 ∷ 255 ∷ 255 ∷ 255 ∷ 255 ∷ 255
    ∷ 255 ∷ 255 ∷ 255 ∷ 255 ∷ 255 ∷ 255 ∷ 255 ∷ 255 ∷ 255 ∷ 255 ∷ 255 ∷ 255 ∷ 255 ∷ 255 ∷ 255 ∷ 255
    ∷ 255 ∷ 255 ∷ 255 ∷ 255 ∷ 255 ∷ 255 ∷ 255 ∷ 255 ∷ 255 ∷ 255 ∷ 255 ∷ 255 ∷ 255 ∷ 255 ∷ 255 ∷ 255
    ∷ 255 ∷ 0 ∷ 1 ∷ 2 ∷ 3 ∷ 4 ∷ 5 ∷ 6 ∷ 7 ∷ 8 ∷ 255 ∷ 255 ∷ 255 ∷ 255 ∷ 255 ∷ 255 ∷ 255 ∷ 9 ∷ 10
    ∷ 11 ∷ 12 ∷ 13 ∷ 14 ∷ 15 ∷ 16 ∷ 255 ∷ 17 ∷ 18 ∷ 19 ∷ 20 ∷ 21 ∷ 255 ∷ 22 ∷ 23 ∷ 24 ∷ 25 ∷ 26 ∷ 27
    ∷ 28 ∷ 29 ∷ 30 ∷ 31 ∷ 32 ∷ 255 ∷ 255 ∷ 255 ∷ 255 ∷ 255 ∷ 255 ∷ 33 ∷ 34 ∷ 35 ∷ 36 ∷ 37 ∷ 38 ∷ 39
    ∷ 40 ∷ 41 ∷ 42 ∷ 43 ∷ 255 ∷ 44 ∷ 45 ∷ 46 ∷ 47 ∷ 48 ∷ 49 ∷ 50 ∷ 51 ∷ 52 ∷ 53 ∷ 54 ∷ 55 ∷ 56 ∷ 57
    ∷ 255 ∷ 255 ∷ 255 ∷ 255 ∷ 255 ∷ 255 ∷ 255 ∷ 255 ∷ 255 ∷ 255 ∷ 255 ∷ 255 ∷ 255 ∷ 255 ∷ 255 ∷ 255
    ∷ 255 ∷ 255 ∷ 255 ∷ 255 ∷ 255 ∷ 255 ∷ 255 ∷ 255 ∷ 255 ∷ 255 ∷ 255 ∷ 255 ∷ 255 ∷ 255 ∷ 255 ∷ 255
    ∷ 255 ∷ 255 ∷ 255 ∷ 255 ∷ 255 ∷ 255 ∷ 255 ∷ 255 ∷ 255 ∷ 255 ∷ 255 ∷ 255 ∷ 255 ∷ 255 ∷ 255 ∷ 255
    ∷ 255 ∷ 255 ∷ 255 ∷ 255 ∷ 255 ∷ 255 ∷ 255 ∷ 255 ∷ 255 ∷ 255 ∷ 255 ∷ 255 ∷ 255 ∷ 255 ∷ 255 ∷ 255
    ∷ 255 ∷ 255 ∷ 255 ∷ 255 ∷ 255 ∷ 255 ∷ 255 ∷ 255 ∷ 255 ∷ 255 ∷ 255 ∷ 255 ∷ 255 ∷ 255 ∷ 255 ∷ 255
    ∷ 255 ∷ 255 ∷ 255 ∷ 255 ∷ 255 ∷ 255 ∷ 255 ∷ 255 ∷ 255 ∷ 255 ∷ 255 ∷ 255 ∷ 255 ∷ 255 ∷ 255 ∷ 255
    ∷ 255 ∷ 255 ∷ 255 ∷ 255 ∷ 255 ∷ 255 ∷ 255 ∷ 255 ∷ 255 ∷ 255 ∷ 255 ∷ 255 ∷ 255 ∷ 255 ∷ 255 ∷ 255
    ∷ 255 ∷ 255 ∷ 255 ∷ 255 ∷ 255 ∷ 255 ∷ 255 ∷ 255 ∷ 255 ∷ 255 ∷ 255 ∷ 255 ∷ 255 ∷ 255 ∷ 255 ∷ 255
    ∷ 255 ∷ 255 ∷ 255 ∷ 255 ∷ 255 ∷ []

-- `alphabet[d]` for `d < 58`, and `b58[c]` for `c < 256`. The code indexes no further.
unfoldable pub alphabet_at : ℕ → ℕ
alphabet_at d = get_or alphabet d 0

unfoldable pub b58_at : ℕ → ℕ
b58_at c = get_or b58 c 255

-- bytes.IndexByte, with `none` for -1.
unfoldable pub index_byte : List ℕ → ℕ → Option ℕ
index_byte s c = go s 0
  where
    go : List ℕ → ℕ → Option ℕ
    go [] i = none
    go (x ∷ xs) i = if x == c then some i else go xs (suc i)

-- The entry that the generator writes for a byte: its place in the alphabet, or the text "255".
unfoldable pub table_entry : ℕ → ℕ
unfolding index_byte
table_entry c = elim (index_byte alphabet c) [ none ↦ 255 | some idx ↦ idx ]

-- The inner loop of the generator: one line of `n` entries, from column `j` of line `i` on.
unfoldable pub table_line : ℕ → ℕ → ℕ → List ℕ
unfolding table_entry
table_line zero i j = []
table_line (suc n) i j = table_entry (i * 8 + j) ∷ table_line n i (suc j)

-- The outer loop: `n` lines, from line `i` on.
unfoldable pub table_lines : ℕ → ℕ → List ℕ
unfolding table_line
table_lines zero i = []
table_lines (suc n) i = table_line 8 i 0 ++ table_lines n (suc i)

-- The table in alphabet.go is the one that genalphabet.go writes.
pub table_lines-b58 : table_lines 32 0 ≡ b58
unfolding table_lines
table_lines-b58 = refl
