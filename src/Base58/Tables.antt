-- ===== src/Base58/Tables.antt =====
-- The two tables of alphabet.go are inverse to each other.
use xmrig2xdag.Common.{
  ℕ, ◌≤◌, ◌<◌, ◌≡◌, refl, sym, ap, ◌∙◌, ◌≢◌, ◌&&◌, ◌||◌, true, List, [], ◌∷◌, zero, suc, length,
  ltb, ◌==◌, get_or, arith,
}
use native.Mathlib.Decide.{dec_lt}
use xmrig2xdag.Common.Bits.{all_below, all_below→}
use xmrig2xdag.Base58.Alphabet.{alphabet_idx0, alphabet_at, b58, b58_at}

-- The characters of the alphabet are those whose entry is not 255.
abbrev pub InAlphabet : ℕ → Type 0
InAlphabet c = b58_at c ≢ 255

decodes : all_below 58 (λ d. (b58_at (alphabet_at d) == d) && ltb (alphabet_at d) 128) ≡ true
unfolding all_below b58_at alphabet_at
decodes = refl

pub b58-alphabet : (d : ℕ) → d < 58 → (b58_at (alphabet_at d) ≡ d) × (alphabet_at d < 128)
b58-alphabet d h = ground (arith, all_below→ 58 _ d decodes h)

encodes :
    all_below 256
      (λ c. b58_at c == 255 || ((alphabet_at (b58_at c) == c) && (ltb (b58_at c) 58 && ltb c 128)))
    ≡ true
unfolding all_below b58_at alphabet_at
encodes = refl

-- The table ends at 256.
get_or-past : (xs : List ℕ) (i d : ℕ) → length xs ≤ i → get_or xs i d ≡ d
get_or-past [] i d h = refl
get_or-past (x ∷ xs) zero d h = absurd (omega arith)
get_or-past (x ∷ xs) (suc i) d h = get_or-past xs i d (omega arith)

b58-past : (c : ℕ) → 256 ≤ c → b58_at c ≡ 255
unfolding b58_at
b58-past c h = get_or-past b58 c 255 h

pub alphabet-b58 :
    (c : ℕ) → InAlphabet c → (alphabet_at (b58_at c) ≡ c) × (b58_at c < 58) × (c < 128)
alphabet-b58 c k = elim (dec_lt c 256) [
  | yes h ↦ ground (arith, all_below→ 256 _ c encodes h)
  | no h ↦ absurd (k (b58-past c (omega arith)))
]

-- No byte outside ASCII is in the alphabet.
pub b58-high : (c : ℕ) → 128 ≤ c → b58_at c ≡ 255
b58-high c k = elim (dec_lt c 256) [
  | yes h ↦ ground (arith, all_below→ 256 _ c encodes h)
  | no h ↦ b58-past c (omega arith)
]

-- The first character stands for 0, and no other does.
pub alphabet-zero : alphabet_at 0 ≡ alphabet_idx0
unfolding alphabet_at
alphabet-zero = refl

pub b58-idx0 : b58_at alphabet_idx0 ≡ 0
unfolding b58_at
b58-idx0 = refl

pub alphabet-eq_idx0 : (d : ℕ) → d < 58 → alphabet_at d ≡ alphabet_idx0 → d ≡ 0
alphabet-eq_idx0 d h e = sym (b58-alphabet d h).0 ∙ ap b58_at e ∙ b58-idx0

pub b58-eq_zero : (c : ℕ) → InAlphabet c → b58_at c ≡ 0 → c ≡ alphabet_idx0
b58-eq_zero c h e = sym (alphabet-b58 c h).0 ∙ ap alphabet_at e ∙ alphabet-zero
