-- ===== src/Xdag/Address/Tables.antt =====
-- The two tables of characters are inverse to each other.
use xmrig2xdag.Common.{
  ℕ, zero, suc, ◌≡◌, refl, ◌<◌, ◌≤◌, ◌&&◌, ◌||◌, true, not, ltb, ◌==◌, List, [], ◌∷◌, length,
  get_or, bit_and, arith,
}
use native.Mathlib.Decide.{dec_lt}
use xmrig2xdag.Common.Bits.{all_below, all_below→}
use xmrig2xdag.Xdag.Address.{bits2mime_at, mime2bits, mime2bits_at}

-- The code's test for a character of an address.
abbrev pub InMime : ℕ → Type 0
InMime c = bit_and (mime2bits_at c) 0xC0 ≡ 0

decodes : all_below 64 (λ i. (mime2bits_at (bits2mime_at i) == i) && (bit_and i 0xC0 == 0)) ≡ true
unfolding all_below mime2bits_at bits2mime_at
decodes = refl

pub mime2bits-bits2mime : (i : ℕ) → i < 64 → mime2bits_at (bits2mime_at i) ≡ i
mime2bits-bits2mime i h = ground (arith, all_below→ 64 _ i decodes h)

pub bits2mime-InMime : (i : ℕ) → i < 64 → InMime (bits2mime_at i)
bits2mime-InMime i h = ground (arith, all_below→ 64 _ i decodes h)

pub sextet_test : (i : ℕ) → i < 64 → (bit_and i 0xC0 == 0) ≡ true
sextet_test i h = ground (arith, all_below→ 64 _ i decodes h)

encodes :
    all_below 256 (λ c.
      not (bit_and (mime2bits_at c) 0xC0 == 0)
      || (ltb (mime2bits_at c) 64 && (bits2mime_at (mime2bits_at c) == c)))
    ≡ true
unfolding all_below mime2bits_at bits2mime_at
encodes = refl

get_or-past : (xs : List ℕ) (i d : ℕ) → length xs ≤ i → get_or xs i d ≡ d
get_or-past [] i d h = refl
get_or-past (x ∷ xs) zero d h = absurd (omega arith)
get_or-past (x ∷ xs) (suc i) d h = get_or-past xs i d (omega arith)

past : (c : ℕ) → 256 ≤ c → mime2bits_at c ≡ 0xFF
unfolding mime2bits_at
past c h = get_or-past mime2bits c 0xFF h

high_bits : (c : ℕ) → InMime c → 256 ≤ c → bit_and 0xFF 0xC0 ≡ 0
high_bits c k h = rw (past c h) at k

high : (c : ℕ) → InMime c → 256 ≤ c → ⊥
high c k h = absurd (omega (arith, high_bits c k h))

pub bits2mime-mime2bits :
    (c : ℕ) → InMime c → (mime2bits_at c < 64) × (bits2mime_at (mime2bits_at c) ≡ c)
bits2mime-mime2bits c k = elim (dec_lt c 256) [
  | yes h ↦ ground (arith, all_below→ 256 _ c encodes h)
  | no h ↦ absurd (high c k (omega arith))
]
