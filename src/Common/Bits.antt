-- ===== src/Common/Bits.antt =====
-- The bit operations of the program as arithmetic: `|` of a shifted number and a field below it, `&`
-- with a mask of low bits, and what can be checked value by value.
use Prim.Native.Nat.{ℕ, zero, suc, ◌+◌, ◌*◌, ◌/◌, ◌%◌, ◌^◌, ◌≤◌, ◌<◌, min, max}
use Prim.Native.Nat.{bit_and, bit_or, digits, bit_and-bitwise, bit_or-bitwise}
use mathlib.Core.Path.{◌≡◌, refl, ap, ◌∙◌}
use mathlib.Core.Bool.{Bool, true, ◌&&◌}
use native.Mathlib.Omega.{arith}
use native.Mathlib.Nat.{pow-succ', pow-zero, mul_left_comm}

-- A test that every number below `n` passes.
unfoldable pub all_below : ℕ → (ℕ → Bool) → Bool
all_below zero p = true
all_below (suc n) p = p n && all_below n p

pub all_below→ : (n : ℕ) (p : ℕ → Bool) (x : ℕ) → all_below n p ≡ true → x < n → p x ≡ true
unfolding all_below
all_below→ zero p x h lt = absurd (omega arith)
all_below→ (suc n) p x h lt = ground (arith, all_below→ n p x)

shifted : (q k : ℕ) → q * 2 ^ suc k ≡ 2 * (q * 2 ^ k)
shifted q k = ap (λ (t : ℕ). q * t) (pow-succ' 2 k) ∙ mul_left_comm q 2 (2 ^ k)

-- The operations go through `n` binary digits at most; `n` is at least the first number.
or_with_zero : (n a : ℕ) → a ≤ n → digits (λ y. y) max n a 0 ≡ a
or_with_zero zero a h = omega arith
or_with_zero (suc n) zero h = refl
or_with_zero (suc n) (suc a) h = omega (arith, or_with_zero n (suc a / 2) (omega arith))

or_digits : (k n a q r : ℕ) → a ≡ q * 2 ^ k → a ≤ n → r < 2 ^ k → digits (λ y. y) max n a r ≡ a + r
or_digits zero n a q r e hn hr = rw none_left (or_with_zero n a hn ∙ omega arith)
  where
    none_left : r ≡ 0
    none_left = omega (arith, pow-zero 2)
or_digits (suc k) zero a q r e hn hr = omega arith
or_digits (suc k) (suc n) zero q r e hn hr = omega arith
or_digits (suc k) (suc n) (suc a) q r e hn hr =
    let halves =
      or_digits k n (suc a / 2) q (r / 2) (omega (arith, shifted q k)) (omega arith)
        (omega (arith, pow-succ' 2 k)) in
    omega (arith, shifted q k, pow-succ' 2 k, halves)

-- `q << k | r`
pub bit_or_low : (k q r : ℕ) → r < 2 ^ k → bit_or (q * 2 ^ k) r ≡ q * 2 ^ k + r
bit_or_low k q r h = bit_or-bitwise (q * 2 ^ k) r ∙ or_digits k _ _ q r refl (omega arith) h

and_with_zero : (n a : ℕ) → digits (λ y. 0) min n a 0 ≡ 0
and_with_zero zero a = refl
and_with_zero (suc n) zero = refl
and_with_zero (suc n) (suc a) = omega (arith, and_with_zero n (suc a / 2))

and_digits :
    (k n a q r mask : ℕ)
    → a ≡ q * 2 ^ k + r
    → a ≤ n
    → r < 2 ^ k
    → mask + 1 ≡ 2 ^ k
    → digits (λ y. 0) min n a mask ≡ r
and_digits zero n a q r mask e hn hr hm = rw no_mask (and_with_zero n a ∙ omega (arith, pow-zero 2))
  where
    no_mask : mask ≡ 0
    no_mask = omega (arith, pow-zero 2)
and_digits (suc k) zero a q r mask e hn hr hm = omega arith
and_digits (suc k) (suc n) zero q r mask e hn hr hm = omega arith
and_digits (suc k) (suc n) (suc a) q r mask e hn hr hm =
    let halves =
      and_digits k n (suc a / 2) q (r / 2) (mask / 2) (omega (arith, shifted q k)) (omega arith)
        (omega (arith, pow-succ' 2 k)) (omega (arith, pow-succ' 2 k)) in
    omega (arith, shifted q k, pow-succ' 2 k, halves)

-- `a & 0x3f`
pub bit_and_sextet : (a : ℕ) → bit_and a 0x3f ≡ a % 64
bit_and_sextet a =
    bit_and-bitwise a 0x3f
    ∙ and_digits 6 a a (a / 64) (a % 64) 0x3f (omega arith) (omega arith) (omega arith) refl
