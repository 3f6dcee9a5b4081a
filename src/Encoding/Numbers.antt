-- ===== src/Encoding/Numbers.antt =====
-- Numbers and their bytes.
use xmrig2xdag.Common.{
  ℕ, zero, suc, ◌/◌, ◌^◌, ◌≡◌, ◌<◌, refl, ap, ap₂, ◌∙◌, List, [], ◌∷◌, All, IsByte, length, arith,
}
use native.Mathlib.Nat.{pow-succ', pow-zero}
use xmrig2xdag.Encoding.{le_bytes, le_value}

pub length-le_bytes : (n x : ℕ) → length (le_bytes n x) ≡ n
length-le_bytes zero x = refl
length-le_bytes (suc n) x = ap suc (length-le_bytes n (x / 256))

pub le_bytes-IsByte : (n x : ℕ) → All IsByte (le_bytes n x)
le_bytes-IsByte zero x = tt
le_bytes-IsByte (suc n) x = (omega arith, le_bytes-IsByte n (x / 256))

pub le_value-le_bytes : (n x : ℕ) → x < 256 ^ n → le_value (le_bytes n x) ≡ x
le_value-le_bytes zero x h = omega (arith, pow-zero 256)
le_value-le_bytes (suc n) x h =
    omega (arith, pow-succ' 256 n, le_value-le_bytes n (x / 256) (omega (arith, pow-succ' 256 n)))

pub le_bytes-le_value : (bs : List ℕ) → All IsByte bs → le_bytes (length bs) (le_value bs) ≡ bs
le_bytes-le_value [] h = refl
le_bytes-le_value (b ∷ bs) (hb, hs) =
    ap₂ (λ x l. x ∷ l) (omega arith)
      (ap (le_bytes (length bs)) (omega arith) ∙ le_bytes-le_value bs hs)

pub le_value-lt : (bs : List ℕ) → All IsByte bs → le_value bs < 256 ^ length bs
le_value-lt [] h = omega (arith, pow-zero 256)
le_value-lt (b ∷ bs) (hb, hs) = omega (arith, le_value-lt bs hs, pow-succ' 256 (length bs))
