-- ===== src/Encoding/Hex.antt =====
-- Hexadecimal text and bytes.
use xmrig2xdag.Common.{
  ℕ, ◌*◌, ◌/◌, ◌%◌, ◌≡◌, ◌<◌, refl, ap, List, [], ◌∷◌, ◌++◌, All, IsByte, length, none, some, ◌≢◌,
  inl, inr, Option-cases, arith,
}
use xmrig2xdag.Encoding.{hex_digit, hex_value, encode_to_string, decode_string}

hex_value-hex_digit : (n : ℕ) → n < 16 → hex_value (hex_digit n) ≡ some n
unfolding hex_value hex_digit
hex_value-hex_digit n h = ground arith

hex_value-lt : (c n : ℕ) → hex_value c ≡ some n → n < 16
unfolding hex_value
hex_value-lt c n h = ground arith

pub decode_string-encode_to_string :
    (bs : List ℕ) → All IsByte bs → decode_string (encode_to_string bs) ≡ (bs, none)
decode_string-encode_to_string [] h = refl
decode_string-encode_to_string (b ∷ bs) (hb, hs) =
    rw
      (
        hex_value-hex_digit (b / 16) (omega arith),
        hex_value-hex_digit (b % 16) (omega arith),
        decode_string-encode_to_string bs hs,
      )
      (ap (λ x. (x ∷ bs, none)) (omega arith))

pub length-encode_to_string : (bs : List ℕ) → length (encode_to_string bs) ≡ length bs * 2
length-encode_to_string [] = refl
length-encode_to_string (b ∷ bs) = omega (arith, length-encode_to_string bs)

pub decode_string-IsByte : (cs : List ℕ) → All IsByte ((decode_string cs).0)
decode_string-IsByte [] = tt
decode_string-IsByte (c ∷ []) = elim (Option-cases (hex_value c)) [
  | inl e ↦ rw (e, All) tt
  | inr (n, e) ↦ rw (e, All) tt
]
decode_string-IsByte (c ∷ d ∷ cs) = elim (Option-cases (hex_value c)) [
  | inl e ↦ rw (e, All) tt
  | inr (hi, e) ↦ elim (Option-cases (hex_value d)) [
    | inl f ↦ rw (e, f, All) tt
    | inr (lo, f) ↦
        rw (e, f) (omega (arith, hex_value-lt c hi e, hex_value-lt d lo f), decode_string-IsByte cs)
  ]
]

some-none : {A : Type 0} {a : A} → some a ≢ none
some-none e = cc

pub decode_string-length :
    (cs : List ℕ) → (decode_string cs).1 ≡ none → length ((decode_string cs).0) * 2 ≡ length cs
decode_string-length [] h = refl
decode_string-length (c ∷ []) h = elim (Option-cases (hex_value c)) [
  | inl e ↦ absurd (some-none (rw e at h))
  | inr (n, e) ↦ absurd (some-none (rw e at h))
]
decode_string-length (c ∷ d ∷ cs) h = elim (Option-cases (hex_value c)) [
  | inl e ↦ absurd (some-none (rw e at h))
  | inr (hi, e) ↦ elim (Option-cases (hex_value d)) [
    | inl f ↦ absurd (some-none (rw (e, f) at h))
    | inr (lo, f) ↦ rw (e, f) (omega (arith, decode_string-length cs (rw (e, f) at h)))
  ]
]

pub encode_to_string-append :
    (s t : List ℕ) → encode_to_string (s ++ t) ≡ encode_to_string s ++ encode_to_string t
encode_to_string-append [] t = refl
encode_to_string-append (b ∷ s) t = rw (encode_to_string-append s t) refl
