-- ===== src/Base58/Encoding.antt =====
-- What Encode computes, ten digits at a time: the digits of the number in base 58, highest first, with
-- a '1' in front for each zero byte.
use xmrig2xdag.Common.{
  ℕ, zero, suc, ◌/◌, ◌%◌, ◌<◌, ◌≡◌, ap, ap₂, sym, reverse-replicate, reverse-map, ◌∙◌, List, [],
  ◌++◌, map, reverse, replicate, true, false, inl, inr, Bool-cases, ◌==◌, arith,
}
use mathlib.Core.List.{append-nil, append_assoc, reverse-append, map-append}
use mathlib.Core.WellFounded.{Acc}
use xmrig2xdag.Common.Order.{lt_wf, dite-pos, dite-zero}
use xmrig2xdag.Common.Digits.{
  digits, digits-zero, digits-pos, digits_split, padded, zero_or_pos, div_falls,
}
use xmrig2xdag.Base58.Alphabet.{alphabet_at, alphabet_idx0}
use xmrig2xdag.Base58.{
  drain, append_digits, encode_loop, encode, set_bytes, count_front, big_radix10, two-le-58,
  radix_falls,
}
use xmrig2xdag.Base58.Swaps.{swap_loop-reverse}

abbrev pub digits58 : ℕ → List ℕ
digits58 x = digits 58 two-le-58 x

drain-digits :
    (m : ℕ) (w : Acc ◌<◌ m) (answer : List ℕ)
    → drain m w answer ≡ answer ++ map alphabet_at (digits58 m)
unfolding drain
drain-digits m (Acc.intro _ smaller) answer = elim (zero_or_pos m) [
  | inl z ↦ dite-zero m z _ answer ∙ rw (z, digits-zero) (sym (append-nil answer))
  | inr h ↦
      dite-pos m h _ _
      ∙ drain-digits (m / 58) (smaller (m / 58) (div_falls 58 two-le-58 m h)) _
      ∙ append_assoc answer _ _
      ∙ rw (digits-pos 58 two-le-58 m h)
]

append_digits-padded :
    (k m : ℕ) (answer : List ℕ)
    → append_digits k m answer ≡ answer ++ map alphabet_at (padded 58 two-le-58 k m)
unfolding append_digits
append_digits-padded zero m answer = sym (append-nil answer)
append_digits-padded (suc k) m answer = append_digits-padded k (m / 58) _ ∙ append_assoc answer _ _

-- What one round of the loop appends, and what is left.
round-digits :
    (x : ℕ) (answer : List ℕ)
    → (elim (x / big_radix10 == 0) [
      | true ↦ drain (x % big_radix10) (lt_wf.apply (x % big_radix10)) answer
      | false ↦ append_digits 10 (x % big_radix10) answer
    ])
        ++ map alphabet_at (digits58 (x / big_radix10))
      ≡ answer ++ map alphabet_at (digits58 x)
round-digits x answer = elim (Bool-cases (x / big_radix10 == 0)) [
  | inl e ↦ rw e (
      rw (drain-digits (x % big_radix10) (lt_wf.apply (x % big_radix10)) answer, last_chunk e)
        (append_assoc answer _ _
          ∙ rw (digits-zero 58 two-le-58, append-nil)
              (ap (λ (t : ℕ). answer ++ map alphabet_at (digits58 t)) (all_left e))))
  | inr e ↦ rw e (
      rw (append_digits-padded 10 (x % big_radix10) answer)
        (append_assoc answer _ _ ∙ ap (λ ds. answer ++ ds) (inner_chunk e)))
]
  where
    last_chunk : (x / big_radix10 == 0) ≡ true → x / big_radix10 ≡ 0
    last_chunk e = ground arith

    all_left : (x / big_radix10 == 0) ≡ true → x % big_radix10 ≡ x
    all_left e = omega (arith, last_chunk e)

    inner_chunk :
        (x / big_radix10 == 0) ≡ false
        → map alphabet_at (padded 58 two-le-58 10 (x % big_radix10))
            ++ map alphabet_at (digits58 (x / big_radix10))
          ≡ map alphabet_at (digits58 x)
    inner_chunk e =
        sym (
          map-append alphabet_at (padded 58 two-le-58 10 (x % big_radix10))
            (digits58 (x / big_radix10)))
        ∙ ap (map alphabet_at) (
            sym (
              digits_split 58 two-le-58 10 (x % big_radix10) (x / big_radix10) (omega arith)
                (ground arith))
            ∙ ap digits58 (omega arith))

encode_loop-digits :
    (x : ℕ) (w : Acc ◌<◌ x) (answer : List ℕ)
    → encode_loop x w answer ≡ answer ++ map alphabet_at (digits58 x)
unfolding encode_loop
encode_loop-digits x (Acc.intro _ smaller) answer = elim (zero_or_pos x) [
  | inl z ↦ dite-zero x z _ answer ∙ rw (z, digits-zero) (sym (append-nil answer))
  | inr h ↦
      dite-pos x h _ _
      ∙ encode_loop-digits (x / big_radix10) (smaller (x / big_radix10) (radix_falls x h)) _
      ∙ round-digits x answer
]

-- Encode, which works in chunks of ten digits and turns the answer round in place, gives the base 58
-- digits of the big-endian number, highest first, behind one '1' for each zero byte in front.
pub encode-digits :
    (b : List ℕ)
    → encode b
      ≡ replicate (count_front 0 b) alphabet_idx0
        ++ map alphabet_at (reverse (digits58 (set_bytes b)))
unfolding encode
encode-digits b =
    rw (encode_loop-digits (set_bytes b) (lt_wf.apply (set_bytes b)) [], swap_loop-reverse)
      (reverse-append (map alphabet_at (digits58 (set_bytes b)))
          (replicate (count_front 0 b) alphabet_idx0)
        ∙ ap₂ ◌++◌ (reverse-replicate (count_front 0 b) alphabet_idx0)
            (reverse-map alphabet_at (digits58 (set_bytes b))))
