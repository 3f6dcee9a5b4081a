-- ===== src/Base58.antt =====
-- base58/base58.go: bytes to base58 text and back, ten digits at a time. A byte slice or a string is
-- the list of its bytes.
pub mod Alphabet
pub mod Runes
pub mod Tables
pub mod Swaps
pub mod Leading
pub mod Encoding
pub mod Decoding
pub mod RoundTrip
pub mod Check
mod Tests
use mathlib.Core.Logic.{dite}
use mathlib.Core.WellFounded.{Acc}
use native.Mathlib.Decide.{dec_lt}
use xmrig2xdag.Common.{
  ℕ, zero, suc, ◌+◌, ◌-◌, ◌*◌, ◌/◌, ◌%◌, ◌^◌, ◌≤◌, ◌<◌, ◌≡◌, ◌++◌, Option, none, some, List, [],
  ◌∷◌, true, false, reverse, ltb, ◌==◌, if◌then◌else◌, length, length-drop, take, drop, replicate,
  get_or, set, arith,
}
use xmrig2xdag.Common.Digits.{horner, digits, digits_acc, div_falls}
use xmrig2xdag.Common.Options.{◌>>=◌}
use xmrig2xdag.Common.Order.{lt_wf, Shorter, Shorter_wf}
use Alphabet.{alphabet_idx0, alphabet_at, b58_at}
use Runes.{runes}

abbrev pub big_radix10 : ℕ
big_radix10 = 58 ^ 10

-- Entry 0 is never used: a chunk has at least one character.
abbrev pub big_radix : List ℕ
big_radix =
    0
    ∷ 58
    ∷ 58 ^ 2
    ∷ 58 ^ 3
    ∷ 58 ^ 4
    ∷ 58 ^ 5
    ∷ 58 ^ 6
    ∷ 58 ^ 7
    ∷ 58 ^ 8
    ∷ 58 ^ 9
    ∷ big_radix10
    ∷ []

unfoldable pub big_radix_at : ℕ → ℕ
big_radix_at n = get_or big_radix n 0

-- big.Int's SetBytes and Bytes: the highest byte first, and no zero byte in front.
unfoldable pub set_bytes : List ℕ → ℕ
set_bytes bs = horner 256 0 bs

abbrev pub two-le-256 : 2 ≤ 256
two-le-256 = omega arith

abbrev pub two-le-58 : 2 ≤ 58
two-le-58 = omega arith

unfoldable pub get_bytes : ℕ → List ℕ
get_bytes x = reverse (digits 256 two-le-256 x)

-- The loop over the runes of a chunk; `none` is the early return of the empty slice. `total` is a
-- uint64.
unfoldable pub decode_chunk : List ℕ → ℕ → Option ℕ
decode_chunk [] total = some total
decode_chunk (v ∷ vs) total =
    let rest = decode_chunk vs ((total * 58 + b58_at v) % 2 ^ 64) in
    if ltb 255 v then none else if b58_at v == 255 then none else rest

-- `n := len(t); if n > 10 { n = 10 }`
abbrev pub chunk_length : List ℕ → ℕ
chunk_length t = if ltb 10 (length t) then 10 else length t

pub drop_chunk-Shorter : (t : List ℕ) → 0 < length t → Shorter (drop (chunk_length t) t) t
drop_chunk-Shorter t h = ground (arith, length-drop (chunk_length t) t)

-- `for t := b; len(t) > 0; { … }`
pub decode_loop : (t : List ℕ) → Acc Shorter t → ℕ → Option ℕ
decode_loop t (Acc.intro _ shorter) answer =
    dite (dec_lt 0 (length t))
      (λ h. do
        total ← decode_chunk (runes 0 (take (chunk_length t) t)) 0
        decode_loop (drop (chunk_length t) t) (shorter _ (drop_chunk-Shorter t h))
            (answer * big_radix_at (chunk_length t) + total))
      (λ _. some answer)

-- `for numZeros = 0; numZeros < len(b); numZeros++ { if b[numZeros] != alphabetIdx0 { break } }`, and
-- the same loop over zero bytes in Encode.
unfoldable pub count_front : ℕ → List ℕ → ℕ
count_front z [] = 0
count_front z (c ∷ cs) = if c == z then suc (count_front z cs) else 0

-- Decode
unfoldable pub decode : List ℕ → List ℕ
decode b = elim (decode_loop b (Shorter_wf.apply b) 0) [
  | none ↦ []
  | some answer ↦ replicate (count_front alphabet_idx0 b) 0 ++ get_bytes answer
]

-- `for m > 0 { answer = append(answer, alphabet[m%58]); m /= 58 }`
pub drain : (m : ℕ) → Acc ◌<◌ m → List ℕ → List ℕ
drain m (Acc.intro _ smaller) answer =
    dite (dec_lt 0 m)
      (λ h.
        drain (m / 58) (smaller (m / 58) (div_falls 58 two-le-58 m h))
          (answer ++ alphabet_at (m % 58) ∷ []))
      (λ _. answer)

-- `for i := 0; i < 10; i++ { … }`, for `k` rounds.
unfoldable pub append_digits : ℕ → ℕ → List ℕ → List ℕ
append_digits zero m answer = answer
append_digits (suc k) m answer = append_digits k (m / 58) (answer ++ alphabet_at (m % 58) ∷ [])

pub radix_falls : (x : ℕ) → 0 < x → x / big_radix10 < x
radix_falls x h = omega arith

-- `for x.Sign() > 0 { … }`
pub encode_loop : (x : ℕ) → Acc ◌<◌ x → List ℕ → List ℕ
encode_loop x (Acc.intro _ smaller) answer =
    dite (dec_lt 0 x)
      (λ h.
        encode_loop (x / big_radix10) (smaller (x / big_radix10) (radix_falls x h))
          (elim (x / big_radix10 == 0) [
            | true ↦ drain (x % big_radix10) (lt_wf.apply (x % big_radix10)) answer
            | false ↦ append_digits 10 (x % big_radix10) answer
          ]))
      (λ _. answer)

-- `answer[i], answer[alen-1-i] = answer[alen-1-i], answer[i]`
unfoldable pub swap_ends : ℕ → List ℕ → List ℕ
swap_ends i xs = let j = length xs - 1 - i in set (set xs i (get_or xs j 0)) j (get_or xs i 0)

-- The loop that reverses, from `i` on, with `rounds` rounds to go.
unfoldable pub swap_loop : ℕ → ℕ → List ℕ → List ℕ
swap_loop zero i xs = xs
swap_loop (suc rounds) i xs = swap_loop rounds (suc i) (swap_ends i xs)

-- Encode
unfoldable pub encode : List ℕ → List ℕ
encode b =
    let x = set_bytes b in
    let answer = encode_loop x (lt_wf.apply x) [] ++ replicate (count_front 0 b) alphabet_idx0 in
    swap_loop (length answer / 2) 0 answer
