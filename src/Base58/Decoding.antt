-- ===== src/Base58/Decoding.antt =====
-- What Decode computes, ten characters at a time: the bytes of the number that the characters stand
-- for, behind a zero byte for each '1' in front; and nothing at all if a character is no digit.
use xmrig2xdag.Common.{
  ℕ, zero, suc, ◌+◌, ◌*◌, ◌%◌, ◌^◌, ◌≤◌, ◌<◌, ◌≡◌, ◌≢◌, refl, ap, sym, ◌∙◌, some, List, [], ◌∷◌,
  ◌++◌, map, replicate, take, drop, length, length-take, length-map, take-append-drop, true, All,
  All-take, All-drop, All-append, Option-cases, inl, inr, ◌==◌, arith,
}
use mathlib.Core.List.{map-append}
use mathlib.Core.WellFounded.{Acc}
use native.Mathlib.Decide.{dec_lt}
use native.Mathlib.Nat.{
  pow-suc, pow-le-pow_right, one-le-pow, mul-le-mul_right, mul-le-mul_left, mul_assoc, mul_comm,
}
use xmrig2xdag.Common.Bits.{all_below, all_below→}
use xmrig2xdag.Common.Digits.{zero_or_pos, horner, horner_acc, horner-append}
use mathlib.Core.Path.{subst}
use xmrig2xdag.Common.Options.{>>=-eq-some}
use xmrig2xdag.Common.Order.{dite-pos, dite-zero, Shorter, Shorter_wf}
use xmrig2xdag.Base58.Alphabet.{alphabet_idx0, b58_at}
use xmrig2xdag.Base58.Runes.{runes, runes-ascii, runes-high, runes-low}
use xmrig2xdag.Base58.Tables.{InAlphabet, alphabet-b58, b58-high}
use xmrig2xdag.Base58.{
  decode_chunk, decode_loop, decode, chunk_length, drop_chunk-Shorter, big_radix_at, count_front,
  get_bytes,
}

-- The digits of a text, highest first.
abbrev pub text_value : ℕ → List ℕ → ℕ
text_value acc t = horner 58 acc (map b58_at t)

room_left : (total d p : ℕ) → d < 58 → (total * 58 + d + 1) * p ≤ (total + 1) * 58 * p
room_left total d p h = mul-le-mul_right p (omega arith)

-- While the chunk fits, the uint64 sum does not wrap round.
pub decode_chunk-value :
    (vs : List ℕ) (total : ℕ)
    → All InAlphabet vs
    → (total + 1) * 58 ^ length vs ≤ 2 ^ 64
    → decode_chunk vs total ≡ some (text_value total vs)
unfolding decode_chunk
decode_chunk-value [] total h fits = refl
decode_chunk-value (v ∷ vs) total h fits =
    ground
      (arith, alphabet-b58 v h.0, no_wrap, decode_chunk-value vs (total * 58 + b58_at v) h.1 fits')
  where
    digit : b58_at v < 58
    digit = (alphabet-b58 v h.0).1

    fits' : (total * 58 + b58_at v + 1) * 58 ^ length vs ≤ 2 ^ 64
    fits' = grind (
      arith,
      room_left total (b58_at v) (58 ^ length vs) digit,
      pow-suc 58 (length vs),
      mul_assoc (total + 1) 58 (58 ^ length vs),
      mul_comm 58 (58 ^ length vs),
    )

    no_wrap : total * 58 + b58_at v < 2 ^ 64
    no_wrap = grind (
      arith,
      fits',
      one-le-pow (length vs) 58,
      mul-le-mul_left (total * 58 + b58_at v + 1) (one-le-pow (length vs) 58 (omega arith)),
    )

-- A chunk that is accepted holds digits only.
decode_chunk-InAlphabet :
    (vs : List ℕ) (total r : ℕ) → decode_chunk vs total ≡ some r → All InAlphabet vs
unfolding decode_chunk
decode_chunk-InAlphabet [] total r e = tt
decode_chunk-InAlphabet (v ∷ vs) total r e = (
  λ bad. ground arith,
  decode_chunk-InAlphabet vs ((total * 58 + b58_at v) % 2 ^ 64) r (ground arith),
)

decode_chunk-tail :
    (v : ℕ) (vs : List ℕ) (total r : ℕ)
    → decode_chunk (v ∷ vs) total ≡ some r
    → decode_chunk vs ((total * 58 + b58_at v) % 2 ^ 64) ≡ some r
unfolding decode_chunk
decode_chunk-tail v vs total r e = ground arith

runes-InAlphabet :
    (s : List ℕ) (total r : ℕ) → decode_chunk (runes 0 s) total ≡ some r → All InAlphabet s
runes-InAlphabet [] total r e = tt
runes-InAlphabet (a ∷ s) total r e = elim (dec_lt a 128) [
  | yes low ↦
      let e' = rw (runes-low a s low) at e in
      (
        (decode_chunk-InAlphabet (a ∷ runes 0 s) total r e').0,
        runes-InAlphabet s ((total * 58 + b58_at a) % 2 ^ 64) r
            (decode_chunk-tail a (runes 0 s) total r e'),
      )
  | no high ↦
      let (q, rs, eq, out) = runes-high a s (omega arith) in
      absurd ((decode_chunk-InAlphabet (q ∷ rs) total r (rw eq at e)).0 (b58-high q out))
]

big_radix-table : all_below 10 (λ i. big_radix_at (suc i) == 58 ^ suc i) ≡ true
unfolding all_below big_radix_at
big_radix-table = refl

big_radix-pow : (n : ℕ) → 1 ≤ n → n ≤ 10 → big_radix_at n ≡ 58 ^ n
big_radix-pow zero h k = absurd (omega arith)
big_radix-pow (suc i) h k = ground (arith, all_below→ 10 _ i big_radix-table (omega arith))

InAlphabet-ascii : (s : List ℕ) → All InAlphabet s → All (λ c. c < 128) s
InAlphabet-ascii [] h = tt
InAlphabet-ascii (c ∷ s) h = ((alphabet-b58 c h.0).2, InAlphabet-ascii s h.1)

empty_of_length : (t : List ℕ) → length t ≡ 0 → t ≡ []
empty_of_length [] z = refl
empty_of_length (c ∷ t) z = absurd (omega arith)

module _ (t : List ℕ) where
  -- The chunk at the front.
  abbrev front : List ℕ
  front = take (chunk_length t) t

  abbrev behind : List ℕ
  behind = drop (chunk_length t) t

  chunk_bounds :
      0 < length t → (1 ≤ chunk_length t) × (chunk_length t ≤ 10) × (length front ≡ chunk_length t)
  chunk_bounds h = ground (arith, length-take (chunk_length t) t)

  -- One chunk of digits, and what it makes of the number so far.
  chunk-value :
      0 < length t → All InAlphabet t → decode_chunk (runes 0 front) 0 ≡ some (text_value 0 front)
  chunk-value pos h =
      rw (runes-ascii front (InAlphabet-ascii _ (All-take InAlphabet (chunk_length t) t h)))
        (decode_chunk-value front 0 (All-take InAlphabet (chunk_length t) t h) fits)
    where
      in_chunk : length front ≤ 10
      in_chunk = rw (chunk_bounds pos).2 (chunk_bounds pos).1

      fits : (0 + 1) * 58 ^ length front ≤ 2 ^ 64
      fits = omega (arith, pow-le-pow_right {n = 58} (omega arith) {j = 10} in_chunk)

  round-value :
      (answer : ℕ)
      → 0 < length t
      → text_value (answer * big_radix_at (chunk_length t) + text_value 0 front) behind
        ≡ text_value answer t
  round-value answer pos =
      ap (λ (a : ℕ). text_value a behind) joined
      ∙ sym (horner-append 58 answer (map b58_at front) (map b58_at behind))
      ∙ ap (horner 58 answer) (
          sym (map-append b58_at front behind)
          ∙ ap (map b58_at) (take-append-drop (chunk_length t) t))
    where
      joined : answer * big_radix_at (chunk_length t) + text_value 0 front ≡ text_value answer front
      joined = grind (
        arith,
        big_radix-pow (chunk_length t) (chunk_bounds pos).0 (chunk_bounds pos).1,
        horner_acc 58 answer (map b58_at front),
        length-map front b58_at,
        (chunk_bounds pos).2,
      )

decode_loop-value :
    (t : List ℕ) (w : Acc Shorter t) (answer : ℕ)
    → All InAlphabet t
    → decode_loop t w answer ≡ some (text_value answer t)
unfolding decode_loop
decode_loop-value t (Acc.intro _ shorter) answer h = elim (zero_or_pos (length t)) [
  | inl z ↦ dite-zero (length t) z _ (some answer) ∙ rw (empty_of_length t z)
  | inr pos ↦
      dite-pos (length t) pos _ _
      ∙ rw (chunk-value t pos h) (
          decode_loop-value (behind t) (shorter _ (drop_chunk-Shorter t pos)) _
            (All-drop InAlphabet (chunk_length t) t h)
          ∙ ap some (round-value t answer pos))
]

decode_loop-InAlphabet :
    (t : List ℕ) (w : Acc Shorter t) (answer r : ℕ)
    → decode_loop t w answer ≡ some r
    → All InAlphabet t
unfolding decode_loop
decode_loop-InAlphabet t (Acc.intro _ shorter) answer r e = elim (zero_or_pos (length t)) [
  | inl z ↦ rw (empty_of_length t z) tt
  | inr pos ↦
      let (total, chunk, rest) = >>=-eq-some _ _ (sym (dite-pos (length t) pos _ _) ∙ e) in
      subst (All InAlphabet) (take-append-drop (chunk_length t) t) (
        All-append InAlphabet (front t) (behind t) (runes-InAlphabet (front t) 0 total chunk)
          (decode_loop-InAlphabet (behind t) (shorter _ (drop_chunk-Shorter t pos)) _ r rest))
]

-- A text of base 58 digits stands for a number; Decode, which works in chunks of ten, gives its bytes,
-- highest first, behind a zero byte for each '1' in front.
pub decode-value :
    (t : List ℕ)
    → All InAlphabet t
    → decode t ≡ replicate (count_front alphabet_idx0 t) 0 ++ get_bytes (text_value 0 t)
unfolding decode
decode-value t h = rw (decode_loop-value t (Shorter_wf.apply t) 0 h, decode)

-- If any byte is no base 58 digit, wherever in the text it stands and whatever rune it belongs to,
-- Decode gives the empty slice.
pub decode_rejects : (t : List ℕ) → ¬ (All InAlphabet t) → decode t ≡ []
unfolding decode
decode_rejects t bad = elim (Option-cases (decode_loop t (Shorter_wf.apply t) 0)) [
  | inl e ↦ rw (e, decode)
  | inr (r, e) ↦ absurd (bad (decode_loop-InAlphabet t (Shorter_wf.apply t) 0 r e))
]

-- So what gives bytes at all is a text of digits.
pub decode-InAlphabet : (t : List ℕ) → decode t ≢ [] → All InAlphabet t
unfolding decode
decode-InAlphabet t some_bytes = elim (Option-cases (decode_loop t (Shorter_wf.apply t) 0)) [
  | inl e ↦ absurd (some_bytes (rw (e, decode)))
  | inr (r, e) ↦ decode_loop-InAlphabet t (Shorter_wf.apply t) 0 r e
]
