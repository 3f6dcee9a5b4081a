-- ===== src/Base58/RoundTrip.antt =====
-- Encode and Decode undo each other.
use xmrig2xdag.Common.{
  ℕ, zero, suc, ◌<◌, ◌≡◌, refl, sym, ap, ap₂, ◌∙◌, List, [], ◌∷◌, ◌++◌, map, reverse, replicate,
  All, All-append, All-replicate, All-reverse, IsByte, arith,
}
use xmrig2xdag.Common.Digits.{horner, digits, digits-below}
use xmrig2xdag.Common.Positional.{Starts, horner-zeros, horner-digits, digits-horner, digits-Starts}
use xmrig2xdag.Base58.Alphabet.{alphabet_at, alphabet_idx0, b58_at}
use xmrig2xdag.Base58.Tables.{
  InAlphabet, b58-alphabet, alphabet-b58, alphabet-eq_idx0, b58-eq_zero, b58-idx0,
}
use xmrig2xdag.Base58.Leading.{
  drop_front, front-append, drop_front-Starts, drop_front-All, count_front-replicate,
}
use xmrig2xdag.Base58.Encoding.{digits58, encode-digits}
use xmrig2xdag.Base58.Decoding.{text_value, decode-value}
use xmrig2xdag.Base58.{encode, decode, count_front, set_bytes, get_bytes, two-le-58, two-le-256}

-- Digits become characters.
abbrev IsDigit : ℕ → Type 0
IsDigit d = d < 58

digits-InAlphabet : (ds : List ℕ) → All IsDigit ds → All InAlphabet (map alphabet_at ds)
digits-InAlphabet [] h = tt
digits-InAlphabet (d ∷ ds) h =
    (λ e. omega (arith, (b58-alphabet d h.0).0), digits-InAlphabet ds h.1)

digits_back : (ds : List ℕ) → All IsDigit ds → map b58_at (map alphabet_at ds) ≡ ds
digits_back [] h = refl
digits_back (d ∷ ds) h = ap₂ ◌∷◌ (b58-alphabet d h.0).0 (digits_back ds h.1)

digits-Starts_text :
    (ds : List ℕ) → All IsDigit ds → Starts 0 ds → Starts alphabet_idx0 (map alphabet_at ds)
digits-Starts_text [] h s = tt
digits-Starts_text (d ∷ ds) h s = λ e. s (alphabet-eq_idx0 d h.0 e)

-- Characters become digits.
text_back : (t : List ℕ) → All InAlphabet t → map alphabet_at (map b58_at t) ≡ t
text_back [] h = refl
text_back (c ∷ t) h = ap₂ ◌∷◌ (alphabet-b58 c h.0).0 (text_back t h.1)

text-digits : (t : List ℕ) → All InAlphabet t → All IsDigit (map b58_at t)
text-digits [] h = tt
text-digits (c ∷ t) h = ((alphabet-b58 c h.0).1, text-digits t h.1)

text-Starts : (t : List ℕ) → All InAlphabet t → Starts alphabet_idx0 t → Starts 0 (map b58_at t)
text-Starts [] h s = tt
text-Starts (c ∷ t) h s = λ e. s (b58-eq_zero c h.0 e)

text_value-ones :
    (n : ℕ) (t : List ℕ) → text_value 0 (replicate n alphabet_idx0 ++ t) ≡ text_value 0 t
text_value-ones zero t = refl
text_value-ones (suc n) t =
    ap (λ (d : ℕ). horner 58 d (map b58_at (replicate n alphabet_idx0 ++ t)))
      (omega (arith, b58-idx0))
    ∙ text_value-ones n t

idx0-InAlphabet : InAlphabet alphabet_idx0
idx0-InAlphabet e = omega (arith, b58-idx0)

-- big.Int holds the number of the bytes behind the zeros, and gives those bytes back.
get_bytes-set_bytes : (cs : List ℕ) → All IsByte cs → Starts 0 cs → get_bytes (set_bytes cs) ≡ cs
unfolding get_bytes set_bytes
get_bytes-set_bytes cs h s = digits-horner 256 two-le-256 cs h s

set_bytes-get_bytes : (n x : ℕ) → set_bytes (replicate n 0 ++ get_bytes x) ≡ x
unfolding get_bytes set_bytes
set_bytes-get_bytes n x =
    horner-zeros 256 n (reverse (digits 256 two-le-256 x)) ∙ horner-digits 256 two-le-256 x

get_bytes-Starts : (x : ℕ) → Starts 0 (get_bytes x)
unfolding get_bytes
get_bytes-Starts x = digits-Starts 256 two-le-256 x

set_bytes-zeros : (n : ℕ) (cs : List ℕ) → set_bytes (replicate n 0 ++ cs) ≡ set_bytes cs
unfolding set_bytes
set_bytes-zeros n cs = horner-zeros 256 n cs

-- A text with `n` ones in front of the digits of `x`, which is what Encode writes.
module _ (n x : ℕ) where
  written : List ℕ
  written = replicate n alphabet_idx0 ++ map alphabet_at (reverse (digits58 x))

  below : All IsDigit (reverse (digits58 x))
  below = All-reverse IsDigit (digits58 x) (digits-below 58 two-le-58 x)

  written-InAlphabet : All InAlphabet written
  unfolding written
  written-InAlphabet =
      All-append InAlphabet (replicate n alphabet_idx0) _
        (All-replicate InAlphabet n alphabet_idx0 idx0-InAlphabet)
        (digits-InAlphabet (reverse (digits58 x)) below)

  count_front-written : count_front alphabet_idx0 written ≡ n
  unfolding written
  count_front-written =
      count_front-replicate n alphabet_idx0 (map alphabet_at (reverse (digits58 x)))
        (digits-Starts_text (reverse (digits58 x)) below (digits-Starts 58 two-le-58 x))

  text_value-written : text_value 0 written ≡ x
  unfolding written
  text_value-written =
      text_value-ones n (map alphabet_at (reverse (digits58 x)))
      ∙ ap (horner 58 0) (digits_back (reverse (digits58 x)) below)
      ∙ horner-digits 58 two-le-58 x

  decode-written : decode written ≡ replicate n 0 ++ get_bytes x
  decode-written =
      decode-value written written-InAlphabet
      ∙ ap₂ (λ k y. replicate k 0 ++ get_bytes y) count_front-written text_value-written

-- Decode gives back the bytes that Encode was given, whatever they are: zero bytes in front too.
pub decode-encode : (b : List ℕ) → All IsByte b → decode (encode b) ≡ b
unfolding written
decode-encode b bytes =
    ap decode (encode-digits b)
    ∙ decode-written (count_front 0 b) (set_bytes b)
    ∙ ap (λ r. replicate (count_front 0 b) 0 ++ r) rest_back
    ∙ front-append 0 b
  where
    rest_back : get_bytes (set_bytes b) ≡ drop_front 0 b
    rest_back =
        ap get_bytes (
          ap set_bytes (sym (front-append 0 b))
          ∙ set_bytes-zeros (count_front 0 b) (drop_front 0 b))
        ∙ get_bytes-set_bytes (drop_front 0 b) (drop_front-All IsByte 0 b bytes)
            (drop_front-Starts 0 b)

-- Encode gives back any text of base 58 digits that Decode was given: no two texts have the same bytes.
pub encode-decode : (t : List ℕ) → All InAlphabet t → encode (decode t) ≡ t
encode-decode t h =
    ap encode (decode-value t h)
    ∙ encode-digits (replicate ones 0 ++ get_bytes x)
    ∙ ap₂ (λ k y. replicate k alphabet_idx0 ++ map alphabet_at (reverse (digits58 y)))
        (count_front-replicate ones 0 (get_bytes x) (get_bytes-Starts x))
        (set_bytes-get_bytes ones x)
    ∙ ap (λ r. replicate ones alphabet_idx0 ++ r) rest_back
    ∙ front-append alphabet_idx0 t
  where
    ones : ℕ
    ones = count_front alphabet_idx0 t

    rest : List ℕ
    rest = drop_front alphabet_idx0 t

    x : ℕ
    x = text_value 0 t

    rest_digits : All InAlphabet rest
    rest_digits = drop_front-All InAlphabet alphabet_idx0 t h

    same : text_value 0 t ≡ text_value 0 rest
    same = ap (text_value 0) (sym (front-append alphabet_idx0 t)) ∙ text_value-ones ones rest

    rest_back : map alphabet_at (reverse (digits58 x)) ≡ rest
    rest_back =
        ap (λ (y : ℕ). map alphabet_at (reverse (digits58 y))) same
        ∙ ap (map alphabet_at) (
            digits-horner 58 two-le-58 (map b58_at rest) (text-digits rest rest_digits)
              (text-Starts rest rest_digits (drop_front-Starts alphabet_idx0 t)))
        ∙ text_back rest rest_digits
