-- ===== src/Base58/Check/Laws.antt =====
-- What the checked texts promise.
use xmrig2xdag.Common.{
  ℕ, zero, suc, ◌+◌, ◌-◌, ◌≡◌, refl, sym, ap, ap₂, ◌∙◌, ◌≤◌, List, [], ◌∷◌, ◌++◌, length,
  length-append, length-take, take, drop, take-append-drop, take-append, drop-append, get_or,
  list_eq, list_eq→eq, list_eq_refl, ltb, All, All-append, All-take, IsByte, arith, true, false,
}
use xmrig2xdag.Base58.{encode, decode}
use xmrig2xdag.Base58.Decoding.{decode-InAlphabet}
use xmrig2xdag.Base58.RoundTrip.{decode-encode, encode-decode}
use xmrig2xdag.Base58.Check.{Sha256, checked, checksum, check_encode, check_decode, chk_dec}

module _ (sha : Sha256) where
  pub length-checksum : (b : List ℕ) → length (checksum sha b) ≡ 4
  unfolding checksum
  length-checksum b =
      omega (arith, length-take 4 (sha.sum256 (sha.sum256 b)), sha.length-sum256 (sha.sum256 b))

  checksum-bytes : (b : List ℕ) → All IsByte (checksum sha b)
  unfolding checksum
  checksum-bytes b = All-take IsByte 4 _ (sha.sum256-bytes (sha.sum256 b))

  module _ (input : List ℕ) (version : ℕ) (bytes : All IsByte input) (byte : IsByte version) where
    whole : List ℕ
    whole = (version ∷ input) ++ checksum sha (version ∷ input)

    decode-check_encode : decode (check_encode sha input version) ≡ whole
    unfolding check_encode whole
    decode-check_encode =
        decode-encode _
          (All-append IsByte (version ∷ input) _ (byte, bytes) (checksum-bytes (version ∷ input)))

    length-whole : length whole ≡ length input + 5
    unfolding whole
    length-whole = omega (
      arith,
      length-append (version ∷ input) (checksum sha (version ∷ input)),
      length-checksum (version ∷ input),
    )

    body : take (length whole - 4) whole ≡ version ∷ input
    unfolding whole
    body = take-append _ (version ∷ input) _ (omega (arith, length-whole))

    sum : drop (length whole - 4) whole ≡ checksum sha (version ∷ input)
    unfolding whole
    sum = drop-append _ (version ∷ input) _ (omega (arith, length-whole))

    long_enough : ltb (length whole) 5 ≡ false
    long_enough = ground (arith, length-whole)

    first : get_or whole 0 0 ≡ version
    unfolding whole
    first = refl

    ruleset parts = (decode-check_encode, long_enough, body, sum, list_eq_refl, first)

    -- A text of CheckEncode is accepted, and CheckDecode gives back the payload and the version.
    pub check_decode-check_encode :
        check_decode sha (check_encode sha input version) ≡ checked input version
    unfolding check_decode
    check_decode-check_encode = simp parts

    -- On the same text ChkDec gives the version byte, the payload and the checksum, in one slice.
    pub chk_dec-check_encode :
        chk_dec sha (check_encode sha input version)
        ≡ checked ((version ∷ input) ++ checksum sha (version ∷ input)) version
    unfolding chk_dec
    chk_dec-check_encode = simp parts (unfold whole in refl)

  check_decode_parts :
      (t payload : List ℕ) (version : ℕ)
      → check_decode sha t ≡ checked payload version
      → (5 ≤ length (decode t))
        × (drop 1 (take (length (decode t) - 4) (decode t)) ≡ payload)
        × (get_or (decode t) 0 0 ≡ version)
        × (list_eq
              (checksum sha (take (length (decode t) - 4) (decode t)))
              (drop (length (decode t) - 4) (decode t))
            ≡ true)
  unfolding check_decode
  check_decode_parts t payload version e = (ground arith, ground arith, ground arith, ground arith)

  -- A slice of five bytes or more, by its first byte and the rest of its body.
  head_and_rest :
      (d : List ℕ) (n : ℕ)
      → 5 ≤ length d
      → n ≡ length d - 4
      → get_or d 0 0 ∷ drop 1 (take n d) ≡ take n d
  head_and_rest [] n h e = absurd (omega arith)
  head_and_rest (x ∷ d) zero h e = absurd (omega arith)
  head_and_rest (x ∷ d) (suc n) h e = refl

  -- CheckDecode accepts nothing but the texts that CheckEncode writes: encoding what it returns gives
  -- the text again.
  pub check_encode-check_decode :
      (t payload : List ℕ) (version : ℕ)
      → check_decode sha t ≡ checked payload version
      → check_encode sha payload version ≡ t
  unfolding check_encode
  check_encode-check_decode t payload version e =
      ap encode (
        ap₂ ◌++◌ front (ap (checksum sha) front ∙ list_eq→eq _ _ same_sum)
        ∙ take-append-drop n (decode t))
      ∙ encode-decode t
          (decode-InAlphabet t (λ none_left. omega (arith, long, ap length none_left)))
    where
      n : ℕ
      n = length (decode t) - 4

      long : 5 ≤ length (decode t)
      long = (check_decode_parts t payload version e).0

      same_sum : list_eq (checksum sha (take n (decode t))) (drop n (decode t)) ≡ true
      same_sum = (check_decode_parts t payload version e).3

      front : version ∷ payload ≡ take n (decode t)
      front =
          ap₂ ◌∷◌ (sym (check_decode_parts t payload version e).2)
            (sym (check_decode_parts t payload version e).1)
          ∙ head_and_rest (decode t) n long refl
