-- ===== src/Base58/Tests.antt =====
-- The vectors of base58_test.go, and the theorems about the codec at concrete inputs.
use xmrig2xdag.Common.{
  ℕ, ◌%◌, ◌≡◌, refl, List, [], ◌∷◌, ◌++◌, map, reverse, replicate, length-replicate, All,
  All-replicate, IsByte, arith,
}
use xmrig2xdag.Common.Digits.{horner, digits}
use xmrig2xdag.Common.Order.{lt_wf, Shorter_wf}
use native.Mathlib.Decide.{dec_lt}
use native.Mathlib.Nat.{mod-lt}
use xmrig2xdag.Base58.{
  encode, encode_loop, drain, append_digits, decode, decode_loop, decode_chunk, count_front,
  set_bytes, get_bytes, swap_loop, swap_ends, big_radix_at,
}
use xmrig2xdag.Common.{codes}
use xmrig2xdag.Base58.Alphabet.{alphabet_at, alphabet_idx0, b58_at}
use xmrig2xdag.Base58.Runes.{runes}
use xmrig2xdag.Base58.Tables.{InAlphabet}
use xmrig2xdag.Base58.Encoding.{digits58, encode-digits}
use xmrig2xdag.Base58.Decoding.{text_value, decode-value}
use xmrig2xdag.Base58.RoundTrip.{decode-encode, encode-decode}
use xmrig2xdag.Base58.Check.{
  Sha256, checked, failed, err_invalid_format, check_encode, check_decode,
}
use xmrig2xdag.Base58.Check.Laws.{check_decode-check_encode, check_encode-check_decode}

encode_abc : encode (codes "abc") ≡ codes "ZiCa"
unfolding encode encode_loop drain append_digits alphabet_at count_front set_bytes swap_loop
    swap_ends lt_wf dec_lt
encode_abc = refl

-- More than ten digits.
encode_long : encode (codes "1234598760") ≡ codes "3mJr7AoUXx2Wqd"
unfolding encode encode_loop drain append_digits alphabet_at count_front set_bytes swap_loop
    swap_ends lt_wf dec_lt
encode_long = refl

encode_zeros : encode (replicate 10 0) ≡ codes "1111111111"
unfolding encode encode_loop drain append_digits alphabet_at count_front set_bytes swap_loop
    swap_ends lt_wf dec_lt
encode_zeros = refl

decode_long :
    decode (codes "3SEo3LWLoPntC")
    ≡ 0xbf ∷ 0x4f ∷ 0x89 ∷ 0x00 ∷ 0x1e ∷ 0x67 ∷ 0x02 ∷ 0x74 ∷ 0xdd ∷ []
unfolding decode decode_loop decode_chunk b58_at runes count_front get_bytes digits big_radix_at
    Shorter_wf dec_lt
decode_long = refl

-- A euro-like sign behind valid characters, as three bytes of UTF-8.
decode_unicode : decode (codes "abcd" ++ 0xE2 ∷ 0x82 ∷ 0xBF ∷ []) ≡ []
unfolding decode decode_loop decode_chunk b58_at runes Shorter_wf dec_lt
decode_unicode = refl

abbrev three_bytes : List ℕ
three_bytes = 0 ∷ 1 ∷ 255 ∷ []

decode-encode_example : decode (encode three_bytes) ≡ three_bytes
decode-encode_example = decode-encode three_bytes (omega arith)

bytes_text-InAlphabet : All InAlphabet (codes "1ZiCa")
unfolding b58_at
bytes_text-InAlphabet = omega arith

encode-decode_example : encode (decode (codes "1ZiCa")) ≡ codes "1ZiCa"
encode-decode_example = encode-decode (codes "1ZiCa") bytes_text-InAlphabet

encode-digits_example :
    encode three_bytes
    ≡ replicate (count_front 0 three_bytes) alphabet_idx0
      ++ map alphabet_at (reverse (digits58 (set_bytes three_bytes)))
encode-digits_example = encode-digits three_bytes

decode-value_example :
    decode (codes "1ZiCa")
    ≡ replicate (count_front alphabet_idx0 (codes "1ZiCa")) 0
      ++ get_bytes (text_value 0 (codes "1ZiCa"))
decode-value_example = decode-value (codes "1ZiCa") bytes_text-InAlphabet

not-InAlphabet : ¬ (All InAlphabet (codes "4kl8"))
unfolding b58_at
not-InAlphabet h = h.1.1.0 refl

-- A stand-in for SHA-256.
abbrev sample_sha : Sha256
sample_sha = record {
  sum256 = λ input. replicate 32 (horner 31 7 input % 256);
  length-sum256 = λ input. length-replicate 32 (horner 31 7 input % 256);
  sum256-bytes = λ input. All-replicate IsByte 32 _ (mod-lt _ (omega arith));
}

check_decode-check_encode_example :
    check_decode sample_sha (check_encode sample_sha three_bytes 5) ≡ checked three_bytes 5
check_decode-check_encode_example =
    check_decode-check_encode sample_sha three_bytes 5 (omega arith) (omega arith)

check_encode-check_decode_example :
    check_encode sample_sha three_bytes 5 ≡ check_encode sample_sha three_bytes 5
check_encode-check_decode_example =
    check_encode-check_decode sample_sha (check_encode sample_sha three_bytes 5) three_bytes 5
      check_decode-check_encode_example

check_short : check_decode sample_sha (codes "ZiCa") ≡ failed err_invalid_format
unfolding check_decode decode decode_loop decode_chunk b58_at runes count_front get_bytes digits
    big_radix_at Shorter_wf dec_lt
check_short = refl
