-- ===== src/Base58/Check.antt =====
-- base58/base58check.go: base58 text with a version byte and a checksum. SHA-256 is a parameter.
pub mod Laws
use xmrig2xdag.Common.{
  ℕ, ◌+◌, ◌-◌, ◌≡◌, List, [], ◌∷◌, ◌++◌, length, take, drop, get_or, list_eq, ltb, if◌then◌else◌,
  All, IsByte,
}
use xmrig2xdag.Base58.{encode, decode}

-- crypto/sha256: Sum256 gives 32 bytes.
pub record Sha256 : Type 0 where
  pub sum256 : List ℕ → List ℕ
  pub length-sum256 : (input : List ℕ) → length (sum256 input) ≡ 32
  pub sum256-bytes : (input : List ℕ) → All IsByte (sum256 input)

pub data CheckError : Type 0 where
  err_checksum err_invalid_format : CheckError

-- The three results of CheckDecode and ChkDec; with an error the other two are nil and 0.
pub data Checked : Type 0 where
  checked : List ℕ → ℕ → Checked
  failed : CheckError → Checked

module _ (sha : Sha256) where
  -- The first four bytes of sha256 twice.
  unfoldable pub checksum : List ℕ → List ℕ
  checksum input = take 4 (sha.sum256 (sha.sum256 input))

  unfoldable pub check_encode : List ℕ → ℕ → List ℕ
  check_encode input version = let b = version ∷ input in encode (b ++ checksum b)

  unfoldable pub check_decode : List ℕ → Checked
  check_decode input =
      let decoded = decode input in
      let body = length decoded - 4 in
      if ltb (length decoded) 5
      then failed err_invalid_format
      else if list_eq (checksum (take body decoded)) (drop body decoded)
      then checked (drop 1 (take body decoded)) (get_or decoded 0 0)
      else failed err_checksum

  -- ChkDec keeps the version and the checksum in its result.
  unfoldable pub chk_dec : List ℕ → Checked
  chk_dec input =
      let decoded = decode input in
      let body = length decoded - 4 in
      if ltb (length decoded) 5
      then failed err_invalid_format
      else if list_eq (checksum (take body decoded)) (drop body decoded)
      then checked decoded (get_or decoded 0 0)
      else failed err_checksum
