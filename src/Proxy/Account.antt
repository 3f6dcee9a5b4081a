-- ===== src/Proxy/Account.antt =====
-- SetAddress of proxy/proxy.go: the miner's account, from the base58 text of its login.
use xmrig2xdag.Common.{
  ℕ, ◌≡◌, refl, List, ◌∷◌, ◌++◌, All, IsByte, Option, none, some, true, ◌==◌, if◌then◌else◌, length,
  length-append, copy, copy_all, arith,
}
use xmrig2xdag.Base58.Check.{Sha256, checked, failed, checksum, check_encode, chk_dec}
use xmrig2xdag.Base58.Check.Laws.{chk_dec-check_encode, length-checksum}
use xmrig2xdag.Proxy.State.{Proxy}

-- The errors are told apart by their texts.
pub data AccountError : Type 0 where
  invalid_wallet_address invalid_address_length : AccountError

-- SetAddress
unfoldable pub set_address : Sha256 → List ℕ → Proxy → Proxy × Option AccountError
set_address sha a p = elim (chk_dec sha a) [
  | failed _ ↦ (p, some invalid_wallet_address)
  | checked h _ ↦
      if length h == 24
      then (record p { address_hash = copy (p.address_hash) h; address = a }, none)
      else (p, some invalid_address_length)
]

-- Nineteen bytes with their version byte, encoded with a checksum, are accepted as an account. The proxy
-- then has the version, the bytes and the checksum as its account, and the text as its address.
pub set_address-check_encode :
    (sha : Sha256) (input : List ℕ) (version : ℕ) (p : Proxy)
    → All IsByte input
    → IsByte version
    → length input ≡ 19
    → length (p.address_hash) ≡ 24
    → set_address sha (check_encode sha input version) p ≡ (
      record p {
        address_hash = (version ∷ input) ++ checksum sha (version ∷ input);
        address = check_encode sha input version;
      },
      none,
    )
unfolding set_address
set_address-check_encode sha input version p hi hv h19 h24 =
    rw
      (
        chk_dec-check_encode sha input version hi hv,
        set_address,
        right_length,
        copy_all (p.address_hash) ((version ∷ input) ++ checksum sha (version ∷ input))
            (omega (arith, whole)),
      )
      refl
  where
    four : length (checksum sha (version ∷ input)) ≡ 4
    four = length-checksum sha (version ∷ input)

    whole : length ((version ∷ input) ++ checksum sha (version ∷ input)) ≡ 24
    whole = omega (arith, four, length-append input (checksum sha (version ∷ input)))

    right_length : (length ((version ∷ input) ++ checksum sha (version ∷ input)) == 24) ≡ true
    right_length = ground (arith, whole)
