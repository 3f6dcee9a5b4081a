-- ===== src/Xdag/Address/Tests.antt =====
-- The addresses of xdag/block.go on concrete hashes.
use xmrig2xdag.Common.{
  ℕ, zero, suc, ◌≡◌, ◌≢◌, ◌↔◌, refl, List, [], ◌∷◌, ◌++◌, All, IsByte, replicate, take, length,
  some, none, arith,
}
use xmrig2xdag.Common.{codes}
use xmrig2xdag.Xdag.Address.{
  bits2mime_at, mime2bits_at, next_sextet, address_loop, hash2address, address2hash,
  invalid_address, address_string_error,
}
use xmrig2xdag.Xdag.Address.Tables.{InMime}
use xmrig2xdag.Xdag.Address.Laws.{address2hash-hash2address, hash2address-address2hash}
use xmrig2xdag.Xdag.Address.Errors.{address2hash-error}

abbrev count_from : ℕ → ℕ → List ℕ
count_from zero b = []
count_from (suc n) b = b ∷ count_from n (suc b)

abbrev sample_hash : List ℕ
sample_hash = count_from 32 200

abbrev sample_address : List ℕ
sample_address = codes "yMnKy8zNzs/Q0dLT1NXW19jZ2tvc3d7f"

hash2address_sample : hash2address sample_hash ≡ sample_address
unfolding hash2address bits2mime_at
hash2address_sample = refl

address2hash_sample : address2hash sample_address ≡ (take 24 sample_hash ++ replicate 8 0, none)
unfolding address2hash next_sextet mime2bits_at address_loop
address2hash_sample = refl

address2hash_short : address2hash (codes "yMnK") ≡ (replicate 32 0, some invalid_address)
unfolding address2hash
address2hash_short = refl

-- Two addresses for which the repository's tests expect no error.
address2hash_space :
    (address2hash (codes "NrD1QgI1ORuQtjwTniSwr 8pTnS8Rgdu")).1 ≡ some address_string_error
unfolding address2hash address_loop next_sextet mime2bits_at
address2hash_space = refl

address2hash_wallet : (address2hash (codes "YOUR_WALLET_ADDRESS")).1 ≡ some invalid_address
unfolding address2hash
address2hash_wallet = refl

sample_hash-IsByte : All IsByte sample_hash
sample_hash-IsByte = omega arith

address2hash-hash2address_example :
    address2hash (hash2address sample_hash) ≡ (take 24 sample_hash ++ replicate 8 0, none)
address2hash-hash2address_example =
    address2hash-hash2address sample_hash sample_hash-IsByte (omega arith)

sample_address-InMime : All InMime sample_address
unfolding mime2bits_at
sample_address-InMime = omega arith

hash2address-address2hash_example : hash2address ((address2hash sample_address).0) ≡ sample_address
hash2address-address2hash_example =
    hash2address-address2hash sample_address refl sample_address-InMime

-- A character outside the alphabet.
abbrev broken_address : List ℕ
broken_address = codes "yMnKy8zNzs/Q0dLT1NXW19jZ2tvc3d7-"

address2hash-error_example :
    (((address2hash broken_address).1 ≡ none)
      ↔ ((length broken_address ≡ 32) × All InMime broken_address))
    × ((length broken_address ≢ 32)
        → address2hash broken_address ≡ (replicate 32 0, some invalid_address))
    × (((address2hash broken_address).1 ≡ some address_string_error)
        ↔ ((length broken_address ≡ 32) × ¬ (All InMime broken_address)))
address2hash-error_example = address2hash-error broken_address
