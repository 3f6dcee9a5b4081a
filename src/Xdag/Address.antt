-- ===== src/Xdag/Address.antt =====
-- xdag/block.go: a 32-byte hash to a 32-character address and back, six bits a character. Go's uint is
-- 64 bits wide.
pub mod Tables
pub mod Groups
pub mod Laws
pub mod Errors
mod Tests
use xmrig2xdag.Common.{
  ℕ, zero, suc, ◌+◌, ◌-◌, ◌*◌, ◌/◌, ◌%◌, ◌^◌, List, [], ◌∷◌, Option, none, some, length, replicate,
  get_or, set, ltb, leb, ◌==◌, if◌then◌else◌, bit_and, bit_or,
}
use xmrig2xdag.Common.{codes}

abbrev pub hash_length : ℕ
hash_length = 32

abbrev pub address_length : ℕ
address_length = 32

abbrev pub bits2mime : List ℕ
bits2mime = codes "ABCDEFGHIJKLMNOPQRSTUVWXYZabcdefghijklmnopqrstuvwxyz0123456789+/"

unfoldable pub bits2mime_at : ℕ → ℕ
bits2mime_at i = get_or bits2mime i 0

-- The second loop of init, from `i` on, with `n` rounds to go.
unfoldable pub fill_table : ℕ → ℕ → List ℕ → List ℕ
unfolding bits2mime_at
fill_table zero i table = table
fill_table (suc n) i table = fill_table n (suc i) (set table (bits2mime_at i) i)

-- The table that init makes: 0xFF at every byte that is no character of an address.
unfoldable pub mime2bits : List ℕ
unfolding fill_table
mime2bits = fill_table 64 0 (replicate 256 0xFF)

unfoldable pub mime2bits_at : ℕ → ℕ
unfolding mime2bits
mime2bits_at c = get_or mime2bits c 0xFF

-- The loop of Hash2address, with `n` rounds to go: `c` holds the bits read so far, `d` says how many of
-- them are not used, `j` is the next byte.
unfoldable pub hash_loop : ℕ → List ℕ → ℕ → ℕ → ℕ → List ℕ
hash_loop zero h c d j = []
hash_loop (suc n) h c d j =
    let refill = ltb d 6 in
    let c' = if refill then bit_or (c * 256 % 2 ^ 64) (get_or h j 0) else c in
    let d' = (if refill then d + 8 else d) - 6 in
    let j' = if refill then suc j else j in
    bits2mime_at (bit_and (c' / 2 ^ d') 0x3F) ∷ hash_loop n h c' d' j'

-- Hash2address
unfoldable pub hash2address : List ℕ → List ℕ
unfolding hash_loop
hash2address h = hash_loop address_length h 0 0 0

-- `errors.New` gives two errors, told apart by their texts.
pub data AddressError : Type 0 where
  invalid_address address_string_error : AddressError

-- The inner loop: the six bits of the next character of an address, and the characters behind it;
-- `none` when the characters have run out (`k == 32`).
unfoldable pub next_sextet : List ℕ → Option (ℕ × List ℕ)
next_sextet [] = none
next_sextet (c ∷ cs) =
    let rest = next_sextet cs in
    if bit_and (mime2bits_at c) 0xC0 == 0 then some (mime2bits_at c, cs) else rest

-- The outer loop, with `i` rounds to go: `e` holds the bits read so far, `n` says how many of them are
-- not used, `j` is the next byte of the hash. The characters not looked at stand for the index `k`.
unfoldable pub address_loop : ℕ → List ℕ → ℕ → ℕ → ℕ → List ℕ → List ℕ × Option AddressError
address_loop zero cs e n j hash = (hash, none)
address_loop (suc i) cs e n j hash = elim (next_sextet cs) [
  | none ↦ (hash, some address_string_error)
  | some (d, rest) ↦
      let e' = bit_or (e * 64 % 2 ^ 64) d in
      let n' = n + 6 in
      let whole = address_loop i rest e' (n' - 8) (suc j) (set hash j (e' / 2 ^ (n' - 8) % 256)) in
      let part = address_loop i rest e' n' j hash in if leb 8 n' then whole else part
]

-- Address2hash: the hash, and the error if there is one.
unfoldable pub address2hash : List ℕ → List ℕ × Option AddressError
address2hash addr =
    let hash = replicate hash_length 0 in
    if length addr == 32
    then address_loop address_length addr 0 0 0 hash
    else (hash, some invalid_address)
