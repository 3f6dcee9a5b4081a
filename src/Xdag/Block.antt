-- ===== src/Xdag/Block.antt =====
-- xdag/block.go: the blocks that the pool sends, and the block that asks it for the first job. SHA-256 is
-- a parameter.
use xmrig2xdag.Common.{
  ℕ, ◌*◌, ◌^◌, ◌≡◌, ◌<◌, ◌≤◌, refl, sym, ap, ◌∙◌, List, ◌++◌, Bool, if◌then◌else◌, bit_or, take,
  drop, length, length-take, take-append-drop, replicate, copy, copy_at, copy_at_all, slice,
  copy_all, arith,
}
use xmrig2xdag.Encoding.{le_bytes, le_value}
use xmrig2xdag.Encoding.Numbers.{le_value-le_bytes}
use xmrig2xdag.Base58.Check.{Sha256}
use xmrig2xdag.Xdag.Address.{hash2address}

abbrev pub raw_block_size : ℕ
raw_block_size = 512

pub record RawBlock : Type 0 where
  pub hash : List ℕ
  pub address : List ℕ
  pub timestamp : ℕ
  pub raw_bytes : List ℕ

-- NewRawBlock, on at least 24 bytes. The code clears the transport header in place for the hash and puts
-- it back.
unfoldable pub new_raw_block : Sha256 → List ℕ → RawBlock
new_raw_block sha b =
    let header = copy (replicate 8 0) (take 8 b) in
    let cleared = copy_at b 0 8 (replicate 8 0) in
    let restored = copy_at cleared 0 8 header in
    let hash = sha.sum256 (sha.sum256 cleared) in
    record {
      hash = hash;
      address = hash2address hash;
      timestamp = le_value (slice restored 16 24);
      raw_bytes = restored;
    }

-- GenerateFakeBlock, for the test network or the main one, at an XDAG time.
unfoldable pub generate_fake_block : Bool → ℕ → List ℕ
generate_fake_block testnet now =
    let kind = if testnet then bit_or 8 (5 * 0x11 * 16) else bit_or 1 (5 * 0x11 * 16) in
    let block0 = copy_at (replicate raw_block_size 0) 0 8 (le_bytes 8 1) in
    let block1 = copy_at block0 8 16 (le_bytes 8 kind) in
    let block2 = copy_at block1 16 24 (le_bytes 8 now) in copy_at block2 24 32 (le_bytes 8 0)

cleared_bytes :
    (b : List ℕ) → 8 ≤ length b → copy_at b 0 8 (replicate 8 0) ≡ replicate 8 0 ++ drop 8 b
cleared_bytes b h = copy_at_all b 0 8 (replicate 8 0) refl h

-- NewRawBlock gives back the bytes as they were, and its hash and address do not depend on the first
-- eight of them, the transport header.
pub new_raw_block-header :
    (sha : Sha256) (b c : List ℕ)
    → 24 ≤ length b
    → 24 ≤ length c
    → drop 8 b ≡ drop 8 c
    → ((new_raw_block sha b).raw_bytes ≡ b)
      × ((new_raw_block sha b).hash ≡ (new_raw_block sha c).hash)
      × ((new_raw_block sha b).address ≡ (new_raw_block sha c).address)
unfolding new_raw_block
new_raw_block-header sha b c hb hc same = (
  restored,
  ap (λ l. sha.sum256 (sha.sum256 l)) cleared,
  ap (λ l. hash2address (sha.sum256 (sha.sum256 l))) cleared,
)
  where
    header : copy (replicate 8 0) (take 8 b) ≡ take 8 b
    header = copy_all (replicate 8 0) (take 8 b) (sym (length-take 8 b ∙ omega arith))

    restored : copy_at (copy_at b 0 8 (replicate 8 0)) 0 8 (copy (replicate 8 0) (take 8 b)) ≡ b
    restored =
        ap (λ l. copy_at l 0 8 (copy (replicate 8 0) (take 8 b))) (cleared_bytes b (omega arith))
        ∙ ap (λ l. copy_at (replicate 8 0 ++ drop 8 b) 0 8 l) header
        ∙ copy_at_all (replicate 8 0 ++ drop 8 b) 0 8 (take 8 b) (omega (arith, length-take 8 b))
            (omega arith)
        ∙ take-append-drop 8 b

    cleared : copy_at b 0 8 (replicate 8 0) ≡ copy_at c 0 8 (replicate 8 0)
    cleared =
        cleared_bytes b (omega arith)
        ∙ ap (λ l. replicate 8 0 ++ l) same
        ∙ sym (cleared_bytes c (omega arith))

-- The block that GenerateFakeBlock makes for a 64-bit time is read back with that time, and has 512 bytes.
pub new_raw_block-generate_fake_block :
    (sha : Sha256) (testnet : Bool) (now : ℕ)
    → now < 2 ^ 64
    → ((new_raw_block sha (generate_fake_block testnet now)).timestamp ≡ now)
      × (length (generate_fake_block testnet now) ≡ 512)
unfolding new_raw_block generate_fake_block
new_raw_block-generate_fake_block sha testnet now h = (le_value-le_bytes 8 now (omega arith), refl)
