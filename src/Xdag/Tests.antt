-- ===== src/Xdag/Tests.antt =====
-- Blocks and times of the package xdag on concrete values.
use xmrig2xdag.Common.{ℕ, ◌≡◌, refl, List, ◌++◌, replicate, ◌%◌, length, length-replicate, arith}
use xmrig2xdag.Common.{IsByte, All-replicate}
use xmrig2xdag.Base58.Check.{Sha256}
use xmrig2xdag.Xdag.Block.{new_raw_block, new_raw_block-header}

-- A stand-in for SHA-256.
abbrev sample_sha : Sha256
sample_sha = record {
  sum256 = λ input. replicate 32 (length input % 256);
  length-sum256 = λ input. length-replicate 32 (length input % 256);
  sum256-bytes = λ input. All-replicate IsByte 32 (length input % 256) (omega arith);
}

abbrev block_with : List ℕ → List ℕ
block_with header = header ++ replicate 504 7

new_raw_block-header_example :
    ((new_raw_block sample_sha (block_with (replicate 8 1))).raw_bytes ≡ block_with (replicate 8 1))
    × ((new_raw_block sample_sha (block_with (replicate 8 1))).hash
        ≡ (new_raw_block sample_sha (block_with (replicate 8 2))).hash)
    × ((new_raw_block sample_sha (block_with (replicate 8 1))).address
        ≡ (new_raw_block sample_sha (block_with (replicate 8 2))).address)
new_raw_block-header_example =
    new_raw_block-header sample_sha (block_with (replicate 8 1)) (block_with (replicate 8 2))
      (omega arith) (omega arith) refl
