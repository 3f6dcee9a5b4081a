-- ===== src/Proxy/Naming/Tests.antt =====
-- A random name from two reads.
use xmrig2xdag.Common.{ℕ, ◌≡◌, refl, List, [], ◌∷◌, All, length, codes, arith}
use xmrig2xdag.Proxy.Naming.{
  name, std_chars, fill, read_loop, new_len_chars, new_len, IsCharOf, new_len_chars-returns,
}

-- The bytes 0 to 7 are used, 250 is skipped, since 250 > 255 - 256 % 62.
new_len_sample : new_len 3 ((250 ∷ 1 ∷ []) ∷ (255 ∷ 63 ∷ 7 ∷ []) ∷ []) ≡ name (codes "BBH")
unfolding new_len fill read_loop
new_len_sample = refl

new_len_chars-returns_example :
    (b : List ℕ) × (new_len_chars 3 std_chars ((250 ∷ 1 ∷ []) ∷ (255 ∷ 63 ∷ 7 ∷ []) ∷ []) ≡ name b)
    × (length b ≡ 3)
    × All (IsCharOf std_chars) b
new_len_chars-returns_example =
    new_len_chars-returns 3 std_chars ((250 ∷ 1 ∷ []) ∷ (255 ∷ 63 ∷ 7 ∷ []) ∷ []) (omega arith)
      (omega arith) (omega arith) (omega arith)
