-- ===== src/Xdag/Address/Groups.antt =====
-- Three bytes are four characters: one turn of four rounds of each loop of xdag/block.go.
use xmrig2xdag.Common.{
  ℕ, suc, ◌+◌, ◌-◌, ◌*◌, ◌/◌, ◌%◌, ◌^◌, ◌≡◌, refl, ap, ap₂, ◌∙◌, ◌<◌, ◌≤◌, List, [], ◌∷◌, ◌++◌,
  IsByte, get_or, set, map, leb, lt→ltb, some, true, bit_or, arith,
}
use xmrig2xdag.Common.Bits.{bit_or_low, bit_and_sextet}
use xmrig2xdag.Xdag.Address.{bits2mime_at, hash_loop, address_loop, next_sextet}
use xmrig2xdag.Xdag.Address.Tables.{mime2bits-bits2mime, sextet_test}

-- The 24 bits of three bytes, and its four groups of six, highest first.
abbrev pub bits24 : ℕ → ℕ → ℕ → ℕ
bits24 x y z = x * 65536 + y * 256 + z

abbrev pub sextets : ℕ → List ℕ
sextets n = n / 262144 % 64 ∷ n / 4096 % 64 ∷ n / 64 % 64 ∷ n % 64 ∷ []

-- `c <<= 8; c |= b`
append_byte : (c b : ℕ) → IsByte b → bit_or (c * 256 % 2 ^ 64) b ≡ c % 2 ^ 56 * 256 + b
append_byte c b h = rw shifted (bit_or_low 8 (c % 2 ^ 56) b h)
  where
    shifted : c * 256 % 2 ^ 64 ≡ c % 2 ^ 56 * 2 ^ 8
    shifted = omega arith

-- `e <<= 6; e |= d`
append_sextet : (e d : ℕ) → d < 64 → bit_or (e * 64 % 2 ^ 64) d ≡ e % 2 ^ 58 * 64 + d
append_sextet e d h = rw shifted (bit_or_low 6 (e % 2 ^ 58) d h)
  where
    shifted : e * 64 % 2 ^ 64 ≡ e % 2 ^ 58 * 2 ^ 6
    shifted = omega arith

push_byte : ℕ → ℕ → ℕ
push_byte c b = c % 2 ^ 56 * 256 + b

push_sextet : ℕ → ℕ → ℕ
push_sextet e d = e % 2 ^ 58 * 64 + d

-- A round that reads the byte `b`.
hash_loop-refill :
    (n : ℕ) (h : List ℕ) (c d j b : ℕ)
    → d < 6
    → IsByte b
    → get_or h j 0 ≡ b
    → hash_loop (suc n) h c d j
      ≡ bits2mime_at (push_byte c b / 2 ^ (d + 8 - 6) % 64)
        ∷ hash_loop n h (push_byte c b) (d + 8 - 6) (suc j)
unfolding hash_loop push_byte
hash_loop-refill n h c d j b lt hb e =
    rw (lt→ltb d 6 lt, e, append_byte c b hb, bit_and_sextet) refl

-- A round that reads none.
hash_loop-keep :
    (n : ℕ) (h : List ℕ) (c j : ℕ)
    → hash_loop (suc n) h c 6 j ≡ bits2mime_at (c % 64) ∷ hash_loop n h c 0 j
unfolding hash_loop
hash_loop-keep n h c j =
    rw bit_and_sextet (ap (λ t. bits2mime_at t ∷ hash_loop n h c 0 j) (omega arith))

-- A character is known by its six bits.
same_char : (a b : ℕ) (k l : List ℕ) → a ≡ b → k ≡ l → bits2mime_at a ∷ k ≡ bits2mime_at b ∷ l
same_char a b k l e f = ap₂ (λ i m. bits2mime_at i ∷ m) e f

-- Four rounds of Hash2address.
pub hash_loop-group :
    (n : ℕ) (h : List ℕ) (c j x y z : ℕ)
    → IsByte x × IsByte y × IsByte z
    → get_or h j 0 ≡ x
    → get_or h (suc j) 0 ≡ y
    → get_or h (suc (suc j)) 0 ≡ z
    → (c' : ℕ) × (hash_loop (suc (suc (suc (suc n)))) h c 0 j
        ≡ map bits2mime_at (sextets (bits24 x y z)) ++ hash_loop n h c' 0 (suc (suc (suc j))))
unfolding push_byte
hash_loop-group n h c j x y z (hx, hy, hz) ex ey ez = (
  c3,
  hash_loop-refill _ h c 0 j x (omega arith) hx ex
      ∙ same_char _ _ _ _ first (
          hash_loop-refill _ h (push_byte c x) 2 (suc j) y (omega arith) hy ey
          ∙ same_char _ _ _ _ second (
              hash_loop-refill _ h (push_byte (push_byte c x) y) 4 (suc (suc j)) z (omega arith) hz
                ez
              ∙ same_char _ _ _ _ third
                  (hash_loop-keep n h c3 (suc (suc (suc j))) ∙ same_char _ _ _ _ fourth refl))),
)
  where
    c3 : ℕ
    c3 = push_byte (push_byte (push_byte c x) y) z

    first : push_byte c x / 2 ^ 2 % 64 ≡ bits24 x y z / 262144 % 64
    first = omega arith

    second : push_byte (push_byte c x) y / 2 ^ 4 % 64 ≡ bits24 x y z / 4096 % 64
    second = omega arith

    third : c3 / 2 ^ 6 % 64 ≡ bits24 x y z / 64 % 64
    third = omega arith

    fourth : c3 % 64 ≡ bits24 x y z % 64
    fourth = omega arith

-- A round of Address2hash that is not the last of a byte, and one that is.
next_sextet-char : (d : ℕ) (cs : List ℕ) → d < 64 → next_sextet (bits2mime_at d ∷ cs) ≡ some (d, cs)
unfolding next_sextet
next_sextet-char d cs h = rw (mime2bits-bits2mime d h, sextet_test d h) refl

address_loop-keep :
    (i d e j : ℕ) (cs hash : List ℕ)
    → d < 64
    → address_loop (suc i) (bits2mime_at d ∷ cs) e 0 j hash
      ≡ address_loop i cs (push_sextet e d) 6 j hash
unfolding address_loop push_sextet
address_loop-keep i d e j cs hash h =
    rw (next_sextet-char d cs h, address_loop, append_sextet e d h) refl

leb-true : (n : ℕ) → 2 ≤ n → leb 8 (n + 6) ≡ true
leb-true n h = ground arith

address_loop-whole :
    (i d e n j b : ℕ) (cs hash : List ℕ)
    → d < 64
    → 2 ≤ n
    → push_sextet e d / 2 ^ (n + 6 - 8) % 256 ≡ b
    → address_loop (suc i) (bits2mime_at d ∷ cs) e n j hash
      ≡ address_loop i cs (push_sextet e d) (n + 6 - 8) (suc j) (set hash j b)
unfolding address_loop push_sextet
address_loop-whole i d e n j b cs hash h two hb =
    rw (next_sextet-char d cs h, address_loop, append_sextet e d h, leb-true n two, hb) refl

-- Four rounds of Address2hash on the characters of three bytes.
pub address_loop-group :
    (i e j x y z : ℕ) (cs hash : List ℕ)
    → IsByte x × IsByte y × IsByte z
    → (e' : ℕ) × (address_loop
          (suc (suc (suc (suc i))))
          (map bits2mime_at (sextets (bits24 x y z)) ++ cs)
          e
          0
          j
          hash
        ≡ address_loop i cs e' 0
            (suc (suc (suc j)))
            (set (set (set hash j x) (suc j) y) (suc (suc j)) z))
unfolding push_sextet
address_loop-group i e j x y z cs hash (hx, hy, hz) = (
  _,
  address_loop-keep _ _ e j _ hash (omega arith)
      ∙ address_loop-whole _ _ _ 6 j x _ hash (omega arith) (omega arith) (omega arith)
      ∙ address_loop-whole _ _ _ 4 (suc j) y _ _ (omega arith) (omega arith) (omega arith)
      ∙ address_loop-whole i _ _ 2 (suc (suc j)) z cs _ (omega arith) (omega arith) (omega arith),
)
