-- ===== src/Xdag/Address/Laws.antt =====
-- Hash2address and Address2hash as a whole: what an address says, when it is refused, and that the two
-- are inverse to each other.
use xmrig2xdag.Common.{
  ℕ, zero, suc, ◌+◌, ◌*◌, ◌/◌, ◌%◌, ◌≡◌, refl, sym, ap, ap₂, ◌∙◌, ◌≤◌, List, [], ◌∷◌, ◌++◌, All,
  All-take, All-append, All-replicate, length-take, take-append, IsByte, map, take, replicate, none,
  length, length-append, get_or-append, get_or-append_1, get_or-append_2, set-append_3, arith,
}
use mathlib.Core.List.{append_assoc}
use xmrig2xdag.Xdag.Address.{
  bits2mime_at, mime2bits_at, hash_loop, address_loop, hash2address, address2hash,
}
use xmrig2xdag.Xdag.Address.Tables.{InMime, bits2mime-mime2bits}
use xmrig2xdag.Xdag.Address.Groups.{bits24, sextets, hash_loop-group, address_loop-group}

-- The characters of a list of bytes, four for every three bytes.
abbrev pub chars : List ℕ → List ℕ
chars (x ∷ y ∷ z ∷ rest) = map bits2mime_at (sextets (bits24 x y z)) ++ chars rest
chars _ = []

abbrev three : ℕ → ℕ
three zero = 0
three (suc n) = suc (suc (suc (three n)))

abbrev four : ℕ → ℕ
four zero = 0
four (suc n) = suc (suc (suc (suc (four n))))

extend : (p : List ℕ) (x y z : ℕ) → length (p ++ x ∷ y ∷ z ∷ []) ≡ suc (suc (suc (length p)))
extend p x y z = omega (arith, length-append p (x ∷ y ∷ z ∷ []))

extended : (p : List ℕ) (x y z : ℕ) (s : List ℕ) → (p ++ x ∷ y ∷ z ∷ []) ++ s ≡ p ++ x ∷ y ∷ z ∷ s
extended p x y z s = append_assoc p (x ∷ y ∷ z ∷ []) s

length-chars : (n : ℕ) (s : List ℕ) → length s ≡ three n → length (chars s) ≡ four n
length-chars zero [] h = refl
length-chars zero (x ∷ s) h = absurd (omega arith)
length-chars (suc n) [] h = absurd (omega arith)
length-chars (suc n) (x ∷ []) h = absurd (omega arith)
length-chars (suc n) (x ∷ y ∷ []) h = absurd (omega arith)
length-chars (suc n) (x ∷ y ∷ z ∷ s) h = omega (arith, length-chars n s (omega arith))

hash_loop-chars :
    (n : ℕ) (p s : List ℕ) (c : ℕ)
    → All IsByte s
    → three n ≤ length s
    → hash_loop (four n) (p ++ s) c 0 (length p) ≡ chars (take (three n) s)
hash_loop-chars zero p s c hs h = unfold hash_loop in refl
hash_loop-chars (suc n) p [] c hs h = absurd (omega arith)
hash_loop-chars (suc n) p (x ∷ []) c hs h = absurd (omega arith)
hash_loop-chars (suc n) p (x ∷ y ∷ []) c hs h = absurd (omega arith)
hash_loop-chars (suc n) p (x ∷ y ∷ z ∷ s) c (hx, (hy, (hz, hs))) h =
    let (c', e) =
      hash_loop-group (four n) (p ++ x ∷ y ∷ z ∷ s) c (length p) x y z (hx, hy, hz)
        (get_or-append p x (y ∷ z ∷ s) 0) (get_or-append_1 p x y (z ∷ s) 0)
        (get_or-append_2 p x y z s 0) in
    e
    ∙ ap (λ l. map bits2mime_at (sextets (bits24 x y z)) ++ l)
        (next c' (hash_loop-chars n (p ++ x ∷ y ∷ z ∷ []) s c' hs (omega arith)))
  where
    next :
        (c' : ℕ)
        → hash_loop (four n) ((p ++ x ∷ y ∷ z ∷ []) ++ s) c' 0 (length (p ++ x ∷ y ∷ z ∷ []))
          ≡ chars (take (three n) s)
        → hash_loop (four n) (p ++ x ∷ y ∷ z ∷ s) c' 0 (suc (suc (suc (length p))))
          ≡ chars (take (three n) s)
    next c' ih = rw (extend p x y z, extended p x y z s) at ih

-- Hash2address of a hash of 32 bytes, or of 24 at least, is the characters of its first 24 bytes.
pub hash2address-chars :
    (h : List ℕ) → All IsByte h → 24 ≤ length h → hash2address h ≡ chars (take 24 h)
unfolding hash2address
hash2address-chars h hb long = hash_loop-chars 8 [] h 0 hb long

address_loop-chars :
    (n : ℕ) (p s tail : List ℕ) (e : ℕ)
    → All IsByte s
    → length s ≡ three n
    → address_loop (four n) (chars s) e 0 (length p) (p ++ (replicate (three n) 0 ++ tail))
      ≡ (p ++ (s ++ tail), none)
address_loop-chars zero p [] tail e hs h = unfold address_loop in refl
address_loop-chars zero p (x ∷ s) tail e hs h = absurd (omega arith)
address_loop-chars (suc n) p [] tail e hs h = absurd (omega arith)
address_loop-chars (suc n) p (x ∷ []) tail e hs h = absurd (omega arith)
address_loop-chars (suc n) p (x ∷ y ∷ []) tail e hs h = absurd (omega arith)
address_loop-chars (suc n) p (x ∷ y ∷ z ∷ s) tail e (hx, (hy, (hz, hs))) h =
    let (e', eq) =
      address_loop-group (four n) e (length p) x y z (chars s)
        (p ++ 0 ∷ 0 ∷ 0 ∷ (replicate (three n) 0 ++ tail)) (hx, hy, hz) in
    eq
    ∙ rw (set-append_3 p 0 0 0 (replicate (three n) 0 ++ tail) x y z)
        (next e' (address_loop-chars n (p ++ x ∷ y ∷ z ∷ []) s tail e' hs (omega arith)))
  where
    next :
        (e' : ℕ)
        → address_loop
            (four n)
            (chars s)
            e'
            0
            (length (p ++ x ∷ y ∷ z ∷ []))
            ((p ++ x ∷ y ∷ z ∷ []) ++ (replicate (three n) 0 ++ tail))
          ≡ ((p ++ x ∷ y ∷ z ∷ []) ++ (s ++ tail), none)
        → address_loop
            (four n)
            (chars s)
            e'
            0
            (suc (suc (suc (length p))))
            (p ++ x ∷ y ∷ z ∷ (replicate (three n) 0 ++ tail))
          ≡ (p ++ x ∷ y ∷ z ∷ (s ++ tail), none)
    next e' ih =
        rw
          (
            extend p x y z,
            extended p x y z (replicate (three n) 0 ++ tail),
            extended p x y z (s ++ tail),
          )
          at ih

-- The characters of some bytes are turned back into those bytes, followed by zeros up to 32.
address2hash-chars :
    (s : List ℕ)
    → All IsByte s
    → length s ≡ 24
    → address2hash (chars s) ≡ (s ++ replicate 8 0, none)
unfolding address2hash
address2hash-chars s hs h =
    rw (length-chars 8 s h) (address_loop-chars 8 [] s (replicate 8 0) 0 hs h)

-- A hash of 32 bytes comes back with its last eight bytes cleared.
pub address2hash-hash2address :
    (h : List ℕ)
    → All IsByte h
    → 24 ≤ length h
    → address2hash (hash2address h) ≡ (take 24 h ++ replicate 8 0, none)
address2hash-hash2address h hb long =
    ap address2hash (hash2address-chars h hb long)
    ∙ address2hash-chars (take 24 h) (All-take IsByte 24 h hb) (omega (arith, length-take 24 h))

group : (a b c d : ℕ) → ℕ
group a b c d =
    mime2bits_at a * 262144 + mime2bits_at b * 4096 + mime2bits_at c * 64 + mime2bits_at d

same_char :
    {i j c : ℕ} {k l : List ℕ} → i ≡ j → bits2mime_at j ≡ c → k ≡ l → bits2mime_at i ∷ k ≡ c ∷ l
same_char e f g = ap₂ (λ x m. x ∷ m) (ap bits2mime_at e ∙ f) g

-- Four characters of an address are those of three bytes.
four_chars :
    (a b c d : ℕ)
    → InMime a
    → InMime b
    → InMime c
    → InMime d
    → (x y z : ℕ) × IsByte x
      × IsByte y
      × IsByte z
      × (map bits2mime_at (sextets (bits24 x y z)) ≡ a ∷ b ∷ c ∷ d ∷ [])
four_chars a b c d ha hb hc hd =
    let (la, ea) = bits2mime-mime2bits a ha in
    let (lb, eb) = bits2mime-mime2bits b hb in
    let (lc, ec) = bits2mime-mime2bits c hc in
    let (ld, ed) = bits2mime-mime2bits d hd in
    (
      group a b c d / 65536,
      group a b c d / 256 % 256,
      group a b c d % 256,
      unfold group in omega arith,
      omega arith,
      omega arith,
      same_char {j = mime2bits_at a} (unfold group in omega arith) ea (
          same_char {j = mime2bits_at b} (unfold group in omega arith) eb (
            same_char {j = mime2bits_at c} (unfold group in omega arith) ec
              (same_char {j = mime2bits_at d} (unfold group in omega arith) ed refl))),
    )

chars-onto :
    (n : ℕ) (a : List ℕ)
    → length a ≡ four n
    → All InMime a
    → (s : List ℕ) × (length s ≡ three n) × All IsByte s × (chars s ≡ a)
chars-onto zero [] h ha = ([], refl, tt, refl)
chars-onto zero (c ∷ a) h ha = absurd (omega arith)
chars-onto (suc n) [] h ha = absurd (omega arith)
chars-onto (suc n) (a ∷ []) h ha = absurd (omega arith)
chars-onto (suc n) (a ∷ b ∷ []) h ha = absurd (omega arith)
chars-onto (suc n) (a ∷ b ∷ c ∷ []) h ha = absurd (omega arith)
chars-onto (suc n) (a ∷ b ∷ c ∷ d ∷ rest) h (ha, (hb, (hc, (hd, hr)))) =
    let (x, y, z, hx, hy, hz, e) = four_chars a b c d ha hb hc hd in
    let (s, hs, bytes, es) = chars-onto n rest (omega arith) hr in
    (x ∷ y ∷ z ∷ s, omega arith, (hx, (hy, (hz, bytes))), ap₂ (λ k l. k ++ l) e es)

-- An address of 32 of the 64 characters comes back from the hash that Address2hash makes of it.
pub hash2address-address2hash :
    (a : List ℕ) → length a ≡ 32 → All InMime a → hash2address ((address2hash a).0) ≡ a
hash2address-address2hash a h ha =
    let (s, hs, bytes, e) = chars-onto 8 a h ha in
    rw (sym e, address2hash-chars s bytes hs)
      (hash2address-chars (s ++ replicate 8 0)
          (All-append IsByte s (replicate 8 0) bytes (All-replicate IsByte 8 0 (omega arith)))
          (omega (arith, length-append s (replicate 8 0)))
        ∙ ap chars (take-append 24 s (replicate 8 0) hs))
