-- ===== src/Xdag/Address/Errors.antt =====
-- When Address2hash of xdag/block.go returns an error.
use xmrig2xdag.Common.{
  ℕ, zero, suc, ◌+◌, ◌≡◌, refl, sym, ap, ◌∙◌, ◌≤◌, List, [], ◌∷◌, All, ◌≢◌, replicate, none, some,
  ◌↔◌, ◌⊎◌, inl, inr, ◌==◌, leb, if◌then◌else◌, Bool-cases, ==_iff, length, bit_and, arith,
}
use xmrig2xdag.Common.Options.{none-some, some-injective}
use xmrig2xdag.Xdag.Address.{
  mime2bits_at, invalid_address, address_string_error, next_sextet, address_loop, address2hash,
}
use xmrig2xdag.Xdag.Address.Tables.{InMime}

-- How many characters are characters of an address.
abbrev valid : List ℕ → ℕ
valid [] = 0
valid (c ∷ cs) = if bit_and (mime2bits_at c) 0xC0 == 0 then suc (valid cs) else valid cs

-- The inner loop finds one exactly if there is one, and uses up only that one.
next_sextet-valid :
    (cs : List ℕ)
    → ((next_sextet cs ≡ none) × (valid cs ≡ 0))
      ⊎ ((d : ℕ) × (rest : List ℕ) × (next_sextet cs ≡ some (d, rest))
          × (valid cs ≡ suc (valid rest)))
unfolding next_sextet
next_sextet-valid [] = inl (refl, refl)
next_sextet-valid (c ∷ cs) = elim (Bool-cases (bit_and (mime2bits_at c) 0xC0 == 0)) [
  | inl e ↦ inr (mime2bits_at c, cs, rw e refl, rw e refl)
  | inr e ↦ rw e (next_sextet-valid cs)
]

valid_le : (cs : List ℕ) → valid cs ≤ length cs
valid_le [] = omega arith
valid_le (c ∷ cs) = ground (arith, valid_le cs)

valid-All : (cs : List ℕ) → length cs ≤ valid cs → All InMime cs
valid-All [] h = tt
valid-All (c ∷ cs) h = elim (Bool-cases (bit_and (mime2bits_at c) 0xC0 == 0)) [
  | inl e ↦ ((==_iff _ _).0 e, valid-All cs (omega (arith, rw e at h)))
  | inr e ↦ absurd (omega (arith, rw e at h, valid_le cs))
]

All-valid : (cs : List ℕ) → All InMime cs → valid cs ≡ length cs
All-valid [] h = refl
All-valid (c ∷ cs) (hc, hs) = rw hc (ap suc (All-valid cs hs))

suc_iff : {A : Type 0} {i k : ℕ} → A ↔ (i ≤ k) → A ↔ (suc i ≤ suc k)
suc_iff (to, from) = (λ a. omega (arith, to a), λ h. from (omega arith))

address_loop-error :
    (i : ℕ) (cs : List ℕ) (e n j : ℕ) (hash : List ℕ)
    → ((address_loop i cs e n j hash).1 ≡ none) ↔ (i ≤ valid cs)
unfolding address_loop
address_loop-error zero cs e n j hash = (λ h. omega arith, λ h. refl)
address_loop-error (suc i) cs e n j hash = elim (next_sextet-valid cs) [
  | inl (e1, v) ↦ rw (e1, address_loop) (λ h. absurd (none-some (sym h)), λ h. absurd (omega arith))
  | inr (d, rest, e1, v) ↦
      rw (e1, address_loop)
        (elim (Bool-cases (leb 8 (n + 6))) [
          | inl w ↦ rw (w, v) (suc_iff (address_loop-error i rest _ _ _ _))
          | inr w ↦ rw (w, v) (suc_iff (address_loop-error i rest _ _ _ _))
        ])
]

-- The loop has one error only.
address_loop-string :
    (i : ℕ) (cs : List ℕ) (e n j : ℕ) (hash : List ℕ)
    → ((address_loop i cs e n j hash).1 ≡ none)
      ⊎ ((address_loop i cs e n j hash).1 ≡ some address_string_error)
unfolding address_loop
address_loop-string zero cs e n j hash = inl refl
address_loop-string (suc i) cs e n j hash = elim (next_sextet-valid cs) [
  | inl (e1, v) ↦ rw (e1, address_loop) (inr refl)
  | inr (d, rest, e1, v) ↦
      rw (e1, address_loop)
        (elim (Bool-cases (leb 8 (n + 6))) [
          | inl w ↦ rw w (address_loop-string i rest _ _ _ _)
          | inr w ↦ rw w (address_loop-string i rest _ _ _ _)
        ])
]

two_errors : invalid_address ≢ address_string_error
two_errors e = cc

-- Address2hash accepts the 32-character strings of address characters and no others. A string of another
-- length is an invalid address, with a hash of zeros, and one of 32 characters with another character among
-- them is an address string error.
pub address2hash-error :
    (a : List ℕ)
    → (((address2hash a).1 ≡ none) ↔ ((length a ≡ 32) × All InMime a))
      × ((length a ≢ 32) → address2hash a ≡ (replicate 32 0, some invalid_address))
      × (((address2hash a).1 ≡ some address_string_error) ↔ ((length a ≡ 32) × ¬ (All InMime a)))
unfolding address2hash
address2hash-error a = elim (Bool-cases (length a == 32)) [
  | inl e ↦
      let h = (==_iff (length a) 32).0 e in
      let (to, from) = address_loop-error 32 a 0 0 0 (replicate 32 0) in
      let whole : ((address_loop 32 a 0 0 0 (replicate 32 0)).1 ≡ none) → All InMime a =
        λ ok. valid-All a (omega (arith, to ok)) in
      (
        rw e (λ ok. (h, whole ok), λ (_, ha). from (omega (arith, All-valid a ha))),
        λ ne. absurd (ne h),
        rw e (
          λ string.
              (h, λ ha. absurd (none-some (sym (from (omega (arith, All-valid a ha))) ∙ string))),
          λ (_, bad). elim (address_loop-string 32 a 0 0 0 (replicate 32 0)) [
            | inl ok ↦ absurd (bad (whole ok))
            | inr string ↦ string
          ],
        ),
      )
  | inr e ↦ (
    rw e (λ ok. absurd (none-some (sym ok)), λ (h, _). absurd (ground (arith, e, h))),
    λ ne. rw e refl,
    rw e (
      λ string. absurd (two_errors (some-injective string)),
      λ (h, _). absurd (ground (arith, e, h)),
    ),
  )
]
