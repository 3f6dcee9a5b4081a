-- ===== src/Common/Positional.antt =====
-- Numbers written highest digit first: zeros in front, and when a text is the shortest for its number.
use xmrig2xdag.Common.Lists.{replicate}
use xmrig2xdag.Common.Predicates.{All, All-reverse}
use xmrig2xdag.Common.Digits.{
  value, horner, horner-value, digits, value-digits, digits-value, digits_top, digits-zero,
  zero_or_pos,
}
use Prim.Native.Nat.{ℕ, zero, suc, ◌≤◌, ◌<◌}
use mathlib.Core.Path.{◌≡◌, refl, sym, ap, ◌∙◌}
use mathlib.Core.Logic.{◌≢◌, inl, inr}
use mathlib.Core.List.{
  List, [], ◌∷◌, ◌++◌, reverse, reverse-cons, reverse-append, reverse-reverse, append-nil,
}
use native.Mathlib.Omega.{arith}

-- A list that does not begin with `z`.
abbrev pub Starts : ℕ → List ℕ → Type 0
Starts z [] = Unit
Starts z (c ∷ cs) = c ≢ z

pub horner-zeros : (b n : ℕ) (cs : List ℕ) → horner b 0 (replicate n 0 ++ cs) ≡ horner b 0 cs
horner-zeros b zero cs = refl
horner-zeros b (suc n) cs =
    ap (λ (t : ℕ). horner b t (replicate n 0 ++ cs)) (omega arith) ∙ horner-zeros b n cs

module _ (b : ℕ) (two : 2 ≤ b) where
  pub horner-digits : (x : ℕ) → horner b 0 (reverse (digits b two x)) ≡ x
  horner-digits x =
      horner-value b [] (reverse (digits b two x))
      ∙ rw (reverse-reverse, append-nil) (value-digits b two x)

  pub digits-horner :
      (cs : List ℕ)
      → All (λ c. c < b) cs
      → Starts 0 cs
      → reverse (digits b two (horner b 0 cs)) ≡ cs
  digits-horner [] h s = rw (digits-zero b two)
  digits-horner (c ∷ cs) h s =
      ap (λ (t : ℕ). reverse (digits b two t)) as_value
      ∙ rw (digits-value b two (reverse cs) c (All-reverse _ cs h.1) h.0 (omega arith))
          (sym (ap reverse (reverse-cons c cs)) ∙ reverse-reverse (c ∷ cs))
    where
      as_value : horner b 0 (c ∷ cs) ≡ value b (reverse cs ++ c ∷ [])
      as_value = horner-value b [] (c ∷ cs) ∙ rw (append-nil, reverse-cons c cs)

  pub digits-Starts : (x : ℕ) → Starts 0 (reverse (digits b two x))
  digits-Starts x = elim (zero_or_pos x) [
    | inl z ↦ rw (z, digits-zero b two) tt
    | inr h ↦
        let (ds, c, e, pos) = digits_top b two x h in
        rw (e, reverse-append ds (c ∷ [])) (λ z. omega arith)
  ]
