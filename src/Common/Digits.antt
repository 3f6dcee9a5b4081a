-- ===== src/Common/Digits.antt =====
-- Digits of a number in a base, lowest first, and the number that digits stand for.
use mathlib.Core.Logic.{dite, dif_pos, ◌⊎◌, inl, inr}
use mathlib.Core.WellFounded
use mathlib.Core.WellFounded.{Acc, Acc-prop}
use Prim.Native.Nat.{ℕ, zero, suc, ◌+◌, ◌*◌, ◌/◌, ◌%◌, ◌^◌, ◌≤◌, ◌<◌}
use mathlib.Core.Path.{◌≡◌, refl, ap, ap₂, ◌∙◌, ◌≡⟨◌⟩◌, ◌∎}
use mathlib.Core.List.{List, [], ◌∷◌, ◌++◌, reverse, reverse-cons, append_assoc}
use native.Mathlib.Nat.{
  pow-suc, pow-zero, div-lt_self, mod-add-div, mod-eq-sub-mul-div, pow-succ', mul-pos, one-le-pow,
  div-lt_iff_lt-mul, mul-le-mul_right, mul-add, add-mul, mul_assoc, mul_comm, mod-lt, mod-eq_of_lt,
  div-eq_of_lt,
}
use native.Mathlib.Nat.{add-mul-mod_self_left, add-mul-div_left, le-mul_of_pos_right}
use native.Mathlib.Omega.{arith}
use native.Mathlib.Decide.{dec_lt}
use native.Mathlib.Bridge.{le_prop}
use xmrig2xdag.Common.Order.{lt_wf}
use xmrig2xdag.Common.Lists.{length}
use xmrig2xdag.Common.Predicates.{All}

-- The number that digits stand for, in base `b`.
abbrev pub value : ℕ → List ℕ → ℕ
value b [] = 0
value b (d ∷ ds) = d + b * value b ds

-- The number that digits stand for, highest first, behind those that make up `acc`.
abbrev pub horner : ℕ → ℕ → List ℕ → ℕ
horner b acc [] = acc
horner b acc (d ∷ ds) = horner b (acc * b + d) ds

pub value-append :
    (b : ℕ) (xs ys : List ℕ) → value b (xs ++ ys) ≡ value b xs + b ^ length xs * value b ys
value-append b [] ys = grind (arith, pow-zero b)
value-append b (x ∷ xs) ys = grind (
  arith,
  value-append b xs ys,
  pow-suc b (length xs),
  mul-add b (value b xs) (b ^ length xs * value b ys),
  mul_assoc b (b ^ length xs) (value b ys),
  mul_comm b (b ^ length xs),
)

-- The digits highest first are those lowest first, turned round.
pub horner-value : (b : ℕ) (ds xs : List ℕ) → horner b (value b ds) xs ≡ value b (reverse xs ++ ds)
horner-value b ds [] = refl
horner-value b ds (x ∷ xs) =
    horner b (value b ds * b + x) xs
    ≡⟨ ap (λ (t : ℕ). horner b t xs) (omega arith) ⟩ horner b (value b (x ∷ ds)) xs
    ≡⟨ horner-value b (x ∷ ds) xs ⟩ value b (reverse xs ++ x ∷ ds)
    ≡⟨ (rw (reverse-cons x xs, append_assoc (reverse xs) (x ∷ []) ds)) ⟩
      value b (reverse (x ∷ xs) ++ ds) ∎

pub horner_acc : (b acc : ℕ) (xs : List ℕ) → horner b acc xs ≡ acc * b ^ length xs + horner b 0 xs
horner_acc b acc [] = grind (arith, pow-zero b)
horner_acc b acc (x ∷ xs) = grind (
  arith,
  horner_acc b (acc * b + x) xs,
  horner_acc b (0 * b + x) xs,
  pow-suc b (length xs),
  mul_comm b (b ^ length xs),
  add-mul (acc * b) x (b ^ length xs),
  mul_assoc acc b (b ^ length xs),
)

pub horner-append :
    (b acc : ℕ) (xs ys : List ℕ) → horner b acc (xs ++ ys) ≡ horner b (horner b acc xs) ys
horner-append b acc [] ys = refl
horner-append b acc (x ∷ xs) ys = horner-append b (acc * b + x) xs ys

room : {b x : ℕ} (acc : ℕ) → x < b → acc * b + x + 1 ≤ (acc + 1) * b
room acc h = omega arith

-- Digits below the base stay below its power.
pub horner-lt :
    (b acc : ℕ) (xs : List ℕ) → All (λ x. x < b) xs → horner b acc xs < (acc + 1) * b ^ length xs
horner-lt b acc [] h = grind (arith, pow-zero b)
horner-lt b acc (x ∷ xs) h = grind (
  arith,
  horner-lt b (acc * b + x) xs h.1,
  pow-suc b (length xs),
  mul-le-mul_right (b ^ length xs) (room acc h.0),
  mul_assoc (acc + 1) b (b ^ length xs),
  mul_comm b (b ^ length xs),
)

pub div_falls : (b : ℕ) → 2 ≤ b → (x : ℕ) → 0 < x → x / b < x
div_falls b two x h = div-lt_self h two

pub zero_or_pos : (x : ℕ) → (x ≡ 0) ⊎ (0 < x)
zero_or_pos x = omega arith

-- For a base of 2 or more. The digits of 0 are none.
module _ (b : ℕ) (two : 2 ≤ b) where
  pub digits_acc : (x : ℕ) → Acc ◌<◌ x → List ℕ
  digits_acc x (Acc.intro _ smaller) =
      dite (dec_lt 0 x) (λ h. x % b ∷ digits_acc (x / b) (smaller (x / b) (div_falls b two x h)))
        (λ _. [])

  unfoldable pub digits : ℕ → List ℕ
  unfolding digits_acc lt_wf dec_lt
  digits x = digits_acc x (lt_wf.apply x)

  digits_acc-pos :
      (x : ℕ) (w : Acc ◌<◌ x) (w' : Acc ◌<◌ (x / b))
      → 0 < x
      → digits_acc x w ≡ x % b ∷ digits_acc (x / b) w'
  unfolding digits_acc
  digits_acc-pos x (Acc.intro _ smaller) w' h =
      rw (dif_pos _ le_prop h) (
        ap (λ w. x % b ∷ digits_acc (x / b) w)
          (Acc-prop (smaller (x / b) (div_falls b two x h)) w'))

  value-digits_acc : (x : ℕ) (w : Acc ◌<◌ x) → value b (digits_acc x w) ≡ x
  unfolding digits_acc
  value-digits_acc x (Acc.intro _ smaller) = grind (
    arith,
    λ (p : 0 < x). value-digits_acc (x / b) (smaller (x / b) (div_falls b two x p)),
    mod-add-div x b,
  )

  pub value-digits : (x : ℕ) → value b (digits x) ≡ x
  unfolding digits
  value-digits x = value-digits_acc x (lt_wf.apply x)

  pub digits-zero : digits 0 ≡ []
  unfolding digits
  digits-zero = refl

  pub digits-pos : (x : ℕ) → 0 < x → digits x ≡ x % b ∷ digits (x / b)
  unfolding digits
  digits-pos x h = digits_acc-pos x (lt_wf.apply x) (lt_wf.apply (x / b)) h

  pub digits-below : (x : ℕ) → All (λ d. d < b) (digits x)
  digits-below x = WellFounded.induction lt_wf {C = λ k. All (λ d. d < b) (digits k)} x λ k ih.
      elim (zero_or_pos k) [
        | inl z ↦ rw (z, digits-zero) tt
        | inr h ↦ rw (digits-pos k h) (mod-lt k (omega arith), ih (k / b) (div_falls b two k h))
      ]

  value_pos : (ds : List ℕ) (c : ℕ) → 0 < c → 0 < value b (ds ++ c ∷ [])
  value_pos [] c h = omega arith
  value_pos (d ∷ ds) c h = omega (arith, le-mul_of_pos_right b (value_pos ds c h))

  put_mod : (d v : ℕ) → d < b → (d + b * v) % b ≡ d
  put_mod d v h = add-mul-mod_self_left d b v ∙ mod-eq_of_lt h

  put_div : (d v : ℕ) → d < b → (d + b * v) / b ≡ v
  put_div d v h = add-mul-div_left d v (omega arith) ∙ rw (div-eq_of_lt h) (omega arith)

  digits-put : (d v : ℕ) → d < b → 0 < d + b * v → digits (d + b * v) ≡ d ∷ digits v
  digits-put d v h pos =
      digits-pos _ pos ∙ ap₂ (λ x y. x ∷ digits y) (put_mod d v h) (put_div d v h)

  -- Digits that end in one which is not 0 are those of their value.
  pub digits-value :
      (ds : List ℕ) (c : ℕ)
      → All (λ d. d < b) ds
      → c < b
      → 0 < c
      → digits (value b (ds ++ c ∷ [])) ≡ ds ++ c ∷ []
  digits-value [] c h hc pos = digits-put c 0 hc (omega arith) ∙ ap (λ ds. c ∷ ds) digits-zero
  digits-value (d ∷ ds) c h hc pos =
      digits-put d (value b (ds ++ c ∷ [])) h.0
        (omega (arith, le-mul_of_pos_right b (value_pos ds c pos), value_pos ds c pos))
      ∙ ap (λ xs. d ∷ xs) (digits-value ds c h.1 hc pos)

  -- The digits of a positive number end in one that is not 0.
  pub digits_top : (x : ℕ) → 0 < x → (ds : List ℕ) × (c : ℕ) × (digits x ≡ ds ++ c ∷ []) × (0 < c)
  digits_top x =
      WellFounded.induction lt_wf
        {C = λ k. 0 < k → (ds : List ℕ) × (c : ℕ) × (digits k ≡ ds ++ c ∷ []) × (0 < c)} x
        λ k ih h. elim (zero_or_pos (k / b)) [
          | inl z ↦ (
            [],
            k % b,
            rw (digits-pos k h, z, digits-zero),
            omega (arith, mod-eq-sub-mul-div k b, mod-add-div k b, ap (λ (t : ℕ). b * t) z),
          )
          | inr p ↦
              let (ds, c, e, pos) = ih (k / b) (div_falls b two k h) p in
              (k % b ∷ ds, c, rw (digits-pos k h, e), pos)
        ]

  -- `k` digits, with zeros at the top end if the number has fewer.
  abbrev pub padded : ℕ → ℕ → List ℕ
  padded zero m = []
  padded (suc k) m = m % b ∷ padded k (m / b)

  -- The digits of a number with at least `k` of them are those of its low part, padded, and those
  -- of its high part.
  pub digits_split :
      (k m q : ℕ) → m < b ^ k → 0 < q → digits (m + b ^ k * q) ≡ padded k m ++ digits q
  digits_split zero m q h pos = ap digits (grind (arith, pow-zero b))
  digits_split (suc k) m q h pos =
      ap digits regroup
      ∙ digits-put (m % b) (m / b + b ^ k * q) (mod-lt m (omega arith))
          (rw (← regroup) (omega (arith, high_pos)))
      ∙ ap (λ ds. m % b ∷ ds) (digits_split k (m / b) q low pos)
    where
      regroup : m + b ^ suc k * q ≡ m % b + b * (m / b + b ^ k * q)
      regroup = omega (
        arith,
        mod-add-div m b,
        mul-add b (m / b) (b ^ k * q),
        mul_assoc b (b ^ k) q,
        ap (λ (t : ℕ). t * q) (pow-succ' b k),
      )

      high_pos : 0 < b ^ suc k * q
      high_pos = mul-pos (one-le-pow (suc k) b (omega arith)) pos

      low : m / b < b ^ k
      low = (div-lt_iff_lt-mul (omega arith)).1 (omega (arith, pow-suc b k))
