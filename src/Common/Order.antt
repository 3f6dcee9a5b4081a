-- ===== src/Common/Order.antt =====
-- The orders on which the program's loops fall: `<` on numbers, and the length of a list.
use mathlib.Core.WellFounded.{Acc, WellFounded}
use mathlib.Core.List.{List}
use mathlib.Core.Logic.{dite, dif_pos, dif_neg}
use mathlib.Core.Path.{◌≡◌}
use native.Mathlib.Bridge.{le_prop}
use native.Mathlib.Decide.{dec_lt}
use Prim.Native.Nat.{ℕ, zero, suc, ◌<◌}
use native.Mathlib.Omega.{arith}
use xmrig2xdag.Common.Lists.{length}

Acc-below : (k n : ℕ) → n < k → Acc ◌<◌ n
Acc-below zero n h = elim h [ ]
Acc-below (suc k) n h = Acc.intro n (λ m hm. Acc-below k m (omega arith))

unfoldable pub lt_wf : WellFounded ◌<◌
unfolding Acc-below
lt_wf = record { apply = λ n. Acc-below (suc n) n (omega arith) }

module _ {ℓ} {A : Type ℓ} where
  abbrev pub Shorter : List A → List A → Type 0
  Shorter xs ys = length xs < length ys

  Acc-Shorter : (k : ℕ) (xs : List A) → length xs < k → Acc Shorter xs
  Acc-Shorter zero xs h = elim h [ ]
  Acc-Shorter (suc k) xs h = Acc.intro xs (λ ys hy. Acc-Shorter k ys (omega arith))

  unfoldable pub Shorter_wf : WellFounded Shorter
  unfolding Acc-Shorter
  Shorter_wf = record { apply = λ xs. Acc-Shorter (suc (length xs)) xs (omega arith) }

-- A loop `for n > 0` runs its body on a positive number, and ends on 0.
pub dite-pos {ℓ} :
    {C : Type ℓ} (n : ℕ) (h : 0 < n) (body : 0 < n → C) (done : ¬ (0 < n) → C)
    → dite (dec_lt 0 n) body done ≡ body h
dite-pos n h body done = dif_pos (dec_lt 0 n) le_prop h body done

pub dite-zero {ℓ} :
    {C : Type ℓ} (n : ℕ) → n ≡ 0 → (body : 0 < n → C) (c : C) → dite (dec_lt 0 n) body (λ _. c) ≡ c
dite-zero n z body c = dif_neg (dec_lt 0 n) (λ h. omega arith) body (λ _. c)
