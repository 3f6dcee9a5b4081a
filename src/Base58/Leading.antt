-- ===== src/Base58/Leading.antt =====
-- Zero bytes and '1' characters in front.
use xmrig2xdag.Common.{
  ℕ, zero, suc, ◌≡◌, refl, List, [], ◌∷◌, ◌++◌, replicate, All, ◌==◌, if◌then◌else◌, Bool-cases,
  inl, inr, arith,
}
use xmrig2xdag.Common.Positional.{Starts}
use xmrig2xdag.Base58.{count_front}

-- What stands behind the elements in front that equal `z`.
pub drop_front : ℕ → List ℕ → List ℕ
drop_front z [] = []
drop_front z (c ∷ cs) = if c == z then drop_front z cs else c ∷ cs

pub front-append : (z : ℕ) (cs : List ℕ) → replicate (count_front z cs) z ++ drop_front z cs ≡ cs
unfolding count_front drop_front
front-append z [] = refl
front-append z (c ∷ cs) = ground (arith, front-append z cs)

pub drop_front-Starts : (z : ℕ) (cs : List ℕ) → Starts z (drop_front z cs)
unfolding drop_front
drop_front-Starts z [] = tt
drop_front-Starts z (c ∷ cs) = elim (Bool-cases (c == z)) [
  | inl same ↦ rw same (drop_front-Starts z cs)
  | inr other ↦ rw other (λ e. ground arith)
]

pub drop_front-All : (P : ℕ → Type 0) (z : ℕ) (cs : List ℕ) → All P cs → All P (drop_front z cs)
unfolding drop_front
drop_front-All P z [] h = tt
drop_front-All P z (c ∷ cs) h = elim (Bool-cases (c == z)) [
  | inl same ↦ rw same (drop_front-All P z cs h.1)
  | inr other ↦ rw other h
]

pub count_front-replicate :
    (n z : ℕ) (cs : List ℕ) → Starts z cs → count_front z (replicate n z ++ cs) ≡ n
unfolding count_front
count_front-replicate zero z [] h = refl
count_front-replicate zero z (c ∷ cs) h = ground arith
count_front-replicate (suc n) z cs h = ground (arith, count_front-replicate n z cs h)
