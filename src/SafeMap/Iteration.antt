-- ===== src/SafeMap/Iteration.antt =====
-- What Range visits.
use xmrig2xdag.Common.{
  ℕ, ◌≡◌, refl, ◌⊎◌, List, [], ◌∷◌, ◌++◌, Bool, true, length, length-append, none, arith,
  if◌then◌else◌,
}
use mathlib.Core.List.{append-nil, append_assoc}
use xmrig2xdag.GoMap
use xmrig2xdag.GoMap.{GoMap, IsUnique}
use xmrig2xdag.SafeMap.{SafeMap, IsWellFormed, range_over, range, get, size}

module _ {ℓ} {V : Type ℓ} where
  -- A callback that notes what it is given and always goes on.
  abbrev pub collect : ℕ → V → List (ℕ × V) → List (ℕ × V) × Bool
  collect k v seen = (seen ++ (k, v) ∷ [], true)

  range_over-collect :
      (m : GoMap V) (seen : List (ℕ × V)) → range_over collect m seen ≡ (seen ++ m, true)
  unfolding range_over
  range_over-collect [] seen = rw (append-nil seen)
  range_over-collect ((k, v) ∷ m) seen =
      rw (range_over-collect m (seen ++ (k, v) ∷ []), append_assoc seen ((k, v) ∷ []) m)

  range-collect : (m : SafeMap V) → range m collect [] ≡ m.dirty_old ++ m.dirty_new
  unfolding range
  range-collect m =
      rw (range_over-collect m.dirty_old [], range)
        (rw (range_over-collect m.dirty_old [], range_over-collect m.dirty_new m.dirty_old))

  -- The first match in a list of entries.
  get-append :
      (k : ℕ) (xs ys : GoMap V)
      → GoMap.get k (xs ++ ys) ≡ (if GoMap.has k xs then GoMap.get k xs else GoMap.get k ys)
  unfolding GoMap.get GoMap.has
  get-append k [] ys = refl
  get-append k ((j, v) ∷ xs) ys = ground (arith, get-append k xs ys)

  IsUnique-append :
      (xs ys : GoMap V)
      → IsUnique xs
      → IsUnique ys
      → ((k : ℕ) → (GoMap.get k xs ≡ none) ⊎ (GoMap.get k ys ≡ none))
      → IsUnique (xs ++ ys)
  unfolding GoMap.get GoMap.has
  IsUnique-append [] ys ux uy apart = uy
  IsUnique-append ((k, v) ∷ xs) ys ux uy apart = (
    ground (arith, ux.0, apart k, get-append k xs ys),
    IsUnique-append xs ys ux.1 uy (λ j. ground (arith, ux.0, apart j)),
  )

  -- Range with a callback that never stops visits a list of entries with no key twice, as many as
  -- Size says, in which each key has the value that Get finds.
  pub range_visits :
      (m : SafeMap V)
      → IsWellFormed m
      → IsUnique (range m collect [])
        × (length (range m collect []) ≡ size m)
        × ((k : ℕ) → GoMap.get k (range m collect []) ≡ get m k)
  unfolding size GoMap.size get GoMap.has
  range_visits m w = rw (range-collect m) (
    IsUnique-append m.dirty_old m.dirty_new w.unique_old w.unique_new w.apart,
    length-append m.dirty_old m.dirty_new,
    λ k. ground (arith, get-append k m.dirty_old m.dirty_new),
  )
