-- ===== src/GoMap.antt =====
-- Go's built-in map with uint64 keys, which utils/safemap.go is built on: an association list with
-- each key at most once. The language leaves the order of iteration open; here it is the list's.
pub mod Laws
use xmrig2xdag.Common.{ℕ, suc, ◌≡◌, Bool, true, false, Option, none, some, List, [], ◌∷◌, ◌==◌}
use xmrig2xdag.Common.{if◌then◌else◌, length}

abbrev pub GoMap {ℓ} : Type ℓ → Type ℓ
GoMap V = List (ℕ × V)

module _ {ℓ} {V : Type ℓ} where
  -- `v, ok := m[k]`
  unfoldable pub get : ℕ → GoMap V → Option V
  get k [] = none
  get k ((j, v) ∷ m) = if j == k then some v else get k m

  -- `m[k] = v`
  unfoldable pub put : ℕ → V → GoMap V → GoMap V
  put k v [] = (k, v) ∷ []
  put k v ((j, w) ∷ m) = if j == k then (k, v) ∷ m else (j, w) ∷ put k v m

  -- `delete(m, k)`
  unfoldable pub delete : ℕ → GoMap V → GoMap V
  delete k [] = []
  delete k ((j, w) ∷ m) = if j == k then m else (j, w) ∷ delete k m

  unfoldable pub has : ℕ → GoMap V → Bool
  unfolding get
  has k m = elim (get k m) [ none ↦ false | some v ↦ true ]

  unfoldable pub size : GoMap V → ℕ
  size m = length m

  -- `for k, v := range src { dst[k] = v }`
  unfoldable pub copy_all : GoMap V → GoMap V → GoMap V
  unfolding put
  copy_all [] dst = dst
  copy_all ((k, v) ∷ src) dst = copy_all src (put k v dst)

  -- No key twice.
  abbrev pub IsUnique : GoMap V → Type ℓ
  unfolding get
  IsUnique [] = Unit
  IsUnique ((k, v) ∷ m) = (get k m ≡ none) × IsUnique m
