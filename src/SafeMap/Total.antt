-- ===== src/SafeMap/Total.antt =====
-- The sum of a weight over the values of a map of utils/safemap.go.
use xmrig2xdag.Common.{ℕ, ◌+◌, ◌≡◌, [], ◌∷◌, Option, none, some, ◌⊎◌, arith}
use xmrig2xdag.GoMap
use xmrig2xdag.GoMap.{GoMap, IsUnique}
use xmrig2xdag.GoMap.Laws.{get-put}
use xmrig2xdag.SafeMap.{SafeMap, IsWellFormed, delete_entry, merge_old, merge_new, del, get}
use xmrig2xdag.SafeMap.Lookup.{delete_entry-IsWellFormed}
use xmrig2xdag.SafeMap.Merge.{merge_old-IsWellFormed}

module _ {ℓ} {V : Type ℓ} (weight : V → ℕ) where
  abbrev pub entries_total : GoMap V → ℕ
  entries_total [] = 0
  entries_total ((k, v) ∷ m) = weight v + entries_total m

  abbrev pub weight_of : Option V → ℕ
  weight_of none = 0
  weight_of (some v) = weight v

  abbrev pub total : SafeMap V → ℕ
  total m = entries_total m.dirty_old + entries_total m.dirty_new

  entries_total-put :
      (k : ℕ) (v : V) (m : GoMap V)
      → entries_total (GoMap.put k v m) + weight_of (GoMap.get k m) ≡ entries_total m + weight v
  unfolding GoMap.put GoMap.get
  entries_total-put k v [] = omega arith
  entries_total-put k v ((i, w) ∷ m) = ground (arith, entries_total-put k v m)

  entries_total-delete :
      (k : ℕ) (m : GoMap V)
      → entries_total (GoMap.delete k m) + weight_of (GoMap.get k m) ≡ entries_total m
  unfolding GoMap.delete GoMap.get
  entries_total-delete k [] = omega arith
  entries_total-delete k ((i, w) ∷ m) = ground (arith, entries_total-delete k m)

  entries_total-copy_all :
      (src dst : GoMap V)
      → IsUnique src
      → ((k : ℕ) → (GoMap.get k src ≡ none) ⊎ (GoMap.get k dst ≡ none))
      → entries_total (GoMap.copy_all src dst) ≡ entries_total src + entries_total dst
  unfolding GoMap.copy_all GoMap.get GoMap.has
  entries_total-copy_all [] dst u apart = omega arith
  entries_total-copy_all ((k, v) ∷ src) dst u apart =
      let rest =
        entries_total-copy_all src (GoMap.put k v dst) u.1
          (λ j. ground (arith, apart j, u.0, get-put j k v dst)) in
      ground (arith, rest, apart k, entries_total-put k v dst)

  total-delete_entry :
      (m : SafeMap V) (k : ℕ) → total (delete_entry m k) + weight_of (get m k) ≡ total m
  unfolding delete_entry get GoMap.has
  total-delete_entry m k =
      ground (arith, entries_total-delete k m.dirty_old, entries_total-delete k m.dirty_new)

  total-merge_old : (m : SafeMap V) → IsWellFormed m → total (merge_old m) ≡ total m
  unfolding merge_old
  total-merge_old m w =
      ground (arith, entries_total-copy_all m.dirty_old m.dirty_new w.unique_old w.apart)

  total-merge_new : (m : SafeMap V) → IsWellFormed m → total (merge_new m) ≡ total m
  unfolding merge_new
  total-merge_new m w = ground (
    arith,
    entries_total-copy_all m.dirty_new m.dirty_old w.unique_new (λ k. ground (arith, w.apart k)),
  )

  -- Del takes the weight of the key's value off the total.
  pub total-del :
      (m : SafeMap V) (k : ℕ) → IsWellFormed m → total (del m k) + weight_of (get m k) ≡ total m
  unfolding del
  total-del m k w =
      let w' = delete_entry-IsWellFormed m k w in
      omega (
        arith,
        total-merge_new (merge_old (delete_entry m k)) (merge_old-IsWellFormed _ w'),
        total-merge_old (delete_entry m k) w',
        total-delete_entry m k,
      )
