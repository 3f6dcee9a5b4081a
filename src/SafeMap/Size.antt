-- ===== src/SafeMap/Size.antt =====
-- What Size counts: the keys that Get finds.
use xmrig2xdag.Common.{ℕ, ◌+◌, ◌≡◌, ◌⊎◌, Option, none, some, [], ◌∷◌, arith, ◌≤◌, ◌<◌}
use xmrig2xdag.GoMap
use xmrig2xdag.GoMap.{GoMap, IsUnique}
use xmrig2xdag.GoMap.Laws.{get-put, size-put, size-delete}
use xmrig2xdag.SafeMap.{
  SafeMap, IsWellFormed, get, set, delete_entry, merge_old, merge_new, del, size, max_deletion,
  copy_threshold,
}
use xmrig2xdag.SafeMap.Lookup.{delete_entry-IsWellFormed}
use xmrig2xdag.SafeMap.Merge.{merge_old-IsWellFormed}

module _ {ℓ} {V : Type ℓ} where
  size-copy_all :
      (src dst : GoMap V)
      → IsUnique src
      → ((k : ℕ) → (GoMap.get k src ≡ none) ⊎ (GoMap.get k dst ≡ none))
      → GoMap.size (GoMap.copy_all src dst) ≡ GoMap.size src + GoMap.size dst
  unfolding GoMap.copy_all GoMap.size GoMap.has GoMap.get
  size-copy_all [] dst u apart = omega arith
  size-copy_all ((k, v) ∷ src) dst u apart =
      let rest =
        size-copy_all src (GoMap.put k v dst) u.1
          (λ j. ground (arith, apart j, u.0, get-put j k v dst)) in
      ground (arith, rest, apart k, size-put k v dst)

  abbrev pub found : Option V → ℕ
  found none = 0
  found (some v) = 1

  size-merge_old : (m : SafeMap V) → IsWellFormed m → size (merge_old m) ≡ size m
  unfolding size merge_old GoMap.size
  size-merge_old m w = ground (arith, size-copy_all m.dirty_old m.dirty_new w.unique_old w.apart)

  size-merge_new : (m : SafeMap V) → IsWellFormed m → size (merge_new m) ≡ size m
  unfolding size merge_new GoMap.size
  size-merge_new m w =
      ground
        (arith, size-copy_all m.dirty_new m.dirty_old w.unique_new (λ k. ground (arith, w.apart k)))

  size-delete_entry : (m : SafeMap V) (k : ℕ) → size (delete_entry m k) + found (get m k) ≡ size m
  unfolding size delete_entry get GoMap.has
  size-delete_entry m k = ground (arith, size-delete k m.dirty_old, size-delete k m.dirty_new)

  -- Set makes the map larger by one if Get did not find the key before, and else keeps its size.
  pub size-set :
      (m : SafeMap V) (k : ℕ) (v : V)
      → IsWellFormed m
      → size (set m k v) + found (get m k) ≡ size m + 1
  unfolding size set get GoMap.has
  size-set m k v w = ground (
    arith,
    w.apart k,
    size-delete k m.dirty_old,
    size-delete k m.dirty_new,
    size-put k v m.dirty_old,
    size-put k v m.dirty_new,
  )

  -- Del makes the map smaller by one if Get found the key before, and else keeps its size.
  pub size-del :
      (m : SafeMap V) (k : ℕ) → IsWellFormed m → size (del m k) + found (get m k) ≡ size m
  unfolding del
  size-del m k w =
      let w' = delete_entry-IsWellFormed m k w in
      omega (
        arith,
        size-merge_new (merge_old (delete_entry m k)) (merge_old-IsWellFormed _ w'),
        size-merge_old (delete_entry m k) w',
        size-delete_entry m k,
      )

  -- Del leaves no worn map behind that is small enough to copy: at its end the new map has fewer
  -- deletions than the limit, or is too large.
  pub del_reclaims :
      (m : SafeMap V) (k : ℕ)
      → ((del m k).deletion_new < max_deletion) ⊎ (copy_threshold ≤ GoMap.size (del m k).dirty_new)
  unfolding del merge_new
  del_reclaims m k = ground arith
