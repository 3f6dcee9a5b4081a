-- ===== src/SafeMap/Merge.antt =====
-- The two merges of Del change no lookup, and keep the map well formed.
use xmrig2xdag.Common.{ℕ, ◌≡◌, refl, ◌&&◌, inl, inr, ltb, leb, arith, Bool-cases}
use xmrig2xdag.GoMap
use xmrig2xdag.GoMap.{IsUnique}
use xmrig2xdag.GoMap.Laws.{get-copy_all, copy_all-IsUnique}
use xmrig2xdag.SafeMap.{
  SafeMap, IsWellFormed, get, merge_old, merge_new, copy_threshold, max_deletion,
}

module _ {ℓ} {V : Type ℓ} where
  pub get-merge_old : (m : SafeMap V) (k : ℕ) → IsWellFormed m → get (merge_old m) k ≡ get m k
  unfolding get merge_old GoMap.has GoMap.get
  get-merge_old m k w =
      ground (arith, w.apart k, get-copy_all k m.dirty_old m.dirty_new w.unique_old)

  pub get-merge_new : (m : SafeMap V) (k : ℕ) → IsWellFormed m → get (merge_new m) k ≡ get m k
  unfolding get merge_new GoMap.has GoMap.get
  get-merge_new m k w =
      ground (arith, w.apart k, get-copy_all k m.dirty_new m.dirty_old w.unique_new)

  pub merge_old-IsWellFormed : (m : SafeMap V) → IsWellFormed m → IsWellFormed (merge_old m)
  unfolding merge_old GoMap.get
  merge_old-IsWellFormed m w =
      elim (Bool-cases
        (leb max_deletion m.deletion_old && ltb (GoMap.size m.dirty_old) copy_threshold)) [
          | inl worn ↦ rw worn (record {
            unique_old = copy_all-IsUnique m.dirty_old m.dirty_new w.unique_new;
            unique_new = tt;
            apart = λ k. inr refl;
          })
          | inr fresh ↦ rw fresh w
        ]

  pub merge_new-IsWellFormed : (m : SafeMap V) → IsWellFormed m → IsWellFormed (merge_new m)
  unfolding merge_new GoMap.get
  merge_new-IsWellFormed m w =
      elim (Bool-cases
        (leb max_deletion m.deletion_new && ltb (GoMap.size m.dirty_new) copy_threshold)) [
          | inl worn ↦ rw worn (record {
            unique_old = copy_all-IsUnique m.dirty_new m.dirty_old w.unique_old;
            unique_new = tt;
            apart = λ k. inr refl;
          })
          | inr fresh ↦ rw fresh w
        ]
