-- ===== src/SafeMap.antt =====
-- utils/safemap.go: a map that gives memory back, by moving its entries between two Go maps once one
-- of them has seen many deletions. The lock makes each method one step. Counters are Go ints that
-- only go up by one per call and do not reach 2 ^ 63.
pub mod Merge
pub mod Lookup
pub mod Size
pub mod Total
pub mod Iteration
mod Tests
use xmrig2xdag.Common.{
  ℕ, ◌+◌, ◌≡◌, ◌⊎◌, Bool, true, false, ◌&&◌, Option, none, some, List, [], ◌∷◌, ◌++◌,
}
use xmrig2xdag.Common.{ltb, leb, if◌then◌else◌}
use xmrig2xdag.GoMap.{GoMap, IsUnique}
use xmrig2xdag.GoMap

abbrev pub copy_threshold : ℕ
copy_threshold = 1000

abbrev pub max_deletion : ℕ
max_deletion = 10000

pub record SafeMap {ℓ} (V : Type ℓ) : Type ℓ where
  pub deletion_old : ℕ
  pub deletion_new : ℕ
  pub dirty_old : GoMap V
  pub dirty_new : GoMap V

module _ {ℓ} {V : Type ℓ} where
  -- NewSafeMap
  unfoldable pub new_safe_map : SafeMap V
  new_safe_map = record { deletion_old = 0; deletion_new = 0; dirty_old = []; dirty_new = [] }

  unfoldable pub get : SafeMap V → ℕ → Option V
  get m key = elim (GoMap.get key m.dirty_old) [
    | some val ↦ some val
    | none ↦ GoMap.get key m.dirty_new
  ]

  unfoldable pub set : SafeMap V → ℕ → V → SafeMap V
  set m key value =
      if leb m.deletion_old max_deletion
      then (if GoMap.has key m.dirty_new
          then record m {
            dirty_new = GoMap.delete key m.dirty_new;
            deletion_new = m.deletion_new + 1;
            dirty_old = GoMap.put key value m.dirty_old;
          }
          else record m { dirty_old = GoMap.put key value m.dirty_old })
      else (if GoMap.has key m.dirty_old
          then record m {
            dirty_old = GoMap.delete key m.dirty_old;
            deletion_old = m.deletion_old + 1;
            dirty_new = GoMap.put key value m.dirty_new;
          }
          else record m { dirty_new = GoMap.put key value m.dirty_new })

  -- The first part of Del: the entry goes, from one of the two maps.
  unfoldable pub delete_entry : SafeMap V → ℕ → SafeMap V
  delete_entry m key =
      if GoMap.has key m.dirty_old
      then record m { dirty_old = GoMap.delete key m.dirty_old; deletion_old = m.deletion_old + 1 }
      else (if GoMap.has key m.dirty_new
          then record m {
            dirty_new = GoMap.delete key m.dirty_new;
            deletion_new = m.deletion_new + 1;
          }
          else m)

  -- The second part: a worn old map is copied into the new one, which takes its place.
  unfoldable pub merge_old : SafeMap V → SafeMap V
  merge_old m =
      if leb max_deletion m.deletion_old && ltb (GoMap.size m.dirty_old) copy_threshold
      then record m {
        dirty_old = GoMap.copy_all m.dirty_old m.dirty_new;
        deletion_old = m.deletion_new;
        dirty_new = [];
        deletion_new = 0;
      }
      else m

  -- The third part: a worn new map is copied into the old one.
  unfoldable pub merge_new : SafeMap V → SafeMap V
  merge_new m =
      if leb max_deletion m.deletion_new && ltb (GoMap.size m.dirty_new) copy_threshold
      then record m {
        dirty_old = GoMap.copy_all m.dirty_new m.dirty_old;
        dirty_new = [];
        deletion_new = 0;
      }
      else m

  unfoldable pub del : SafeMap V → ℕ → SafeMap V
  del m key = merge_new (merge_old (delete_entry m key))

  unfoldable pub size : SafeMap V → ℕ
  size m = GoMap.size m.dirty_old + GoMap.size m.dirty_new

  -- One loop of Range, over one of the maps: the result says whether the callback asked to go on.
  unfoldable pub range_over {κ} : {S : Type κ} → (ℕ → V → S → S × Bool) → GoMap V → S → S × Bool
  range_over f [] s = (s, true)
  range_over f ((k, v) ∷ m) s =
      let rest = range_over f m (f k v s).0 in
      elim (f k v s).1 [ true ↦ rest | false ↦ ((f k v s).0, false) ]

  -- The callback `f` acts on a state `s`, since a Go closure may.
  unfoldable pub range {κ} : {S : Type κ} → SafeMap V → (ℕ → V → S → S × Bool) → S → S
  unfolding range_over
  range m f s =
      let first = range_over f m.dirty_old s in
      elim first.1 [ true ↦ (range_over f m.dirty_new first.0).0 | false ↦ first.0 ]

  -- A key stands in one of the two maps at most, and once.
  pub record IsWellFormed (m : SafeMap V) : Type ℓ where
    pub unique_old : IsUnique m.dirty_old
    pub unique_new : IsUnique m.dirty_new
    pub apart : (k : ℕ) → (GoMap.get k m.dirty_old ≡ none) ⊎ (GoMap.get k m.dirty_new ≡ none)
