-- ===== src/SafeMap/Lookup.antt =====
-- What Get reads after each method of the map, and after any sequence of them.
use xmrig2xdag.Common.{
  ℕ, ◌≡◌, refl, ap, ◌∙◌, Option, none, some, List, [], ◌∷◌, inl, inr, ◌==◌, if◌then◌else◌, arith,
  Bool-cases,
}
use xmrig2xdag.Common.{leb}
use mathlib.Core.Path.{fun_ext}
use xmrig2xdag.GoMap
use xmrig2xdag.GoMap.Laws.{get-put, get-delete, put-IsUnique, delete-IsUnique}
use xmrig2xdag.SafeMap.{
  SafeMap, IsWellFormed, new_safe_map, get, set, delete_entry, del, max_deletion,
}
use xmrig2xdag.SafeMap.Merge.{
  get-merge_old, get-merge_new, merge_old-IsWellFormed, merge_new-IsWellFormed,
}

module _ {ℓ} {V : Type ℓ} where
  pub new_safe_map-IsWellFormed : IsWellFormed (new_safe_map {V = V})
  unfolding new_safe_map GoMap.get
  new_safe_map-IsWellFormed = record { unique_old = tt; unique_new = tt; apart = λ k. inl refl }

  get-delete_entry :
      (m : SafeMap V) (j k : ℕ)
      → IsWellFormed m
      → get (delete_entry m j) k ≡ (if j == k then none else get m k)
  unfolding get delete_entry GoMap.has
  get-delete_entry m j k w = ground (
    arith,
    w.apart j,
    w.apart k,
    get-delete k j m.dirty_old w.unique_old,
    get-delete k j m.dirty_new w.unique_new,
  )

  pub delete_entry-IsWellFormed :
      (m : SafeMap V) (j : ℕ) → IsWellFormed m → IsWellFormed (delete_entry m j)
  unfolding delete_entry
  delete_entry-IsWellFormed m j w = elim (Bool-cases (GoMap.has j m.dirty_old)) [
    | inl old ↦ rw old (record {
      unique_old = delete-IsUnique j m.dirty_old w.unique_old;
      unique_new = w.unique_new;
      apart = λ k. ground (arith, w.apart k, get-delete k j m.dirty_old w.unique_old);
    })
    | inr none_old ↦ rw none_old (elim (Bool-cases (GoMap.has j m.dirty_new)) [
      | inl new ↦ rw new (record {
        unique_old = w.unique_old;
        unique_new = delete-IsUnique j m.dirty_new w.unique_new;
        apart = λ k. ground (arith, w.apart k, get-delete k j m.dirty_new w.unique_new);
      })
      | inr absent ↦ rw absent w
    ])
  ]

  pub set-IsWellFormed : (m : SafeMap V) (j : ℕ) (v : V) → IsWellFormed m → IsWellFormed (set m j v)
  unfolding set
  set-IsWellFormed m j v w = elim (Bool-cases (leb m.deletion_old max_deletion)) [
    | inl to_old ↦ rw to_old (elim (Bool-cases (GoMap.has j m.dirty_new)) [
      | inl h ↦ rw h (record {
        unique_old = put-IsUnique j v m.dirty_old w.unique_old;
        unique_new = delete-IsUnique j m.dirty_new w.unique_new;
        apart = λ k.
            ground (
              arith,
              w.apart k,
              get-put k j v m.dirty_old,
              get-delete k j m.dirty_new w.unique_new,
            );
      })
      | inr h ↦ rw h (record {
        unique_old = put-IsUnique j v m.dirty_old w.unique_old;
        unique_new = w.unique_new;
        apart = λ k. unfold GoMap.has in ground (arith, w.apart k, get-put k j v m.dirty_old);
      })
    ])
    | inr to_new ↦ rw to_new (elim (Bool-cases (GoMap.has j m.dirty_old)) [
      | inl h ↦ rw h (record {
        unique_old = delete-IsUnique j m.dirty_old w.unique_old;
        unique_new = put-IsUnique j v m.dirty_new w.unique_new;
        apart = λ k.
            ground (
              arith,
              w.apart k,
              get-put k j v m.dirty_new,
              get-delete k j m.dirty_old w.unique_old,
            );
      })
      | inr h ↦ rw h (record {
        unique_old = w.unique_old;
        unique_new = put-IsUnique j v m.dirty_new w.unique_new;
        apart = λ k. unfold GoMap.has in ground (arith, w.apart k, get-put k j v m.dirty_new);
      })
    ])
  ]

  pub del-IsWellFormed : (m : SafeMap V) (j : ℕ) → IsWellFormed m → IsWellFormed (del m j)
  unfolding del
  del-IsWellFormed m j w =
      merge_new-IsWellFormed _ (merge_old-IsWellFormed _ (delete_entry-IsWellFormed m j w))

  -- Set stores the value under its key and leaves every other key alone, whichever map it writes to.
  pub get-set :
      (m : SafeMap V) (j k : ℕ) (v : V)
      → IsWellFormed m
      → get (set m j v) k ≡ (if j == k then some v else get m k)
  unfolding get set GoMap.has
  get-set m j k v w = ground (
    arith,
    get-delete k j m.dirty_old w.unique_old,
    get-delete k j m.dirty_new w.unique_new,
    get-put k j v m.dirty_old,
    get-put k j v m.dirty_new,
  )

  -- Del removes the key and leaves every other key alone, on a map that holds no key twice, also when
  -- it moves the entries.
  pub get-del :
      (m : SafeMap V) (j k : ℕ)
      → IsWellFormed m
      → get (del m j) k ≡ (if j == k then none else get m k)
  unfolding del
  get-del m j k w =
      let w' = delete_entry-IsWellFormed m j w in
      get-merge_new _ k (merge_old-IsWellFormed _ w')
      ∙ get-merge_old _ k w'
      ∙ get-delete_entry m j k w

-- What a client calls to change the map.
pub data Change {ℓ} (V : Type ℓ) : Type ℓ where
  sets : ℕ → V → Change V
  dels : ℕ → Change V

module _ {ℓ} {V : Type ℓ} where
  pub change : SafeMap V → Change V → SafeMap V
  change m (sets k v) = set m k v
  change m (dels k) = del m k

  pub run : SafeMap V → List (Change V) → SafeMap V
  run m [] = m
  run m (c ∷ cs) = run (change m c) cs

  -- The contract: a map is a function from keys to values.
  abbrev pub assign : (ℕ → Option V) → Change V → ℕ → Option V
  assign f (sets j v) k = if j == k then some v else f k
  assign f (dels j) k = if j == k then none else f k

  abbrev pub assign_all : (ℕ → Option V) → List (Change V) → ℕ → Option V
  assign_all f [] = f
  assign_all f (c ∷ cs) = assign_all (assign f c) cs

  change-IsWellFormed : (m : SafeMap V) (c : Change V) → IsWellFormed m → IsWellFormed (change m c)
  unfolding change
  change-IsWellFormed m (sets k v) w = set-IsWellFormed m k v w
  change-IsWellFormed m (dels k) w = del-IsWellFormed m k w

  pub run-IsWellFormed :
      (m : SafeMap V) (cs : List (Change V)) → IsWellFormed m → IsWellFormed (run m cs)
  unfolding run
  run-IsWellFormed m [] w = w
  run-IsWellFormed m (c ∷ cs) w = run-IsWellFormed (change m c) cs (change-IsWellFormed m c w)

  get-change : (m : SafeMap V) (c : Change V) → IsWellFormed m → get (change m c) ≡ assign (get m) c
  unfolding change
  get-change m (sets j v) w = fun_ext (λ k. get-set m j k v w)
  get-change m (dels j) w = fun_ext (λ k. get-del m j k w)

  get-run_from :
      (m : SafeMap V) (cs : List (Change V))
      → IsWellFormed m
      → get (run m cs) ≡ assign_all (get m) cs
  unfolding run
  get-run_from m [] w = refl
  get-run_from m (c ∷ cs) w =
      get-run_from (change m c) cs (change-IsWellFormed m c w)
      ∙ ap (λ f. assign_all f cs) (get-change m c w)

  -- After any sequence of Set and Del on a new map, Get reads what the same writes and removals leave
  -- in a function from keys to values: deletion counts and merges cannot be seen.
  pub get-run :
      (cs : List (Change V)) (k : ℕ) → get (run new_safe_map cs) k ≡ assign_all (λ _. none) cs k
  unfolding new_safe_map get GoMap.get
  get-run cs k =
      ap (λ (f : ℕ → Option V). f k) (get-run_from new_safe_map cs new_safe_map-IsWellFormed)
