-- ===== src/GoMap/Laws.antt =====
-- The laws of Go's map: what a write, a deletion and a copy leave to be read, and the number of keys.
use xmrig2xdag.Common.{
  ℕ, ◌+◌, ◌≡◌, refl, none, some, [], ◌∷◌, ◌==◌, if◌then◌else◌, arith, Bool-cases, inl, inr,
}
use xmrig2xdag.GoMap.{GoMap, get, put, delete, has, size, copy_all, IsUnique}

module _ {ℓ} {V : Type ℓ} where
  pub get-put :
      (j k : ℕ) (v : V) (m : GoMap V) → get j (put k v m) ≡ (if k == j then some v else get j m)
  unfolding get put
  get-put j k v [] = refl
  get-put j k v ((i, w) ∷ m) = ground (arith, get-put j k v m)

  pub get-delete :
      (j k : ℕ) (m : GoMap V) → IsUnique m → get j (delete k m) ≡ (if k == j then none else get j m)
  unfolding get delete
  get-delete j k [] u = ground arith
  get-delete j k ((i, w) ∷ m) u = ground (arith, get-delete j k m u.1)

  pub put-IsUnique : (k : ℕ) (v : V) (m : GoMap V) → IsUnique m → IsUnique (put k v m)
  unfolding get put
  put-IsUnique k v [] u = (refl, tt)
  put-IsUnique k v ((i, w) ∷ m) u = elim (Bool-cases (i == k)) [
    | inl same ↦ rw same (ground (arith, u.0), u.1)
    | inr other ↦ rw other (ground (arith, u.0, get-put i k v m), put-IsUnique k v m u.1)
  ]

  pub delete-IsUnique : (k : ℕ) (m : GoMap V) → IsUnique m → IsUnique (delete k m)
  unfolding get delete
  delete-IsUnique k [] u = tt
  delete-IsUnique k ((i, w) ∷ m) u = elim (Bool-cases (i == k)) [
    | inl same ↦ rw same u.1
    | inr other ↦ rw other (ground (arith, u.0, get-delete i k m u.1), delete-IsUnique k m u.1)
  ]

  pub copy_all-IsUnique : (src dst : GoMap V) → IsUnique dst → IsUnique (copy_all src dst)
  unfolding copy_all
  copy_all-IsUnique [] dst u = u
  copy_all-IsUnique ((k, v) ∷ src) dst u =
      copy_all-IsUnique src (put k v dst) (put-IsUnique k v dst u)

  -- What is copied comes first.
  pub get-copy_all :
      (j : ℕ) (src dst : GoMap V)
      → IsUnique src
      → get j (copy_all src dst) ≡ (if has j src then get j src else get j dst)
  unfolding copy_all get has
  get-copy_all j [] dst u = refl
  get-copy_all j ((k, v) ∷ src) dst u =
      ground (arith, get-copy_all j src (put k v dst) u.1, get-put j k v dst)

  pub size-put :
      (k : ℕ) (v : V) (m : GoMap V) → size (put k v m) ≡ (if has k m then size m else size m + 1)
  unfolding put has size get
  size-put k v [] = ground arith
  size-put k v ((i, w) ∷ m) = ground (arith, size-put k v m)

  pub size-delete :
      (k : ℕ) (m : GoMap V)
      → size m ≡ (if has k m then size (delete k m) + 1 else size (delete k m))
  unfolding delete has size get
  size-delete k [] = ground arith
  size-delete k ((i, w) ∷ m) = ground (arith, size-delete k m)
