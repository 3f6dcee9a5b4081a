-- ===== src/SafeMap/Tests.antt =====
-- Runs of the map, and the theorems about it at concrete inputs.
use xmrig2xdag.Common.{ℕ, ◌≡◌, refl, List, [], ◌∷◌, some, arith}
use xmrig2xdag.GoMap
use xmrig2xdag.GoMap.{IsUnique}
use xmrig2xdag.SafeMap.{
  SafeMap, IsWellFormed, new_safe_map, get, set, delete_entry, merge_old, merge_new, del,
}
use xmrig2xdag.SafeMap.Lookup.{Change, sets, dels, run, get-run}

abbrev history : List (Change ℕ)
history = sets 1 10 ∷ sets 2 20 ∷ dels 1 ∷ sets 3 30 ∷ []

-- A map that has seen one deletion too many for Set to write to its old side.
abbrev worn : SafeMap ℕ
worn = record {
  deletion_old = 10001;
  deletion_new = 0;
  dirty_old = (1, 10) ∷ (2, 20) ∷ [];
  dirty_new = (3, 30) ∷ [];
}

worn-IsWellFormed : IsWellFormed worn
unfolding GoMap.get
worn-IsWellFormed = record {
  unique_old = (refl, (refl, tt));
  unique_new = (refl, tt);
  apart = λ k. ground arith;
}

set-worn : set worn 1 11 ≡ record worn {
  dirty_old = (2, 20) ∷ [];
  deletion_old = 10002;
  dirty_new = (3, 30) ∷ (1, 11) ∷ [];
}
unfolding set GoMap.has GoMap.delete GoMap.put
set-worn = refl

del-worn : del worn 1 ≡ record {
  deletion_old = 0;
  deletion_new = 0;
  dirty_old = (3, 30) ∷ (2, 20) ∷ [];
  dirty_new = [];
}
unfolding del delete_entry merge_old merge_new GoMap.has GoMap.delete GoMap.size GoMap.copy_all
del-worn = refl

get-run_example : get (run new_safe_map history) 2 ≡ some 20
get-run_example = get-run history 2
