-- ===== src/Common/Lists.antt =====
-- Lists measured and indexed by native numbers, under the library's names.
use Prim.Native.Nat.{ℕ, zero, suc, ◌+◌, ◌-◌, ◌<◌, ◌≤◌, min}
use mathlib.Core.Path.{◌≡◌, refl, ap}
use mathlib.Core.Logic.{◌≢◌}
use mathlib.Core.List.{List, [], ◌∷◌, ◌++◌, map}
use mathlib.Core.Option.{Option, none, some}
use native.Mathlib.Omega.{arith}

module _ {ℓ} {A : Type ℓ} where
  abbrev pub length : List A → ℕ
  length [] = 0
  length (x ∷ xs) = suc (length xs)

  abbrev pub get_elem? : List A → ℕ → Option A
  get_elem? [] i = none
  get_elem? (x ∷ xs) zero = some x
  get_elem? (x ∷ xs) (suc i) = get_elem? xs i

  -- A write out of bounds changes nothing.
  abbrev pub set : List A → ℕ → A → List A
  set [] i v = []
  set (x ∷ xs) zero v = v ∷ xs
  set (x ∷ xs) (suc i) v = x ∷ set xs i v

  pub length-append : (xs ys : List A) → length (xs ++ ys) ≡ length xs + length ys
  length-append [] ys = omega arith
  length-append (x ∷ xs) ys = omega (arith, length-append xs ys)

module _ {ℓ} {A : Type ℓ} where
  pub length-set : (xs : List A) (i : ℕ) (v : A) → length (set xs i v) ≡ length xs
  length-set [] i v = refl
  length-set (x ∷ xs) zero v = refl
  length-set (x ∷ xs) (suc i) v = ap suc (length-set xs i v)

  pub get_elem?-set_self :
      (xs : List A) (i : ℕ) (v : A) → i < length xs → get_elem? (set xs i v) i ≡ some v
  get_elem?-set_self [] i v h = elim h [ ]
  get_elem?-set_self (x ∷ xs) zero v h = refl
  get_elem?-set_self (x ∷ xs) (suc i) v h = get_elem?-set_self xs i v (omega arith)

  pub get_elem?-set_ne :
      (xs : List A) {i j : ℕ} (v : A) → i ≢ j → get_elem? (set xs i v) j ≡ get_elem? xs j
  get_elem?-set_ne [] v h = refl
  get_elem?-set_ne (x ∷ xs) {i = zero} {j = zero} v h = absurd (h refl)
  get_elem?-set_ne (x ∷ xs) {i = zero} {j = suc j} v h = refl
  get_elem?-set_ne (x ∷ xs) {i = suc i} {j = zero} v h = refl
  get_elem?-set_ne (x ∷ xs) {i = suc i} {j = suc j} v h = get_elem?-set_ne xs v (λ e. h (ap suc e))

module _ {ℓ} {A : Type ℓ} where
  abbrev pub get_or : List A → ℕ → A → A
  get_or [] i d = d
  get_or (x ∷ xs) zero d = x
  get_or (x ∷ xs) (suc i) d = get_or xs i d

  abbrev pub take : ℕ → List A → List A
  take zero xs = []
  take (suc n) [] = []
  take (suc n) (x ∷ xs) = x ∷ take n xs

  abbrev pub drop : ℕ → List A → List A
  drop zero xs = xs
  drop (suc n) [] = []
  drop (suc n) (x ∷ xs) = drop n xs

  abbrev pub replicate : ℕ → A → List A
  replicate zero a = []
  replicate (suc n) a = a ∷ replicate n a

  pub take-append-drop : (n : ℕ) (xs : List A) → take n xs ++ drop n xs ≡ xs
  take-append-drop zero xs = refl
  take-append-drop (suc n) [] = refl
  take-append-drop (suc n) (x ∷ xs) = rw (take-append-drop n xs)

  pub length-take : (n : ℕ) (xs : List A) → length (take n xs) ≡ min n (length xs)
  length-take zero xs = omega arith
  length-take (suc n) [] = omega arith
  length-take (suc n) (x ∷ xs) = omega (arith, length-take n xs)

  pub length-drop : (n : ℕ) (xs : List A) → length (drop n xs) ≡ length xs - n
  length-drop zero xs = omega arith
  length-drop (suc n) [] = omega arith
  length-drop (suc n) (x ∷ xs) = omega (arith, length-drop n xs)

  pub length-replicate : (n : ℕ) (a : A) → length (replicate n a) ≡ n
  length-replicate zero a = refl
  length-replicate (suc n) a = ap suc (length-replicate n a)

  pub length-map {κ} : {B : Type κ} (xs : List A) (f : A → B) → length (map f xs) ≡ length xs
  length-map [] f = refl
  length-map (x ∷ xs) f = ap suc (length-map xs f)

module _ {ℓ} {A : Type ℓ} where
  -- The elements at and behind the end of a prefix.
  pub get_or-append :
      (p : List A) (a : A) (r : List A) (d : A) → get_or (p ++ a ∷ r) (length p) d ≡ a
  get_or-append [] a r d = refl
  get_or-append (x ∷ p) a r d = get_or-append p a r d

  pub get_or-append_1 :
      (p : List A) (a b : A) (r : List A) (d : A) → get_or (p ++ a ∷ b ∷ r) (suc (length p)) d ≡ b
  get_or-append_1 [] a b r d = refl
  get_or-append_1 (x ∷ p) a b r d = get_or-append_1 p a b r d

  pub get_or-append_2 :
      (p : List A) (a b c : A) (r : List A) (d : A)
      → get_or (p ++ a ∷ b ∷ c ∷ r) (suc (suc (length p))) d ≡ c
  get_or-append_2 [] a b c r d = refl
  get_or-append_2 (x ∷ p) a b c r d = get_or-append_2 p a b c r d

  pub set-append :
      (p : List A) (a : A) (r : List A) (v : A) → set (p ++ a ∷ r) (length p) v ≡ p ++ v ∷ r
  set-append [] a r v = refl
  set-append (x ∷ p) a r v = ap (λ l. x ∷ l) (set-append p a r v)

  pub set-append_3 :
      (p : List A) (a b c : A) (r : List A) (x y z : A)
      → set
          (set (set (p ++ a ∷ b ∷ c ∷ r) (length p) x) (suc (length p)) y)
          (suc (suc (length p)))
          z
        ≡ p ++ x ∷ y ∷ z ∷ r
  set-append_3 [] a b c r x y z = refl
  set-append_3 (w ∷ p) a b c r x y z = ap (λ l. w ∷ l) (set-append_3 p a b c r x y z)

module _ {ℓ} {A : Type ℓ} where
  pub take-append : (n : ℕ) (s t : List A) → length s ≡ n → take n (s ++ t) ≡ s
  take-append zero [] t h = refl
  take-append zero (x ∷ s) t h = absurd (omega arith)
  take-append (suc n) [] t h = absurd (omega arith)
  take-append (suc n) (x ∷ s) t h = ap (λ l. x ∷ l) (take-append n s t (omega arith))

  pub drop-append : (n : ℕ) (s t : List A) → length s ≡ n → drop n (s ++ t) ≡ t
  drop-append zero [] t h = refl
  drop-append zero (x ∷ s) t h = absurd (omega arith)
  drop-append (suc n) [] t h = absurd (omega arith)
  drop-append (suc n) (x ∷ s) t h = drop-append n s t (omega arith)

  pub drop_all : (n : ℕ) (xs : List A) → length xs ≤ n → drop n xs ≡ []
  drop_all zero [] h = refl
  drop_all zero (x ∷ xs) h = absurd (omega arith)
  drop_all (suc n) [] h = refl
  drop_all (suc n) (x ∷ xs) h = drop_all n xs (omega arith)

  pub take_all : (n : ℕ) (xs : List A) → length xs ≤ n → take n xs ≡ xs
  take_all zero [] h = refl
  take_all zero (x ∷ xs) h = absurd (omega arith)
  take_all (suc n) [] h = refl
  take_all (suc n) (x ∷ xs) h = ap (λ l. x ∷ l) (take_all n xs (omega arith))

  pub take-append_past :
      (n k : ℕ) (s t : List A) → n ≡ length s + k → take n (s ++ t) ≡ s ++ take k t
  take-append_past n k [] t h = ap (λ m. take m t) (omega arith)
  take-append_past zero k (x ∷ s) t h = absurd (omega arith)
  take-append_past (suc n) k (x ∷ s) t h = ap (λ l. x ∷ l) (take-append_past n k s t (omega arith))

  pub take-append_within : (n : ℕ) (s t : List A) → n ≤ length s → take n (s ++ t) ≡ take n s
  take-append_within zero s t h = refl
  take-append_within (suc n) [] t h = absurd (omega arith)
  take-append_within (suc n) (x ∷ s) t h = ap (λ l. x ∷ l) (take-append_within n s t (omega arith))
