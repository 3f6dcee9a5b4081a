-- ===== src/Base58/Swaps.antt =====
-- The swap loop of Encode reverses.
use xmrig2xdag.Common.{
  ℕ, zero, suc, ◌-◌, ◌/◌, ◌≡◌, refl, ap, sym, ◌∙◌, List, [], ◌∷◌, ◌++◌, reverse, length,
  length-append, get_or-append, set-append, get_or, set, arith,
}
use mathlib.Core.Path.{◌≡⟨◌⟩◌, ◌∎}
use native.Mathlib.Numerals.{add-one}
use mathlib.Core.List.{append-nil, append_assoc, reverse-cons, reverse-append}
use xmrig2xdag.Base58.{swap_ends, swap_loop}

module _ (p : List ℕ) (a : ℕ) (mid : List ℕ) (b : ℕ) (s : List ℕ) (even : length p ≡ length s) where
  -- The list with its second place marked.
  regroup : (c : ℕ) → p ++ c ∷ (mid ++ b ∷ s) ≡ (p ++ c ∷ mid) ++ b ∷ s
  regroup c = sym (append_assoc p (c ∷ mid) (b ∷ s))

  last_place : (c : ℕ) → length (p ++ a ∷ (mid ++ b ∷ s)) - 1 - length p ≡ length (p ++ c ∷ mid)
  last_place c = omega (
    arith,
    length-append p (a ∷ (mid ++ b ∷ s)),
    length-append mid (b ∷ s),
    length-append p (c ∷ mid),
  )

  get_or-last :
      get_or (p ++ a ∷ (mid ++ b ∷ s)) (length (p ++ a ∷ (mid ++ b ∷ s)) - 1 - length p) 0 ≡ b
  get_or-last = rw (last_place a, regroup a) (get_or-append (p ++ a ∷ mid) b s 0)

  set-last :
      set (p ++ b ∷ (mid ++ b ∷ s)) (length (p ++ a ∷ (mid ++ b ∷ s)) - 1 - length p) a
      ≡ p ++ b ∷ (mid ++ a ∷ s)
  set-last =
      rw (last_place b, regroup b)
        (set-append (p ++ b ∷ mid) b s a ∙ append_assoc p (b ∷ mid) (a ∷ s))

  pub swap_ends_lem : swap_ends (length p) (p ++ a ∷ (mid ++ b ∷ s)) ≡ p ++ b ∷ (mid ++ a ∷ s)
  unfolding swap_ends
  swap_ends_lem =
      rw (get_or-last, get_or-append p a (mid ++ b ∷ s) 0, set-append p a (mid ++ b ∷ s) b) set-last

snoc : (x : ℕ) (xs : List ℕ) → (init : List ℕ) × (last : ℕ) × (x ∷ xs ≡ init ++ last ∷ [])
snoc x [] = ([], x, refl)
snoc x (y ∷ ys) = let (init, last, e) = snoc y ys in (x ∷ init, last, ap (λ l. x ∷ l) e)

reverse_ends :
    (a : ℕ) (mid : List ℕ) (b : ℕ) (s : List ℕ)
    → reverse (a ∷ (mid ++ b ∷ [])) ++ s ≡ b ∷ (reverse mid ++ a ∷ s)
reverse_ends a mid b s =
    rw (reverse-cons a (mid ++ b ∷ []), reverse-append mid (b ∷ []), append_assoc)

-- One round, on a middle part whose ends are `a` and `b`.
swap_round :
    (k : ℕ) (p : List ℕ) (a : ℕ) (mid : List ℕ) (b : ℕ) (s rest : List ℕ)
    → length p ≡ length s
    → rest ≡ mid ++ b ∷ []
    → swap_loop k (length (p ++ b ∷ [])) ((p ++ b ∷ []) ++ (mid ++ a ∷ s))
      ≡ (p ++ b ∷ []) ++ (reverse mid ++ a ∷ s)
    → swap_loop (suc k) (length p) (p ++ ((a ∷ rest) ++ s)) ≡ p ++ (reverse (a ∷ rest) ++ s)
unfolding swap_loop
swap_round k p a mid b s rest even e ih =
    swap_loop k (suc (length p)) (swap_ends (length p) (p ++ a ∷ (rest ++ s)))
    ≡⟨ (rw (e, append_assoc mid (b ∷ []) s, swap_ends_lem p a mid b s even)) ⟩
      swap_loop k (suc (length p)) (p ++ b ∷ (mid ++ a ∷ s))
    ≡⟨ (rw (append_assoc p (b ∷ []) (mid ++ a ∷ s), length-append p (b ∷ []), add-one) at ih) ⟩
      (p ++ b ∷ []) ++ (reverse mid ++ a ∷ s)
    ≡⟨ append_assoc p (b ∷ []) (reverse mid ++ a ∷ s) ⟩ p ++ (b ∷ (reverse mid ++ a ∷ s))
    ≡⟨ (rw e (ap (λ l. p ++ l) (sym (reverse_ends a mid b s)))) ⟩ p ++ (reverse (a ∷ rest) ++ s) ∎

swap_loop-middle :
    (k : ℕ) (p mid s : List ℕ)
    → length p ≡ length s
    → length mid / 2 ≡ k
    → swap_loop k (length p) (p ++ (mid ++ s)) ≡ p ++ (reverse mid ++ s)
unfolding swap_loop
swap_loop-middle zero p [] s even half = refl
swap_loop-middle zero p (a ∷ []) s even half = refl
swap_loop-middle zero p (a ∷ b ∷ mid) s even half = absurd (omega arith)
swap_loop-middle (suc k) p [] s even half = absurd (omega arith)
swap_loop-middle (suc k) p (a ∷ []) s even half = absurd (omega arith)
swap_loop-middle (suc k) p (a ∷ x ∷ xs) s even half =
    let (init, last, e) = snoc x xs in
    swap_round k p a init last s (x ∷ xs) even e (
      swap_loop-middle k (p ++ last ∷ []) init (a ∷ s) (omega (arith, length-append p (last ∷ [])))
        (omega (arith, ap length e, length-append init (last ∷ []))))

-- With half as many rounds as elements the list is turned round.
pub swap_loop-reverse : (xs : List ℕ) → swap_loop (length xs / 2) 0 xs ≡ reverse xs
swap_loop-reverse xs =
    ap (swap_loop (length xs / 2) 0) (sym (append-nil xs))
    ∙ swap_loop-middle (length xs / 2) [] xs [] refl refl
    ∙ append-nil (reverse xs)
