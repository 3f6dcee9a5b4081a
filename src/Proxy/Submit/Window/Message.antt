-- ===== src/Proxy/Submit/Window/Message.antt =====
-- The message of proxy/proxy.go that ends four seconds of shares.
use xmrig2xdag.Common.{
  ℕ, ◌-◌, ◌≡◌, ◌≤◌, ◌<◌, refl, sym, ap, ◌∙◌, List, [], ◌∷◌, ◌++◌, All, map, some, true, false, ◌⊎◌,
  inl, inr, Bool-cases, ltb, leb, arith,
}
use xmrig2xdag.Common.Options.{>>=-eq-some, some-injective}
use xmrig2xdag.Proxy.Share.{Share}
use xmrig2xdag.Proxy.State.{Proxy, Event, send_buff_msg, max_uint64}
use xmrig2xdag.Proxy.Target.{Retarget, make_share}
use xmrig2xdag.Proxy.Submit.{handle_submit, with_header, send_interval, validate_share}
use xmrig2xdag.Proxy.Submit.Window.Spacing.{Request, submit_all}
use xmrig2xdag.Proxy.Submit.Window.Best.{
  IsOpen, IsGood, better, keeping, nonce_number, handle_submit-early, handle_submit-late,
}

-- A request with the value of its share.
abbrev pub Valued : Type 0
Valued = Request × ℕ

abbrev pub score : Valued → ℕ × ℕ
score ((t, later, s), v) = (v, nonce_number s)

-- The request has a good share, and comes within four seconds of the last message, or after them.
abbrev pub IsEarly : ℕ → Proxy → Valued → Type 0
IsEarly level p ((t, later, s), v) =
    IsGood level p s v × (leb send_interval (t - p.last_send) ≡ false)

abbrev pub IsLate : ℕ → Proxy → Valued → Type 0
IsLate level p ((t, later, s), v) =
    IsGood level p s v × (leb send_interval (t - p.last_send) ≡ true)

abbrev pub best : ℕ × ℕ → List (ℕ × ℕ) → ℕ × ℕ
best b [] = b
best b (x ∷ xs) = best (better b x) xs

best-least :
    (b : ℕ × ℕ) (xs : List (ℕ × ℕ))
    → ((best b xs).0 ≤ b.0) × All (λ (x : ℕ × ℕ). (best b xs).0 ≤ x.0) xs
best-least b [] = (omega arith, tt)
best-least (v, n) ((w, m) ∷ xs) =
    let (h, k) = best-least (better (v, n) (w, m)) xs in
    let (hv, hw) = both in (omega (arith, h, hv), (omega (arith, h, hw), k))
  where
    both : ((better (v, n) (w, m)).0 ≤ v) × ((better (v, n) (w, m)).0 ≤ w)
    both = ground arith

-- It is one of the shares, or the one before them.
best-member :
    (b : ℕ × ℕ) (xs : List (ℕ × ℕ))
    → (best b xs ≡ b)
      ⊎ ((before : List (ℕ × ℕ)) × (after : List (ℕ × ℕ)) × (xs ≡ before ++ best b xs ∷ after))
best-member b [] = inl refl
best-member (v, n) ((w, m) ∷ xs) = elim (best-member (better (v, n) (w, m)) xs) [
  | inr (before, after, e) ↦ inr ((w, m) ∷ before, after, ap (λ l. (w, m) ∷ l) e)
  | inl e ↦ elim (Bool-cases (ltb w v)) [
    | inl less ↦ inr ([], xs, ap (λ x. x ∷ xs) (sym (e ∙ rw less refl)))
    | inr more ↦ inl (e ∙ rw more refl)
  ]
]

-- Good requests stay good when the proxy keeps a share and counts it.
keeping-IsEarly :
    (level : ℕ) (p : Proxy) (b : ℕ × ℕ) (a c d : ℕ) (g : List ℕ) (xs : List Valued)
    → All (IsEarly level p) xs
    → All
        (IsEarly level
          (record (keeping p b) { shares = a; target = g; target_since = c; target_share = d }))
        xs
unfolding validate_share
keeping-IsEarly level p b a c d g [] h = tt
keeping-IsEarly level p b a c d g (x ∷ xs) (h, hs) = (h, keeping-IsEarly level p b a c d g xs hs)

-- The message of a window, and what it is made of.
abbrev pub Sends : Proxy → ℕ → ℕ → List (ℕ × Event) → Type 0
Sends p t nonce sent =
    (bytes : List ℕ) × (make_share 0 nonce p ≡ some bytes)
    × (sent ≡ (t, send_buff_msg (with_header bytes)) ∷ [])

window-Sends :
    (level : ℕ) (retarget : Retarget) (early : List Valued) (t later : ℕ) (s : Share) (v : ℕ)
    (p q : Proxy) (sent : List (ℕ × Event))
    → IsOpen p
    → All (IsEarly level p) early
    → IsLate level p ((t, later, s), v)
    → submit_all level retarget (map (λ (x : Valued). x.0) early ++ (t, later, s) ∷ []) p
      ≡ some (q, sent)
    → Sends p t
        ((best (p.mini_result, p.mini_nonce) (map score early ++ (v, nonce_number s) ∷ [])).1)
        sent
unfolding make_share validate_share
window-Sends level retarget [] t later s v p q sent alive _ (good, late) e =
    let (r, step, rest) = >>=-eq-some (handle_submit level retarget t later s p) _ e in
    let (bytes, made, one) =
      handle_submit-late level retarget t later s p (r.0) v (r.1) (r.2) alive good late step in
    (
      bytes,
      made,
      ap (λ x. x.1) (sym (some-injective rest)) ∙ ap (λ l. map (λ (x : Event). (t, x)) l ++ []) one,
    )
window-Sends level retarget (((t1, l1, s1), v1) ∷ early) t later s v p q sent alive
      ((good1, soon), soons) last e =
    let (r, step, rest) = >>=-eq-some (handle_submit level retarget t1 l1 s1 p) _ e in
    let (nothing, (a, g, c, d, same)) =
      handle_submit-early level retarget t1 l1 s1 p (r.0) v1 (r.1) (r.2) alive good1 soon step in
    let b = better (p.mini_result, p.mini_nonce) (v1, nonce_number s1) in
    let p1 = record (keeping p b) { shares = a; target = g; target_since = c; target_share = d } in
    let (more, others, pair) =
      >>=-eq-some
        (submit_all level retarget (map (λ (x : Valued). x.0) early ++ (t, later, s) ∷ []) (r.0)) _
        rest in
    let (bytes, made, one) =
      window-Sends level retarget early t later s v p1 (more.0) (more.1) alive
        (keeping-IsEarly level p b a c d g early soons) last (rw same at others) in
    (
      bytes,
      made,
      ap (λ x. x.1) (sym (some-injective pair))
          ∙ ap (λ l. map (λ (x : Event). (t1, x)) l ++ more.1) nothing
          ∙ one,
    )

least-lt :
    {b m : ℕ} (xs : List (ℕ × ℕ)) (x : ℕ × ℕ)
    → All (λ (y : ℕ × ℕ). b ≤ y.0) (xs ++ x ∷ [])
    → All (λ (y : ℕ × ℕ). y.0 < m) (xs ++ x ∷ [])
    → b < m
least-lt [] x (h, _) (k, _) = omega (arith, h, k)
least-lt (y ∷ ys) x (h, _) (k, _) = omega (arith, h, k)

abbrev pub scores : List Valued → Valued → List (ℕ × ℕ)
scores early last = map score early ++ score last ∷ []

-- After a message, good shares come within four seconds, then one after them, all with values below the
-- greatest number of 64 bits. If none of the calls panics, exactly one message is sent, at the time of the
-- last share. It carries the nonce of one of the shares, and the value of that share is the least of all.
pub submit_all-best :
    (level : ℕ) (retarget : Retarget) (early : List Valued) (last : Valued) (p q : Proxy)
    (sent : List (ℕ × Event))
    → IsOpen p
    → p.mini_result ≡ max_uint64
    → All (IsEarly level p) early
    → IsLate level p last
    → All (λ (x : ℕ × ℕ). x.0 < max_uint64) (scores early last)
    → submit_all level retarget (map (λ (x : Valued). x.0) early ++ last.0 ∷ []) p ≡ some (q, sent)
    → (v : ℕ) × (n : ℕ) × ((before : List (ℕ × ℕ)) × (after : List (ℕ × ℕ)) × (scores early last
          ≡ before ++ (v, n) ∷ after))
      × All (λ (x : ℕ × ℕ). v ≤ x.0) (scores early last)
      × Sends p (last.0.0) n sent
submit_all-best level retarget early ((t, later, s), v) p q sent alive start soons late below e =
    let b = best (p.mini_result, p.mini_nonce) (scores early ((t, later, s), v)) in
    let (_, least) = best-least (p.mini_result, p.mini_nonce) (scores early ((t, later, s), v)) in
    (
      b.0,
      b.1,
      member (best-member (p.mini_result, p.mini_nonce) (scores early ((t, later, s), v))),
      least,
      window-Sends level retarget early t later s v p q sent alive soons late e,
    )
  where
    all : List (ℕ × ℕ)
    all = scores early ((t, later, s), v)

    member :
        ((best (p.mini_result, p.mini_nonce) all ≡ (p.mini_result, p.mini_nonce))
          ⊎ ((before : List (ℕ × ℕ)) × (after : List (ℕ × ℕ)) × (all
                ≡ before ++ best (p.mini_result, p.mini_nonce) all ∷ after)))
        → (before : List (ℕ × ℕ)) × (after : List (ℕ × ℕ)) × (all
            ≡ before ++ best (p.mini_result, p.mini_nonce) all ∷ after)
    member (inr found) = found
    member (inl none_better) =
        let less =
          least-lt (map score early) (v, nonce_number s)
            ((best-least (p.mini_result, p.mini_nonce) all).1) below in
        absurd (omega (arith, less, ap (λ x. x.0) none_better, start))
