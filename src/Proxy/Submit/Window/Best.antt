-- ===== src/Proxy/Submit/Window/Best.antt =====
-- Which share proxy/proxy.go sends: the best one since the last message.
use xmrig2xdag.Common.{
  ℕ, ◌-◌, ◌≡◌, refl, sym, ap, ◌∙◌, List, [], ◌∷◌, Option, none, some, true, false, inl, inr,
  Bool-cases, if◌then◌else◌, ltb, leb, take_all, length, arith,
}
use xmrig2xdag.Common.Options.{◌>>=◌, >>=-eq-some, some-injective}
use xmrig2xdag.Encoding.{decode_string, le_value}
use xmrig2xdag.Proxy.Share.{Share}
use xmrig2xdag.Proxy.State.{Proxy, Event, send_buff_msg}
use xmrig2xdag.Proxy.Target.{Retarget, uint32, make_share}
use xmrig2xdag.Proxy.Target.Laws.{make_share-create_share}
use xmrig2xdag.Proxy.Submit.{
  Answer, status_ok, count_share, send_or_keep, send, keep, better_share, with_header, share_value,
  send_interval, validate_share, for_current_job, handle_submit,
}
use xmrig2xdag.Proxy.Submit.Window.{IsCounted, count_share-IsCounted}

abbrev pub nonce_number : Share → ℕ
nonce_number s = le_value ((decode_string (s.nonce)).0)

-- The better of two shares, each a value and a nonce: the first one, unless the second one is below it.
abbrev pub better : ℕ × ℕ → ℕ × ℕ → ℕ × ℕ
better (v, n) (w, m) = if ltb w v then (w, m) else (v, n)

-- A share that handleSubmit takes on for the pool, of value `v`.
abbrev pub IsGood : ℕ → Proxy → Share → ℕ → Type 0
IsGood level p s v =
    (for_current_job s p ≡ true)
    × (validate_share level s p ≡ none)
    × (share_value s ≡ some v)
    × (length ((decode_string (s.nonce)).0) ≡ 4)

-- A proxy that is connected.
abbrev pub IsOpen : Proxy → Type 0
IsOpen p = (p.is_closed ≡ false) × ((eofs : ℕ) × (p.conn ≡ some eofs))

uint32_four : (bs : List ℕ) → length bs ≡ 4 → uint32 bs ≡ some (le_value bs)
uint32_four bs h =
    rw (not_short (length bs) h) (ap (λ l. some (le_value l)) (take_all 4 bs (omega arith)))
  where
    not_short : (n : ℕ) → n ≡ 4 → ltb n 4 ≡ false
    not_short n e = ground arith

-- What handleSubmit comes to for such a share.
pub to_send_or_keep :
    (level : ℕ) (retarget : Retarget) (t later : ℕ) (s : Share) (p : Proxy)
    (x : Option (Proxy × List Event × Answer))
    → IsOpen p
    → for_current_job s p ≡ true
    → validate_share level s p ≡ none
    → (send_or_keep t s p
        >>= (λ r. count_share retarget later (r.0) >>= (λ counted. some (counted, r.1, status_ok))))
      ≡ x
    → handle_submit level retarget t later s p ≡ x
unfolding handle_submit
to_send_or_keep level retarget t later s p x (alive, (eofs, there)) current valid e =
    rw (alive, there, current, valid, handle_submit) e

pub early_keeps :
    (t : ℕ) (s : Share) (p : Proxy) (v : ℕ)
    → share_value s ≡ some v
    → leb send_interval (t - p.last_send) ≡ false
    → send_or_keep t s p ≡ keep v s p
unfolding send_or_keep
early_keeps t s p v read early = rw (read, early, send_or_keep) refl

pub late_sends :
    (t : ℕ) (s : Share) (p : Proxy) (v : ℕ)
    → share_value s ≡ some v
    → leb send_interval (t - p.last_send) ≡ true
    → send_or_keep t s p ≡ send t v s p
unfolding send_or_keep
late_sends t s p v read late = rw (read, late, send_or_keep) refl

-- The share that the proxy has after keeping one more.
abbrev pub keeping : Proxy → ℕ × ℕ → Proxy
keeping p (v, n) = record p { mini_result = v; mini_nonce = n }

pub keep-better :
    (s : Share) (p : Proxy) (v : ℕ)
    → length ((decode_string (s.nonce)).0) ≡ 4
    → keep v s p ≡ some (keeping p (better (p.mini_result, p.mini_nonce) (v, nonce_number s)), [])
unfolding keep
keep-better s p v four = elim (Bool-cases (ltb v (p.mini_result))) [
  | inl e ↦ rw (e, uint32_four ((decode_string (s.nonce)).0) four, keep) refl
  | inr e ↦ rw (e, keep) refl
]

better_share-make_share :
    (s : Share) (p : Proxy) (v : ℕ)
    → length ((decode_string (s.nonce)).0) ≡ 4
    → better_share v s p
      ≡ make_share 0 ((better (p.mini_result, p.mini_nonce) (v, nonce_number s)).1) p
unfolding better_share make_share
better_share-make_share s p v four = elim (Bool-cases (ltb v (p.mini_result))) [
  | inl e ↦ rw (e, better_share) (sym (make_share-create_share s p 0 four))
  | inr e ↦ rw (e, better_share) refl
]

-- A share within four seconds of the last message is kept if it is better, and nothing is sent.
pub handle_submit-early :
    (level : ℕ) (retarget : Retarget) (t later : ℕ) (s : Share) (p q : Proxy) (v : ℕ)
    (events : List Event) (answer : Answer)
    → IsOpen p
    → IsGood level p s v
    → leb send_interval (t - p.last_send) ≡ false
    → handle_submit level retarget t later s p ≡ some (q, events, answer)
    → (events ≡ [])
      × IsCounted (keeping p (better (p.mini_result, p.mini_nonce) (v, nonce_number s))) q
handle_submit-early level retarget t later s p q v events answer alive (current, valid, read, four)
      early e =
    let kept = keeping p (better (p.mini_result, p.mini_nonce) (v, nonce_number s)) in
    let step =
      to_send_or_keep level retarget t later s p
        (count_share retarget later kept >>= (λ counted. some (counted, [], status_ok))) alive
        current valid (rw (early_keeps t s p v read early ∙ keep-better s p v four) refl) in
    let (c, k, pair) = >>=-eq-some (count_share retarget later kept) _ (sym step ∙ e) in
    let same = some-injective pair in
    (
      ap (λ x. x.1) (sym same),
      count_share-IsCounted retarget later kept q (k ∙ ap (λ x. some (x.0)) same),
    )

-- A later one sends the better of it and the one that was kept.
pub handle_submit-late :
    (level : ℕ) (retarget : Retarget) (t later : ℕ) (s : Share) (p q : Proxy) (v : ℕ)
    (events : List Event) (answer : Answer)
    → IsOpen p
    → IsGood level p s v
    → leb send_interval (t - p.last_send) ≡ true
    → handle_submit level retarget t later s p ≡ some (q, events, answer)
    → (bytes : List ℕ) × (make_share 0
          ((better (p.mini_result, p.mini_nonce) (v, nonce_number s)).1)
          p
        ≡ some bytes)
      × (events ≡ send_buff_msg (with_header bytes) ∷ [])
unfolding send
handle_submit-late level retarget t later s p q v events answer alive (current, valid, read, four)
      late e =
    let step = to_send_or_keep level retarget t later s p _ alive current valid (
      ap
        (λ m. m >>= (λ r.
          count_share retarget later (r.0) >>= (λ counted. some (counted, r.1, status_ok))))
        (late_sends t s p v read late)) in
    let (r, sent, rest) = >>=-eq-some (send t v s p) _ (sym step ∙ e) in
    let (bytes, made, event) = >>=-eq-some (better_share v s p) _ sent in
    let (c, k, pair) = >>=-eq-some (count_share retarget later (r.0)) _ rest in
    (
      bytes,
      sym (better_share-make_share s p v four) ∙ made,
      ap (λ x. x.1) (sym (some-injective pair)) ∙ ap (λ x. x.1) (sym (some-injective event)),
    )
