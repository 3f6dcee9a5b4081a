-- ===== src/Proxy/Detect/NeverUp.antt =====
-- The detect proxy of proxy/detect.go does not find out that the pool is up.
use xmrig2xdag.Common.{
  ℕ, ◌+◌, ◌-◌, ◌%◌, ◌^◌, true, ◌≡◌, refl, sym, ap, ◌∙◌, List, [], ◌∷◌, ◌++◌, some, false, ◌&&◌, ltb,
  leb, ◌==◌, if◌then◌else◌, codes, list_eq, replicate, copy, copy_at, drop, Bool-cases,
  Option-cases, inl, inr,
}
use xmrig2xdag.Common.Options.{>>=-eq-some, some-injective}
use xmrig2xdag.Encoding.{be_value, decode_string}
use xmrig2xdag.Xdag.Address.{hash2address}
use xmrig2xdag.Proxy.Job.{Job}
use xmrig2xdag.Proxy.State.{
  Proxy, Event, pool_up, send_buff_msg, close_conn, close_worker, new_job, leave_director,
  count_eof, pool_down, exit,
}
use xmrig2xdag.Proxy.Target.{Retarget, set_target, create_job, init_diff_count, get_target, uint64}
use xmrig2xdag.Proxy.Notify.{
  handle_notification, second_field, handle_job, broadcast_job, detect_proxy, other_block,
  refresh_diff_interval,
}
use xmrig2xdag.Base58.Check.{Sha256}
use xmrig2xdag.Proxy.Mining.{
  Session, PassThruParams, get, ctx, context, login, turn_down, pool_is_down,
}
use xmrig2xdag.Proxy.Mining.Login.{login-down, worker-found}
use xmrig2xdag.Proxy.Detect.{detect_addr, Field, notify_all, pool_after, idle, tick, runs, Shared}

abbrev Keeps : Proxy × List Event → Type 0
Keeps r = (r.0.address ≡ detect_addr) × ((n : ℕ) → pool_after n (r.1) ≡ n)

found : (r r' : Proxy × List Event) → some r ≡ some r' → Keeps r → Keeps r'
found r r' e h = rw (sym (some-injective e)) h

set_target-address :
    (retarget : Retarget) (i t : ℕ) (p q : Proxy)
    → set_target retarget i t p ≡ some q
    → q.address ≡ p.address
unfolding set_target
set_target-address retarget i t p q h =
    elim (Option-cases ((decode_string (codes "00000000" ++ get_target p)).1)) [
      | inr (e, bad) ↦ ap (λ x. x.address) (sym (some-injective (rw (bad, set_target) at h)))
      | inl good ↦
          let (target, _, rest) =
            >>=-eq-some (uint64 ((decode_string (codes "00000000" ++ get_target p)).0)) _
              (rw (good, set_target) at h) in
          ap (λ x. x.address) (sym (some-injective rest))
    ]

broadcast-pool : (p : Proxy) (n : ℕ) → pool_after n (broadcast_job p) ≡ n
unfolding broadcast_job
broadcast-pool p n = elim (Bool-cases (p.is_closed)) [
  | inl e ↦ rw (e, broadcast_job) refl
  | inr e ↦ elim (Bool-cases (p.has_worker)) [
    | inl w ↦ rw (e, broadcast_job) (rw w refl)
    | inr w ↦ rw (e, broadcast_job) (rw w refl)
  ]
]

handle_job-Keeps :
    (now : ℕ) (job : Job) (p : Proxy) → p.address ≡ detect_addr → Keeps (handle_job now job p)
unfolding handle_job
handle_job-Keeps now job p h = (h, broadcast-pool ((handle_job now job p).0))

second_field-Keeps :
    (retarget : Retarget) (now nonce : ℕ) (new_len field : List ℕ) (p : Proxy)
    (r : Proxy × List Event)
    → p.address ≡ detect_addr
    → second_field retarget now nonce new_len field p ≡ some r
    → Keeps r
unfolding second_field
second_field-Keeps retarget now nonce new_len field p r h e =
    let received = record p { recv_byte = copy_at (p.recv_byte) 32 64 field } in
    let due =
      ltb (init_diff_count + 1) (p.shares) && leb refresh_diff_interval (now - p.target_since) in
    let (q, retargeted, rest) =
      >>=-eq-some (if due then set_target retarget (p.shares) now received else some received) _
        e in
    let same : q.address ≡ p.address = elim (Bool-cases due) [
      | inl d ↦ set_target-address retarget (p.shares) now received q (rw d at retargeted)
      | inr d ↦ ap (λ x. x.address) (sym (some-injective (rw d at retargeted)))
    ] in
    let (other, _, last) =
      >>=-eq-some
        (other_block (q.current_job.blob) ((create_job nonce new_len (q.recv_byte) q).blob)) _
        rest in
    elim (Bool-cases other) [
      | inl o ↦
          found _ r (rw o at last)
            (handle_job-Keeps now (create_job nonce new_len (q.recv_byte) q) q (same ∙ h))
      | inr o ↦ found (q, []) r (rw o at last) (same ∙ h, λ n. refl)
    ]

not_detect : (p : Proxy) → p.address ≡ detect_addr → list_eq (p.address) detect_proxy ≡ false
not_detect p h = ap (λ a. list_eq a detect_proxy) h

-- One field.
notification-Keeps :
    (retarget : Retarget) (now nonce : ℕ) (new_len notif : List ℕ) (p : Proxy)
    (r : Proxy × List Event)
    → p.address ≡ detect_addr
    → handle_notification retarget now nonce new_len notif p ≡ some r
    → Keeps r
unfolding handle_notification
notification-Keeps retarget now nonce new_len notif p r h e =
    elim (Bool-cases (list_eq (hash2address (copy (replicate 32 0) notif)) (p.address))) [
      | inl own ↦ found _ r (rw (own, handle_notification) at e) (h, λ n. refl)
      | inr others ↦ elim (Bool-cases (p.recv_count == 0)) [
        | inl first ↦ elim (Bool-cases (be_value (drop 24 (copy (replicate 32 0) notif)) == 0)) [
          | inl zero ↦ found _ r (rw (others, first, zero) at e) (h, λ n. refl)
          | inr seed ↦ found _ r (rw (others, first, seed) at e) (h, λ n. refl)
        ]
        | inr no_first ↦ elim (Bool-cases (p.recv_count == 1)) [
          | inl second ↦
              second_field-Keeps retarget now nonce new_len (copy (replicate 32 0) notif) _ r h
                (rw (others, no_first, second, not_detect p h) at e)
          | inr none_of_them ↦ found _ r (rw (others, no_first, none_of_them) at e) (h, λ n. refl)
        ]
      ]
    ]

pool_after-append :
    (n : ℕ) (a b : List Event) → pool_after n (a ++ b) ≡ pool_after (pool_after n a) b
pool_after-append n [] b = refl
pool_after-append n (pool_up ∷ a) b = pool_after-append 0 a b
pool_after-append n (pool_down ∷ a) b = pool_after-append ((n + 1) % 2 ^ 64) a b
pool_after-append n (leave_director _ ∷ a) b = pool_after-append n a b
pool_after-append n (send_buff_msg _ ∷ a) b = pool_after-append n a b
pool_after-append n (close_conn ∷ a) b = pool_after-append n a b
pool_after-append n (close_worker ∷ a) b = pool_after-append n a b
pool_after-append n (new_job _ ∷ a) b = pool_after-append n a b
pool_after-append n (count_eof ∷ a) b = pool_after-append n a b
pool_after-append n (exit ∷ a) b = pool_after-append n a b

notify_all-Keeps :
    (retarget : Retarget) (fs : List Field) (p : Proxy) (r : Proxy × List Event)
    → p.address ≡ detect_addr
    → notify_all retarget fs p ≡ some r
    → Keeps r
notify_all-Keeps retarget [] p r h e = found (p, []) r e (h, λ n. refl)
notify_all-Keeps retarget (f ∷ fs) p r h e =
    let (one, first, rest) =
      >>=-eq-some (handle_notification retarget (f.now) (f.nonce) (f.new_len) (f.bytes) p) _ e in
    let (same, silent) =
      notification-Keeps retarget (f.now) (f.nonce) (f.new_len) (f.bytes) p one h first in
    let (more, second, last) = >>=-eq-some (notify_all retarget fs (one.0)) _ rest in
    let (kept, still) = notify_all-Keeps retarget fs (one.0) more same second in
    found (more.0, one.1 ++ more.1) r last
      (kept, λ n. pool_after-append n (one.1) (more.1) ∙ rw (silent n) (still n))

module _ {s s' : Shared} {p p' : Proxy} (e : runs s p ≡ runs s' p') where
  runs-proxy : p ≡ p'
  runs-proxy = cc

  runs-shared : s ≡ s'
  runs-shared = cc

-- A tick that starts the proxy keeps its address and the count, which says that the pool is down.
tick-started :
    (s s' : Shared) (p p' : Proxy)
    → tick false s p ≡ runs s' p'
    → (p'.address ≡ p.address)
      × (s'.pool_is_down ≡ s.pool_is_down)
      × (ltb 0 (s.pool_is_down) ≡ true)
unfolding tick
tick-started s s' p p' t = elim (Bool-cases (ltb 0 (s.pool_is_down))) [
  | inl down ↦ (
    ap (λ x. x.address) (sym (runs-proxy (rw down at t))),
    ap (λ x. x.pool_is_down) (sym (runs-shared (rw down at t))),
    down,
  )
  | inr up ↦ absurd (let bad : idle ≡ runs s' p' = rw up at t in cc)
]

-- A tick starts the proxy with the address that PoolDetect gives it. Whatever fields the pool then sends, the
-- proxy keeps that address, and these fields leave the count poolIsDown as it was at the tick, above zero:
-- a login of a miner that finds the count as they leave it is turned down because the pool is down.
pub tick-pool_after :
    (retarget : Retarget) (s s' : Shared) (fs : List Field) (p p' q : Proxy) (events : List Event)
    (sha : Sha256) (job : Job) (params : PassThruParams) (session : Session)
    → p.address ≡ detect_addr
    → tick false s p ≡ runs s' p'
    → notify_all retarget fs p' ≡ some (q, events)
    → get ctx params ≡ some context
    → (q.address ≡ detect_addr)
      × (pool_after (s'.pool_is_down) events ≡ s.pool_is_down)
      × (login sha (pool_after (s'.pool_is_down) events) job params session
          ≡ some (turn_down pool_is_down session))
tick-pool_after retarget s s' fs p p' q events sha job params session h t e has =
    let (address, count, down) = tick-started s s' p p' t in
    let (same, silent) = notify_all-Keeps retarget fs p' (q, events) (address ∙ h) e in
    let still = silent (s'.pool_is_down) ∙ count in
    (
      same,
      still,
      rw still (login-down sha job params (s.pool_is_down) session (worker-found params has) down),
    )
