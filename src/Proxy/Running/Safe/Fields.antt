-- ===== src/Proxy/Running/Safe/Fields.antt =====
-- handleNotification of proxy/proxy.go does not panic.
use xmrig2xdag.Common.{
  ℕ, ◌+◌, ◌-◌, ◌%◌, ◌^◌, ◌≡◌, ◌≤◌, refl, List, [], ◌∷◌, Option, some, inl, inr, Bool, true, false,
  ◌&&◌, Bool-cases, if◌then◌else◌, not, take, length, ltb, leb, ◌==◌, list_eq, replicate, copy,
  copy_at, drop, arith,
}
use xmrig2xdag.Common.Options.{◌>>=◌}
use xmrig2xdag.Encoding.{be_value}
use xmrig2xdag.Xdag.Address.{hash2address}
use xmrig2xdag.Proxy.Job.{Job}
use xmrig2xdag.Proxy.State.{Proxy, Event, pool_up}
use xmrig2xdag.Proxy.Target.{Retarget, set_target, create_job, init_diff_count}
use xmrig2xdag.Proxy.Submit.Returns.{IsTarget, set_target-returns}
use xmrig2xdag.Proxy.Submit.Window.{IsCounted, set_target-IsCounted}
use xmrig2xdag.Proxy.Close.{shutdown, by_self}
use xmrig2xdag.Proxy.Notify.{
  handle_notification, second_field, handle_job, other_block, detect_proxy, refresh_diff_interval,
}
use xmrig2xdag.Proxy.Running.Safe.{IsJob, IsSafe, create_job-whole, shutdown-returns}

abbrev pub Notified : Option (Proxy × List Event) → Type 0
Notified m = (q : Proxy) × (events : List Event) × (m ≡ some (q, events)) × IsSafe q

other_block-returns :
    (old new : Job)
    → IsJob old
    → 32 ≤ length (new.blob)
    → (b : Bool) × (other_block (old.blob) (new.blob) ≡ some b)
other_block-returns old new (inl (_, e)) long = (true, rw e refl)
other_block-returns old new (inr (_, le)) long = elim (Bool-cases (list_eq (old.blob) [])) [
  | inl e ↦ (true, rw e refl)
  | inr e ↦
      let a : ltb (length (old.blob)) 32 ≡ false = ground arith in
      let b : ltb (length (new.blob)) 32 ≡ false = ground arith in
      (not (list_eq (take 32 (old.blob)) (take 32 (new.blob))), rw (e, a, b) refl)
]

-- A proxy that differs in what it counts and in its target.
pub counted-IsSafe : (p q : Proxy) → IsCounted p q → IsTarget (q.target) → IsSafe p → IsSafe q
counted-IsSafe p q (_, _, _, _, same) target safe = record {
  target = target;
  job = rw same (safe.job);
  connected = rw same (safe.connected);
}

handle_job-IsSafe :
    (now : ℕ) (job : Job) (p : Proxy)
    → IsSafe p
    → (length (job.current_blob) ≡ 64) × (32 ≤ length (job.blob))
    → IsSafe ((handle_job now job p).0)
unfolding handle_job
handle_job-IsSafe now job p safe whole = record {
  target = safe.target;
  job = inr whole;
  connected = safe.connected;
}

-- The first step of the second field: the target may change.
retargeted-IsSafe :
    (due : Bool) (retarget : Retarget) (i now : ℕ) (p : Proxy)
    → IsSafe p
    → (q : Proxy) × ((if due then set_target retarget i now p else some p) ≡ some q) × IsSafe q
retargeted-IsSafe true retarget i now p safe =
    let (q, e, target) = set_target-returns retarget i now p (safe.target) in
    (q, e, counted-IsSafe p q (set_target-IsCounted retarget i now p q e) target safe)
retargeted-IsSafe false retarget i now p safe = (p, refl, safe)

second_field-Notified :
    (retarget : Retarget) (now nonce : ℕ) (new_len field : List ℕ) (p : Proxy)
    → IsSafe p
    → Notified (second_field retarget now nonce new_len field p)
unfolding second_field
second_field-Notified retarget now nonce new_len field p safe =
    let received = record p { recv_byte = copy_at (p.recv_byte) 32 64 field } in
    let due =
      ltb (init_diff_count + 1) (p.shares) && leb refresh_diff_interval (now - p.target_since) in
    let (q, e, safe_q) =
      retargeted-IsSafe due retarget (p.shares) now received
        (record { target = safe.target; job = safe.job; connected = safe.connected }) in
    let job = create_job nonce new_len (q.recv_byte) q in
    let whole = create_job-whole nonce new_len (q.recv_byte) q in
    let (other, o) = other_block-returns (q.current_job) job (safe_q.job) (whole.1) in
    rw (e, o, second_field) (passed other q job safe_q whole)
  where
    passed :
        (other : Bool) (q : Proxy) (job : Job)
        → IsSafe q
        → (length (job.current_blob) ≡ 64) × (32 ≤ length (job.blob))
        → Notified (some (if other then handle_job now job q else (q, [])))
    passed true q job safe_q whole = (_, _, refl, handle_job-IsSafe now job q safe_q whole)
    passed false q job safe_q whole = (q, [], refl, safe_q)

-- The end of a detect proxy.
ended-Notified :
    (p : Proxy)
    → IsSafe p
    → Notified
        (shutdown 0 false by_self p >>= (λ (closed, events). some (closed, pool_up ∷ events)))
ended-Notified p safe =
    let ((q, events), e, safe_q) = shutdown-returns 0 false by_self p safe in
    rw e (q, pool_up ∷ events, refl, safe_q)

-- Whatever field comes, of whatever length, handleNotification returns.
pub handle_notification-Notified :
    (retarget : Retarget) (now nonce : ℕ) (new_len notif : List ℕ) (p : Proxy)
    → IsSafe p
    → Notified (handle_notification retarget now nonce new_len notif p)
unfolding handle_notification
handle_notification-Notified retarget now nonce new_len notif p safe =
    let field = copy (replicate 32 0) notif in
    let kept : (n : ℕ) (bytes : List ℕ)
        → IsSafe
            (record p { field_in = (p.field_in + 1) % 2 ^ 64; recv_count = n; recv_byte = bytes }) =
      λ n bytes. record { target = safe.target; job = safe.job; connected = safe.connected } in
    elim (Bool-cases (list_eq (hash2address field) (p.address))) [
      | inl own ↦ rw (own, handle_notification) (_, [], refl, kept 0 (p.recv_byte))
      | inr others ↦ elim (Bool-cases (p.recv_count == 0)) [
        | inl first ↦ elim (Bool-cases (be_value (drop 24 field) == 0)) [
          | inl zero_tail ↦
              rw (others, first, zero_tail, handle_notification)
                (_, [], refl, kept (p.recv_count) (p.recv_byte))
          | inr seed ↦
              rw (others, first, seed, handle_notification)
                (_, [], refl, kept 1 (copy_at (p.recv_byte) 0 32 field))
        ]
        | inr no_first ↦ elim (Bool-cases (p.recv_count == 1)) [
          | inr neither ↦
              rw (others, no_first, neither, handle_notification)
                (_, [], refl, kept (p.recv_count) (p.recv_byte))
          | inl second ↦ elim (Bool-cases (list_eq (p.address) detect_proxy)) [
            | inl detect ↦
                rw (others, no_first, second, detect, handle_notification)
                  (ended-Notified _ (kept 0 (p.recv_byte)))
            | inr miner ↦
                rw (others, no_first, second, miner, handle_notification)
                  (second_field-Notified retarget now nonce new_len field _ (kept 0 (p.recv_byte)))
          ]
        ]
      ]
    ]
