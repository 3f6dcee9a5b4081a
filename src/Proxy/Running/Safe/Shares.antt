-- ===== src/Proxy/Running/Safe/Shares.antt =====
-- handleSubmit of proxy/proxy.go does not panic for a share that names a job, not even before there is one.
use xmrig2xdag.Common.{
  not_equal, ℕ, ◌-◌, ◌≡◌, ◌≢◌, ◌≤◌, refl, sym, ap, List, [], Option, some, inl, inr, true, false,
  Bool-cases, Option-cases, ltb, leb, has_prefix,
}
use xmrig2xdag.Common.Options.{◌>>=◌, >>=-eq-some, some-injective}
use xmrig2xdag.Encoding.{decode_string}
use xmrig2xdag.Proxy.Share.{Share, no_client}
use xmrig2xdag.Proxy.State.{Proxy, Event}
use xmrig2xdag.Proxy.Target.{Retarget, uint32}
use xmrig2xdag.Proxy.Submit.{
  Answer, unanswered, status_ok, refused, count_share, send_or_keep, send, keep, better_share,
  share_value, send_interval, validate_share, for_current_job, fake_prefix, handle_submit,
}
use xmrig2xdag.Proxy.Submit.Returns.{IsTarget, count_share-returns, handle_submit-returns}
use xmrig2xdag.Proxy.Submit.Window.{IsCounted, count_share-IsCounted}
use xmrig2xdag.Proxy.Running.Safe.{IsSafe}
use xmrig2xdag.Proxy.Running.Safe.Fields.{counted-IsSafe}

-- What a share leaves alone.
abbrev Frame : Proxy → Proxy → Type 0
Frame p q = (q.current_job ≡ p.current_job) × (q.is_closed ≡ p.is_closed) × (q.conn ≡ p.conn)

moved : (p q r : Proxy) → q ≡ r → Frame p q → Frame p r
moved p q r e h = rw (sym e) h

counted-Frame : (p q r : Proxy) → IsCounted q r → Frame p q → Frame p r
counted-Frame p q r (_, _, _, _, same) h = rw same h

send-Frame :
    (t result : ℕ) (s : Share) (p : Proxy) (r : Proxy × List Event)
    → send t result s p ≡ some r
    → Frame p (r.0)
unfolding send
send-Frame t result s p r e =
    let (bytes, _, rest) = >>=-eq-some (better_share result s p) _ e in
    moved p _ (r.0) (ap (λ x. x.0) (some-injective rest)) (refl, refl, refl)

keep-Frame :
    (result : ℕ) (s : Share) (p : Proxy) (r : Proxy × List Event)
    → keep result s p ≡ some r
    → Frame p (r.0)
unfolding keep
keep-Frame result s p r e = elim (Bool-cases (ltb result (p.mini_result))) [
  | inl less ↦
      let (nonce, _, rest) =
        >>=-eq-some (uint32 ((decode_string (s.nonce)).0)) _ (rw (less, keep) at e) in
      moved p _ (r.0) (ap (λ x. x.0) (some-injective rest)) (refl, refl, refl)
  | inr more ↦
      moved p p (r.0) (ap (λ x. x.0) (some-injective (rw (more, keep) at e))) (refl, refl, refl)
]

send_or_keep-Frame :
    (t : ℕ) (s : Share) (p : Proxy) (r : Proxy × List Event)
    → send_or_keep t s p ≡ some r
    → Frame p (r.0)
unfolding send_or_keep
send_or_keep-Frame t s p r e =
    let (result, read, rest) = >>=-eq-some (share_value s) _ e in
    elim (Bool-cases (leb send_interval (t - p.last_send))) [
      | inl late ↦ send-Frame t result s p r (rw late at rest)
      | inr early ↦ keep-Frame result s p r (rw early at rest)
    ]

counts-Frame :
    (retarget : Retarget) (later : ℕ) (p r : Proxy) (events : List Event)
    (x : Proxy × List Event × Answer)
    → Frame p r
    → (count_share retarget later r >>= (λ counted. some (counted, events, status_ok))) ≡ some x
    → Frame p (x.0)
counts-Frame retarget later p r events x h e =
    let (c, k, rest) = >>=-eq-some (count_share retarget later r) _ e in
    moved p c (x.0) (ap (λ y. y.0) (some-injective rest))
      (counted-Frame p r c (count_share-IsCounted retarget later r c k) h)

handle_submit-Frame :
    (level : ℕ) (retarget : Retarget) (t later : ℕ) (s : Share) (p : Proxy)
    (x : Proxy × List Event × Answer)
    → handle_submit level retarget t later s p ≡ some x
    → Frame p (x.0)
unfolding handle_submit
handle_submit-Frame level retarget t later s p x e = elim (Bool-cases (p.is_closed)) [
  | inl closed ↦
      moved p (record p { is_closed = true }) (x.0)
        (ap (λ y. y.0) (some-injective (rw (closed, handle_submit) at e))) (refl, sym closed, refl)
  | inr alive ↦ elim (Option-cases (p.conn)) [
    | inl gone ↦
        moved p p (x.0) (ap (λ y. y.0) (some-injective (rw (alive, gone, handle_submit) at e)))
          (refl, refl, refl)
    | inr (eofs, there) ↦ elim (Bool-cases (for_current_job s p)) [
      | inr other ↦
          counts-Frame retarget later p p [] x (refl, refl, refl)
            (rw (alive, there, other, handle_submit) at e)
      | inl current ↦ elim (Option-cases (validate_share level s p)) [
        | inr (error, bad) ↦
            moved p p (x.0)
              (ap (λ y. y.0) (some-injective (rw (alive, there, current, bad, handle_submit) at e)))
              (refl, refl, refl)
        | inl valid ↦
            let (r, k, rest) =
              >>=-eq-some (send_or_keep t s p) _
                (rw (alive, there, current, valid, handle_submit) at e) in
            counts-Frame retarget later p (r.0) (r.1) x (send_or_keep-Frame t s p r k) rest
      ]
    ]
  ]
]

framed-IsSafe : (p q : Proxy) → Frame p q → IsTarget (q.target) → IsSafe p → IsSafe q
framed-IsSafe p q (job, closed, conn) target safe = record {
  target = target;
  job = rw job (safe.job);
  connected = rw (closed, conn) (safe.connected);
}

abbrev pub Handled : Option (Proxy × List Event × Answer) → Type 0
Handled m =
    (q : Proxy) × (events : List Event) × (answer : Answer) × (m ≡ some (q, events, answer))
    × IsSafe q

-- Before the first job no share with an id is for it.
not_current :
    (s : Share) (p : Proxy) → p.current_job.id ≡ [] → s.job_id ≢ [] → for_current_job s p ≡ false
not_current s p e named =
    rw (e, not_equal (s.job_id) [] named)
      (elim (Bool-cases (has_prefix (s.job_id) fake_prefix)) [
        | inl fake ↦ rw fake refl
        | inr real ↦ rw real refl
      ])

other-Handled :
    (level : ℕ) (retarget : Retarget) (t later : ℕ) (s : Share) (p : Proxy)
    → IsSafe p
    → for_current_job s p ≡ false
    → Handled (handle_submit level retarget t later s p)
unfolding handle_submit
other-Handled level retarget t later s p safe other = elim (Bool-cases (p.is_closed)) [
  | inl closed ↦
      rw (closed, handle_submit)
        (
          _,
          [],
          unanswered,
          refl,
          record { target = safe.target; job = safe.job; connected = inl refl },
        )
  | inr alive ↦ elim (Option-cases (p.conn)) [
    | inl gone ↦ rw (alive, gone, handle_submit) (p, [], refused no_client, refl, safe)
    | inr (eofs, there) ↦
        let (q, e, target) = count_share-returns retarget later p (safe.target) in
        rw (alive, there, other, e, handle_submit)
          (
            q,
            [],
            status_ok,
            refl,
            counted-IsSafe p q (count_share-IsCounted retarget later p q e) target safe,
          )
  ]
]

-- At validation level 2 or above, handleSubmit returns for every share that names a job.
pub handle_submit-Handled :
    (level : ℕ) (retarget : Retarget) (t later : ℕ) (s : Share) (p : Proxy)
    → 2 ≤ level
    → s.job_id ≢ []
    → IsSafe p
    → Handled (handle_submit level retarget t later s p)
handle_submit-Handled level retarget t later s p high named safe = elim (safe.job) [
  | inl (no_id, _) ↦ other-Handled level retarget t later s p safe (not_current s p no_id named)
  | inr (whole, _) ↦
      let (q, events, answer, e, ready) =
        handle_submit-returns level retarget t later s p high (safe.target, whole) in
      (
        q,
        events,
        answer,
        e,
        framed-IsSafe p q (handle_submit-Frame level retarget t later s p (q, events, answer) e)
            (ready.0) safe,
      )
]
