-- ===== src/Proxy/Submit/Accepted.antt =====
-- Which shares Submit of proxy/proxy.go takes.
use xmrig2xdag.Common.{
  not_equal, ℕ, ◌≡◌, ◌≢◌, refl, List, [], ◌∷◌, All, Option, some, Bool, true, false, ◌⊎◌, inl, inr,
  ◌↔◌, if◌then◌else◌, list_eq_iff, has_prefix, arith,
}
use xmrig2xdag.Proxy.Job.{Job, next}
use xmrig2xdag.Proxy.Share.{Share, Value, bad_job_id, malformed_share, new_share}
use xmrig2xdag.Proxy.State.{Proxy}
use xmrig2xdag.Proxy.Submit.{submit, queued, turned_down, known_job_id, fake_prefix}
use xmrig2xdag.Proxy.Notify.{handle_job, next_job}

-- The job of a share is one of the last four, or the job that a miner has before the first one.
abbrev pub IsKnown : List ℕ → Proxy → Type 0
IsKnown job_id p =
    (job_id ≡ p.current_job.id)
    ⊎ (job_id ≡ p.prev_job_id)
    ⊎ (job_id ≡ p.before_prev_job_id)
    ⊎ (job_id ≡ p.before_before_prev_job_id)
    ⊎ (has_prefix job_id fake_prefix ≡ true)

known_job_id_iff : (job_id : List ℕ) (p : Proxy) → (known_job_id job_id p ≡ true) ↔ IsKnown job_id p
known_job_id_iff job_id p = ground (
  arith,
  list_eq_iff job_id (p.current_job.id),
  list_eq_iff job_id (p.prev_job_id),
  list_eq_iff job_id (p.before_prev_job_id),
  list_eq_iff job_id (p.before_before_prev_job_id),
)

queued_iff :
    (a b c : Bool) (s : Share)
    → (some (
          if a
          then turned_down bad_job_id
          else if b
          then turned_down malformed_share
          else if c
          then queued s
          else turned_down bad_job_id)
        ≡ some (queued s))
      ↔ ((a ≡ false) × (b ≡ false) × (c ≡ true))
queued_iff true b c s = (λ e. cc, λ e. cc)
queued_iff false true c s = (λ e. cc, λ e. cc)
queued_iff false false true s = (λ e. (refl, refl, refl), λ e. refl)
queued_iff false false false s = (λ e. cc, λ e. cc)

differ : {b : Bool} → b ≡ true → b ≡ false → ⊥
differ e f = cc

-- On an open proxy, the share of a request goes to handleSubmit exactly if it has a job id and a nonce
-- and its job is known.
pub submit-queued :
    (params : List ℕ → Option Value) (s : Share) (p : Proxy)
    → p.is_closed ≡ false
    → new_share params ≡ some s
    → (submit params p ≡ some (queued s))
      ↔ ((s.job_id ≢ []) × (s.nonce ≢ []) × IsKnown (s.job_id) p)
unfolding submit
submit-queued params s p alive hs =
    rw (alive, hs)
      (
        λ e.
            let (a, b, c) = (queued_iff _ _ _ s).0 e in
            (
              λ h. differ ((list_eq_iff _ _).1 h) a,
              λ h. differ ((list_eq_iff _ _).1 h) b,
              (known_job_id_iff (s.job_id) p).0 c,
            ),
        λ (a, b, c).
            (queued_iff _ _ _ s).1
              (not_equal _ _ a, not_equal _ _ b, (known_job_id_iff (s.job_id) p).1 c),
      )

-- The proxy after jobs that came at given times, the first one last in the list.
abbrev pub after_jobs : List (ℕ × Job) → Proxy → Proxy
after_jobs [] p = p
after_jobs ((t, j) ∷ earlier) p = (handle_job t j (after_jobs earlier p)).0

-- After any jobs, the shares of the last four are taken.
pub handle_job-known :
    (t1 t2 t3 t4 : ℕ) (j1 j2 j3 j4 : Job) (earlier : List (ℕ × Job)) (p : Proxy)
    → let q = after_jobs ((t4, j4) ∷ (t3, j3) ∷ (t2, j2) ∷ (t1, j1) ∷ earlier) p in
      All (λ (j : Job). known_job_id (j.id) q ≡ true) (j1 ∷ j2 ∷ j3 ∷ j4 ∷ [])
unfolding handle_job
handle_job-known t1 t2 t3 t4 j1 j2 j3 j4 earlier p =
    let q = after_jobs ((t4, j4) ∷ (t3, j3) ∷ (t2, j2) ∷ (t1, j1) ∷ earlier) p in
    (
      (known_job_id_iff (j1.id) q).1 (inr (inr (inr (inl refl)))),
      (
        (known_job_id_iff (j2.id) q).1 (inr (inr (inl refl))),
        (
          (known_job_id_iff (j3.id) q).1 (inr (inl refl)),
          ((known_job_id_iff (j4.id) q).1 (inl refl), tt),
        ),
      ),
    )

-- Getjob, which moves the nonce, changes nothing about it.
pub next_job-known :
    (job_id : List ℕ) (p : Proxy) → known_job_id job_id ((next_job p).0) ≡ known_job_id job_id p
unfolding next_job next
next_job-known job_id p = refl
