-- ===== src/Proxy/Running/Safe/Rounds.antt =====
-- Run of proxy/proxy.go goes on, or returns, whatever comes.
use xmrig2xdag.Common.{
  ℕ, ◌≡◌, ◌≢◌, ◌≤◌, ◌⊎◌, Bool, true, false, refl, List, [], ◌∷◌, ◌++◌, Option, some, inl, inr, ◌&&◌,
  ◌==◌, Bool-cases, All,
}
use xmrig2xdag.Proxy.State.{Proxy, Event}
use xmrig2xdag.Proxy.Close.{by_self}
use xmrig2xdag.Proxy.Share.{Share}
use xmrig2xdag.Proxy.Locking.{
  Holder, SubmitAt, Steps, request, threads, received, received_by_submit, free, by_submit, by_run,
}
use xmrig2xdag.Proxy.Running.{
  Input, submission, notification, done, Setting, Ran, returned, waits, blocked, locked_out,
  under_lock, banned, take, serve, go_on, behind, is_detect,
}
use xmrig2xdag.Proxy.Running.Safe.{IsSafe, shutdown-returns}
use xmrig2xdag.Proxy.Running.Safe.Fields.{handle_notification-Notified}
use xmrig2xdag.Proxy.Running.Safe.Shares.{handle_submit-Handled}

-- A share names a job, as every share does that Submit queues; fields and ends are arbitrary.
abbrev pub IsInput : ℕ × Input → Type 0
IsInput (_, submission l t later share) = share.job_id ≢ []
IsInput (_, notification l fails now nonce new_len notif) = Unit
IsInput (_, done l cause) = Unit

-- Someone else has connMu when Run asks for it, or NewJob waits for it.
abbrev pub IsLocked : ℕ × Input → Type 0
IsLocked (_, submission l t later share) = l ≢ free
IsLocked (_, notification l fails now nonce new_len notif) = (l ≢ free) ⊎ (fails ≡ true)
IsLocked (_, done l cause) = l ≢ free

abbrev pub SomeLocked : List (ℕ × Input) → Type 0
SomeLocked [] = ⊥
SomeLocked (x ∷ xs) = IsLocked x ⊎ SomeLocked xs

-- Run has returned, or waits with a proxy that is safe again; or it waits for connMu, if it is `locked`.
abbrev pub IsSound : Type 0 → Ran → Type 0
IsSound locked (returned q events) = Unit
IsSound locked (waits q events) = IsSafe q
IsSound locked (blocked q) = locked

abbrev pub GoesOn : Type 0 → Option Ran → Type 0
GoesOn locked m = (ran : Ran) × (m ≡ some ran) × IsSound locked ran

pub lock-GoesOn :
    (locked : Type 0) (l : Holder) (p : Proxy) (m : Option Ran)
    → (l ≢ free → locked)
    → GoesOn locked m
    → GoesOn locked (under_lock l p m)
lock-GoesOn locked free p m other goes_on = goes_on
lock-GoesOn locked by_submit p m other goes_on = (blocked p, refl, other (λ e. cc))
lock-GoesOn locked by_run p m other goes_on = (blocked p, refl, other (λ e. cc))

locked_out-IsLocked :
    (n : ℕ) (l : Holder) (fails : Bool) (now nonce : ℕ) (new_len notif : List ℕ) (p q : Proxy)
    (events : List Event)
    → locked_out l fails p q events ≡ true
    → IsLocked (n, notification l fails now nonce new_len notif)
locked_out-IsLocked n free true now nonce new_len notif p q events h = inr refl
locked_out-IsLocked n free false now nonce new_len notif p q events h = cc
locked_out-IsLocked n by_submit fails now nonce new_len notif p q events h = inl (λ e. cc)
locked_out-IsLocked n by_run fails now nonce new_len notif p q events h = inl (λ e. cc)

take-GoesOn :
    (s : Setting) (n : ℕ) (i : Input) (p : Proxy)
    → 2 ≤ s.level
    → IsInput (n, i)
    → IsSafe p
    → GoesOn (IsLocked (n, i)) (take s i p)
unfolding take
take-GoesOn s n (submission l t later share) p high named safe =
    let (q, events, answer, e, safe_q) =
      handle_submit-Handled (s.level) (s.retarget) t later share p high named safe in
    lock-GoesOn (l ≢ free) l p _ (λ ne. ne)
      (elim (Bool-cases (banned s answer)) [
        | inr fine ↦ rw (e, fine, take) (waits q events, refl, safe_q)
        | inl bad ↦
            let (r, shut, _) =
              shutdown-returns (s.eof_count) (s.exit_on_pool_down) by_self q safe_q in
            rw (e, bad, shut, take) (returned (r.0) (events ++ r.1), refl, tt)
      ])
take-GoesOn s n (notification l fails now nonce new_len notif) p high named safe =
    let (q, events, e, safe_q) =
      handle_notification-Notified (s.retarget) now nonce new_len notif p safe in
    elim (Bool-cases (locked_out l fails p q events)) [
      | inl stop ↦
          rw (e, stop, take)
            (blocked q, refl, locked_out-IsLocked n l fails now nonce new_len notif p q events stop)
      | inr go ↦ rw (e, go, take) (waits q events, refl, safe_q)
    ]
take-GoesOn s n (done l cause) p high named safe =
    let (r, shut, _) = shutdown-returns (s.eof_count) (s.exit_on_pool_down) cause p safe in
    lock-GoesOn (l ≢ free) l p _ (λ ne. ne) (rw (shut, take) (returned (r.0) (r.1), refl, tt))

-- A share that comes from Submit in the steps of Proxy.Locking, with who has connMu there, stops Run.
share-blocked :
    (s : Setting) (l : Holder) (place : SubmitAt) (answered : Bool) (t later : ℕ) (share : Share)
    (p : Proxy)
    → Steps request (threads l place received answered)
    → take s (submission l t later share) p ≡ some (blocked p)
unfolding take
share-blocked s l place answered t later share p path =
    rw (received_by_submit l place answered path) refl

pub kept-IsSound :
    (locked : Type 0) (first : List Event) (r : Ran)
    → IsSound locked r
    → IsSound locked (behind first r)
kept-IsSound locked first (returned q more) sound = sound
kept-IsSound locked first (waits q more) sound = sound
kept-IsSound locked first (blocked q) sound = sound

pub wider-GoesOn : (a b : Type 0) (m : Option Ran) → (a → b) → GoesOn a m → GoesOn b m
wider-GoesOn a b m f (ran, e, sound) = (ran, e, wider ran sound)
  where
    wider : (r : Ran) → IsSound a r → IsSound b r
    wider (returned q events) c = c
    wider (waits q events) c = c
    wider (blocked q) c = f c

-- The rounds behind a round.
after-GoesOn :
    (locked : Type 0) (one : Ran) (rest : Proxy → Option Ran)
    → IsSound locked one
    → ((q : Proxy) → IsSafe q → GoesOn locked (rest q))
    → GoesOn locked (go_on one rest)
after-GoesOn locked (returned q events) rest sound more = (returned q events, refl, tt)
after-GoesOn locked (blocked q) rest sound more = (blocked q, refl, sound)
after-GoesOn locked (waits q events) rest sound more =
    let (ran, e, last) = more q sound in
    rw e (behind events ran, refl, kept-IsSound locked events ran last)

-- At validation level 2 or above, the second loop of Run does not panic: it takes shares that name a job,
-- fields of any bytes and any length, and ends of any cause, in any order, and has then returned or waits
-- for more, or for connMu, if that is not free for one of them. The proxy has a connection, a target that
-- is not set or well formed, and a job with a whole blob or none yet, and that is so again whenever Run waits
-- for more.
pub serve-GoesOn :
    (s : Setting) (name : List ℕ) (xs : List (ℕ × Input)) (p : Proxy)
    → 2 ≤ s.level
    → All IsInput xs
    → IsSafe p
    → GoesOn (SomeLocked xs) (serve s name xs p)
unfolding serve
serve-GoesOn s name [] p high good safe = (waits p [], refl, safe)
serve-GoesOn s name ((n, i) ∷ xs) p high good safe = elim (Bool-cases (is_detect name && n == 0)) [
  | inl up ↦ rw (up, serve) (returned p [], refl, tt)
  | inr going ↦
      let locked = SomeLocked ((n, i) ∷ xs) in
      let (one, e, sound) =
        wider-GoesOn (IsLocked (n, i)) locked (take s i p) (λ x. inl x)
          (take-GoesOn s n i p high (good.0) safe) in
      rw (going, e, serve)
        (after-GoesOn locked one (serve s name xs) sound (λ q safe_q.
          wider-GoesOn (SomeLocked xs) locked (serve s name xs q) (λ x. inr x)
            (serve-GoesOn s name xs q high (good.1) safe_q)))
]
