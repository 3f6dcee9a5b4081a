-- ===== src/Proxy/Running/Safe/Whole.antt =====
-- Run of proxy/proxy.go from its start, for a proxy that a login has prepared.
use xmrig2xdag.Common.{
  Bool, Option, none, ℕ, suc, ◌≡◌, ◌≢◌, ◌⊎◌, ◌≤◌, refl, ap, List, [], some, true, false, inl, inr,
  Bool-cases, All, list_eq,
}
use xmrig2xdag.Common.Options.{◌>>=◌}
use xmrig2xdag.Proxy.State.{Proxy, Event}
use xmrig2xdag.Proxy.Submit.Returns.{IsTarget}
use xmrig2xdag.Proxy.Close.{shutdown, farewell, pool_is_down}
use xmrig2xdag.Proxy.Locking.{Holder, free}
use xmrig2xdag.Proxy.Running.{
  Attempt, Input, Setting, Acquired, connected, gave_up, out_of_fuel, Ran, returned, retries,
  log_in, run, serve, ended, behind, is_detect,
}
use xmrig2xdag.Proxy.Running.Retries.{IsSound as IsAcquired, acquire-IsSound}
use xmrig2xdag.Proxy.Running.Safe.{IsSafe, IsJob}
use xmrig2xdag.Proxy.Running.Safe.Rounds.{
  IsInput, SomeLocked, GoesOn, serve-GoesOn, kept-IsSound, lock-GoesOn, wider-GoesOn,
}

-- The pool is down before there is a connection.
down-returns :
    (eof_count : ℕ) (exits : Bool) (p : Proxy)
    → p.is_closed ≡ false
    → (r : Proxy × List Event) × (shutdown eof_count exits pool_is_down p ≡ some r)
unfolding shutdown farewell
down-returns eof_count true p alive = rw (alive, shutdown) (_, refl)
down-returns eof_count false p alive = rw (alive, shutdown) (_, refl)

log_in-IsSafe :
    (name : List ℕ) (p : Proxy)
    → IsTarget (p.target)
    → IsJob (p.current_job)
    → IsSafe ((log_in name p).0)
unfolding log_in
log_in-IsSafe name p target job = elim (Bool-cases (list_eq name [])) [
  | inl none_given ↦
      rw (none_given, log_in) (record { target = target; job = job; connected = inr (0, refl) })
  | inr given ↦
      rw (given, log_in) (record { target = target; job = job; connected = inr (0, refl) })
]

module _ (s : Setting) (name : List ℕ) (xs : List (ℕ × Input)) where
  -- The end of Run, by the way the first loop has ended.
  abbrev continue : Proxy → Acquired → Option Ran
  continue named r = elim r [
    | connected attempts q first ↦ serve s name xs q >>= (λ ran. some (behind first ran))
    | gave_up attempts cause ↦ ended (shutdown (s.eof_count) (s.exit_on_pool_down) cause named)
    | out_of_fuel ↦ none
  ]

  continue-GoesOn :
      (weather : ℕ → Attempt) (socks5 : List ℕ) (times : ℕ) (p : Proxy) (r : Acquired)
      → 2 ≤ s.level
      → is_detect name ≡ false
      → All IsInput xs
      → p.is_closed ≡ false
      → IsTarget (p.target)
      → IsJob (p.current_job)
      → IsAcquired weather socks5 times name p 0 r
      → GoesOn (SomeLocked xs) (continue p r)
  continue-GoesOn weather socks5 times p (connected attempts q first) high miner good alive target
        job sound =
      let safe : IsSafe q = rw (ap (λ x. x.0) (sound.4)) (log_in-IsSafe name p target job) in
      let (ran, e, last) = serve-GoesOn s name xs q high good safe in
      rw e (behind first ran, refl, kept-IsSound (SomeLocked xs) first ran last)
  continue-GoesOn weather socks5 times p (gave_up attempts cause) high miner good alive target job
        sound =
      let (r, e) = down-returns (s.eof_count) (s.exit_on_pool_down) p alive in
      rw (sound.3 miner, e) (returned (r.0) (r.1), refl, tt)
  continue-GoesOn weather socks5 times p out_of_fuel high miner good alive target job sound =
      absurd sound

-- For a miner, at validation level 2 or above, Run does not panic: whatever the network does in the first
-- loop, and then for shares that name a job, fields of any bytes and any length, and ends of any cause, in
-- any order. It has returned, or waits for more with a proxy that is safe again, or waits for connMu; the
-- last only if somebody else has connMu when Run asks for it, as a Submit has whose share is accepted, or
-- NewJob waits for it. Run starts with an open proxy whose target is not set or well formed, and which has
-- no job yet or one with a whole blob; one round more than there are retries is enough for the first loop.
pub run-GoesOn :
    (weather : ℕ → Attempt) (socks5 : List ℕ) (try_pool_times : ℕ) (s : Setting) (name : List ℕ)
    (l : Holder) (xs : List (ℕ × Input)) (p : Proxy)
    → 2 ≤ s.level
    → is_detect name ≡ false
    → All IsInput xs
    → p.is_closed ≡ false
    → IsTarget (p.target)
    → IsJob (p.current_job)
    → GoesOn
        ((l ≢ free) ⊎ SomeLocked xs)
        (run (suc (retries try_pool_times)) weather socks5 try_pool_times s name l xs p)
unfolding run
run-GoesOn weather socks5 try_pool_times s name l xs p high miner good alive target job =
    let named = record p { miner_name = name } in
    let locked = (l ≢ free) ⊎ SomeLocked xs in
    lock-GoesOn locked l named _ (λ x. inl x)
      (wider-GoesOn (SomeLocked xs) locked _ (λ x. inr x)
        (continue-GoesOn s name xs weather socks5 (retries try_pool_times) named _ high miner good
          alive target job
          (acquire-IsSound weather socks5 (retries try_pool_times) name named alive)))
