-- ===== src/Proxy/Running/Ends.antt =====
-- How Run of proxy/proxy.go returns.
use xmrig2xdag.Common.{
  ℕ, ◌≡◌, sym, ap, ◌∙◌, List, [], ◌∷◌, ◌++◌, Option, some, true, false, Bool-cases, inl, inr,
}
use xmrig2xdag.Common.Options.{>>=-eq-some, some-injective}
use xmrig2xdag.Proxy.State.{Proxy, Event}
use xmrig2xdag.Proxy.Submit.{handle_submit}
use xmrig2xdag.Proxy.Notify.{handle_notification}
use xmrig2xdag.Proxy.Close.{Cause, by_self, shutdown}
use xmrig2xdag.Proxy.Close.Once.{by_shutdown, end_by-removals, closed_stays}
use xmrig2xdag.Proxy.Locking.{free, by_submit, by_run}
use xmrig2xdag.Proxy.Share.{Share}
use xmrig2xdag.Proxy.Running.{
  Input, submission, notification, done, Setting, Ran, returned, waits, blocked, locked_out, banned,
  take, serve, go_on, behind, is_detect,
}

-- Run has returned from a closed proxy, if it has returned.
abbrev ClosedIfReturned : Ran → Type 0
ClosedIfReturned (returned q events) = q.is_closed ≡ true
ClosedIfReturned (waits q events) = Unit
ClosedIfReturned (blocked q) = Unit

found : (r r' : Ran) → some r ≡ some r' → ClosedIfReturned r → ClosedIfReturned r'
found r r' e h = rw (sym (some-injective e)) h

shutdown-closed :
    (n : ℕ) (cause : Cause) (p : Proxy) (r : Proxy × List Event)
    → shutdown n false cause p ≡ some r
    → r.0.is_closed ≡ true
shutdown-closed n cause p r h = elim (Bool-cases (p.is_closed)) [
  | inl closed ↦
      let same = some-injective (sym (closed_stays (by_shutdown n cause) p closed) ∙ h) in
      ap (λ x. x.0.is_closed) (sym same) ∙ closed
  | inr alive ↦ (end_by-removals (by_shutdown n cause) p r alive h).1
]

module _ (s : Setting) (stays : s.exit_on_pool_down ≡ false) where
  stopped :
      (cause : Cause) (p : Proxy) (r : Proxy × List Event)
      → shutdown (s.eof_count) (s.exit_on_pool_down) cause p ≡ some r
      → r.0.is_closed ≡ true
  stopped cause p r h =
      shutdown-closed (s.eof_count) cause p r
        (ap (λ b. shutdown (s.eof_count) b cause p) (sym stays) ∙ h)

  share-ClosedIfReturned :
      (t later : ℕ) (share : Share) (p : Proxy) (ran : Ran)
      → take s (submission free t later share) p ≡ some ran
      → ClosedIfReturned ran
  unfolding take
  share-ClosedIfReturned t later share p ran h =
      let (x, _, rest) = >>=-eq-some (handle_submit (s.level) (s.retarget) t later share p) _ h in
      elim (Bool-cases (banned s (x.2))) [
        | inl bad ↦
            let (r, shut, e) =
              >>=-eq-some (shutdown (s.eof_count) (s.exit_on_pool_down) by_self (x.0)) _
                (rw bad at rest) in
            found (returned (r.0) (x.1 ++ r.1)) ran e (stopped by_self (x.0) r shut)
        | inr fine ↦ found (waits (x.0) (x.1)) ran (rw fine at rest) tt
      ]

  take-ClosedIfReturned :
      (i : Input) (p : Proxy) (ran : Ran) → take s i p ≡ some ran → ClosedIfReturned ran
  unfolding take
  take-ClosedIfReturned (submission free t later share) p ran h =
      share-ClosedIfReturned t later share p ran h
  take-ClosedIfReturned (submission by_submit t later share) p ran h = found (blocked p) ran h tt
  take-ClosedIfReturned (submission by_run t later share) p ran h = found (blocked p) ran h tt
  take-ClosedIfReturned (notification l fails now nonce new_len notif) p ran h =
      let (x, _, e) =
        >>=-eq-some (handle_notification (s.retarget) now nonce new_len notif p) _ h in
      elim (Bool-cases (locked_out l fails p (x.0) (x.1))) [
        | inl stop ↦ found (blocked (x.0)) ran (rw stop at e) tt
        | inr go ↦ found (waits (x.0) (x.1)) ran (rw go at e) tt
      ]
  take-ClosedIfReturned (done free cause) p ran h =
      let (r, shut, e) = >>=-eq-some (shutdown (s.eof_count) (s.exit_on_pool_down) cause p) _ h in
      found (returned (r.0) (r.1)) ran e (stopped cause p r shut)
  take-ClosedIfReturned (done by_submit cause) p ran h = found (blocked p) ran h tt
  take-ClosedIfReturned (done by_run cause) p ran h = found (blocked p) ran h tt

  after :
      (one ran : Ran) (rest : Proxy → Option Ran)
      → ClosedIfReturned one
      → ((q : Proxy) (r : Ran) → rest q ≡ some r → ClosedIfReturned r)
      → go_on one rest ≡ some ran
      → ClosedIfReturned ran
  after (returned q events) ran rest closed more h = found (returned q events) ran h closed
  after (blocked q) ran rest closed more h = found (blocked q) ran h tt
  after (waits q events) ran rest closed more h =
      let (r, e, last) = >>=-eq-some (rest q) _ h in
      found (behind events r) ran last (kept r (more q r e))
    where
      kept : (r : Ran) → ClosedIfReturned r → ClosedIfReturned (behind events r)
      kept (returned q' more') c = c
      kept (waits q' more') c = tt
      kept (blocked q') c = tt

  serve-ClosedIfReturned :
      (name : List ℕ) (inputs : List (ℕ × Input)) (p : Proxy) (ran : Ran)
      → is_detect name ≡ false
      → serve s name inputs p ≡ some ran
      → ClosedIfReturned ran
  unfolding serve
  serve-ClosedIfReturned name [] p ran other h = found (waits p []) ran h tt
  serve-ClosedIfReturned name ((n, i) ∷ inputs) p ran other h =
      let (one, taken, rest) = >>=-eq-some (take s i p) _ (rw (other, serve) at h) in
      after one ran (serve s name inputs) (take-ClosedIfReturned i p one taken)
        (λ q r. serve-ClosedIfReturned name inputs q r other) rest

-- For a miner's proxy, in a program that goes on when the pool is down: whatever shares, fields and ends come,
-- Run returns only when the proxy is closed.
pub serve-closed :
    (s : Setting) (name : List ℕ) (inputs : List (ℕ × Input)) (p q : Proxy) (events : List Event)
    → s.exit_on_pool_down ≡ false
    → is_detect name ≡ false
    → serve s name inputs p ≡ some (returned q events)
    → q.is_closed ≡ true
serve-closed s name inputs p q events stays other h =
    serve-ClosedIfReturned s stays name inputs p (returned q events) other h
