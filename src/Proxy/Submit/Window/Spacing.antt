-- ===== src/Proxy/Submit/Window/Spacing.antt =====
-- The messages of a series of shares, in proxy/proxy.go.
use xmrig2xdag.Common.{ℕ, ◌+◌, ◌≡◌, ◌≤◌, sym, ap, List, [], ◌∷◌, ◌++◌, map, Option, some, inl, inr}
use xmrig2xdag.Common.Options.{◌>>=◌, >>=-eq-some, some-injective}
use xmrig2xdag.Proxy.Share.{Share}
use xmrig2xdag.Proxy.State.{Proxy, Event}
use xmrig2xdag.Proxy.Target.{Retarget}
use xmrig2xdag.Proxy.Submit.{handle_submit, send_interval}
use xmrig2xdag.Proxy.Submit.Window.{IsTimely, handle_submit-IsTimely}

-- A share, with the two times at which handleSubmit reads the clock.
abbrev pub Request : Type 0
Request = ℕ × ℕ × Share

-- The case of Run's loop for shares, as often as there are shares; the messages with their times.
abbrev pub submit_all : ℕ → Retarget → List Request → Proxy → Option (Proxy × List (ℕ × Event))
submit_all level retarget [] p = some (p, [])
submit_all level retarget ((t, later, s) ∷ rest) p =
    handle_submit level retarget t later s p >>= (λ r.
      submit_all level retarget rest (r.0)
      >>= (λ more. some (more.0, map (λ (e : Event). (t, e)) (r.1) ++ more.1)))

-- Each time is four seconds or more after the one before it, the first one after `last`.
abbrev pub IsSpaced : ℕ → List (ℕ × Event) → Type 0
IsSpaced last [] = Unit
IsSpaced last ((t, e) ∷ rest) = (last + send_interval ≤ t) × IsSpaced t rest

step-IsSpaced :
    (t : ℕ) (p q : Proxy) (events : List Event) (more : List (ℕ × Event))
    → IsTimely t p q events
    → IsSpaced (q.last_send) more
    → IsSpaced (p.last_send) (map (λ (e : Event). (t, e)) events ++ more)
step-IsSpaced t p q events more (inl (none_sent, same)) h = rw (none_sent, sym same) h
step-IsSpaced t p q events more (inr (late, now, (message, sent))) h = rw sent (late, rw now at h)

-- However the shares come, and whatever they are, the pool gets at most one message in four seconds.
pub submit_all-IsSpaced :
    (level : ℕ) (retarget : Retarget) (requests : List Request) (p q : Proxy)
    (sent : List (ℕ × Event))
    → submit_all level retarget requests p ≡ some (q, sent)
    → IsSpaced (p.last_send) sent
submit_all-IsSpaced level retarget [] p q sent e = rw (ap (λ r. r.1) (sym (some-injective e))) tt
submit_all-IsSpaced level retarget ((t, later, s) ∷ rest) p q sent e =
    let (r, first, e1) = >>=-eq-some (handle_submit level retarget t later s p) _ e in
    let (more, others, e2) = >>=-eq-some (submit_all level retarget rest (r.0)) _ e1 in
    rw (ap (λ x. x.1) (sym (some-injective e2))) (
      step-IsSpaced t p (r.0) (r.1) (more.1)
        (handle_submit-IsTimely level retarget t later s p (r.0) (r.1) (r.2) first)
        (submit_all-IsSpaced level retarget rest (r.0) (more.0) (more.1) others))
