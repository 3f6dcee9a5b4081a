-- ===== src/Proxy/Detect.antt =====
-- proxy/detect.go: the proxy that asks, every ten minutes, whether the pool is up again.
pub mod NeverUp
mod Tests
use xmrig2xdag.Common.{
  ℕ, suc, ◌+◌, ◌%◌, ◌^◌, ◌≡◌, refl, sym, ap, ◌∙◌, List, [], ◌∷◌, ◌++◌, Option, none, some, Bool,
  true, false, not, ◌&&◌, ltb, leb, ◌==◌, if◌then◌else◌, codes, list_eq, replicate, copy, copy_at,
  drop, take, length, Bool-cases, Option-cases, inl, inr, arith,
}
use xmrig2xdag.Common.Options.{◌>>=◌, >>=-eq-some}
use xmrig2xdag.Encoding.{be_value}
use xmrig2xdag.Xdag.Address.{hash2address}
use xmrig2xdag.Proxy.Job.{Job}
use xmrig2xdag.Proxy.State.{Proxy, Event, new_proxy, pool_up, pool_down, new_job}
use xmrig2xdag.Proxy.Target.{Retarget, set_target, create_job, init_diff_count}
use xmrig2xdag.Proxy.Notify.{
  handle_notification, second_field, handle_job, broadcast_job, detect_proxy, other_block,
  refresh_diff_interval,
}
use xmrig2xdag.Proxy.Running.{is_detect}

abbrev pub detect_addr : List ℕ
detect_addr = codes "NO_ADDRESS_PROXY_0"

-- The counts that all proxies share: poolIsDown, eofCount, and PoolDown of the package xdag.
pub record Shared : Type 0 where
  pub pool_is_down : ℕ
  pub eof_count : ℕ
  pub conn_pool_down : ℕ

-- The proxy that PoolDetect makes, at the time `now`, with the result of NewLen(28).
unfoldable pub detecting : ℕ → List ℕ → Proxy
detecting now new_len = record (new_proxy 0 now new_len) { address = detect_addr }

-- What a tick of the timer does: nothing, the end of the program, or Run with the name of the detect proxy.
pub data Tick : Type 0 where
  idle exits : Tick
  runs : Shared → Proxy → Tick

unfoldable pub tick : Bool → Shared → Proxy → Tick
tick exit_on_pool_down s p =
    if ltb 0 (s.pool_is_down)
    then (if exit_on_pool_down
        then exits
        else runs (record s { eof_count = 0; conn_pool_down = 0 })
            (record p { field_in = 0; field_out = 0; recv_count = 0; is_closed = false }))
    else idle

-- A field of the pool, with the time and the random values of handleNotification.
pub record Field : Type 0 where
  pub now : ℕ
  pub nonce : ℕ
  pub new_len : List ℕ
  pub bytes : List ℕ

-- The fields that come, one after the other.
abbrev pub notify_all : Retarget → List Field → Proxy → Option (Proxy × List Event)
notify_all retarget [] p = some (p, [])
notify_all retarget (f ∷ fs) p =
    handle_notification retarget (f.now) (f.nonce) (f.new_len) (f.bytes) p
    >>= (λ r. notify_all retarget fs (r.0) >>= (λ more. some (more.0, r.1 ++ more.1)))

-- What the events make of the shared count poolIsDown.
abbrev pub pool_after : ℕ → List Event → ℕ
pool_after n [] = n
pool_after n (pool_up ∷ events) = pool_after 0 events
pool_after n (pool_down ∷ events) = pool_after ((n + 1) % 2 ^ 64) events
pool_after n (_ ∷ events) = pool_after n events
