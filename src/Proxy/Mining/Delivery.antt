-- ===== src/Proxy/Mining/Delivery.antt =====
-- How a job gets from proxy/proxy.go to a miner, through NewJob of tcp/worker.go, and what happens if the
-- miner is gone. A goroutine that waits for a mutex that it holds itself is `none`.
use xmrig2xdag.Common.{
  ◌≡◌, ◌↔◌, refl, List, [], ◌∷◌, Option, none, some, Bool, true, false, if◌then◌else◌, Bool-cases,
  inl, inr, arith,
}
use xmrig2xdag.Proxy.State.{Proxy, Event, new_job as new_job_event}
use xmrig2xdag.Proxy.Close.{remove}
use xmrig2xdag.Proxy.Notify.{broadcast_job}
use xmrig2xdag.Proxy.Mining.{Session}

-- Disconnect; `held` says that the goroutine has connMu, which Remove locks.
unfoldable pub disconnect : Bool → Session → Option (Session × List Event)
disconnect held s =
    let closed = record s.worker { conn_closed = true } in
    if s.worker.has_proxy
    then (if held
        then none
        else some (
          record { worker = record closed { has_proxy = false }; proxy = (remove (s.proxy)).0 },
          (remove (s.proxy)).1,
        ))
    else some (record s { worker = closed }, [])

-- NewJob; `fails` says that Notify returns an error.
unfoldable pub new_job : Bool → Bool → Session → Option (Session × List Event)
new_job held fails s = if fails then disconnect held s else some (s, [])

-- What becomes of the events of broadcastJob, which holds connMu.
unfoldable pub deliver : Bool → List Event → Session → Option (Session × List Event)
deliver fails (new_job_event _ ∷ _) s = new_job true fails s
deliver fails _ s = some (s, [])

-- broadcastJob, with the worker's part.
unfoldable pub broadcast : Bool → Session → Option (Session × List Event)
unfolding deliver
broadcast fails s = deliver fails (broadcast_job (s.proxy)) s

remove-closed : (p : Proxy) → (remove p).0.is_closed ≡ true
unfolding remove
remove-closed p = elim (Bool-cases (p.is_closed)) [
  | inl e ↦ rw (e, remove) refl
  | inr e ↦ rw (e, remove) refl
]

broadcast-none :
    (fails : Bool) (s : Session) (a b c : Bool)
    → s.proxy.is_closed ≡ a
    → s.proxy.has_worker ≡ b
    → s.worker.has_proxy ≡ c
    → (broadcast fails s ≡ none) ↔ ((a ≡ false) × (b ≡ true) × (c ≡ true) × (fails ≡ true))
unfolding broadcast broadcast_job new_job disconnect deliver
broadcast-none fails s a b c ea eb ec = (λ h. ground arith, λ h. ground arith)

-- To give a job to a miner blocks the goroutine of Run for good, with connMu locked, exactly if the proxy is
-- open and has its worker, the worker has its proxy, and the message to the miner fails.
pub broadcast-blocks :
    (fails : Bool) (s : Session)
    → (broadcast fails s ≡ none) ↔ (
        (s.proxy.is_closed ≡ false)
        × (s.proxy.has_worker ≡ true)
        × (s.worker.has_proxy ≡ true)
        × (fails ≡ true))
broadcast-blocks fails s = broadcast-none fails s _ _ _ refl refl refl
