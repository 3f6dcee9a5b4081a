-- ===== src/Proxy/Notify.antt =====
-- The fields that the pool sends, in proxy/proxy.go: handleNotification pairs them to jobs, handleJob and
-- broadcastJob pass a job on. A panic of the code is `none`.
pub mod Pairing
use xmrig2xdag.Common.{
  ℕ, zero, suc, ◌+◌, ◌-◌, ◌*◌, ◌%◌, ◌^◌, List, [], ◌∷◌, ◌++◌, Option, none, some, Bool, true, false,
  not, ◌&&◌, ◌||◌, ltb, leb, ◌==◌, if◌then◌else◌, length, replicate, codes, copy, copy_at, take,
  drop, list_eq,
}
use xmrig2xdag.Encoding.{be_value}
use xmrig2xdag.Common.Options.{◌>>=◌}
use xmrig2xdag.Xdag.Address.{hash2address}
use xmrig2xdag.Proxy.Job.{Job, next}
use xmrig2xdag.Proxy.State.{Proxy, Event, new_job, pool_up, max_uint64}
use xmrig2xdag.Proxy.Target.{Retarget, init_diff_count, set_target, create_job}
use xmrig2xdag.Proxy.Close.{shutdown, by_self}

abbrev pub detect_proxy : List ℕ
detect_proxy = codes "XDAG_POOL_RESTART_DETECT_PROXY"

-- Ten minutes in nanoseconds.
abbrev pub refresh_diff_interval : ℕ
refresh_diff_interval = 600 * 10 ^ 9

-- broadcastJob, once it has connMu: what it asks of the worker. Whether NewJob comes back is told by
-- Proxy.Mining.Delivery, and what becomes of Run if it does not by Proxy.Running.take.
unfoldable pub broadcast_job : Proxy → List Event
broadcast_job p =
    if p.is_closed then [] else if p.has_worker then new_job (p.current_job) ∷ [] else []

-- handleJob, at the time `now`.
unfoldable pub handle_job : ℕ → Job → Proxy → Proxy × List Event
unfolding broadcast_job
handle_job now job p =
    let rotated = record p {
      before_before_prev_job_id = p.before_prev_job_id;
      before_prev_job_id = p.prev_job_id;
      prev_job_id = p.current_job.id;
      current_job = job;
      mini_result = max_uint64;
      last_send = now;
    } in
    (rotated, broadcast_job rotated)

-- NextJob
unfoldable pub next_job : Proxy → Proxy × Job
next_job p = let (_, j) = next (p.current_job) in (record p { current_job = j }, j)

-- `p.currentJob.Blob == "" || p.currentJob.Blob[:32] != job.Blob[:32]`
abbrev pub other_block : List ℕ → List ℕ → Option Bool
other_block old new =
    if list_eq old []
    then some true
    else if ltb (length old) 32 || ltb (length new) 32
    then none
    else some (not (list_eq (take 32 old) (take 32 new)))

-- The second field of a pair makes a job: `now` is the time, `nonce` and `new_len` are the random values.
unfoldable pub second_field :
    Retarget → ℕ → ℕ → List ℕ → List ℕ → Proxy → Option (Proxy × List Event)
second_field retarget now nonce new_len field p = do
  let received = record p { recv_byte = copy_at (p.recv_byte) 32 64 field }
  retargeted ←
      if ltb (init_diff_count + 1) (p.shares) && leb refresh_diff_interval (now - p.target_since)
      then set_target retarget (p.shares) now received
      else some received
  let job = create_job nonce new_len (retargeted.recv_byte) retargeted
  other ← other_block (retargeted.current_job.blob) (job.blob)
  some (if other then handle_job now job retargeted else (retargeted, []))

-- handleNotification
unfoldable pub handle_notification :
    Retarget → ℕ → ℕ → List ℕ → List ℕ → Proxy → Option (Proxy × List Event)
handle_notification retarget now nonce new_len notif q =
    let field = copy (replicate 32 0) notif in
    let p = record q { field_in = (q.field_in + 1) % 2 ^ 64 } in
    if list_eq (hash2address field) (p.address)
    then some (record p { recv_count = 0 }, [])
    else if p.recv_count == 0
    then (if be_value (drop 24 field) == 0
        then some (p, [])
        else some (record p { recv_count = 1; recv_byte = copy_at (p.recv_byte) 0 32 field }, []))
    else if p.recv_count == 1
    then (if list_eq (p.address) detect_proxy
        then (shutdown 0 false by_self (record p { recv_count = 0 })
            >>= (λ (closed, events). some (closed, pool_up ∷ events)))
        else second_field retarget now nonce new_len field (record p { recv_count = 0 }))
    else some (p, [])
