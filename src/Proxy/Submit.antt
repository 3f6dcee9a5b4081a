-- ===== src/Proxy/Submit.antt =====
-- The way of a share through proxy/proxy.go: Submit takes it from the miner, and handleSubmit sends the
-- best share of four seconds to the pool. A panic of the code is `none`.
pub mod Accepted
pub mod Window
pub mod Returns
use xmrig2xdag.Common.{
  ℕ, zero, suc, ◌+◌, ◌-◌, ◌*◌, ◌%◌, ◌^◌, List, [], ◌∷◌, ◌++◌, Option, none, some, Bool, true, false,
  not, ◌&&◌, ◌||◌, ltb, leb, ◌==◌, if◌then◌else◌, length, replicate, codes, copy, copy_at, slice,
  take, drop, list_eq, has_prefix,
}
use xmrig2xdag.Encoding.{le_bytes, le_value, decode_string}
use xmrig2xdag.Common.Options.{◌>>=◌}
use xmrig2xdag.Proxy.Job.{Job}
use xmrig2xdag.Proxy.Share.{
  Share, ShareError, Value, new_share, validate, bad_job_id, malformed_share, no_client,
}
use xmrig2xdag.Proxy.State.{Proxy, Event, send_buff_msg, max_uint64}
use xmrig2xdag.Proxy.Target.{
  uint64, uint32, Retarget, init_diff_count, set_target, create_share, make_share,
}

abbrev pub fake_prefix : List ℕ
fake_prefix = codes "FFFFFFFFFF"

-- Four seconds in nanoseconds.
abbrev pub send_interval : ℕ
send_interval = 4 * 10 ^ 9

-- validateShare, at the validation level of the configuration.
unfoldable pub validate_share : ℕ → Share → Proxy → Option ShareError
validate_share level s p =
    if list_eq (s.job_id) (p.current_job.id)
    then validate level s (p.current_job)
    else if list_eq (s.job_id) (p.prev_job_id)
    then validate level s (p.current_job)
    else some bad_job_id

-- `resBytes[len(resBytes)-8:]` as a number.
abbrev pub last_value : List ℕ → Option ℕ
last_value bytes = if ltb (length bytes) 8 then none else uint64 (drop (length bytes - 8) bytes)

-- The 36 bytes that carry a share.
abbrev pub with_header : List ℕ → List ℕ
with_header share_bytes = copy_at (copy_at (replicate 36 0) 0 4 (le_bytes 4 32)) 4 36 share_bytes

-- The better of this share and the one that was kept.
unfoldable pub better_share : ℕ → Share → Proxy → Option (List ℕ)
better_share result s p =
    if ltb result (p.mini_result)
    then create_share s p
    else make_share (p.mini_result) (p.mini_nonce) p

-- The better one goes to the pool.
unfoldable pub send : ℕ → ℕ → Share → Proxy → Option (Proxy × List Event)
send t result s p = do
  share_bytes ← better_share result s p
  some (
    record p { field_out = (p.field_out + 1) % 2 ^ 64; mini_result = max_uint64; last_send = t },
    send_buff_msg (with_header share_bytes) ∷ [],
  )

-- A share within the interval is kept if it is better than the one that is.
unfoldable pub keep : ℕ → Share → Proxy → Option (Proxy × List Event)
keep result s p =
    let (nonce_bytes, _) = decode_string (s.nonce) in
    if ltb result (p.mini_result)
    then uint32 nonce_bytes
      >>= (λ nonce. some (record p { mini_result = result; mini_nonce = nonce }, []))
    else some (p, [])

-- The number by which shares are compared: the last eight bytes of the result.
abbrev pub share_value : Share → Option ℕ
share_value s = last_value ((decode_string (s.result)).0)

-- The part of handleSubmit under jobMu, at the time `t`.
unfoldable pub send_or_keep : ℕ → Share → Proxy → Option (Proxy × List Event)
send_or_keep t s p = do
  result ← share_value s
  if leb send_interval (t - p.last_send) then send t result s p else keep result s p

-- The part that counts the share, at the time `now`.
unfoldable pub count_share : Retarget → ℕ → Proxy → Option Proxy
count_share retarget now p =
    let counted = record p { shares = (p.shares + 1) % 2 ^ 64 } in
    if counted.shares == 1
    then some (record counted { target_since = now })
    else if counted.shares == init_diff_count + 1
    then set_target retarget (counted.shares) now counted
    else some counted

-- What the miner's request waits for: nothing comes from a closed proxy, else an error or the status OK.
pub data Answer : Type 0 where
  unanswered : Answer
  status_ok : Answer
  refused : ShareError → Answer

-- The test for a share of the job that the proxy mines.
abbrev pub for_current_job : Share → Proxy → Bool
for_current_job s p =
    not (has_prefix (s.job_id) fake_prefix) && list_eq (s.job_id) (p.current_job.id)

-- handleSubmit, once it has connMu, for which Run waits (Proxy.Running.take). The clock is read at `t` for the
-- share and at `later` for the count.
unfoldable pub handle_submit :
    ℕ → Retarget → ℕ → ℕ → Share → Proxy → Option (Proxy × List Event × Answer)
handle_submit level retarget t later s p =
    if p.is_closed then some (p, [], unanswered) else elim (p.conn) [
      | none ↦ some (p, [], refused no_client)
      | some _ ↦
          if for_current_job s p
          then elim (validate_share level s p) [
            | some e ↦ some (p, [], refused e)
            | none ↦ do
              (sent, events) ← send_or_keep t s p
              counted ← count_share retarget later sent
              some (counted, events, status_ok)
          ]
          else (count_share retarget later p >>= (λ counted. some (counted, [], status_ok)))
    ]

-- The job ids that Submit takes.
abbrev pub known_job_id : List ℕ → Proxy → Bool
known_job_id job_id p =
    list_eq job_id (p.current_job.id)
    || list_eq job_id (p.prev_job_id)
    || has_prefix job_id fake_prefix
    || list_eq job_id (p.before_prev_job_id)
    || list_eq job_id (p.before_before_prev_job_id)

-- Submit up to the channel: the share that goes to handleSubmit, or the error.
pub data Submission : Type 0 where
  queued : Share → Submission
  turned_down : ShareError → Submission

unfoldable pub submit : (List ℕ → Option Value) → Proxy → Option Submission
submit params p = if p.is_closed then some (turned_down bad_job_id) else do
  s ← new_share params
  some (
      if list_eq (s.job_id) []
      then turned_down bad_job_id
      else if list_eq (s.nonce) []
      then turned_down malformed_share
      else if known_job_id (s.job_id) p
      then queued s
      else turned_down bad_job_id)
