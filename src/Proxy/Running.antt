-- ===== src/Proxy/Running.antt =====
-- Run and connect of proxy/proxy.go: how a proxy gets its connection to the pool, with retries, and the loop
-- in which it takes shares, fields and its end. A panic of the code is `none`. Who has connMu comes from outside.
pub mod Retries
pub mod Ends
pub mod Stream
pub mod Safe
mod Tests
use xmrig2xdag.Common.{
  ℕ, zero, suc, ◌+◌, ◌*◌, ◌%◌, ◌^◌, List, [], ◌∷◌, ◌++◌, Option, none, some, Bool, true, false, not,
  ◌&&◌, ◌||◌, ltb, leb, ◌==◌, if◌then◌else◌, length, replicate, codes, copy_at, list_eq,
}
use xmrig2xdag.Common.Options.{◌>>=◌}
use xmrig2xdag.Encoding.{le_bytes}
use xmrig2xdag.Proxy.Share.{Share, ShareError}
use xmrig2xdag.Proxy.State.{Proxy, Event, send_buff_msg, new_job}
use xmrig2xdag.Proxy.Locking.{Holder, free, by_submit, by_run}
use xmrig2xdag.Proxy.Target.{Retarget}
use xmrig2xdag.Proxy.Submit.{Answer, refused, unanswered, status_ok, handle_submit}
use xmrig2xdag.Proxy.Notify.{detect_proxy, handle_notification}
use xmrig2xdag.Proxy.Close.{Cause, by_self, pool_is_down, shutdown}
use xmrig2xdag.Stratum.Codec.{contains}

abbrev pub workername_header_word : ℕ
workername_header_word = 0xf46b9853

-- What the network does in one attempt: whether the proxy server, the way through it, or the direct way
-- fails, and the shared count poolIsDown before.
pub record Attempt : Type 0 where
  pub socks5_fails : Bool
  pub through_socks5_fails : Bool
  pub direct_fails : Bool
  pub pool_down : ℕ

-- The choice of the way, by the length of the configured address of a proxy server.
abbrev pub dial_fails : List ℕ → Attempt → Bool
dial_fails socks5 a =
    if ltb 11 (length socks5)
    then (if a.socks5_fails then true else a.through_socks5_fails)
    else a.direct_fails

-- The account, behind its length.
unfoldable pub account_message : Proxy → List ℕ
account_message p = copy_at (copy_at (replicate 28 0) 0 4 (le_bytes 4 24)) 4 28 (p.address_hash)

-- The name of the miner in a field of its own, behind the length of that.
unfoldable pub name_message : List ℕ → List ℕ
name_message miner_name =
    let field =
      copy_at (copy_at (replicate 32 0) 0 4 (le_bytes 4 workername_header_word)) 4 32 miner_name in
    copy_at (copy_at (replicate 36 0) 0 4 (le_bytes 4 32)) 4 36 field

-- The end of connect, on a connection.
unfoldable pub log_in : List ℕ → Proxy → Proxy × List Event
log_in miner_name p =
    let joined = record p { conn = some 0; field_out = (p.field_out + 16) % 2 ^ 64 } in
    if list_eq miner_name [] then (joined, send_buff_msg (account_message p) ∷ []) else (
      record joined { field_out = (joined.field_out + 1) % 2 ^ 64 },
      send_buff_msg (account_message p) ∷ send_buff_msg (name_message miner_name) ∷ [],
    )

-- connect: `none` is an error.
unfoldable pub connect : List ℕ → Attempt → List ℕ → Proxy → Option (Proxy × List Event)
connect socks5 a miner_name p =
    if p.is_closed then none else if dial_fails socks5 a then none else some (log_in miner_name p)

-- The number of retries, from the configuration.
abbrev pub retries : ℕ → ℕ
retries try_pool_times = if ltb 0 try_pool_times then try_pool_times else 3

-- How the first loop of Run ends: connected, or with shutdown for a cause; and how often it called connect.
pub data Acquired : Type 0 where
  connected : ℕ → Proxy → List Event → Acquired
  gave_up : ℕ → Cause → Acquired
  out_of_fuel : Acquired

abbrev pub is_detect : List ℕ → Bool
is_detect miner_name = list_eq miner_name detect_proxy

-- The first loop of Run: `weather` is what the network does, by the number of failures so far, `count`.
pub acquire : ℕ → (ℕ → Attempt) → List ℕ → ℕ → List ℕ → ℕ → Proxy → Acquired
acquire zero weather socks5 times name count p = out_of_fuel
acquire (suc fuel) weather socks5 times name count p =
    let again = acquire fuel weather socks5 times name (count + 1) p in
    if ltb 0 ((weather count).pool_down) && not (is_detect name)
    then gave_up count pool_is_down
    else elim (connect socks5 (weather count) name p) [
      | some joined ↦ connected (count + 1) (joined.0) (joined.1)
      | none ↦
          if ltb times (count + 1)
          then gave_up (count + 1) (if is_detect name then by_self else pool_is_down)
          else again
    ]

-- What the select of the second loop takes: a share with the times of handleSubmit, a field with the time and
-- the random values of handleNotification, or an end. It comes with who has connMu when the handler asks for
-- it, and a field with whether NewJob waits for connMu in its turn, which Proxy.Mining.Delivery tells.
pub data Input : Type 0 where
  submission : Holder → ℕ → ℕ → Share → Input
  notification : Holder → Bool → ℕ → ℕ → List ℕ → List ℕ → Input
  done : Holder → Cause → Input

-- What does not change while Run runs: the level of validation, the formula for targets, the text of an
-- error in small letters, the count of EOFs, and whether the program ends when the pool is down.
pub record Setting : Type 0 where
  pub level : ℕ
  pub retarget : Retarget
  pub lower_text : ShareError → List ℕ
  pub eof_count : ℕ
  pub exit_on_pool_down : Bool

-- Run has returned, waits for the next input, or waits for connMu, which whoever has it does not give back
-- before Run goes on.
pub data Ran : Type 0 where
  returned : Proxy → List Event → Ran
  waits : Proxy → List Event → Ran
  blocked : Proxy → Ran

abbrev pub ended : Option (Proxy × List Event) → Option Ran
ended r = r >>= (λ x. some (returned (x.0) (x.1)))

-- An answer that says that the address is banned.
abbrev pub banned : Setting → Answer → Bool
banned s (refused e) = contains (s.lower_text e) (codes "banned")
banned s status_ok = false
banned s unanswered = false

-- A handler that begins with connMu.Lock: shutdown and handleSubmit.
abbrev pub under_lock : Holder → Proxy → Option Ran → Option Ran
under_lock free p r = r
under_lock by_submit p r = some (blocked p)
under_lock by_run p r = some (blocked p)

-- handleNotification asks for connMu in broadcastJob, behind a new job, and in shutdown, and if the job goes to
-- a worker, NewJob may ask for it again.
abbrev pub asks_lock : Proxy → Proxy → Bool
asks_lock p q =
    not (list_eq (p.current_job.blob) (q.current_job.blob)) || (not (p.is_closed) && q.is_closed)

abbrev pub gives_job : List Event → Bool
gives_job (new_job j ∷ events) = true
gives_job _ = false

abbrev pub locked_out : Holder → Bool → Proxy → Proxy → List Event → Bool
locked_out free fails p q events = fails && gives_job events
locked_out by_submit fails p q events = asks_lock p q
locked_out by_run fails p q events = asks_lock p q

-- One round of the second loop.
unfoldable pub take : Setting → Input → Proxy → Option Ran
take s (submission l t later share) p = under_lock l p (
    handle_submit (s.level) (s.retarget) t later share p >>= (λ (q, events, answer).
      if banned s answer
      then (shutdown (s.eof_count) (s.exit_on_pool_down) by_self q
          >>= (λ (r, more). some (returned r (events ++ more))))
      else some (waits q events)))
take s (notification l fails now nonce new_len notif) p =
    handle_notification (s.retarget) now nonce new_len notif p
    >>= (λ (q, events). some (if locked_out l fails p q events then blocked q else waits q events))
take s (done l cause) p =
    under_lock l p (ended (shutdown (s.eof_count) (s.exit_on_pool_down) cause p))

-- What was done before, in front of what comes.
abbrev pub behind : List Event → Ran → Ran
behind first (returned r more) = returned r (first ++ more)
behind first (waits r more) = waits r (first ++ more)
behind first (blocked r) = blocked r

abbrev pub go_on : Ran → (Proxy → Option Ran) → Option Ran
go_on (returned q events) rest = some (returned q events)
go_on (blocked q) rest = some (blocked q)
go_on (waits q events) rest = rest q >>= (λ ran. some (behind events ran))

-- The second loop: each input comes with the shared count poolIsDown before it.
unfoldable pub serve : Setting → List ℕ → List (ℕ × Input) → Proxy → Option Ran
serve s name [] p = some (waits p [])
serve s name ((pool_down, i) ∷ inputs) p =
    if is_detect name && pool_down == 0
    then some (returned p [])
    else take s i p >>= (λ ran. go_on ran (serve s name inputs))

-- Run: the first loop for at most `fuel` rounds, which is `none` if they are not enough, and then the second.
-- `l` has connMu while the first loop runs, whose connect and shutdown ask for it: a Submit that comes before
-- the connection keeps it.
unfoldable pub run :
    ℕ
    → (ℕ → Attempt)
    → List ℕ
    → ℕ
    → Setting
    → List ℕ
    → Holder
    → List (ℕ × Input)
    → Proxy
    → Option Ran
run fuel weather socks5 try_pool_times s name l inputs p =
    let named = record p { miner_name = name } in
    under_lock l named (elim (acquire fuel weather socks5 (retries try_pool_times) name 0 named) [
      | connected attempts q first ↦ serve s name inputs q >>= (λ ran. some (behind first ran))
      | gave_up attempts cause ↦ ended (shutdown (s.eof_count) (s.exit_on_pool_down) cause named)
      | out_of_fuel ↦ none
    ])
