-- ===== src/Proxy/Mining.antt =====
-- proxy/mining.go with tcp/worker.go: the requests of a miner, and the worker that stands between its
-- connection and its proxy. A panic of the code is `none`; net/rpc runs each request in a goroutine that
-- does not recover from one, so that it ends the process.
pub mod Login
pub mod Crashes
pub mod Request
pub mod Delivery
mod Tests
use xmrig2xdag.Common.{
  ℕ, List, [], ◌∷◌, Option, none, some, Bool, true, false, ltb, if◌then◌else◌, codes, list_eq,
}
use xmrig2xdag.Common.Options.{◌>>=◌}
use xmrig2xdag.Base58.Check.{Sha256}
use xmrig2xdag.Stratum.Json.{Json, null, bool, number, string, array, object, members, get_member}
use xmrig2xdag.Stratum.Codec.{Target}
use xmrig2xdag.Proxy.Job.{Job}
use xmrig2xdag.Proxy.Share.{Value, text, other, ShareError}
use xmrig2xdag.Proxy.State.{Proxy, Event}
use xmrig2xdag.Proxy.Account.{AccountError, set_address}
use xmrig2xdag.Proxy.Notify.{next_job}
use xmrig2xdag.Proxy.Submit.{Submission, submit, Answer, status_ok, refused, unanswered}
use xmrig2xdag.Proxy.Close.{close, remove}

-- Worker of tcp/worker.go. It belongs to one proxy, which it knows until it is nil.
pub record Worker : Type 0 where
  pub id : ℕ
  pub has_proxy : Bool
  pub conn_closed : Bool

-- A worker and its proxy.
pub record Session : Type 0 where
  pub worker : Worker
  pub proxy : Proxy

-- SpawnWorker and Add: the worker gets the id of its new proxy.
unfoldable pub spawn_worker : Proxy → Session
spawn_worker p = record {
  worker = record { id = p.id; has_proxy = true; conn_closed = false };
  proxy = record p { has_worker = true };
}

-- Worker.RemoveProxy
unfoldable pub remove_proxy : Session → Session × List Event
remove_proxy s =
    if s.worker.has_proxy
    then (
      record { worker = record s.worker { has_proxy = false }; proxy = (close (s.proxy)).0 },
      (close (s.proxy)).1,
    )
    else (s, [])

-- Worker.Close
unfoldable pub close_worker : Worker → Worker
close_worker w = record w { has_proxy = false; conn_closed = true }

-- A value in the parameters of a request: the context, or JSON.
pub data Entry : Type 0 where
  context : Entry
  json : Json → Entry

-- PassThruParams: a map, or nil.
pub data PassThruParams : Type 0 where
  nil_map : PassThruParams
  entries : (List ℕ → Option Entry) → PassThruParams

-- `v, ok := p[key]`
abbrev pub get : List ℕ → PassThruParams → Option Entry
get key nil_map = none
get key (entries m) = m key

abbrev pub ctx : List ℕ
ctx = codes "ctx"

-- SetContext
unfoldable pub set_context : PassThruParams → PassThruParams
set_context p = entries (λ key. if list_eq ctx key then some context else get key p)

-- What the JSON decoder does with the map: the members of an object go over what is there.
unfoldable pub unmarshal_params : Json → PassThruParams → Option PassThruParams
unmarshal_params null p = some nil_map
unmarshal_params (object fs) p = some (
    entries
      (λ key. elim (get_member key (members fs)) [ some v ↦ some (json v) | none ↦ get key p ]))
unmarshal_params (bool _) p = none
unmarshal_params (number _) p = none
unmarshal_params (string _) p = none
unmarshal_params (array _) p = none

abbrev pub params_target : Target PassThruParams
params_target = record { set_context = set_context; unmarshal = unmarshal_params }

-- Context and getWorker: no context, or another value in its place, is a panic.
unfoldable pub get_worker : PassThruParams → Option (Unit {0})
get_worker p = elim (get ctx p) [
  | none ↦ none
  | some entry ↦ elim entry [ context ↦ some tt | json _ ↦ none ]
]

pub data LoginError : Type 0 where
  pool_is_down no_login_param : LoginError
  bad_account : AccountError → LoginError

-- LoginReply. The id is written in decimal digits.
pub record LoginReply : Type 0 where
  pub id : ℕ
  pub job : Option Job
  pub status : List ℕ
  pub error : Option LoginError

-- What Login leaves: the session, its reply, its error, what is done outside, and the name of the miner with
-- which Run is started, if it is.
pub record LoginResult : Type 0 where
  pub session : Session
  pub reply : LoginReply
  pub error : Option LoginError
  pub events : List Event
  pub started : Option (List ℕ)

-- A login that is turned down removes the proxy. The reply to it has the id and the error.
unfoldable pub turn_down : LoginError → Session → LoginResult
turn_down e s = record {
  session = (remove_proxy s).0;
  reply = record { id = s.worker.id; job = none; status = []; error = some e };
  error = some e;
  events = (remove_proxy s).1;
  started = none;
}

-- `v.(string)`
unfoldable pub as_text : Entry → Option (List ℕ)
as_text context = none
as_text (json (string t)) = some t
as_text (json null) = none
as_text (json (bool _)) = none
as_text (json (number _)) = none
as_text (json (array _)) = none
as_text (json (object _)) = none

-- The name of the miner, from its password.
unfoldable pub miner_name : PassThruParams → Option (List ℕ)
miner_name p = elim (get (codes "pass") p) [
  | none ↦ some []
  | some entry ↦ as_text entry >>= (λ t. some (if list_eq t (codes "x") then [] else t))
]

-- The account of the miner. SetAddress is called on a nil proxy if the worker has none, which it finds out
-- only when the account is good.
unfoldable pub set_account : Sha256 → List ℕ → Session → Option (Session × Option AccountError)
set_account sha address s = elim ((set_address sha address (s.proxy)).1) [
  | some e ↦ some (s, some e)
  | none ↦
      if s.worker.has_proxy
      then some (record s { proxy = (set_address sha address (s.proxy)).0 }, none)
      else none
]

-- The end of Login, for a good account: `job` is the result of createFakeJob.
unfoldable pub start_run : Job → PassThruParams → Session → Option LoginResult
start_run job p s = miner_name p >>= (λ name. some (record {
  session = s;
  reply = record { id = s.worker.id; job = some job; status = codes "OK"; error = none };
  error = none;
  events = [];
  started = some name;
}))

-- Login: `pool_down` is the shared count.
unfoldable pub login : Sha256 → ℕ → Job → PassThruParams → Session → Option LoginResult
login sha pool_down job p s = get_worker p >>= (λ _.
    if ltb 0 pool_down then some (turn_down pool_is_down s) else elim (get (codes "login") p) [
      | none ↦ some (turn_down no_login_param s)
      | some entry ↦ do
        address ← as_text entry
        (s', error) ← set_account sha address s
        elim error [ some e ↦ some (turn_down (bad_account e) s') | none ↦ start_run job p s' ]
    ])

-- Getjob, which uses the proxy whether there is one or not.
unfoldable pub getjob : PassThruParams → Session → Option (Session × Job)
getjob p s = get_worker p >>= (λ _.
    if s.worker.has_proxy
    then some (record s { proxy = (next_job (s.proxy)).0 }, (next_job (s.proxy)).1)
    else none)

-- A parameter as the share's constructor sees it.
abbrev pub param_value : PassThruParams → List ℕ → Option Value
param_value p key = elim (get key p) [
  | none ↦ none
  | some entry ↦ elim (as_text entry) [ some t ↦ some (text t) | none ↦ some other ]
]

-- Submit, up to the share that goes to Run.
unfoldable pub submit_share : PassThruParams → Session → Option Submission
submit_share p s =
    get_worker p >>= (λ _. if s.worker.has_proxy then submit (param_value p) (s.proxy) else none)

-- StatusReply, or the error, or that the request waits for good.
pub data StatusReply : Type 0 where
  status : List ℕ → StatusReply
  submit_error : ShareError → StatusReply
  waits : StatusReply

-- Submit, behind Run's answer.
unfoldable pub reply_to : Answer → StatusReply
reply_to status_ok = status (codes "OK")
reply_to (refused e) = submit_error e
reply_to unanswered = waits

-- Keepalived
unfoldable pub keepalived : PassThruParams → StatusReply
keepalived p = status (codes "KEEPALIVED")
