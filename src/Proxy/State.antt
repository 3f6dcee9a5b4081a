-- ===== src/Proxy/State.antt =====
-- The state of a proxy, of proxy/proxy.go, and what it does to the world: its pool connection, its worker,
-- the director, and the counters that all proxies share. A clock gives nanoseconds.
use xmrig2xdag.Common.{ℕ, ◌-◌, ◌^◌, List, [], Option, none, Bool, false, replicate}
use xmrig2xdag.Proxy.Job.{Job, empty_job}

abbrev pub max_uint64 : ℕ
max_uint64 = 2 ^ 64 - 1

-- The channels submissions, notify and done stand for the calls of the handlers.
pub record Proxy : Type 0 where
  pub id : ℕ
  -- The pool connection by its number of EOFs, nil before `connect` and after the end.
  pub conn : Option ℕ
  pub shares : ℕ
  pub has_worker : Bool
  pub current_job : Job
  pub prev_job_id : List ℕ
  pub before_prev_job_id : List ℕ
  pub before_before_prev_job_id : List ℕ
  pub is_closed : Bool
  pub address_hash : List ℕ
  pub address : List ℕ
  pub field_out : ℕ
  pub field_in : ℕ
  pub recv_count : ℕ
  pub recv_byte : List ℕ
  pub target : List ℕ
  pub target_since : ℕ
  pub last_send : ℕ
  pub mini_result : ℕ
  pub mini_nonce : ℕ
  pub target_share : ℕ
  pub miner_name : List ℕ

-- NewProxy: `now` is the time, `new_len` the result of NewLen(28).
unfoldable pub new_proxy : ℕ → ℕ → List ℕ → Proxy
new_proxy id now new_len = record {
  id = id;
  conn = none;
  shares = 0;
  has_worker = false;
  current_job = empty_job;
  prev_job_id = new_len;
  before_prev_job_id = [];
  before_before_prev_job_id = [];
  is_closed = false;
  address_hash = replicate 24 0;
  address = [];
  field_out = 0;
  field_in = 0;
  recv_count = 0;
  recv_byte = replicate 64 0;
  target = [];
  target_since = 0;
  last_send = now;
  mini_result = max_uint64;
  mini_nonce = 0;
  target_share = 0;
  miner_name = [];
}

-- What a handler does outside its proxy, in order.
pub data Event : Type 0 where
  -- Conn.SendBuffMsg
  send_buff_msg : List ℕ → Event
  close_conn close_worker : Event
  -- worker.NewJob
  new_job : Job → Event
  -- director.removeProxy
  leave_director : ℕ → Event
  -- eofCount.Add(1), poolIsDown.Add(1), poolIsDown.Store(0)
  count_eof pool_down pool_up : Event
  -- os.Exit(1)
  exit : Event
