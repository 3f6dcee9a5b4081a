-- ===== src/Proxy/Running/Stream.antt =====
-- The way of the pool's fields through the program: from the stream that StartReader of xdag/connect.go reads,
-- through the channel jobNotify and Run of proxy/proxy.go, to the worker.
pub mod Pairs
pub mod Delivered
use xmrig2xdag.Common.{
  ℕ, ◌+◌, ◌≡◌, ◌≢◌, ◌⊎◌, ◌≤◌, List, [], ◌∷◌, ◌++◌, true, false, length, take, drop,
}
use xmrig2xdag.Encoding.{be_bytes, be_value, encode_to_string}
use xmrig2xdag.Xdag.Address.{hash2address}
use xmrig2xdag.Xdag.Connection.Reader.{IsField}
use xmrig2xdag.Proxy.Job.{Job}
use xmrig2xdag.Proxy.State.{Proxy, Event, new_job}
use xmrig2xdag.Proxy.Notify.{detect_proxy}
use xmrig2xdag.Proxy.Locking.{free}
use xmrig2xdag.Proxy.Running.{Input, notification}

-- What a round of Run meets when it takes a field: the count poolIsDown, the time, and the random values.
pub record Moment : Type 0 where
  pub pool_down : ℕ
  pub now : ℕ
  pub nonce : ℕ
  pub new_len : List ℕ

-- Two fields of the stream, with the moments at which they are taken.
pub record Pair : Type 0 where
  pub first : List ℕ
  pub second : List ℕ
  pub at_first : Moment
  pub at_second : Moment

abbrev pub fields : List Pair → List (List ℕ)
fields [] = []
fields (x ∷ xs) = x.first ∷ x.second ∷ fields xs

abbrev pub moments : List Pair → List Moment
moments [] = []
moments (x ∷ xs) = x.at_first ∷ x.at_second ∷ moments xs

-- The rounds of Run that take the fields in the channel, with connMu free, and a NewJob that comes back.
abbrev pub inputs : List Moment → List (List ℕ) → List (ℕ × Input)
inputs [] fs = []
inputs (m ∷ ms) [] = []
inputs (m ∷ ms) (f ∷ fs) =
    (m.pool_down, notification free false (m.now) (m.nonce) (m.new_len) f) ∷ inputs ms fs

-- A pair that the pool sends for a job: no field names the account, and the first has a tail.
pub record IsPair (address : List ℕ) (x : Pair) : Type 0 where
  pub size_first : IsField (x.first)
  pub size_second : IsField (x.second)
  pub other_first : hash2address (x.first) ≢ address
  pub other_second : hash2address (x.second) ≢ address
  pub tail : be_value (drop 24 (x.first)) ≢ 0

-- What Run compares of two jobs: the first digits of their blobs.
abbrev pub block : List ℕ → List ℕ
block f = take 32 (encode_to_string f)

-- No job is of the block of the one before.
abbrev pub Fresh : List ℕ → List Pair → Type 0
Fresh last [] = Unit
Fresh last (x ∷ xs) = (last ≢ block (x.first)) × Fresh (block (x.first)) xs

-- A proxy at work that waits for the first field of a pair, before the first change of its target.
pub record IsWaiting (p : Proxy) : Type 0 where
  pub none_received : p.recv_count ≡ 0
  pub buffer : length (p.recv_byte) ≡ 64
  pub hash : length (p.address_hash) ≡ 24
  pub few : p.shares ≤ 17
  pub miner : p.address ≢ detect_proxy
  pub alive : p.is_closed ≡ false
  pub worker : p.has_worker ≡ true
  pub job : (p.current_job.blob ≡ []) ⊎ (32 ≤ length (p.current_job.blob))

-- One job for each pair, in order.
abbrev pub Passes : List ℕ → List Pair → List Event → Type 0
Passes hash [] events = events ≡ []
Passes hash (x ∷ xs) events =
    (job : Job) × (rest : List Event) × (events ≡ new_job job ∷ rest)
    × (job.current_blob ≡ x.first ++ (hash ++ be_bytes 8 (x.at_second.nonce)))
    × (job.blob ≡ encode_to_string (job.current_blob))
    × (job.seed_hash ≡ encode_to_string (x.second))
    × Passes hash xs rest
