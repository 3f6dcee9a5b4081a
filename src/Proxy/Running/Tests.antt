-- ===== src/Proxy/Running/Tests.antt =====
-- Run and connect on concrete networks and inputs.
use xmrig2xdag.Common.{
  ℕ, ◌==◌, ◌≡◌, ◌≢◌, ◌⊎◌, refl, ap, List, [], ◌∷◌, ◌++◌, true, false, some, inl, All, codes,
  replicate, length, take, get_or, arith,
}
use xmrig2xdag.Encoding.{hex_digit}
use xmrig2xdag.Xdag.Address.{hash2address}
use xmrig2xdag.Xdag.Connection.{new_connection}
use xmrig2xdag.Xdag.Connection.Reader.{eof, reader, read_steps, concat}
use xmrig2xdag.Proxy.Share.{Share}
use xmrig2xdag.Proxy.Locking.{free, by_submit}
use xmrig2xdag.Proxy.Running.Safe.Rounds.{GoesOn, SomeLocked}
use xmrig2xdag.Proxy.Running.Safe.Whole.{run-GoesOn}
use xmrig2xdag.Proxy.Running.Stream.{
  Moment, Pair, fields, moments, inputs, IsPair, IsWaiting, Fresh, Passes,
}
use xmrig2xdag.Proxy.Running.Stream.Delivered.{serve-read_steps}
use xmrig2xdag.Proxy.State.{Proxy, Event, new_proxy, leave_director}
use xmrig2xdag.Proxy.Close.{by_worker, by_pool, shutdown, farewell}
use xmrig2xdag.Proxy.Running.{
  Attempt, account_message, name_message, acquire, done, Input, run, submission, notification,
  Setting, take as round, serve, waits,
}
use xmrig2xdag.Proxy.Running.Retries.{IsSound, acquire-IsSound}
use xmrig2xdag.Proxy.Running.Ends.{serve-closed}

abbrev proxy : Proxy
proxy = new_proxy 7 1000 (codes "first")

abbrev no_network : ℕ → Attempt
no_network count = record {
  socks5_fails = false;
  through_socks5_fails = false;
  direct_fails = true;
  pool_down = 0;
}

login_message : account_message proxy ≡ (24 ∷ 0 ∷ 0 ∷ 0 ∷ []) ++ replicate 24 0
unfolding account_message new_proxy
login_message = refl

named_message :
    name_message (codes "rig")
    ≡ (32 ∷ 0 ∷ 0 ∷ 0 ∷ 0x53 ∷ 0x98 ∷ 0x6b ∷ 0xf4 ∷ []) ++ codes "rig" ++ replicate 25 0
unfolding name_message
named_message = refl

acquire-IsSound_example :
    IsSound no_network [] 3 (codes "rig") proxy 0 (acquire 4 no_network [] 3 (codes "rig") 0 proxy)
unfolding new_proxy
acquire-IsSound_example = acquire-IsSound no_network [] 3 (codes "rig") proxy refl

abbrev setting : Setting
setting = record {
  level = 2;
  retarget = λ old duration count. old;
  lower_text = λ e. [];
  eof_count = 0;
  exit_on_pool_down = false;
}

abbrev ended_proxy : Proxy
ended_proxy = record proxy { is_closed = true }

serve-closed_example : ended_proxy.is_closed ≡ true
unfolding new_proxy serve round shutdown farewell
serve-closed_example =
    serve-closed setting (codes "rig") ((0, done free by_worker) ∷ []) proxy ended_proxy
      (leave_director 7 ∷ []) refl refl refl

-- Two pairs of the pool, for a proxy with a worker that has no job yet.
abbrev moment : ℕ → Moment
moment n = record { pool_down = 0; now = n; nonce = n; new_len = codes "id" }

abbrev first_pair : Pair
first_pair = record {
  first = replicate 32 8;
  second = replicate 32 9;
  at_first = moment 1;
  at_second = moment 2;
}

abbrev second_pair : Pair
second_pair = record {
  first = replicate 32 7;
  second = replicate 32 9;
  at_first = moment 3;
  at_second = moment 4;
}

abbrev two_pairs : List Pair
two_pairs = first_pair ∷ second_pair ∷ []

abbrev working : Proxy
working = record proxy { has_worker = true; address = codes "account" }

hash2address-length : (f : List ℕ) → length (hash2address f) ≡ 32 → hash2address f ≢ codes "account"
hash2address-length f h e = omega (arith, h, ap length e)

pairs-IsPair : All (IsPair (codes "account")) two_pairs
unfolding hash2address
pairs-IsPair = (
  record {
    size_first = refl;
    size_second = refl;
    other_first = hash2address-length (replicate 32 8) refl;
    other_second = hash2address-length (replicate 32 9) refl;
    tail = λ e. omega (arith, e);
  },
  (
    record {
      size_first = refl;
      size_second = refl;
      other_first = hash2address-length (replicate 32 7) refl;
      other_second = hash2address-length (replicate 32 9) refl;
      tail = λ e. omega (arith, e);
    },
    tt,
  ),
)

working-IsWaiting : IsWaiting working
unfolding new_proxy
working-IsWaiting = record {
  none_received = refl;
  buffer = refl;
  hash = refl;
  few = omega arith;
  miner = λ e. omega (arith, ap length e);
  alive = refl;
  worker = refl;
  job = inl refl;
}

two_pairs-Fresh : Fresh (take 32 (working.current_job.blob)) two_pairs
unfolding new_proxy hex_digit
two_pairs-Fresh = (λ e. omega (arith, ap length e), (λ e. omega (arith, ap head e), tt))
  where
    head : List ℕ → ℕ
    head l = get_or l 1 0

serve-read_steps_example :
    (q : Proxy) × (events : List Event) × (serve setting
        (codes "rig")
        (inputs (moments two_pairs) (
          (read_steps 5
            (reader (new_connection 5) (concat (fields two_pairs) ++ 1 ∷ 2 ∷ []) eof [])).notified))
        working
      ≡ some (waits q events))
    × Passes (replicate 24 0) two_pairs events
unfolding new_proxy new_connection
serve-read_steps_example =
    serve-read_steps setting (codes "rig") two_pairs working (new_connection 5) (1 ∷ 2 ∷ []) eof
      refl refl refl (omega arith) pairs-IsPair working-IsWaiting two_pairs-Fresh

-- A share for no known job, a field that is too short, and an end at which a Submit has connMu.
abbrev stray_share : Share
stray_share = record {
  auth_id = codes "id";
  job_id = codes "FFFFFFFFFF01";
  nonce = codes "01020304";
  result = [];
}

abbrev some_inputs : List (ℕ × Input)
some_inputs =
    (0, submission free 5 6 stray_share)
    ∷ (0, notification free false 7 8 (codes "new") (1 ∷ 2 ∷ []))
    ∷ (0, done by_submit by_pool)
    ∷ []

-- A network that works at the second attempt.
abbrev late_network : ℕ → Attempt
late_network count = record {
  socks5_fails = false;
  through_socks5_fails = false;
  direct_fails = count == 0;
  pool_down = 0;
}

run-GoesOn_example :
    GoesOn
      ((free ≢ free) ⊎ SomeLocked some_inputs)
      (run 4 late_network [] 0 setting (codes "rig") free some_inputs proxy)
unfolding new_proxy
run-GoesOn_example =
    run-GoesOn late_network [] 0 setting (codes "rig") free some_inputs proxy (omega arith) refl
      (λ e. omega (arith, ap length e), (tt, (tt, tt))) refl (inl refl) (inl (refl, refl))
