-- ===== src/Xdag/Connection.antt =====
-- xdag/connect.go: the connection to the pool, between the senders of messages, its writer and its reader.
-- Senders hold a mutex of the proxy, so that one of them waits at most. A panic of the code is `none`.
pub mod Order
pub mod Stuck
pub mod Reader
mod Tests
use xmrig2xdag.Common.{
  ℕ, zero, suc, ◌+◌, List, [], ◌∷◌, ◌++◌, Option, none, some, Bool, true, false, not, ◌&&◌, ◌||◌,
  leb, ltb, if◌then◌else◌, length,
}
use xmrig2xdag.Common.Options.{◌>>=◌}

-- The size of the channel msgBuffChan.
abbrev pub buffer_size : ℕ
buffer_size = 8

-- Connection, with what its goroutines are about: `waiting` is the message of a sender that waits for room
-- in the channel and keeps the read lock, `in_flight` is the message that the writer has taken, `written`
-- is what went over the socket, and `writing` says that the writer runs.
pub record Connection : Type 0 where
  pub conn_id : ℕ
  pub is_closed : Bool
  pub cancelled : Bool
  pub chan_closed : Bool
  pub buffer : List (List ℕ)
  pub eof_count : ℕ
  pub waiting : Option (List ℕ)
  pub in_flight : Option (List ℕ)
  pub written : List (List ℕ)
  pub writing : Bool

-- NewConnection and Start
unfoldable pub new_connection : ℕ → Connection
new_connection conn_id = record {
  conn_id = conn_id;
  is_closed = false;
  cancelled = false;
  chan_closed = false;
  buffer = [];
  eof_count = 0;
  waiting = none;
  in_flight = none;
  written = [];
  writing = true;
}

-- A step gives the messages that it put into the channel.
abbrev pub Outcome : Type 0
Outcome = Option (Connection × List (List ℕ))

abbrev is_some : Option (List ℕ) → Bool
is_some none = false
is_some (some _) = true

-- SendBuffMsg: an error on a closed connection, else the message goes into the channel, when there is room.
unfoldable pub send_buff_msg : List ℕ → Connection → Outcome
send_buff_msg m c =
    if c.is_closed || is_some (c.waiting)
    then some (c, [])
    else if c.chan_closed
    then none
    else if leb buffer_size (length (c.buffer))
    then some (record c { waiting = some m }, [])
    else some (record c { buffer = c.buffer ++ m ∷ [] }, m ∷ [])

-- Stop, and Close, which does the same. They wait while a sender keeps the read lock.
unfoldable pub stop : Connection → Outcome
stop c =
    if is_some (c.waiting) || c.is_closed
    then some (c, [])
    else if c.chan_closed
    then none
    else some (record c { is_closed = true; cancelled = true; chan_closed = true }, [])

-- The writer takes the first message; a sender that waits puts its own behind the rest.
unfoldable pub take_first : List ℕ → List (List ℕ) → Connection → Connection × List (List ℕ)
take_first m rest c = elim (c.waiting) [
  | none ↦ (record c { in_flight = some m; buffer = rest }, [])
  | some w ↦ (record c { in_flight = some m; buffer = rest ++ w ∷ []; waiting = none }, w ∷ [])
]

abbrev leave : Connection → Connection
leave c = record c { writing = false }

-- The select of StartWriter, where the writer is free: `pool_down` is the shared count, `done_first` says
-- that it chooses the end of the context where both are ready.
unfoldable pub select_message : ℕ → Bool → Connection → Connection × List (List ℕ)
select_message pool_down done_first c =
    if ltb 0 pool_down || (c.cancelled && done_first) then (leave c, []) else elim (c.buffer) [
      | [] ↦ if c.cancelled && not (c.chan_closed) then (leave c, []) else (c, [])
      | m ∷ rest ↦ take_first m rest c
    ]

-- The write of StartWriter, which fails on a closed connection: `fails` says that it fails on an open one.
-- A writer that leaves calls Stop next.
unfoldable pub write : Bool → List ℕ → Connection → Connection
write fails m c =
    if fails || c.is_closed
    then record c { in_flight = none; writing = false }
    else record c { in_flight = none; written = c.written ++ m ∷ [] }

-- What can come next.
pub data Step : Type 0 where
  sends : List ℕ → Step
  selects : ℕ → Bool → Step
  writes : Bool → Step
  stops : Step

unfoldable pub step : Step → Connection → Outcome
unfolding send_buff_msg stop select_message write
step (sends m) c = send_buff_msg m c
step (selects pool_down done_first) c =
    if c.writing && not (is_some (c.in_flight))
    then some (select_message pool_down done_first c)
    else some (c, [])
step (writes fails) c = elim (c.in_flight) [
  | none ↦ some (c, [])
  | some m ↦ if c.writing then some (write fails m c, []) else some (c, [])
]
step stops c = stop c

-- Any steps, one after the other: the connection, and all messages that were put into the channel.
unfoldable pub run : List Step → Connection → Outcome
run [] c = some (c, [])
run (s ∷ ss) c = step s c >>= (λ (d, first). run ss d >>= (λ (e, rest). some (e, first ++ rest)))
