-- ===== src/Xdag/Connection/Stuck.antt =====
-- A sender of xdag/connect.go that waits for room when the writer leaves.
use xmrig2xdag.Common.{
  ℕ, ◌≡◌, refl, ap, List, [], ◌∷◌, Option, none, some, Bool, true, false, not, ◌&&◌, ◌||◌,
  if◌then◌else◌, replicate, arith,
}
use xmrig2xdag.Xdag.Connection.{
  Connection, new_connection, Outcome, is_some, send_buff_msg, stop, take_first, select_message,
  write, Step, sends, selects, writes, stops, step, run,
}

or_true : (b c : Bool) → c ≡ true → (b || c) ≡ true
or_true b c h = ground arith

or_first : (b c : Bool) → b ≡ true → (b || c) ≡ true
or_first b c h = ground arith

module _ (c : Connection) (w : List ℕ) (waits : c.waiting ≡ some w) (gone : c.writing ≡ false) where
  left_alone : (fails : Bool) → step (writes fails) c ≡ some (c, [])
  unfolding step
  left_alone fails = by_flight (c.in_flight)
    where
      by_flight :
          (f : Option (List ℕ))
          → ◌≡◌ {A = Outcome}
              (elim f [
                | none ↦ some (c, [])
                | some m ↦ if c.writing then some (write fails m c, []) else some (c, [])
              ])
              (some (c, []))
      by_flight none = refl
      by_flight (some m) = ap (λ b. if b then some (write fails m c, []) else some (c, [])) gone

  step-stuck : (s : Step) → step s c ≡ some (c, [])
  unfolding step send_buff_msg stop
  step-stuck (sends m) =
      rw (or_true (c.is_closed) (is_some (c.waiting)) (ap is_some waits), step, send_buff_msg) refl
  step-stuck (selects n d) =
      ap
        (λ b.
          if b && not (is_some (c.in_flight)) then some (select_message n d c) else some (c, []))
        gone
  step-stuck (writes fails) = left_alone fails
  step-stuck stops =
      rw (or_first (is_some (c.waiting)) (c.is_closed) (ap is_some waits), step, stop) refl

  run-unchanged : (ss : List Step) → run ss c ≡ some (c, [])
  unfolding run
  run-unchanged [] = refl
  run-unchanged (s ∷ ss) = rw (step-stuck s, run) (rw (run-unchanged ss, run) refl)

-- The writer takes a message, eight more fill the channel, the tenth waits, and the write fails.
abbrev pub filling : List ℕ → List Step
filling m =
    sends m
    ∷ selects 0 false
    ∷ sends m
    ∷ sends m
    ∷ sends m
    ∷ sends m
    ∷ sends m
    ∷ sends m
    ∷ sends m
    ∷ sends m
    ∷ sends m
    ∷ writes true
    ∷ []

abbrev pub stuck : ℕ → List ℕ → Connection
unfolding new_connection
stuck conn_id m = record (new_connection conn_id) {
  buffer = replicate 8 m;
  waiting = some m;
  writing = false;
}

filled :
    (conn_id : ℕ) (m : List ℕ)
    → run (filling m) (new_connection conn_id) ≡ some (stuck conn_id m, replicate 9 m)
unfolding new_connection run step send_buff_msg select_message write take_first
filled conn_id m = refl

-- A sender that waits for room in the channel keeps the read lock. If the write fails meanwhile, the writer
-- waits for the lock in Stop: the state is reached from a new connection, and then no steps whatever change
-- anything. The message stays with its sender, and neither Stop nor Close gets through.
pub run-stuck :
    (conn_id : ℕ) (m : List ℕ) (ss : List Step)
    → (run (filling m) (new_connection conn_id) ≡ some (stuck conn_id m, replicate 9 m))
      × ((stuck conn_id m).waiting ≡ some m)
      × (run ss (stuck conn_id m) ≡ some (stuck conn_id m, []))
unfolding new_connection
run-stuck conn_id m ss = (filled conn_id m, refl, run-unchanged (stuck conn_id m) m refl refl ss)
