-- ===== src/Proxy/Locking.antt =====
-- The mutex connMu of proxy/proxy.go, between the goroutine of a request in Submit and the goroutine of
-- Run. Submit holds the mutex until it returns; Run needs it in handleSubmit and in broadcastJob.
use xmrig2xdag.Common.{◌≡◌, ◌≢◌, refl, Bool, true, false}

pub data Holder : Type 0 where
  free by_submit by_run : Holder

-- Submit: before connMu, under it, at `p.submissions <- s`, at `<-s.Response`; back with an error that it
-- found itself, and back with the reply.
pub data SubmitAt : Type 0 where
  arrived checking sending waiting turned_back replied : SubmitAt

-- Run: at the select; with a share before handleSubmit has the mutex, and when it has; the same with a
-- job in broadcastJob.
pub data RunAt : Type 0 where
  selecting received handling notified broadcasting : RunAt

-- Who holds connMu, where the two goroutines are, and whether the share's channels have the reply.
pub data Threads : Type 0 where
  threads : Holder → SubmitAt → RunAt → Bool → Threads

pub data Step : Threads → Threads → Type 0 where
  submit_locks :
      (r : RunAt) (a : Bool) → Step (threads free arrived r a) (threads by_submit checking r a)
  submit_turns_back :
      (r : RunAt) (a : Bool) → Step (threads by_submit checking r a) (threads free turned_back r a)
  submit_accepts :
      (r : RunAt) (a : Bool) → Step (threads by_submit checking r a) (threads by_submit sending r a)
  -- The channel submissions has no buffer.
  share_passes :
      (l : Holder) (a : Bool) → Step (threads l sending selecting a) (threads l waiting received a)
  run_locks :
      (s : SubmitAt) (a : Bool) → Step (threads free s received a) (threads by_run s handling a)
  -- handleSubmit puts the reply into the buffers of the share's channels and unlocks.
  run_replies :
      (s : SubmitAt) (a : Bool) → Step (threads by_run s handling a) (threads free s selecting true)
  run_takes_job :
      (l : Holder) (s : SubmitAt) (a : Bool)
      → Step (threads l s selecting a) (threads l s notified a)
  job_locks :
      (s : SubmitAt) (a : Bool) → Step (threads free s notified a) (threads by_run s broadcasting a)
  job_unlocks :
      (s : SubmitAt) (a : Bool)
      → Step (threads by_run s broadcasting a) (threads free s selecting a)
  submit_returns :
      (r : RunAt) → Step (threads by_submit waiting r true) (threads free replied r true)

pub data Steps : Threads → Threads → Type 0 where
  done : (t : Threads) → Steps t t
  then : (t u v : Threads) → Steps t u → Step u v → Steps t v

-- A request that comes to an idle proxy.
abbrev pub request : Threads
request = threads free arrived selecting false

-- The share is with Run, which waits for the mutex; Submit has the mutex and waits for the reply.
abbrev pub deadlock : Threads
deadlock = threads by_submit waiting received false

-- Who holds the mutex where, and that no reply is there.
abbrev holds : Threads → Bool
holds (threads free arrived selecting false) = true
holds (threads free arrived notified false) = true
holds (threads by_run arrived broadcasting false) = true
holds (threads free turned_back selecting false) = true
holds (threads free turned_back notified false) = true
holds (threads by_run turned_back broadcasting false) = true
holds (threads by_submit checking selecting false) = true
holds (threads by_submit checking notified false) = true
holds (threads by_submit sending selecting false) = true
holds (threads by_submit sending notified false) = true
holds (threads by_submit waiting received false) = true
holds _ = false

holds-received : (s : SubmitAt) (a : Bool) → holds (threads free s received a) ≡ false
holds-received arrived a = refl
holds-received checking a = refl
holds-received sending a = refl
holds-received waiting a = refl
holds-received turned_back a = refl
holds-received replied a = refl

holds-handling : (s : SubmitAt) (a : Bool) → holds (threads by_run s handling a) ≡ false
holds-handling arrived a = refl
holds-handling checking a = refl
holds-handling sending a = refl
holds-handling waiting a = refl
holds-handling turned_back a = refl
holds-handling replied a = refl

holds-selecting : (s : SubmitAt) (a : Bool) → holds (threads by_run s selecting a) ≡ false
holds-selecting arrived a = refl
holds-selecting checking a = refl
holds-selecting sending a = refl
holds-selecting waiting a = refl
holds-selecting turned_back a = refl
holds-selecting replied a = refl

holds-waiting : (r : RunAt) → holds (threads by_submit waiting r true) ≡ false
holds-waiting selecting = refl
holds-waiting received = refl
holds-waiting handling = refl
holds-waiting notified = refl
holds-waiting broadcasting = refl

holds-replied : (l : Holder) (r : RunAt) (a : Bool) → holds (threads l replied r a) ≡ false
holds-replied free r a = refl
holds-replied by_submit r a = refl
holds-replied by_run r a = refl

differ : {b : Bool} → b ≡ false → b ≡ true → ⊥
differ e f = cc

holds-Step : (t u : Threads) → Step t u → holds t ≡ true → holds u ≡ true
holds-Step _ _ (submit_locks selecting false) h = refl
holds-Step _ _ (submit_locks notified false) h = refl
holds-Step _ _ (submit_turns_back selecting false) h = refl
holds-Step _ _ (submit_turns_back notified false) h = refl
holds-Step _ _ (submit_accepts selecting false) h = refl
holds-Step _ _ (submit_accepts notified false) h = refl
holds-Step _ _ (share_passes by_submit false) h = refl
holds-Step _ _ (run_takes_job free arrived false) h = refl
holds-Step _ _ (run_takes_job free turned_back false) h = refl
holds-Step _ _ (run_takes_job by_submit checking false) h = refl
holds-Step _ _ (run_takes_job by_submit sending false) h = refl
holds-Step _ _ (job_locks arrived false) h = refl
holds-Step _ _ (job_locks turned_back false) h = refl
holds-Step _ _ (job_unlocks arrived false) h = refl
holds-Step _ _ (job_unlocks turned_back false) h = refl
holds-Step _ _ (run_locks s a) h = absurd (differ (holds-received s a) h)
holds-Step _ _ (run_replies s a) h = absurd (differ (holds-handling s a) h)
holds-Step _ _ (run_takes_job by_run s a) h = absurd (differ (holds-selecting s a) h)
holds-Step _ _ (submit_returns r) h = absurd (differ (holds-waiting r) h)
holds-Step _ _ _ h = cc

holds-Steps : (t : Threads) → Steps request t → holds t ≡ true
holds-Steps _ (done _) = refl
holds-Steps _ (then _ u v path step) = holds-Step u v step (holds-Steps u path)

to_deadlock : Steps request deadlock
to_deadlock =
    then _ _ _
      (then _ _ _ (then _ _ _ (done request) (submit_locks selecting false))
        (submit_accepts selecting false))
      (share_passes by_submit false)

deadlock_stops : (t : Threads) → ¬ (Step deadlock t)
deadlock_stops t step = elim step [ ]

waiting_deadlock :
    (l : Holder) (r : RunAt) (a : Bool)
    → holds (threads l waiting r a) ≡ true
    → threads l waiting r a ≡ deadlock
waiting_deadlock by_submit received false h = refl
waiting_deadlock _ _ _ h = cc

received-holder :
    (l : Holder) (s : SubmitAt) (a : Bool) → holds (threads l s received a) ≡ true → l ≡ by_submit
received-holder by_submit s a h = refl
received-holder free s a h = absurd (differ (holds-received s a) h)
received-holder by_run arrived a h = cc
received-holder by_run checking a h = cc
received-holder by_run sending a h = cc
received-holder by_run waiting a h = cc
received-holder by_run turned_back a h = cc
received-holder by_run replied a h = cc

-- Submit has the mutex whenever Run has received its share and asks for it.
pub received_by_submit :
    (l : Holder) (s : SubmitAt) (a : Bool) → Steps request (threads l s received a) → l ≡ by_submit
received_by_submit l s a path = received-holder l s a (holds-Steps _ path)

never : (l : Holder) (r : RunAt) (a : Bool) → holds (threads l replied r a) ≢ true
never l r a h = differ (holds-replied l r a) h

-- A share that Submit accepts is never answered. Once it waits for the reply, the two goroutines are in
-- the deadlock, from which there is no step; the deadlock is reached; and no sequence of steps from the
-- request brings Submit to the reply.
pub submit_deadlocks :
    Steps request deadlock
    × ((t : Threads) → ¬ (Step deadlock t))
    × ((l : Holder) (r : RunAt) (a : Bool)
        → Steps request (threads l waiting r a)
        → threads l waiting r a ≡ deadlock)
    × ((l : Holder) (r : RunAt) (a : Bool) → ¬ (Steps request (threads l replied r a)))
submit_deadlocks = (
  to_deadlock,
  deadlock_stops,
  λ l r a path. waiting_deadlock l r a (holds-Steps _ path),
  λ l r a path. never l r a (holds-Steps _ path),
)
