-- ===== src/Proxy/Running/Stream/Delivered.antt =====
-- The stream of xdag/connect.go and Run of proxy/proxy.go together: what becomes of any number of pairs.
use xmrig2xdag.Common.{
  ℕ, suc, ◌≡◌, ◌<◌, refl, ap, ◌∙◌, List, [], ◌∷◌, ◌++◌, some, false, All, length, take,
}
use xmrig2xdag.Xdag.Connection.{Connection}
use xmrig2xdag.Xdag.Connection.Reader.{
  Ending, reader, read_steps, concat, IsField, read_steps-Ended,
}
use xmrig2xdag.Proxy.State.{Proxy, Event, new_job}
use xmrig2xdag.Proxy.Target.{create_job}
use xmrig2xdag.Proxy.Notify.{handle_notification, handle_job}
use xmrig2xdag.Proxy.Locking.{free}
use xmrig2xdag.Proxy.Running.{Input, notification, Setting, waits, take as round, serve, is_detect}
use xmrig2xdag.Proxy.Running.Stream.{
  Moment, Pair, fields, moments, inputs, IsPair, Fresh, IsWaiting, Passes,
}
use xmrig2xdag.Proxy.Running.Stream.Pairs.{
  job_of, after_pair, half, job_of-bytes, job_of-block, after_pair-IsWaiting, passed_on,
  half-handled, pair-handled,
}

module _ (s : Setting) (name : List ℕ) (miner : is_detect name ≡ false) where
  -- A field that is handled, and the rounds behind it.
  serve-field :
      (m : Moment) (field : List ℕ) (rest : List (ℕ × Input)) (p p' q : Proxy)
      (first more : List Event)
      → handle_notification (s.retarget) (m.now) (m.nonce) (m.new_len) field p ≡ some (p', first)
      → serve s name rest p' ≡ some (waits q more)
      → serve s name
          ((m.pool_down, notification free false (m.now) (m.nonce) (m.new_len) field) ∷ rest)
          p
        ≡ some (waits q (first ++ more))
  unfolding serve round
  serve-field m field rest p p' q first more one others =
      rw (miner, serve) (rw (one, round) (rw others refl))

  serve-Passes :
      (pairs : List Pair) (p : Proxy)
      → All (IsPair (p.address)) pairs
      → IsWaiting p
      → Fresh (take 32 (p.current_job.blob)) pairs
      → (q : Proxy) × (events : List Event) × (serve s name
            (inputs (moments pairs) (fields pairs))
            p
          ≡ some (waits q events))
        × Passes (p.address_hash) pairs events
  unfolding serve handle_job create_job
  serve-Passes [] p good ready fresh = (p, [], refl, refl)
  serve-Passes (x ∷ xs) p good ready fresh =
      let (handled, seed) = pair-handled x p (good.0) ready s (fresh.0) in
      let (q, more, served, passes) =
        serve-Passes xs (after_pair x p) (good.1) (after_pair-IsWaiting x p (good.0) ready)
          (rw (job_of-block x p (good.0) ready) (fresh.1)) in
      (
        q,
        new_job (job_of x p) ∷ more,
        serve-field (x.at_first) (x.first)
            (inputs (x.at_second ∷ moments xs) (x.second ∷ fields xs)) p (half x p) q [] _
            (half-handled x p (good.0) ready s (fresh.0))
            (serve-field (x.at_second) (x.second) _ (half x p) (after_pair x p) q _ more
              (handled ∙ ap some (passed_on x p (good.0) ready)) served),
        (job_of x p, more, refl, job_of-bytes x p (good.0) ready, refl, seed, passes),
      )

-- Fields of 32 bytes, two for each pair.
fields-IsField :
    (address : List ℕ) (pairs : List Pair) → All (IsPair address) pairs → All IsField (fields pairs)
fields-IsField address [] good = tt
fields-IsField address (x ∷ xs) good =
    (good.0.size_first, (good.0.size_second, fields-IsField address xs (good.1)))

-- The pool sends any number of pairs of fields, none of which names the miner's account and each for another
-- block than the last, in a stream that ends somehow within a field, on a connection that nobody closes
-- while the pool is up. Then Run, at whatever times it takes the fields, passes exactly one job for each
-- pair to the worker, in order, and waits for more: the blob of a job is the first field of the pair, the
-- account and the random nonce, all in hexadecimal, and its seed is the second field. The proxy is open with a worker, is that
-- of a miner, waits for a first field, and has not counted more than 17 shares, so that it keeps its target;
-- connMu is free when Run asks for it, and NewJob comes back.
pub serve-read_steps :
    (s : Setting) (name : List ℕ) (pairs : List Pair) (p : Proxy) (conn : Connection)
    (tail : List ℕ) (ending : Ending)
    → is_detect name ≡ false
    → conn.is_closed ≡ false
    → conn.cancelled ≡ false
    → length tail < 32
    → All (IsPair (p.address)) pairs
    → IsWaiting p
    → Fresh (take 32 (p.current_job.blob)) pairs
    → (q : Proxy) × (events : List Event) × (serve s name
          (inputs (moments pairs) (
            (read_steps
              (suc (length (fields pairs)))
              (reader conn (concat (fields pairs) ++ tail) ending [])).notified))
          p
        ≡ some (waits q events))
      × Passes (p.address_hash) pairs events
serve-read_steps s name pairs p conn tail ending miner alive going short good ready fresh =
    let read =
      read_steps-Ended conn (fields pairs) tail ending alive going
        (fields-IsField (p.address) pairs good) short in
    rw (read.0) (serve-Passes s name miner pairs p good ready fresh)
