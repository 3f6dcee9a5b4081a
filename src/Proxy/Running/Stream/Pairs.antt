-- ===== src/Proxy/Running/Stream/Pairs.antt =====
-- What handleNotification of proxy/proxy.go makes of one pair of fields, in a proxy that waits for it.
use xmrig2xdag.Common.{
  not_equal, ℕ, ◌+◌, ◌%◌, ◌^◌, ◌≡◌, ◌≢◌, ◌⊎◌, ◌≤◌, refl, sym, ap, ◌∙◌, List, [], ◌∷◌, ◌++◌, some,
  true, false, inl, inr, ltb, length, length-append, take, take-append, take-append_within, copy_at,
  arith,
}
use xmrig2xdag.Common.Options.{◌>>=◌}
use xmrig2xdag.Encoding.{be_bytes, encode_to_string}
use xmrig2xdag.Encoding.Hex.{length-encode_to_string, encode_to_string-append}
use xmrig2xdag.Proxy.Job.{Job}
use xmrig2xdag.Proxy.State.{Proxy, new_job}
use xmrig2xdag.Proxy.Target.{create_job}
use xmrig2xdag.Proxy.Target.Laws.{create_job-blob}
use xmrig2xdag.Proxy.Notify.{handle_notification, handle_job, broadcast_job, other_block}
use xmrig2xdag.Proxy.Notify.Pairing.{received, notify_twice-job, first_field}
use xmrig2xdag.Proxy.Running.{Setting}
use xmrig2xdag.Proxy.Running.Stream.{Pair, IsPair, block, IsWaiting}

other_block-fresh :
    (old new : List ℕ)
    → (old ≡ []) ⊎ (32 ≤ length old)
    → 32 ≤ length new
    → take 32 old ≢ take 32 new
    → other_block old new ≡ some true
other_block-fresh old new (inl e) long ne = rw e refl
other_block-fresh [] new (inr le) long ne = refl
other_block-fresh (x ∷ old) new (inr le) long ne =
    let a : ltb (length (x ∷ old)) 32 ≡ false = ground arith in
    let b : ltb (length new) 32 ≡ false = ground arith in
    rw (a, b, not_equal _ _ ne, other_block) refl

module _ (x : Pair) (p : Proxy) where
  -- The job that the pair becomes, and the proxy behind it.
  abbrev pub job_of : Job
  job_of =
      create_job (x.at_second.nonce) (x.at_second.new_len) (x.first ++ x.second)
        (received (x.first) (x.second) p)

  abbrev pub after_pair : Proxy
  after_pair = (handle_job (x.at_second.now) job_of (received (x.first) (x.second) p)).0

  -- The proxy behind the first field.
  abbrev pub half : Proxy
  half = record p {
    field_in = (p.field_in + 1) % 2 ^ 64;
    recv_count = 1;
    recv_byte = copy_at (p.recv_byte) 0 32 (x.first);
  }

module _ (x : Pair) (p : Proxy) (good : IsPair (p.address) x) (ready : IsWaiting p) where
  pub job_of-bytes :
      (job_of x p).current_blob ≡ x.first ++ (p.address_hash ++ be_bytes 8 (x.at_second.nonce))
  job_of-bytes =
      create_job-blob (x.at_second.nonce) (x.at_second.new_len) (x.first ++ x.second)
        (received (x.first) (x.second) p)
        (omega (arith, length-append (x.first) (x.second), good.size_first, good.size_second))
        (ready.hash)
      ∙ ap (λ l. l ++ (p.address_hash ++ be_bytes 8 (x.at_second.nonce)))
          (take-append 32 (x.first) (x.second) (good.size_first))

  job_of-text :
      (job_of x p).blob
      ≡ encode_to_string (x.first)
        ++ encode_to_string (p.address_hash ++ be_bytes 8 (x.at_second.nonce))
  unfolding create_job
  job_of-text = ap encode_to_string job_of-bytes ∙ encode_to_string-append (x.first) _

  pub job_of-block : take 32 ((job_of x p).blob) ≡ block (x.first)
  job_of-block =
      ap (take 32) job_of-text
      ∙ take-append_within 32 (encode_to_string (x.first)) _
          (omega (arith, length-encode_to_string (x.first), good.size_first))

  job_of-long : 32 ≤ length ((job_of x p).blob)
  job_of-long = omega (
    arith,
    ap length job_of-text,
    length-append (encode_to_string (x.first))
        (encode_to_string (p.address_hash ++ be_bytes 8 (x.at_second.nonce))),
    length-encode_to_string (x.first),
    good.size_first,
  )

  pub after_pair-IsWaiting : IsWaiting (after_pair x p)
  unfolding handle_job
  after_pair-IsWaiting = record {
    none_received = refl;
    buffer = omega (arith, length-append (x.first) (x.second), good.size_first, good.size_second);
    hash = ready.hash;
    few = ready.few;
    miner = ready.miner;
    alive = ready.alive;
    worker = ready.worker;
    job = inr job_of-long;
  }

  pub passed_on :
      handle_job (x.at_second.now) (job_of x p) (received (x.first) (x.second) p)
      ≡ (after_pair x p, new_job (job_of x p) ∷ [])
  unfolding handle_job broadcast_job
  passed_on = rw (ready.alive, ready.worker) refl

  module _ (s : Setting) (fresh : take 32 (p.current_job.blob) ≢ block (x.first)) where
    pub half-handled :
        handle_notification
          (s.retarget)
          (x.at_first.now)
          (x.at_first.nonce)
          (x.at_first.new_len)
          (x.first)
          p
        ≡ some (half x p, [])
    half-handled =
        first_field (s.retarget) (x.at_first.now) (x.at_first.nonce) (x.at_first.new_len) (x.first)
          p (ready.none_received) (good.size_first) (good.other_first) (good.tail)

    pub pair-handled :
        (handle_notification
            (s.retarget)
            (x.at_second.now)
            (x.at_second.nonce)
            (x.at_second.new_len)
            (x.second)
            (half x p)
          ≡ some (handle_job (x.at_second.now) (job_of x p) (received (x.first) (x.second) p)))
        × ((job_of x p).seed_hash ≡ encode_to_string (x.second))
    pair-handled =
        let other =
          other_block-fresh (p.current_job.blob) ((job_of x p).blob) (ready.job) job_of-long
            (λ e. fresh (e ∙ job_of-block)) in
        let (both, _, seed) =
          notify_twice-job (s.retarget) (x.at_first.now) (x.at_first.nonce) (x.at_first.new_len)
            (x.first) (x.at_second.now) (x.at_second.nonce) (x.at_second.new_len) (x.second) p
            (ready.none_received) (ready.buffer) (ready.hash) (ready.few) (ready.miner)
            (good.size_first) (good.other_first) (good.tail) (good.size_second) (good.other_second)
            other in
        (
          sym (
                ap
                  (λ o. o >>= (λ r.
                    handle_notification (s.retarget) (x.at_second.now) (x.at_second.nonce)
                      (x.at_second.new_len) (x.second) (r.0)))
                  half-handled)
              ∙ both,
          seed,
        )
