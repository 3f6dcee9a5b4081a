-- ===== src/Proxy/Notify/Pairing.antt =====
-- Two fields of the pool, one after the other, are a job of proxy/proxy.go.
use xmrig2xdag.Common.{
  not_equal, ℕ, ◌+◌, ◌%◌, ◌^◌, ◌≡◌, ◌≢◌, ◌≤◌, refl, sym, ap, ◌∙◌, List, [], ◌++◌, Option, some,
  true, false, ltb, ◌==◌, length, length-append, replicate, take, drop, take-append, drop-append,
  take_all, copy_all, copy_at, copy_at-twice, arith,
}
use xmrig2xdag.Common.Options.{◌>>=◌}
use xmrig2xdag.Encoding.{be_bytes, be_value, encode_to_string}
use xmrig2xdag.Xdag.Address.{hash2address}
use xmrig2xdag.Proxy.Job.{Job}
use xmrig2xdag.Proxy.State.{Proxy, Event}
use xmrig2xdag.Proxy.Target.{Retarget, create_job}
use xmrig2xdag.Proxy.Target.Laws.{create_job-blob}
use xmrig2xdag.Proxy.Notify.{
  handle_notification, second_field, other_block, handle_job, detect_proxy,
}

-- The first field of a pair is kept.
pub first_field :
    (retarget : Retarget) (now nonce : ℕ) (new_len field : List ℕ) (p : Proxy)
    → p.recv_count ≡ 0
    → length field ≡ 32
    → hash2address field ≢ p.address
    → be_value (drop 24 field) ≢ 0
    → handle_notification retarget now nonce new_len field p
      ≡ some (
        record p {
          field_in = (p.field_in + 1) % 2 ^ 64;
          recv_count = 1;
          recv_byte = copy_at (p.recv_byte) 0 32 field;
        },
        [],
      )
unfolding handle_notification
first_field retarget now nonce new_len field p h0 h32 other tail =
    rw
      (
        copy_all (replicate 32 0) field (sym h32),
        not_equal _ _ other,
        h0,
        nonzero (be_value (drop 24 field)) tail,
        handle_notification,
      )
      refl
  where
    nonzero : (n : ℕ) → n ≢ 0 → (n == 0) ≡ false
    nonzero n ne = ground arith

-- The second one makes a job of both.
next_field :
    (retarget : Retarget) (now nonce : ℕ) (new_len field : List ℕ) (p : Proxy)
    → p.recv_count ≡ 1
    → length field ≡ 32
    → hash2address field ≢ p.address
    → p.address ≢ detect_proxy
    → handle_notification retarget now nonce new_len field p
      ≡ second_field retarget now nonce new_len field
          (record p { field_in = (p.field_in + 1) % 2 ^ 64; recv_count = 0 })
unfolding handle_notification
next_field retarget now nonce new_len field p h1 h32 other not_detect =
    rw
      (
        copy_all (replicate 32 0) field (sym h32),
        not_equal _ _ other,
        not_equal _ _ not_detect,
        h1,
        handle_notification,
      )
      refl

second_field-job :
    (retarget : Retarget) (now nonce : ℕ) (new_len field bytes : List ℕ) (p : Proxy)
    → ltb 17 (p.shares) ≡ false
    → copy_at (p.recv_byte) 32 64 field ≡ bytes
    → other_block
        (p.current_job.blob)
        ((create_job nonce new_len bytes (record p { recv_byte = bytes })).blob)
      ≡ some true
    → second_field retarget now nonce new_len field p
      ≡ some (
          handle_job now
            (create_job nonce new_len bytes (record p { recv_byte = bytes }))
            (record p { recv_byte = bytes }))
unfolding second_field
second_field-job retarget now nonce new_len field bytes p few e other =
    rw (e, few, other, second_field) refl

not_many : (n : ℕ) → n ≤ 17 → ltb 17 n ≡ false
not_many n h = ground arith

-- The proxy that has received both fields of a pair.
abbrev pub received : List ℕ → List ℕ → Proxy → Proxy
received a b p = record p {
  field_in = ((p.field_in + 1) % 2 ^ 64 + 1) % 2 ^ 64;
  recv_byte = a ++ b;
  recv_count = 0;
}

module _ (retarget : Retarget) (t1 n1 : ℕ) (l1 a : List ℕ) (t2 n2 : ℕ) (l2 b : List ℕ)
    (p : Proxy) where
  abbrev pub notify_twice : Option (Proxy × List Event)
  notify_twice =
      handle_notification retarget t1 n1 l1 a p
      >>= (λ r. handle_notification retarget t2 n2 l2 b (r.0))

  abbrev pub pair_job : Job
  pair_job = create_job n2 l2 (a ++ b) (received a b p)

  -- A pair of fields that do not name the proxy's account, the first with a tail that is not zero, is one
  -- job, which handleJob gets if it is of another block: its blob begins with the first field, goes on
  -- with the account, and ends with the random nonce, and its seed is the second field.
  pub notify_twice-job :
      p.recv_count ≡ 0
      → length (p.recv_byte) ≡ 64
      → length (p.address_hash) ≡ 24
      → p.shares ≤ 17
      → p.address ≢ detect_proxy
      → length a ≡ 32
      → hash2address a ≢ p.address
      → be_value (drop 24 a) ≢ 0
      → length b ≡ 32
      → hash2address b ≢ p.address
      → other_block (p.current_job.blob) (pair_job.blob) ≡ some true
      → (notify_twice ≡ some (handle_job t2 pair_job (received a b p)))
        × (pair_job.current_blob ≡ a ++ (p.address_hash ++ be_bytes 8 n2))
        × (pair_job.seed_hash ≡ encode_to_string b)
  unfolding create_job
  notify_twice-job h0 hr hh few other_address ha na tail hb nb other = (
    rw (first_field retarget t1 n1 l1 a p h0 ha na tail) (
        next_field retarget t2 n2 l2 b _ refl hb nb other_address
        ∙ second_field-job retarget t2 n2 l2 b (a ++ b) _ (not_many (p.shares) few)
            (copy_at-twice (p.recv_byte) a b 0 32 64 (omega arith) (omega arith) hr) other),
    create_job-blob n2 l2 (a ++ b) (received a b p) (omega (arith, length-append a b)) hh
        ∙ ap (λ l. l ++ (p.address_hash ++ be_bytes 8 n2)) (take-append 32 a b ha),
    ap (λ l. encode_to_string l)
        (ap (λ l. take 32 l) (drop-append 32 a b ha) ∙ take_all 32 b (omega arith)),
  )
