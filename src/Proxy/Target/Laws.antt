-- ===== src/Proxy/Target/Laws.antt =====
-- The bytes of the jobs and shares that proxy/proxy.go makes.
use xmrig2xdag.Common.{
  ℕ, ◌+◌, ◌≡◌, refl, sym, ap, ◌∙◌, ◌≤◌, List, ◌++◌, All, IsByte, some, length, length-append,
  length-take, length-drop, replicate, take, drop, copy_at, slice, copy_all, copy_at_all,
  take-append_past, drop-append, drop_all, copy_at-twice, false, ltb, arith,
}
use mathlib.Core.List.{append_assoc}
use xmrig2xdag.Encoding.{le_bytes, be_bytes, le_value, encode_to_string, decode_string}
use xmrig2xdag.Encoding.Numbers.{le_bytes-le_value}
use xmrig2xdag.Encoding.Hex.{decode_string-IsByte}
use xmrig2xdag.Proxy.Job.{Job, next, next_nonce}
use xmrig2xdag.Proxy.Share.{Share}
use xmrig2xdag.Proxy.State.{Proxy}
use xmrig2xdag.Proxy.Target.{create_job, create_share, make_share}

-- MakeShare for a nonce that was kept as a number makes what CreateShare makes of the share itself,
-- provided that the nonce is four bytes of hexadecimal digits.
pub make_share-create_share :
    (s : Share) (p : Proxy) (mini_result : ℕ)
    → length ((decode_string (s.nonce)).0) ≡ 4
    → make_share mini_result (le_value ((decode_string (s.nonce)).0)) p ≡ create_share s p
unfolding make_share create_share
make_share-create_share s p mini_result h =
    rw (bytes ((decode_string (s.nonce)).0) (decode_string-IsByte (s.nonce)) h) refl
  where
    bytes : (bs : List ℕ) → All IsByte bs → length bs ≡ 4 → le_bytes 4 (le_value bs) ≡ bs
    bytes bs hb h4 = ap (λ n. le_bytes n (le_value bs)) (sym h4) ∙ le_bytes-le_value bs hb

-- The blob of a new job is the first half of what the pool sent, the account of the miner, and the
-- random nonce, highest byte first.
pub create_job-blob :
    (nonce : ℕ) (new_len blob : List ℕ) (p : Proxy)
    → length blob ≡ 64
    → length (p.address_hash) ≡ 24
    → (create_job nonce new_len blob p).current_blob
      ≡ take 32 blob ++ (p.address_hash ++ be_bytes 8 nonce)
unfolding create_job
create_job-blob nonce new_len blob p hb ha =
    ap (λ l. copy_at (copy_at l 32 56 (p.address_hash)) 56 64 (be_bytes 8 nonce))
      (copy_all (replicate 64 0) blob (sym hb))
    ∙ copy_at-twice blob (p.address_hash) (be_bytes 8 nonce) 32 56 64 (omega arith) refl hb

-- The next job differs from the last in the last four bytes of its blob, which are the new nonce.
pub next-blob :
    (j : Job)
    → length (j.current_blob) ≡ 64
    → ((next j).1.current_blob
        ≡ take 60 (j.current_blob) ++ be_bytes 4 (next_nonce (j.current_nonce)))
      × ((next j).1.blob ≡ encode_to_string ((next j).1.current_blob))
      × ((next j).1.current_nonce ≡ (next j).0.current_nonce)
unfolding next
next-blob j h = (
  ap (λ l. copy_at l 60 64 (be_bytes 4 (next_nonce (j.current_nonce))))
        (copy_all (replicate 64 0) (j.current_blob) (sym h))
      ∙ copy_at_all (j.current_blob) 60 64 (be_bytes 4 (next_nonce (j.current_nonce))) refl
          (omega arith)
      ∙ ap (λ l. take 60 (j.current_blob) ++ (be_bytes 4 (next_nonce (j.current_nonce)) ++ l))
          (drop_all 64 (j.current_blob) (omega arith)),
  refl,
  refl,
)

not_short : (n : ℕ) → 60 ≤ n → ltb n 60 ≡ false
not_short n h = ground arith

-- What a share says: the 28 bytes of the job from the account on, then the nonce of the share.
pub create_share-bytes :
    (s : Share) (p : Proxy)
    → length (p.current_job.current_blob) ≡ 64
    → length ((decode_string (s.nonce)).0) ≡ 4
    → create_share s p
      ≡ some (slice (p.current_job.current_blob) 32 60 ++ (decode_string (s.nonce)).0)
unfolding create_share
create_share-bytes s p hb hn = rw (not_short (length (p.current_job.current_blob)) (omega arith)) (
    ap some (
      copy_at-twice (replicate 32 0) head ((decode_string (s.nonce)).0) 0 28 32 whole (omega arith)
        refl))
  where
    head : List ℕ
    head = slice (p.current_job.current_blob) 32 60

    whole : 0 + length head ≡ 28
    whole = omega (
      arith,
      length-take 28 (drop 32 (p.current_job.current_blob)),
      length-drop 32 (p.current_job.current_blob),
    )

-- A share of a new job begins with the miner's account.
pub create_share-create_job :
    (s : Share) (nonce : ℕ) (new_len blob : List ℕ) (p : Proxy)
    → length blob ≡ 64
    → length (p.address_hash) ≡ 24
    → length ((decode_string (s.nonce)).0) ≡ 4
    → create_share s (record p { current_job = create_job nonce new_len blob p })
      ≡ some (p.address_hash ++ (take 4 (be_bytes 8 nonce) ++ (decode_string (s.nonce)).0))
create_share-create_job s nonce new_len blob p hb ha hn =
    create_share-bytes s _ (ap length (create_job-blob nonce new_len blob p hb ha) ∙ whole) hn
    ∙ ap (λ l. some (slice l 32 60 ++ (decode_string (s.nonce)).0))
        (create_job-blob nonce new_len blob p hb ha)
    ∙ ap (λ l. some (take 28 l ++ (decode_string (s.nonce)).0))
        (drop-append 32 (take 32 blob) (p.address_hash ++ be_bytes 8 nonce) first)
    ∙ ap (λ l. some (l ++ (decode_string (s.nonce)).0))
        (take-append_past 28 4 (p.address_hash) (be_bytes 8 nonce) (omega arith))
    ∙ ap some
        (append_assoc (p.address_hash) (take 4 (be_bytes 8 nonce)) ((decode_string (s.nonce)).0))
  where
    first : length (take 32 blob) ≡ 32
    first = length-take 32 blob ∙ omega arith

    whole : length (take 32 blob ++ (p.address_hash ++ be_bytes 8 nonce)) ≡ 64
    whole = omega (
      arith,
      first,
      length-append (take 32 blob) (p.address_hash ++ be_bytes 8 nonce),
      length-append (p.address_hash) (be_bytes 8 nonce),
    )
