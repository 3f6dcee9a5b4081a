-- ===== src/Proxy/Target.antt =====
-- The parts of proxy/proxy.go that make jobs, shares and targets. A panic of the code is `none`.
pub mod Laws
use xmrig2xdag.Common.{
  ℕ, zero, suc, ◌+◌, ◌-◌, ◌*◌, ◌%◌, ◌^◌, List, [], ◌∷◌, ◌++◌, Option, none, some, ltb, leb, ◌==◌,
  if◌then◌else◌, length, replicate, codes, copy, copy_at, slice, take, drop, list_eq,
}
use xmrig2xdag.Encoding.{le_bytes, be_bytes, le_value, encode_to_string, decode_string}
use xmrig2xdag.Common.Options.{◌>>=◌}
use xmrig2xdag.Proxy.Job.{Job, init_nonce_offset, init_nonce_length, xdag_algo}
use xmrig2xdag.Proxy.Share.{Share}
use xmrig2xdag.Proxy.State.{Proxy}

abbrev pub init_diff_count : ℕ
init_diff_count = 16

abbrev pub submit_interval : ℕ
submit_interval = 5

-- binary.LittleEndian.Uint64, which needs eight bytes, and Uint32, which needs four.
abbrev pub uint64 : List ℕ → Option ℕ
uint64 bs = if ltb (length bs) 8 then none else some (le_value (take 8 bs))

abbrev pub uint32 : List ℕ → Option ℕ
uint32 bs = if ltb (length bs) 4 then none else some (le_value (take 4 bs))

-- getTarget
unfoldable pub get_target : Proxy → List ℕ
get_target p = if list_eq (p.target) [] then codes "b88d0600" else p.target

-- The floating-point formula of setTarget: the new target from the old one, the time that the shares
-- took, and their number times submitInterval.
abbrev pub Retarget : Type 0
Retarget = ℕ → ℕ → ℕ → ℕ

-- setTarget, with the time `t`.
unfoldable pub set_target : Retarget → ℕ → ℕ → Proxy → Option Proxy
unfolding get_target
set_target retarget share_index t p =
    let duration = t - p.target_since in
    let diff_count =
      if share_index == init_diff_count + 1
      then init_diff_count
      else (p.shares + 2 ^ 64 - p.target_share) % 2 ^ 64 in
    let (target_bytes, error) = decode_string (codes "00000000" ++ get_target p) in
    elim error [
      | some _ ↦ some p
      | none ↦ do
        target ← uint64 target_bytes
        let new_target = retarget target duration (diff_count * submit_interval)
        some (record p {
          target = encode_to_string (drop 4 (le_bytes 8 new_target));
          target_since = t;
          target_share = p.shares;
        })
    ]

-- CreateJob: `nonce` is the random number, `new_len` the result of NewLen(28). The blob has 64 bytes.
unfoldable pub create_job : ℕ → List ℕ → List ℕ → Proxy → Job
unfolding get_target
create_job nonce new_len blob_bytes p =
    let copied = copy (replicate 64 0) blob_bytes in
    let owned = copy_at copied 32 56 (p.address_hash) in
    let current_blob =
      copy_at owned init_nonce_offset (init_nonce_offset + init_nonce_length)
        (be_bytes init_nonce_length nonce) in
    record {
      blob = encode_to_string current_blob;
      id = new_len;
      target = get_target p;
      seed_hash = encode_to_string (slice blob_bytes 32 64);
      algo = xdag_algo;
      initial_nonce = nonce % 2 ^ 32;
      current_blob = current_blob;
      current_nonce = nonce % 2 ^ 32;
    }

-- `currentBlob[32:60]`, out of range for the job that is no job yet.
abbrev pub share_head : Proxy → Option (List ℕ)
share_head p =
    let blob = p.current_job.current_blob in
    if ltb (length blob) 60 then none else some (slice blob 32 60)

-- CreateShare
unfoldable pub create_share : Share → Proxy → Option (List ℕ)
create_share s p = do
  head ← share_head p
  let (nonce_bytes, _) = decode_string (s.nonce)
  some (copy_at (copy_at (replicate 32 0) 0 28 head) 28 32 nonce_bytes)

-- MakeShare
unfoldable pub make_share : ℕ → ℕ → Proxy → Option (List ℕ)
make_share mini_result mini_nonce p = do
  head ← share_head p
  some (copy_at (copy_at (replicate 32 0) 0 28 head) 28 32 (le_bytes 4 mini_nonce))
