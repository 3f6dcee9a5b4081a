-- ===== src/Proxy/Job.antt =====
-- proxy/job.go. A job is copied where the code keeps a pointer: `Next` gives the job that it has changed
-- and the new one.
use xmrig2xdag.Common.{
  ℕ, ◌+◌, ◌-◌, ◌%◌, ◌^◌, List, [], ◌++◌, Option, none, some, Bool, leb, ◌==◌, if◌then◌else◌, length,
  replicate, codes, copy, copy_at,
}
use xmrig2xdag.Encoding.{be_bytes, le_value, encode_to_string, decode_string, HexError}

abbrev pub init_nonce_offset : ℕ
init_nonce_offset = 56

abbrev pub init_nonce_length : ℕ
init_nonce_length = 8

abbrev pub nonce_offset : ℕ
nonce_offset = 60

abbrev pub nonce_length : ℕ
nonce_length = 4

abbrev pub nonce_increment : ℕ
nonce_increment = 0x02000000

abbrev pub max_nonce_value : ℕ
max_nonce_value = 0xFFFFFFFF - nonce_increment

abbrev pub xdag_algo : List ℕ
xdag_algo = codes "rx/xdag"

pub record Job : Type 0 where
  pub blob : List ℕ
  pub id : List ℕ
  pub target : List ℕ
  pub seed_hash : List ℕ
  pub algo : List ℕ
  pub initial_nonce : ℕ
  pub current_blob : List ℕ
  pub current_nonce : ℕ

-- `&Job{}`
abbrev pub empty_job : Job
empty_job = record {
  blob = [];
  id = [];
  target = [];
  seed_hash = [];
  algo = [];
  initial_nonce = 0;
  current_blob = [];
  current_nonce = 0;
}

-- The step of the 32-bit nonce.
unfoldable pub next_nonce : ℕ → ℕ
next_nonce nonce =
    let moved = (nonce + nonce_increment) % 2 ^ 32 in if leb max_nonce_value moved then 1 else moved

-- Next: the job it is called on, and the next one.
unfoldable pub next : Job → Job × Job
next j =
    let nonce = next_nonce (j.current_nonce) in
    let moved = record j { current_nonce = nonce } in
    let bytes =
      copy_at (copy (replicate 64 0) (j.current_blob)) nonce_offset (nonce_offset + nonce_length)
        (be_bytes nonce_length nonce) in
    (
      moved,
      record {
        blob = encode_to_string bytes;
        id = j.id;
        target = j.target;
        seed_hash = j.seed_hash;
        algo = xdag_algo;
        initial_nonce = j.initial_nonce;
        current_blob = bytes;
        current_nonce = nonce;
      },
    )

pub data TargetError : Type 0 where
  unknown_target_format : TargetError
  target_hex : HexError → TargetError

-- getTargetUint64
unfoldable pub get_target_uint64 : Job → ℕ × Option TargetError
get_target_uint64 j =
    let target = if length (j.target) == 8 then codes "00000000" ++ j.target else j.target in
    let (bytes, error) = decode_string target in
    if length target == 16
    then elim error [ none ↦ (le_value bytes, none) | some e ↦ (0, some (target_hex e)) ]
    else (0, some unknown_target_format)

abbrev fake_blob : List ℕ
fake_blob =
    codes
      "070780e6b9d60586ba419a0c224e3c6c3e134cc45c4fa04d8ee2d91c2595463c57eef0a4f0796c000000002fcc4d62fa6c77e76c30017c768be5c61d83ec9d3a"

-- createFakeJob: `b` are the 64 bytes of the buffer after rand.Read, `failed` says that Read returned an
-- error, `new_len` is the result of NewLen(18). The code writes to `blob` twice.
unfoldable pub create_fake_job : List ℕ → Bool → List ℕ → Job
create_fake_job b failed new_len =
    let fallback = if failed then fake_blob else [] in
    let blob = encode_to_string b in
    record {
      blob = blob;
      id = codes "FFFFFFFFFF" ++ new_len;
      target = codes "b88d0600";
      seed_hash = codes "e1364b8782719d7683e2ccd3d8f724bc59dfa780a9e960e7c0e0046acdb40100";
      algo = xdag_algo;
      initial_nonce = 0;
      current_blob = [];
      current_nonce = 0;
    }
