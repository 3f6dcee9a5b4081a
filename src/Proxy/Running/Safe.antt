-- ===== src/Proxy/Running/Safe.antt =====
-- What keeps Run of proxy/proxy.go from a panic: the state of a proxy that is connected.
pub mod Fields
pub mod Shares
pub mod Rounds
pub mod Whole
use xmrig2xdag.Common.{
  ℕ, ◌≡◌, ◌⊎◌, ◌≤◌, ◌+◌, Bool, ltb, ◌==◌, ◌&&◌, refl, sym, ◌∙◌, List, [], some, inl, inr, true,
  false, Bool-cases, length, length-copy, length-copy_at, replicate, copy, copy_at, arith,
}
use xmrig2xdag.Encoding.{be_bytes}
use xmrig2xdag.Encoding.Hex.{length-encode_to_string}
use xmrig2xdag.Proxy.Job.{Job}
use xmrig2xdag.Proxy.State.{Proxy, Event}
use xmrig2xdag.Proxy.Target.{create_job}
use xmrig2xdag.Proxy.Submit.Returns.{IsTarget}
use xmrig2xdag.Proxy.Close.{
  Cause, by_worker, by_pool, pool_is_down, by_self, eof_limit, finish, shutdown, farewell,
}

-- No job yet, or one with a whole blob.
abbrev pub IsJob : Job → Type 0
IsJob j = ((j.id ≡ []) × (j.blob ≡ [])) ⊎ ((length (j.current_blob) ≡ 64) × (32 ≤ length (j.blob)))

-- A proxy that has a connection, or is closed.
abbrev pub IsConnected : Proxy → Type 0
IsConnected p = (p.is_closed ≡ true) ⊎ ((eofs : ℕ) × (p.conn ≡ some eofs))

pub record IsSafe (p : Proxy) : Type 0 where
  pub target : IsTarget (p.target)
  pub job : IsJob (p.current_job)
  pub connected : IsConnected p

pub create_job-whole :
    (nonce : ℕ) (new_len bytes : List ℕ) (p : Proxy)
    → (length ((create_job nonce new_len bytes p).current_blob) ≡ 64)
      × (32 ≤ length ((create_job nonce new_len bytes p).blob))
unfolding create_job
create_job-whole nonce new_len bytes p =
    let copied = copy (replicate 64 0) bytes in
    let owned = copy_at copied 32 56 (p.address_hash) in
    let whole : length (copy_at owned 56 64 (be_bytes 8 nonce)) ≡ 64 =
      let first : length copied ≡ 64 = length-copy (replicate 64 0) bytes in
      let second : length owned ≡ 64 =
        length-copy_at copied 32 56 (p.address_hash) (omega arith) (omega (arith, first)) ∙ first in
      length-copy_at owned 56 64 (be_bytes 8 nonce) (omega arith) (omega (arith, second))
      ∙ second in
    (whole, omega (arith, whole, length-encode_to_string (copy_at owned 56 64 (be_bytes 8 nonce))))

farewell-returns :
    (eof_count : ℕ) (exits : Bool) (cause : Cause) (p : Proxy) (eofs : ℕ)
    → p.conn ≡ some eofs
    → (r : List Event × Bool) × (farewell eof_count exits cause p ≡ some r)
unfolding farewell
farewell-returns eof_count exits by_worker p eofs h = (_, refl)
farewell-returns eof_count exits by_self p eofs h = (_, refl)
farewell-returns eof_count exits pool_is_down p eofs h = elim (Bool-cases exits) [
  | inl ends ↦ rw (ends, farewell) (_, refl)
  | inr goes ↦ rw (goes, farewell) (_, refl)
]
farewell-returns eof_count exits by_pool p eofs h =
    elim (Bool-cases ((p.field_in == 0) && ltb (p.field_out) 18)) [
      | inr late ↦ rw (late, farewell) (_, refl)
      | inl early ↦ elim (Bool-cases (ltb 0 eofs)) [
        | inr none_seen ↦ rw (early, h, none_seen, farewell) (_, refl)
        | inl seen ↦ elim (Bool-cases (ltb eof_limit (eof_count + 1))) [
          | inr few ↦ rw (early, h, seen, few, farewell) (_, refl)
          | inl many ↦ elim (Bool-cases exits) [
            | inl ends ↦ rw (early, h, seen, many, ends, farewell) (_, refl)
            | inr goes ↦ rw (early, h, seen, many, goes, farewell) (_, refl)
          ]
        ]
      ]
    ]

finish-IsSafe : (p : Proxy) → IsSafe p → IsSafe ((finish p).0)
finish-IsSafe p safe = elim (Bool-cases (ltb 0 (p.id))) [
  | inl known ↦ rw known (record { target = safe.target; job = safe.job; connected = inl refl })
  | inr detect ↦ rw detect (record { target = safe.target; job = safe.job; connected = inl refl })
]

-- An end does not panic where there is a connection to look at.
pub shutdown-returns :
    (eof_count : ℕ) (exits : Bool) (cause : Cause) (p : Proxy)
    → IsSafe p
    → (r : Proxy × List Event) × (shutdown eof_count exits cause p ≡ some r) × IsSafe (r.0)
unfolding shutdown
shutdown-returns eof_count exits cause p safe = elim (Bool-cases (p.is_closed)) [
  | inl closed ↦
      rw (closed, shutdown)
        (_, refl, record { target = safe.target; job = safe.job; connected = inl refl })
  | inr alive ↦ elim (safe.connected) [
    | inl closed ↦ absurd (let bad : true ≡ false = sym closed ∙ alive in cc)
    | inr (eofs, there) ↦
        let ((events, goes_on), said) = farewell-returns eof_count exits cause p eofs there in
        let still : IsSafe (record p { is_closed = false }) = record {
          target = safe.target;
          job = safe.job;
          connected = inr (eofs, there);
        } in
        elim (Bool-cases goes_on) [
          | inl on ↦ rw (said, on, alive, shutdown) (_, refl, finish-IsSafe _ still)
          | inr off ↦ rw (said, off, alive, shutdown) (_, refl, still)
        ]
  ]
]
