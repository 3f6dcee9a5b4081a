-- ===== src/Proxy/Submit/Returns.antt =====
-- handleSubmit of proxy/proxy.go returns: what keeps it from a panic.
use xmrig2xdag.Common.{
  ℕ, ◌+◌, ◌-◌, ◌*◌, ◌%◌, ◌^◌, ◌≡◌, ◌≢◌, ◌≤◌, refl, ap, ◌∙◌, List, [], ◌∷◌, ◌++◌, All, All-drop,
  IsByte, Option, none, some, true, false, not, ◌||◌, ◌⊎◌, inl, inr, Bool-cases, Option-cases,
  if◌then◌else◌, ltb, leb, ◌==◌, codes, length, length-drop, take, slice, drop, list_eq,
  list_eq_iff, arith,
}
use xmrig2xdag.Common.Options.{◌>>=◌}
use xmrig2xdag.Encoding.{hex_digit, decode_string, encode_to_string, le_value, le_bytes}
use xmrig2xdag.Encoding.Hex.{decode_string-encode_to_string, decode_string-length}
use xmrig2xdag.Encoding.Numbers.{le_bytes-IsByte}
use xmrig2xdag.Proxy.Job.{Job}
use xmrig2xdag.Proxy.Share.{Share, no_client, validate, validate_format}
use xmrig2xdag.Proxy.State.{Proxy, Event}
use xmrig2xdag.Proxy.Target.{
  share_head, Retarget, get_target, set_target, uint64, create_share, make_share, init_diff_count,
  submit_interval,
}
use xmrig2xdag.Proxy.Submit.Window.{count_share-IsCounted}
use xmrig2xdag.Proxy.Submit.Window.Best.{keep-better, early_keeps, late_sends, to_send_or_keep}
use xmrig2xdag.Proxy.Submit.{
  Answer, unanswered, status_ok, refused, count_share, send_or_keep, send, better_share,
  share_value, send_interval, validate_share, for_current_job, handle_submit,
}

-- A target is not set yet, or four bytes in hexadecimal digits.
abbrev pub IsTarget : List ℕ → Type 0
IsTarget target =
    (target ≡ [])
    ⊎ ((bytes : List ℕ) × (length bytes ≡ 4) × All IsByte bytes × (target ≡ encode_to_string bytes))

abbrev pub IsReady : Proxy → Type 0
IsReady p = IsTarget (p.target) × (length (p.current_job.current_blob) ≡ 64)

longer : (bs : List ℕ) → length bs ≤ length (encode_to_string bs)
longer [] = omega arith
longer (b ∷ bs) = omega (arith, longer bs)

get_target-bytes :
    (p : Proxy)
    → IsTarget (p.target)
    → (bytes : List ℕ) × (length bytes ≡ 4)
      × All IsByte bytes
      × (get_target p ≡ encode_to_string bytes)
unfolding get_target hex_digit
get_target-bytes p (inl e) =
    (0xb8 ∷ 0x8d ∷ 0x06 ∷ 0 ∷ [], refl, omega arith, rw (e, get_target) refl)
get_target-bytes p (inr (bytes, h4, hb, e)) = (bytes, h4, hb, rw (not_empty bytes h4) e)
  where
    not_empty : (bs : List ℕ) → length bs ≡ 4 → list_eq (p.target) [] ≡ false
    not_empty [] h = absurd (omega arith)
    not_empty (b ∷ bs) h = elim (Bool-cases (list_eq (p.target) [])) [
      | inl empty ↦ absurd (
          omega
            (arith, ap length ((list_eq_iff (p.target) []).0 empty), ap length e, h4, longer bytes))
      | inr full ↦ full
    ]

uint64_eight : (bs : List ℕ) → length bs ≡ 8 → (n : ℕ) × (uint64 bs ≡ some n)
uint64_eight bs h = (le_value (take 8 bs), rw (not_short (length bs) h) refl)
  where
    not_short : (n : ℕ) → n ≡ 8 → ltb n 8 ≡ false
    not_short n e = ground arith

target_text :
    (bytes : List ℕ)
    → codes "00000000" ++ encode_to_string bytes ≡ encode_to_string (0 ∷ 0 ∷ 0 ∷ 0 ∷ bytes)
unfolding hex_digit
target_text bytes = refl

drop-IsTarget : (x : ℕ) → IsTarget (encode_to_string (drop 4 (le_bytes 8 x)))
drop-IsTarget x =
    inr (drop 4 (le_bytes 8 x), refl, All-drop IsByte 4 (le_bytes 8 x) (le_bytes-IsByte 8 x), refl)

pub set_target-returns :
    (retarget : Retarget) (i t : ℕ) (p : Proxy)
    → IsTarget (p.target)
    → (q : Proxy) × (set_target retarget i t p ≡ some q) × IsTarget (q.target)
unfolding set_target
set_target-returns retarget i t p ht =
    let (bytes, h4, hb, e) = get_target-bytes p ht in
    let (n, hn) = uint64_eight (0 ∷ 0 ∷ 0 ∷ 0 ∷ bytes) (omega arith) in
    let decoded =
      ap decode_string (ap (λ l. codes "00000000" ++ l) e ∙ target_text bytes)
      ∙ decode_string-encode_to_string (0 ∷ 0 ∷ 0 ∷ 0 ∷ bytes)
          (omega arith, (omega arith, (omega arith, (omega arith, hb)))) in
    let count =
      if i == init_diff_count + 1
      then init_diff_count
      else (p.shares + 2 ^ 64 - p.target_share) % 2 ^ 64 in
    rw (decoded, decoded, hn, set_target)
      (_, refl, drop-IsTarget (retarget n (t - p.target_since) (count * submit_interval)))

pub count_share-returns :
    (retarget : Retarget) (now : ℕ) (p : Proxy)
    → IsTarget (p.target)
    → (q : Proxy) × (count_share retarget now p ≡ some q) × IsTarget (q.target)
unfolding count_share
count_share-returns retarget now p h = elim (Bool-cases ((p.shares + 1) % 2 ^ 64 == 1)) [
  | inl first ↦ rw (first, count_share) (_, refl, h)
  | inr more ↦ elim (Bool-cases ((p.shares + 1) % 2 ^ 64 == init_diff_count + 1)) [
    | inl enough ↦ rw (more, enough, count_share) (set_target-returns retarget _ now _ h)
    | inr other ↦ rw (more, other, count_share) (_, refl, h)
  ]
]

some-none {ℓ} : {A : Type ℓ} {a : A} → some a ≢ none
some-none e = cc

two_tests : (a b : ℕ) → (not (a == 8) || not (b == 64)) ≡ false → (a ≡ 8) × (b ≡ 64)
two_tests a b h = ground arith

format-lengths :
    (s : Share)
    → validate_format s ≡ none
    → (length ((decode_string (s.nonce)).0) ≡ 4) × (length ((decode_string (s.result)).0) ≡ 32)
unfolding validate_format
format-lengths s e =
    elim (Bool-cases (not (length (s.nonce) == 8) || not (length (s.result) == 64))) [
      | inl bad ↦ absurd (some-none (rw bad at e))
      | inr right ↦ elim (Option-cases ((decode_string (s.nonce)).1)) [
        | inr (x, err) ↦ absurd (some-none (rw (right, err) at e))
        | inl ok ↦ elim (Option-cases ((decode_string (s.result)).1)) [
          | inr (x, err) ↦ absurd (some-none (rw (right, ok, err) at e))
          | inl ok' ↦
              let (h8, h64) = two_tests (length (s.nonce)) (length (s.result)) right in
              (
                omega (arith, decode_string-length (s.nonce) ok),
                omega (arith, decode_string-length (s.result) ok'),
              )
        ]
      ]
    ]

validate-format :
    (level : ℕ) (s : Share) (j : Job)
    → 2 ≤ level
    → validate level s j ≡ none
    → validate_format s ≡ none
unfolding validate
validate-format level s j h e = elim (Option-cases (validate_format s)) [
  | inl ok ↦ ok
  | inr (x, err) ↦ absurd (some-none (rw (at_level level h, err, validate) at e))
]
  where
    at_level : (n : ℕ) → 2 ≤ n → leb 2 n ≡ true
    at_level n h = ground arith

valid-format :
    (level : ℕ) (s : Share) (p : Proxy)
    → 2 ≤ level
    → validate_share level s p ≡ none
    → validate_format s ≡ none
unfolding validate_share
valid-format level s p h e = elim (Bool-cases (list_eq (s.job_id) (p.current_job.id))) [
  | inl current ↦ validate-format level s (p.current_job) h (rw (current, validate_share) at e)
  | inr other ↦ elim (Bool-cases (list_eq (s.job_id) (p.prev_job_id))) [
    | inl prev ↦ validate-format level s (p.current_job) h (rw (other, prev, validate_share) at e)
    | inr bad ↦ absurd (some-none (rw (other, bad, validate_share) at e))
  ]
]

blob_head : (p : Proxy) → IsReady p → (head : List ℕ) × (share_head p ≡ some head)
blob_head p (_, h) = (slice (p.current_job.current_blob) 32 60, rw (not_short _ h) refl)
  where
    not_short : (n : ℕ) → n ≡ 64 → ltb n 60 ≡ false
    not_short n e = ground arith

better_share-returns :
    (v : ℕ) (s : Share) (p : Proxy)
    → IsReady p
    → (bytes : List ℕ) × (better_share v s p ≡ some bytes)
unfolding better_share create_share make_share
better_share-returns v s p ready =
    let (head, h) = blob_head p ready in
    elim (Bool-cases (ltb v (p.mini_result))) [
      | inl less ↦ rw (less, better_share, create_share, h) (_, refl)
      | inr more ↦ rw (more, better_share, make_share, h) (_, refl)
    ]

share_value-returns :
    (s : Share) → length ((decode_string (s.result)).0) ≡ 32 → (v : ℕ) × (share_value s ≡ some v)
share_value-returns s h =
    let bytes = (decode_string (s.result)).0 in
    let (v, e) =
      uint64_eight (drop (length bytes - 8) bytes)
        (omega (arith, length-drop (length bytes - 8) bytes)) in
    (v, rw (not_short (length bytes) h) e)
  where
    not_short : (n : ℕ) → n ≡ 32 → ltb n 8 ≡ false
    not_short n e = ground arith

-- What a returning call leaves, for each kind of result.
abbrev Sent : Option (Proxy × List Event) → Type 0
Sent m = (q : Proxy) × (events : List Event) × (m ≡ some (q, events)) × IsReady q

send-returns : (t v : ℕ) (s : Share) (p : Proxy) → IsReady p → Sent (send t v s p)
unfolding send
send-returns t v s p ready =
    let (bytes, h) = better_share-returns v s p ready in rw (h, send) (_, _, refl, ready)

send_or_keep-returns :
    (t : ℕ) (s : Share) (p : Proxy)
    → IsReady p
    → length ((decode_string (s.nonce)).0) ≡ 4
    → length ((decode_string (s.result)).0) ≡ 32
    → Sent (send_or_keep t s p)
send_or_keep-returns t s p ready h4 h32 =
    let (v, read) = share_value-returns s h32 in
    elim (Bool-cases (leb send_interval (t - p.last_send))) [
      | inl late ↦ rw (late_sends t s p v read late) (send-returns t v s p ready)
      | inr early ↦ (_, _, early_keeps t s p v read early ∙ keep-better s p v h4, ready)
    ]

abbrev Returns : Option (Proxy × List Event × Answer) → Type 0
Returns m =
    (q : Proxy) × (events : List Event) × (answer : Answer) × (m ≡ some (q, events, answer))
    × IsReady q

counted-Returns :
    (retarget : Retarget) (later : ℕ) (p : Proxy) (events : List Event)
    → IsReady p
    → Returns (count_share retarget later p >>= (λ counted. some (counted, events, status_ok)))
counted-Returns retarget later p events ready =
    let (q, e, h) = count_share-returns retarget later p (ready.0) in
    let (_, _, _, _, same) = count_share-IsCounted retarget later p q e in
    rw e (
      q,
      events,
      status_ok,
      refl,
      (h, ap (λ (x : Proxy). length (x.current_job.current_blob)) same ∙ ready.1),
    )

-- At validation level 2 or above, on a proxy whose job has a blob of 64 bytes and whose target is not set
-- or well formed, handleSubmit returns for every share, and leaves such a proxy.
pub handle_submit-returns :
    (level : ℕ) (retarget : Retarget) (t later : ℕ) (s : Share) (p : Proxy)
    → 2 ≤ level
    → IsReady p
    → (q : Proxy) × (events : List Event) × (answer : Answer) × (handle_submit level retarget t
          later s p
        ≡ some (q, events, answer))
      × IsReady q
unfolding handle_submit
handle_submit-returns level retarget t later s p h ready = elim (Bool-cases (p.is_closed)) [
  | inl closed ↦ rw (closed, handle_submit) (_, [], unanswered, refl, ready)
  | inr alive ↦ elim (Option-cases (p.conn)) [
    | inl gone ↦ rw (alive, gone, handle_submit) (p, [], refused no_client, refl, ready)
    | inr (eofs, there) ↦ elim (Bool-cases (for_current_job s p)) [
      | inr other ↦
          rw (alive, there, other, handle_submit) (counted-Returns retarget later p [] ready)
      | inl current ↦ elim (Option-cases (validate_share level s p)) [
        | inr (x, bad) ↦
            rw (alive, there, current, bad, handle_submit) (p, [], refused x, refl, ready)
        | inl valid ↦
            let (h4, h32) = format-lengths s (valid-format level s p h valid) in
            let (sent, events, e, k) = send_or_keep-returns t s p ready h4 h32 in
            let (q, ev, a, eq, r) = counted-Returns retarget later sent events k in
            (
              q,
              ev,
              a,
              to_send_or_keep level retarget t later s p _ (alive, (eofs, there)) current valid
                  (rw e eq),
              r,
            )
      ]
    ]
  ]
]
