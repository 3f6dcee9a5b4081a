-- ===== src/Proxy/Submit/Window.antt =====
-- What one call of handleSubmit of proxy/proxy.go does on each of its ways.
pub mod Spacing
pub mod Best
pub mod Message
use xmrig2xdag.Common.{
  ℕ, zero, suc, ◌+◌, ◌-◌, ◌*◌, ◌%◌, ◌^◌, ◌≡◌, ◌≢◌, ◌≤◌, ◌<◌, refl, sym, ap, ◌∙◌, List, [], ◌∷◌,
  ◌++◌, All, Option, none, some, Bool, true, false, ◌⊎◌, inl, inr, Bool-cases, Option-cases,
  if◌then◌else◌, ltb, leb, ◌==◌, codes, leb→le, arith,
}
use xmrig2xdag.Common.Options.{◌>>=◌, >>=-eq-some, some-injective, none-some}
use xmrig2xdag.Encoding.{decode_string}
use xmrig2xdag.Proxy.Share.{Share, ShareError}
use xmrig2xdag.Proxy.State.{Proxy, Event, send_buff_msg}
use xmrig2xdag.Proxy.Target.{
  Retarget, init_diff_count, uint32, create_share, make_share, set_target, get_target, uint64,
}
use xmrig2xdag.Proxy.Submit.{
  better_share, with_header, Answer, unanswered, status_ok, refused, count_share, send_or_keep,
  send, keep, share_value, send_interval, validate_share, for_current_job, handle_submit,
}

-- Only the count of shares and the target differ.
abbrev pub IsCounted : Proxy → Proxy → Type 0
IsCounted p q =
    (shares : ℕ) × (target : List ℕ) × (target_since : ℕ) × (target_share : ℕ) × (q ≡ record p {
      shares = shares;
      target = target;
      target_since = target_since;
      target_share = target_share;
    })

counted :
    (p : Proxy) (a c d : ℕ) (b : List ℕ) {q : Proxy}
    → some (record p { shares = a; target = b; target_since = c; target_share = d }) ≡ some q
    → IsCounted p q
counted p a c d b e = (a, b, c, d, sym (some-injective e))

unchanged : (p : Proxy) {q : Proxy} → some p ≡ some q → IsCounted p q
unchanged p e = counted p (p.shares) (p.target_since) (p.target_share) (p.target) e

pub set_target-IsCounted :
    (retarget : Retarget) (i t : ℕ) (p q : Proxy)
    → set_target retarget i t p ≡ some q
    → IsCounted p q
unfolding set_target
set_target-IsCounted retarget i t p q e =
    elim (Option-cases ((decode_string (codes "00000000" ++ get_target p)).1)) [
      | inl ok ↦
          elim (Option-cases (uint64 ((decode_string (codes "00000000" ++ get_target p)).0))) [
            | inl short ↦ absurd (none-some (rw (ok, short, set_target) at e))
            | inr (target, eq) ↦ counted p _ _ _ _ (rw (ok, eq, set_target) at e)
          ]
      | inr (bad, err) ↦ unchanged p (rw (err, set_target) at e)
    ]

pub count_share-IsCounted :
    (retarget : Retarget) (now : ℕ) (p q : Proxy)
    → count_share retarget now p ≡ some q
    → IsCounted p q
unfolding count_share
count_share-IsCounted retarget now p q e = elim (Bool-cases ((p.shares + 1) % 2 ^ 64 == 1)) [
  | inl first ↦ counted p _ _ _ _ (rw (first, count_share) at e)
  | inr more ↦ elim (Bool-cases ((p.shares + 1) % 2 ^ 64 == init_diff_count + 1)) [
    | inl enough ↦ set_target-IsCounted retarget _ now _ q (rw (more, enough, count_share) at e)
    | inr other ↦ counted p _ _ _ _ (rw (more, other, count_share) at e)
  ]
]

-- Nothing is sent, or one message four seconds or more after the last one.
abbrev pub IsTimely : ℕ → Proxy → Proxy → List Event → Type 0
IsTimely t p q events =
    ((events ≡ []) × (q.last_send ≡ p.last_send))
    ⊎ ((p.last_send + send_interval ≤ t)
        × (q.last_send ≡ t)
        × ((message : List ℕ) × (events ≡ send_buff_msg message ∷ [])))

send-IsTimely :
    (t result : ℕ) (s : Share) (p q : Proxy) (events : List Event)
    → send_interval ≤ t - p.last_send
    → send t result s p ≡ some (q, events)
    → IsTimely t p q events
unfolding send
send-IsTimely t result s p q events late e = elim (Option-cases (better_share result s p)) [
  | inl none_made ↦ absurd (none-some (rw (none_made, send) at e))
  | inr (bytes, made) ↦
      let pair = some-injective (rw (made, send) at e) in
      inr (
        omega arith,
        ap (λ r. r.0.last_send) (sym pair),
        (with_header bytes, ap (λ r. r.1) (sym pair)),
      )
]

keep-IsTimely :
    (t result : ℕ) (s : Share) (p q : Proxy) (events : List Event)
    → keep result s p ≡ some (q, events)
    → IsTimely t p q events
unfolding keep
keep-IsTimely t result s p q events e = elim (Bool-cases (ltb result (p.mini_result))) [
  | inl less ↦ elim (Option-cases (uint32 ((decode_string (s.nonce)).0))) [
    | inl short ↦ absurd (none-some (rw (less, short, keep) at e))
    | inr (nonce, read) ↦
        let pair = some-injective (rw (less, read, keep) at e) in
        inl (ap (λ r. r.1) (sym pair), ap (λ r. r.0.last_send) (sym pair))
  ]
  | inr more ↦
      let pair = some-injective (rw (more, keep) at e) in
      inl (ap (λ r. r.1) (sym pair), ap (λ r. r.0.last_send) (sym pair))
]

send_or_keep-IsTimely :
    (t : ℕ) (s : Share) (p q : Proxy) (events : List Event)
    → send_or_keep t s p ≡ some (q, events)
    → IsTimely t p q events
unfolding send_or_keep
send_or_keep-IsTimely t s p q events e = elim (Option-cases (share_value s)) [
  | inl short ↦ absurd (none-some (rw (short, send_or_keep) at e))
  | inr (result, read) ↦ elim (Bool-cases (leb send_interval (t - p.last_send))) [
    | inl late ↦
        send-IsTimely t result s p q events (leb→le _ _ late) (rw (read, late, send_or_keep) at e)
    | inr early ↦ keep-IsTimely t result s p q events (rw (read, early, send_or_keep) at e)
  ]
]

counted-IsTimely :
    (t : ℕ) (p q r : Proxy) (events : List Event)
    → IsCounted q r
    → IsTimely t p q events
    → IsTimely t p r events
counted-IsTimely t p q r events (_, _, _, _, e) h = rw e h

abbrev ends : Proxy → List Event → Answer → Option (Proxy × List Event × Answer)
ends p events answer = some (p, events, answer)

-- One call of handleSubmit that does not panic sends nothing and leaves the time of the last message
-- alone, or sends one message, four seconds or more after the last one, and puts down the time.
pub handle_submit-IsTimely :
    (level : ℕ) (retarget : Retarget) (t later : ℕ) (s : Share) (p q : Proxy) (events : List Event)
    (answer : Answer)
    → handle_submit level retarget t later s p ≡ some (q, events, answer)
    → IsTimely t p q events
unfolding handle_submit
handle_submit-IsTimely level retarget t later s p q events answer e =
    elim (Bool-cases (p.is_closed)) [
      | inl closed ↦ stays (record p { is_closed = true }) refl (rw (closed, handle_submit) at e)
      | inr alive ↦ elim (Option-cases (p.conn)) [
        | inl gone ↦ stays p refl (rw (alive, gone, handle_submit) at e)
        | inr (eofs, there) ↦ elim (Bool-cases (for_current_job s p)) [
          | inl current ↦ elim (Option-cases (validate_share level s p)) [
            | inl valid ↦ sends (rw (alive, there, current, valid, handle_submit) at e)
            | inr (error, bad) ↦ stays p refl (rw (alive, there, current, bad, handle_submit) at e)
          ]
          | inr other ↦
              counts p [] (inl (refl, refl)) (rw (alive, there, other, handle_submit) at e)
        ]
      ]
    ]
  where
    ended :
        {r : Proxy} {sent : List Event} {a : Answer}
        → ends r sent a ≡ ends q events answer
        → IsTimely t p r sent
        → IsTimely t p q events
    ended eq h =
        let pair = some-injective eq in rw (ap (λ x. x.0) (sym pair), ap (λ x. x.1) (sym pair)) h

    stays :
        {a : Answer} (r : Proxy)
        → r.last_send ≡ p.last_send
        → ends r [] a ≡ ends q events answer
        → IsTimely t p q events
    stays r h eq = ended eq (inl (refl, h))

    counts :
        (r : Proxy) (sent : List Event)
        → IsTimely t p r sent
        → (count_share retarget later r >>= (λ counted. ends counted sent status_ok))
          ≡ ends q events answer
        → IsTimely t p q events
    counts r sent h eq =
        let (c, k, pair) = >>=-eq-some (count_share retarget later r) _ eq in
        ended pair (counted-IsTimely t p r c sent (count_share-IsCounted retarget later r c k) h)

    sends :
        (send_or_keep t s p >>= (λ r.
            count_share retarget later (r.0) >>= (λ counted. ends counted (r.1) status_ok)))
          ≡ ends q events answer
        → IsTimely t p q events
    sends eq =
        let (r, k, rest) = >>=-eq-some (send_or_keep t s p) _ eq in
        counts (r.0) (r.1) (send_or_keep-IsTimely t s p (r.0) (r.1) k) rest
