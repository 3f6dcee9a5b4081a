-- ===== src/Proxy/Running/Retries.antt =====
-- The attempts of Run in proxy/proxy.go to get a connection to the pool.
use xmrig2xdag.Common.{
  ℕ, zero, suc, ◌+◌, ◌-◌, ◌≡◌, ◌⊎◌, ◌≤◌, ◌<◌, refl, sym, ap, ◌∙◌, List, none, some, true, false,
  not, ◌&&◌, ltb, if◌then◌else◌, Bool-cases, inl, inr, arith,
}
use xmrig2xdag.Proxy.State.{Proxy}
use xmrig2xdag.Proxy.Close.{by_self, pool_is_down}
use xmrig2xdag.Proxy.Running.{
  Attempt, dial_fails, log_in, connect, Acquired, connected, gave_up, out_of_fuel, is_detect,
  acquire,
}

-- An attempt that fails.
abbrev pub Fails : List ℕ → Attempt → Type 0
Fails socks5 a = dial_fails socks5 a ≡ true

module _ (weather : ℕ → Attempt) (socks5 : List ℕ) (times : ℕ) (name : List ℕ) (p : Proxy) where
  -- What is left of the loop from `count` failures on. Every attempt before the last one failed.
  abbrev pub IsSound : ℕ → Acquired → Type 0
  IsSound count (connected attempts q events) =
      (count < attempts)
      × (attempts ≤ times + 1)
      × ((i : ℕ) → count ≤ i → i + 1 < attempts → Fails socks5 (weather i))
      × (dial_fails socks5 (weather (attempts - 1)) ≡ false)
      × ((q, events) ≡ log_in name p)
  IsSound count (gave_up attempts cause) =
      (attempts ≤ times + 1)
      × ((i : ℕ) → count ≤ i → i < attempts → Fails socks5 (weather i))
      × ((attempts ≡ times + 1) ⊎ (0 < (weather attempts).pool_down))
      × (is_detect name ≡ false → cause ≡ pool_is_down)
  IsSound count out_of_fuel = ⊥

  closer :
      (count bound : ℕ)
      → Fails socks5 (weather count)
      → ((i : ℕ) → count + 1 ≤ i → i < bound → Fails socks5 (weather i))
      → (i : ℕ) → count ≤ i
      → i < bound
      → Fails socks5 (weather i)
  closer count bound now later i le lt = elim (Bool-cases (ltb count i)) [
    | inl above ↦ later i (ground arith) lt
    | inr here ↦
        let same : count ≡ i = ground arith in
        ap (λ k. dial_fails socks5 (weather k)) (sym same) ∙ now
  ]

  one_more :
      (count : ℕ) (r : Acquired)
      → Fails socks5 (weather count)
      → IsSound (count + 1) r
      → IsSound count r
  one_more count (connected attempts q events) now h = (
    omega (arith, h.0),
    h.1,
    λ i le lt. closer count (attempts - 1) now (λ j a b. h.2 j a (omega arith)) i le (omega arith),
    h.3,
    h.4,
  )
  one_more count (gave_up attempts cause) now h = (h.0, closer count attempts now (h.1), h.2, h.3)
  one_more count out_of_fuel now h = h

  connect-Fails :
      (a : Attempt) → p.is_closed ≡ false → Fails socks5 a → connect socks5 a name p ≡ none
  unfolding connect
  connect-Fails a alive h = rw (alive, connect) (rw (h, connect) refl)

  connect-works :
      (a : Attempt)
      → p.is_closed ≡ false
      → dial_fails socks5 a ≡ false
      → connect socks5 a name p ≡ some (log_in name p)
  unfolding connect
  connect-works a alive h = rw (alive, connect) (rw (h, connect) refl)

  no_earlier : (count i : ℕ) → count ≤ i → i < count → Fails socks5 (weather i)
  no_earlier count i le lt = absurd (omega arith)

  failed_last :
      (count : ℕ)
      → Fails socks5 (weather count)
      → (i : ℕ) → count ≤ i
      → i < count + 1
      → Fails socks5 (weather i)
  failed_last count bad i le lt =
      closer count (count + 1) bad (λ j a b. absurd (omega arith)) i le lt

  -- A failure is one too many, or there is another round.
  last_or_more :
      (count : ℕ) (r : Acquired)
      → Fails socks5 (weather count)
      → count ≤ times
      → (count < times → IsSound (count + 1) r)
      → IsSound count (
          if ltb times (count + 1)
          then gave_up (count + 1) (if is_detect name then by_self else pool_is_down)
          else r)
  last_or_more count r bad le more = elim (Bool-cases (ltb times (count + 1))) [
    | inl over ↦ rw over (
      omega arith,
      failed_last count bad,
      inl (ground arith),
      λ other. ap (λ b. if b then by_self else pool_is_down) other,
    )
    | inr goes_on ↦ rw goes_on (one_more count r bad (more (ground arith)))
  ]

  round-IsSound :
      (fuel count : ℕ)
      → p.is_closed ≡ false
      → count ≤ times
      → (count < times → IsSound (count + 1) (acquire fuel weather socks5 times name (count + 1) p))
      → IsSound count (acquire (suc fuel) weather socks5 times name count p)
  unfolding acquire
  round-IsSound fuel count alive le more =
      elim (Bool-cases (ltb 0 ((weather count).pool_down) && not (is_detect name))) [
        | inl down ↦
            rw (down, acquire) (omega arith, no_earlier count, inr (ground arith), λ _. refl)
        | inr up ↦ elim (Bool-cases (dial_fails socks5 (weather count))) [
          | inl bad ↦
              rw (up, acquire)
                (rw (connect-Fails (weather count) alive bad, acquire)
                  (last_or_more count (acquire fuel weather socks5 times name (count + 1) p) bad le
                    more))
          | inr good ↦
              rw (up, acquire)
                (rw (connect-works (weather count) alive good, acquire)
                  (
                    omega arith,
                    omega arith,
                    λ i a b. absurd (omega arith),
                    ap (λ k. dial_fails socks5 (weather k)) (omega arith) ∙ good,
                    refl,
                  ))
        ]
      ]

  rounds-IsSound :
      (fuel count : ℕ)
      → p.is_closed ≡ false
      → count + fuel ≡ times
      → IsSound count (acquire (suc fuel) weather socks5 times name count p)
  rounds-IsSound zero count alive enough =
      round-IsSound zero count alive (omega arith) (λ lt. absurd (omega arith))
  rounds-IsSound (suc fuel) count alive enough =
      round-IsSound (suc fuel) count alive (omega arith)
        (λ _. rounds-IsSound fuel (count + 1) alive (omega arith))

-- For an open proxy, the first loop of Run ends within one round more than there are retries, whatever the
-- network does. If it is connected, then by the first attempt that did not fail, and the account is sent,
-- and the name if there is one. If it gives up, every attempt failed, and there were as many as rounds, or
-- the pool was found to be down; the cause is that the pool is down, unless this is the detect proxy.
pub acquire-IsSound :
    (weather : ℕ → Attempt) (socks5 : List ℕ) (times : ℕ) (name : List ℕ) (p : Proxy)
    → p.is_closed ≡ false
    → IsSound weather socks5 times name p 0 (acquire (suc times) weather socks5 times name 0 p)
acquire-IsSound weather socks5 times name p alive =
    rounds-IsSound weather socks5 times name p times 0 alive (omega arith)
