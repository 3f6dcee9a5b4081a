-- ===== src/Proxy/Close/Once.antt =====
-- A proxy of proxy/proxy.go ends once.
use xmrig2xdag.Common.{
  ℕ, suc, ◌+◌, ◌≡◌, ◌≤◌, refl, sym, ap, ◌∙◌, List, [], ◌∷◌, ◌++◌, Option, some, Bool, true, false,
  inl, inr, Bool-cases, Option-cases, if◌then◌else◌, ltb, arith,
}
use xmrig2xdag.Common.Options.{◌>>=◌, >>=-eq-some, some-injective, none-some}
use xmrig2xdag.Proxy.State.{
  Proxy, Event, send_buff_msg, close_conn, close_worker, new_job, leave_director, count_eof,
  pool_down, pool_up, exit,
}
use xmrig2xdag.Proxy.Close.{
  Cause, by_worker, by_pool, pool_is_down, by_self, shutdown, close, remove, farewell, finish,
  close_conn_of, close_worker_of, eof_at_once, eof_limit,
}

-- The ways a proxy ends: shutdown for a cause, with the shared count of EOFs, Close, and Remove.
pub data End : Type 0 where
  by_shutdown : ℕ → Cause → End
  by_close by_remove : End

-- One of them, in a program that goes on when the pool is down.
abbrev pub end_by : End → Proxy → Option (Proxy × List Event)
end_by (by_shutdown eof_count cause) p = shutdown eof_count false cause p
end_by by_close p = some (close p)
end_by by_remove p = some (remove p)

-- How often a director removes a proxy.
abbrev pub removals : List Event → ℕ
removals [] = 0
removals (leave_director _ ∷ events) = suc (removals events)
removals (_ ∷ events) = removals events

abbrev pub end_all : List End → Proxy → Option (Proxy × List Event)
end_all [] p = some (p, [])
end_all (e ∷ es) p =
    end_by e p >>= (λ r. end_all es (r.0) >>= (λ more. some (more.0, r.1 ++ more.1)))

-- A proxy that is closed stays as it is.
pub closed_stays : (e : End) (p : Proxy) → p.is_closed ≡ true → end_by e p ≡ some (p, [])
unfolding shutdown close remove
closed_stays (by_shutdown n cause) p h = rw (h, shutdown) refl
closed_stays by_close p h = rw (h, close) refl
closed_stays by_remove p h = rw (h, remove) refl

removals-append : (a b : List Event) → removals (a ++ b) ≡ removals a + removals b
removals-append [] b = omega arith
removals-append (leave_director _ ∷ a) b = omega (arith, removals-append a b)
removals-append (send_buff_msg _ ∷ a) b = removals-append a b
removals-append (close_conn ∷ a) b = removals-append a b
removals-append (close_worker ∷ a) b = removals-append a b
removals-append (new_job _ ∷ a) b = removals-append a b
removals-append (count_eof ∷ a) b = removals-append a b
removals-append (pool_down ∷ a) b = removals-append a b
removals-append (pool_up ∷ a) b = removals-append a b
removals-append (exit ∷ a) b = removals-append a b

close_conn_of-removals : (p : Proxy) → removals (close_conn_of p) ≡ 0
close_conn_of-removals p = elim (Option-cases (p.conn)) [
  | inl e ↦ rw e refl
  | inr (n, e) ↦ rw e refl
]

close_worker_of-removals : (p : Proxy) → removals (close_worker_of p) ≡ 0
close_worker_of-removals p = elim (Bool-cases (p.has_worker)) [
  | inl e ↦ rw e refl
  | inr e ↦ rw e refl
]

goes_on :
    (events : List Event) (r : List Event × Bool)
    → removals events ≡ 0
    → some (events, true) ≡ some r
    → (removals (r.0) ≡ 0) × (r.1 ≡ true)
goes_on events r h e = rw (sym (some-injective e)) (h, refl)

both : (a b : List Event) → removals a ≡ 0 → removals b ≡ 0 → removals (a ++ b) ≡ 0
both a b ha hb = omega (arith, removals-append a b)

-- What is done before the end removes nothing, and the program goes on.
farewell-removals :
    (n : ℕ) (cause : Cause) (p : Proxy) (r : List Event × Bool)
    → farewell n false cause p ≡ some r
    → (removals (r.0) ≡ 0) × (r.1 ≡ true)
unfolding farewell
farewell-removals n by_worker p r e = goes_on (close_conn_of p) r (close_conn_of-removals p) e
farewell-removals n by_pool p r e = elim (Option-cases (eof_at_once p)) [
  | inl bad ↦ absurd (none-some (rw bad at e))
  | inr (eof, at_once) ↦ elim (Bool-cases eof) [
    | inl gone ↦ elim (Bool-cases (ltb eof_limit (n + 1))) [
      | inl many ↦
          goes_on _ r
            (both (close_worker_of p) (count_eof ∷ pool_down ∷ []) (close_worker_of-removals p)
              refl)
            (rw (at_once, gone, many) at e)
      | inr few ↦
          goes_on _ r (both (close_worker_of p) (count_eof ∷ []) (close_worker_of-removals p) refl)
            (rw (at_once, gone, few) at e)
    ]
    | inr other ↦ goes_on _ r (close_worker_of-removals p) (rw (at_once, other) at e)
  ]
]
farewell-removals n pool_is_down p r e =
    goes_on (pool_down ∷ close_worker_of p) r (close_worker_of-removals p) e
farewell-removals n by_self p r e =
    goes_on (close_conn_of p ++ close_worker_of p) r
      (both (close_conn_of p) _ (close_conn_of-removals p) (close_worker_of-removals p)) e

finish-removals : (p : Proxy) → (removals ((finish p).1) ≤ 1) × ((finish p).0.is_closed ≡ true)
finish-removals p = elim (Bool-cases (ltb 0 (p.id))) [
  | inl e ↦ rw e (omega arith, refl)
  | inr e ↦ rw e (omega arith, refl)
]

finished :
    (p : Proxy) (said : List Event) (r : Proxy × List Event)
    → removals said ≡ 0
    → some ((finish p).0, said ++ (finish p).1) ≡ some r
    → (removals (r.1) ≤ 1) × (r.0.is_closed ≡ true)
finished p said r h e =
    let (one, closed) = finish-removals p in
    rw (sym (some-injective e)) (omega (arith, removals-append said ((finish p).1)), closed)

shutdown-open :
    (n : ℕ) (cause : Cause) (p : Proxy)
    → p.is_closed ≡ false
    → shutdown n false cause p ≡ (
        farewell n false cause p
        >>= (λ r. if r.1 then some ((finish p).0, r.0 ++ (finish p).1) else some (p, r.0)))
unfolding shutdown
shutdown-open n cause p alive = rw (alive, shutdown) refl

-- An end of an open proxy closes it, and removes it once at most.
pub end_by-removals :
    (e : End) (p : Proxy) (r : Proxy × List Event)
    → p.is_closed ≡ false
    → end_by e p ≡ some r
    → (removals (r.1) ≤ 1) × (r.0.is_closed ≡ true)
unfolding shutdown close remove
end_by-removals (by_shutdown n cause) p r alive h =
    let (said, told, rest) =
      >>=-eq-some (farewell n false cause p) _ (sym (shutdown-open n cause p alive) ∙ h) in
    let (none_removed, on) = farewell-removals n cause p said told in
    finished p (said.0) r none_removed (rw on at rest)
end_by-removals by_close p r alive h =
    finished p (close_conn_of p) r (close_conn_of-removals p) (rw (alive, close) at h)
end_by-removals by_remove p r alive h = rw (sym (some-injective (rw (alive, remove) at h))) (
  omega (
    arith,
    removals-append (close_conn_of p) (leave_director (p.id) ∷ []),
    close_conn_of-removals p,
  ),
  refl,
)

end_all-closed : (es : List End) (p : Proxy) → p.is_closed ≡ true → end_all es p ≡ some (p, [])
end_all-closed [] p h = refl
end_all-closed (e ∷ es) p h = rw (closed_stays e p h, end_all-closed es p h) refl

-- However often and in whatever way a proxy is ended, by its worker, by the pool or by itself, it is
-- closed after the first time, and its director removes it once at most.
pub end_all-removals :
    (e : End) (es : List End) (p q : Proxy) (events : List Event)
    → p.is_closed ≡ false
    → end_all (e ∷ es) p ≡ some (q, events)
    → (q.is_closed ≡ true) × (removals events ≤ 1)
end_all-removals e es p q events alive h =
    let (r, first, rest) = >>=-eq-some (end_by e p) _ h in
    let (one, closed) = end_by-removals e p r alive first in
    let stays = some-injective (rw (end_all-closed es (r.0) closed) at rest) in
    rw (sym (ap (λ x. x.0) stays), sym (ap (λ x. x.1) stays))
      (closed, omega (arith, one, removals-append (r.1) []))
