-- ===== src/Proxy/Close.antt =====
-- The ends of a proxy, in proxy/proxy.go: shutdown, Close and Remove; and Add, which gives it a worker. A
-- panic of the code is `none`. What is not modelled of an ended proxy is that its channels are closed and
-- that it forgets its server and its director.
pub mod Once
use xmrig2xdag.Common.{
  ℕ, zero, suc, ◌+◌, List, [], ◌∷◌, ◌++◌, Option, none, some, Bool, true, false, ◌&&◌, ltb, ◌==◌,
  if◌then◌else◌,
}
use xmrig2xdag.Common.Options.{◌>>=◌}
use xmrig2xdag.Proxy.State.{
  Proxy, Event, close_conn, close_worker, leave_director, count_eof, pool_down, exit,
}

abbrev pub eof_limit : ℕ
eof_limit = 3

-- The argument of shutdown: 0, 1, 2 and -1.
pub data Cause : Type 0 where
  by_worker by_pool pool_is_down by_self : Cause

abbrev close_conn_of : Proxy → List Event
close_conn_of p = elim (p.conn) [ none ↦ [] | some _ ↦ close_conn ∷ [] ]

abbrev close_worker_of : Proxy → List Event
close_worker_of p = if p.has_worker then close_worker ∷ [] else []

-- `p.fieldIn == 0 && p.fieldOut < 18 && p.Conn.EOFcount.Load() > 0`
abbrev eof_at_once : Proxy → Option Bool
eof_at_once p =
    if (p.field_in == 0) && ltb (p.field_out) 18
    then elim (p.conn) [ none ↦ none | some eofs ↦ some (ltb 0 eofs) ]
    else some false

-- What shutdown does before the proxy is closed: the events, and whether the program goes on.
-- `eof_count` is the shared counter before, `exit_on_pool_down` is from the configuration.
unfoldable pub farewell : ℕ → Bool → Cause → Proxy → Option (List Event × Bool)
farewell eof_count exit_on_pool_down by_worker p = some (close_conn_of p, true)
farewell eof_count exit_on_pool_down by_pool p = eof_at_once p >>= (λ eof.
    if eof
    then (if ltb eof_limit (eof_count + 1)
        then (if exit_on_pool_down
            then some (close_worker_of p ++ count_eof ∷ pool_down ∷ exit ∷ [], false)
            else some (close_worker_of p ++ count_eof ∷ pool_down ∷ [], true))
        else some (close_worker_of p ++ count_eof ∷ [], true))
    else some (close_worker_of p, true))
farewell eof_count exit_on_pool_down pool_is_down p =
    if exit_on_pool_down
    then some (pool_down ∷ (close_worker_of p ++ exit ∷ []), false)
    else some (pool_down ∷ close_worker_of p, true)
farewell eof_count exit_on_pool_down by_self p = some (close_conn_of p ++ close_worker_of p, true)

-- What all ends have in common.
abbrev pub finish : Proxy → Proxy × List Event
finish p =
    if ltb 0 (p.id)
    then (
      record p { has_worker = false; conn = none; is_closed = true },
      leave_director (p.id) ∷ [],
    )
    else (record p { conn = none; is_closed = true }, [])

-- shutdown
unfoldable pub shutdown : ℕ → Bool → Cause → Proxy → Option (Proxy × List Event)
shutdown eof_count exit_on_pool_down cause p =
    if p.is_closed
    then some (p, [])
    else farewell eof_count exit_on_pool_down cause p >>= (λ (events, goes_on).
      if goes_on then some ((finish p).0, events ++ (finish p).1) else some (p, events))

-- Close
unfoldable pub close : Proxy → Proxy × List Event
close p = if p.is_closed then (p, []) else ((finish p).0, close_conn_of p ++ (finish p).1)

-- Remove: the code takes the proxy from its director whatever its id is.
unfoldable pub remove : Proxy → Proxy × List Event
remove p = if p.is_closed then (p, []) else (
  record p { has_worker = false; conn = none; is_closed = true },
  close_conn_of p ++ leave_director (p.id) ∷ [],
)

-- Add, as far as the proxy changes.
unfoldable pub add : Proxy → Proxy
add p = record p { has_worker = true }
