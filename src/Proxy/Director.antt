-- ===== src/Proxy/Director.antt =====
-- proxy/director.go: the proxies by their ids, and the count of their shares. The map keeps pointers to
-- proxies; a pointer is a number here, and `shares` gives the shares of the proxy that it points to.
mod Tests
use xmrig2xdag.Common.{
  ℕ, zero, suc, ◌+◌, ◌-◌, ◌*◌, ◌/◌, ◌%◌, ◌^◌, ◌≡◌, ◌<◌, ◌≤◌, refl, sym, ap, ◌∙◌, List, [], ◌∷◌,
  Option, none, some, inl, inr, Option-cases, Bool, true, false, arith,
}
use xmrig2xdag.GoMap.{GoMap}
use xmrig2xdag.SafeMap
use xmrig2xdag.SafeMap.{SafeMap, IsWellFormed, new_safe_map, range, range_over, del, size}
use xmrig2xdag.SafeMap.Lookup.{del-IsWellFormed}
use xmrig2xdag.SafeMap.Size.{found, size-del}
use xmrig2xdag.SafeMap.Total.{entries_total, total, weight_of, total-del}

pub record Director : Type 0 where
  pub alive_since : ℕ
  pub current_proxy_id : ℕ
  pub proxies : SafeMap ℕ
  pub last_total_shares : ℕ
  pub delete_shares : ℕ

-- newDirector, at the time `now`.
unfoldable pub new_director : ℕ → Director
new_director now = record {
  alive_since = now;
  current_proxy_id = 0;
  proxies = new_safe_map;
  last_total_shares = 0;
  delete_shares = 0;
}

-- nextProxyID
unfoldable pub next_proxy_id : Director → ℕ × Director
next_proxy_id d =
    let id = (d.current_proxy_id + 1) % 2 ^ 64 in (id, record d { current_proxy_id = id })

-- addProxy and NextProxy, for a new proxy at `pointer`: its id.
unfoldable pub add_proxy : ℕ → Director → ℕ × Director
unfolding next_proxy_id
add_proxy pointer d =
    let (id, moved) = next_proxy_id d in
    (id, record moved { proxies = SafeMap.set (moved.proxies) id pointer })

-- removeProxy
unfoldable pub remove_proxy : (ℕ → ℕ) → ℕ → Director → Director
remove_proxy shares id d =
    let counted : ℕ = elim (SafeMap.get (d.proxies) id) [
      | none ↦ d.delete_shares
      | some pointer ↦ (d.delete_shares + shares pointer) % 2 ^ 64
    ] in
    record d { proxies = del (d.proxies) id; delete_shares = counted }

pub record Stats : Type 0 where
  pub timestamp : ℕ
  pub alive : ℕ
  pub proxies : ℕ
  pub workers : ℕ
  pub shares : ℕ
  pub new_shares : ℕ

-- The callback of GetStats: proxies, workers and shares so far.
unfoldable pub count_proxy : (ℕ → ℕ) → ℕ → ℕ → ℕ × ℕ × ℕ → (ℕ × ℕ × ℕ) × Bool
count_proxy shares key pointer (proxies, workers, sum) =
    ((proxies + 1, workers + 1, (sum + shares pointer) % 2 ^ 64), true)

-- GetStats, at the time `now`; `alive` is in whole seconds.
unfoldable pub get_stats : (ℕ → ℕ) → ℕ → Director → Stats × Director
get_stats shares now d =
    let (proxies, workers, live) = range (d.proxies) (count_proxy shares) (0, 0, 0) in
    let sum = (live + d.delete_shares) % 2 ^ 64 in
    (
      record {
        timestamp = now;
        alive = (now - d.alive_since) / 10 ^ 9;
        proxies = proxies;
        workers = workers;
        shares = sum;
        new_shares = (sum + 2 ^ 64 - d.last_total_shares) % 2 ^ 64;
      },
      record d { last_total_shares = sum },
    )

-- What the callback makes of the entries of a map.
counted : (ℕ → ℕ) → GoMap ℕ → ℕ × ℕ × ℕ → ℕ × ℕ × ℕ
counted shares [] s = s
counted shares ((k, v) ∷ m) (p, w, sum) = counted shares m (p + 1, w + 1, (sum + shares v) % 2 ^ 64)

range_over-counted :
    (shares : ℕ → ℕ) (m : GoMap ℕ) (s : ℕ × ℕ × ℕ)
    → range_over (count_proxy shares) m s ≡ (counted shares m s, true)
unfolding range_over count_proxy counted
range_over-counted shares [] s = refl
range_over-counted shares ((k, v) ∷ m) (p, w, sum) =
    range_over-counted shares m (p + 1, w + 1, (sum + shares v) % 2 ^ 64)

triple : {a b c x y z : ℕ} → a ≡ x → b ≡ y → c ≡ z → ◌≡◌ {A = ℕ × ℕ × ℕ} (a, b, c) (x, y, z)
triple e f g = cc

counted-total :
    (shares : ℕ → ℕ) (m : GoMap ℕ) (p w sum : ℕ)
    → sum < 2 ^ 64
    → counted shares m (p, w, sum) ≡ (
      p + xmrig2xdag.GoMap.size m,
      w + xmrig2xdag.GoMap.size m,
      (sum + entries_total shares m) % 2 ^ 64,
    )
unfolding counted xmrig2xdag.GoMap.size
counted-total shares [] p w sum h = triple (omega arith) (omega arith) (omega arith)
counted-total shares ((k, v) ∷ m) p w sum h =
    counted-total shares m (p + 1) (w + 1) ((sum + shares v) % 2 ^ 64) (omega arith)
    ∙ triple (omega arith) (omega arith) (omega arith)

range-counted :
    (shares : ℕ → ℕ) (m : SafeMap ℕ)
    → range m (count_proxy shares) (0, 0, 0) ≡ (size m, size m, total shares m % 2 ^ 64)
unfolding range size xmrig2xdag.GoMap.size
range-counted shares m =
    let old = range_over-counted shares (m.dirty_old) (0, 0, 0) in
    rw (old, range, old)
      (ap (λ s. (range_over (count_proxy shares) (m.dirty_new) s).0)
          (counted-total shares (m.dirty_old) 0 0 0 (omega arith))
        ∙ ap (λ r. r.0) (range_over-counted shares (m.dirty_new) _)
        ∙ counted-total shares (m.dirty_new) _ _ _ (omega arith)
        ∙ triple (omega arith) (omega arith) (omega arith))

-- GetStats counts each proxy of the map once, and gives the shares of the live proxies and of the removed
-- ones, modulo 2 ^ 64.
pub get_stats-totals :
    (shares : ℕ → ℕ) (now : ℕ) (d : Director)
    → ((get_stats shares now d).0.proxies ≡ size (d.proxies))
      × ((get_stats shares now d).0.workers ≡ size (d.proxies))
      × ((get_stats shares now d).0.shares ≡ (total shares (d.proxies) + d.delete_shares) % 2 ^ 64)
unfolding get_stats
get_stats-totals shares now d =
    rw (range-counted shares (d.proxies), get_stats) (refl, refl, omega arith)

delete_shares-remove_proxy :
    (shares : ℕ → ℕ) (id : ℕ) (d : Director)
    → (remove_proxy shares id d).delete_shares % 2 ^ 64
      ≡ (d.delete_shares + weight_of shares (SafeMap.get (d.proxies) id)) % 2 ^ 64
unfolding remove_proxy
delete_shares-remove_proxy shares id d = elim (Option-cases (SafeMap.get (d.proxies) id)) [
  | inl e ↦ rw (e, remove_proxy) (omega arith)
  | inr (pointer, e) ↦ rw (e, remove_proxy) (omega arith)
]

-- Removing a proxy takes it from the count of proxies if it was there, and loses none of its shares: the
-- total that GetStats gives is the same before and after.
pub get_stats-remove_proxy :
    (shares : ℕ → ℕ) (now id : ℕ) (d : Director)
    → IsWellFormed (d.proxies)
    → ((get_stats shares now (remove_proxy shares id d)).0.shares
        ≡ (get_stats shares now d).0.shares)
      × ((get_stats shares now (remove_proxy shares id d)).0.proxies
            + found (SafeMap.get (d.proxies) id)
          ≡ (get_stats shares now d).0.proxies)
unfolding remove_proxy
get_stats-remove_proxy shares now id d w =
    let (p1, _, s1) = get_stats-totals shares now (remove_proxy shares id d) in
    let (p2, _, s2) = get_stats-totals shares now d in
    (
      s1
          ∙ omega (arith, delete_shares-remove_proxy shares id d, total-del shares (d.proxies) id w)
          ∙ sym s2,
      omega (arith, p1, p2, size-del (d.proxies) id w),
    )
