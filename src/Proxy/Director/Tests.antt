-- ===== src/Proxy/Director/Tests.antt =====
-- A director with two proxies.
use xmrig2xdag.Common.{ℕ, ◌+◌, ◌^◌, ◌%◌, ◌==◌, if◌then◌else◌, ◌≡◌, refl, inr, [], ◌∷◌}
use xmrig2xdag.GoMap
use xmrig2xdag.SafeMap
use xmrig2xdag.SafeMap.{SafeMap, IsWellFormed}
use xmrig2xdag.SafeMap.Size.{found}
use xmrig2xdag.SafeMap.Total.{total}
use xmrig2xdag.Proxy.Director.{
  Director, get_stats, remove_proxy, get_stats-totals, get_stats-remove_proxy,
}

-- Two proxies, with 5 and 7 shares.
abbrev sample_map : SafeMap ℕ
sample_map = record {
  deletion_old = 0;
  deletion_new = 0;
  dirty_old = (1, 10) ∷ (2, 20) ∷ [];
  dirty_new = [];
}

sample_map-IsWellFormed : IsWellFormed sample_map
unfolding GoMap.get
sample_map-IsWellFormed = record {
  unique_old = (refl, (refl, tt));
  unique_new = tt;
  apart = λ k. inr refl;
}

abbrev sample_director : Director
sample_director = record {
  alive_since = 0;
  current_proxy_id = 2;
  proxies = sample_map;
  last_total_shares = 3;
  delete_shares = 4;
}

abbrev sample_shares : ℕ → ℕ
sample_shares pointer = if pointer == 10 then 5 else 7

get_stats-totals_example :
    ((get_stats sample_shares 9 sample_director).0.proxies ≡ SafeMap.size sample_map)
    × ((get_stats sample_shares 9 sample_director).0.workers ≡ SafeMap.size sample_map)
    × ((get_stats sample_shares 9 sample_director).0.shares
        ≡ (total sample_shares sample_map + 4) % 2 ^ 64)
get_stats-totals_example = get_stats-totals sample_shares 9 sample_director

get_stats-remove_proxy_example :
    ((get_stats sample_shares 9 (remove_proxy sample_shares 2 sample_director)).0.shares
      ≡ (get_stats sample_shares 9 sample_director).0.shares)
    × ((get_stats sample_shares 9 (remove_proxy sample_shares 2 sample_director)).0.proxies
          + found (SafeMap.get sample_map 2)
        ≡ (get_stats sample_shares 9 sample_director).0.proxies)
get_stats-remove_proxy_example =
    get_stats-remove_proxy sample_shares 9 2 sample_director sample_map-IsWellFormed
