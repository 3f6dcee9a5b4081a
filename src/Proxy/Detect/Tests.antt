-- ===== src/Proxy/Detect/Tests.antt =====
-- The detect proxy at a concrete field.
use xmrig2xdag.Common.{
  ◌≡◌, some, refl, All-replicate, IsByte, arith, List, [], ◌∷◌, ◌++◌, replicate, codes,
}
use xmrig2xdag.Proxy.State.{Proxy, new_proxy}
use xmrig2xdag.Proxy.Target.{Retarget}
use xmrig2xdag.Proxy.Notify.{handle_notification}
use xmrig2xdag.Xdag.Address.{hash2address, bits2mime_at}
use xmrig2xdag.Base58.Check.{Sha256}
use xmrig2xdag.Proxy.Job.{empty_job}
use xmrig2xdag.Proxy.Mining.{
  Session, spawn_worker, login, turn_down, pool_is_down, nil_map, set_context,
}
use xmrig2xdag.Proxy.Detect.{detect_addr, Field, pool_after, tick, detecting, Shared}
use xmrig2xdag.Proxy.Detect.NeverUp.{tick-pool_after}

abbrev same_target : Retarget
same_target old duration count = old

abbrev one_field : List Field
one_field = record { now = 5; nonce = 1; new_len = codes "next"; bytes = replicate 32 7 } ∷ []

abbrev shared : Shared
shared = record { pool_is_down = 1; eof_count = 4; conn_pool_down = 1 }

abbrev after_tick : Shared
after_tick = record { pool_is_down = 1; eof_count = 0; conn_pool_down = 0 }

abbrev detect : Proxy
detect = detecting 3 (codes "first")

abbrev after_field : Proxy
after_field = record detect {
  field_in = 1;
  recv_count = 1;
  recv_byte = replicate 32 7 ++ replicate 32 0;
}

-- Not SHA-256, but a function with the one property that is asked for.
abbrev zero_sha : Sha256
zero_sha = record {
  sum256 = λ input. replicate 32 0;
  length-sum256 = λ input. refl;
  sum256-bytes = λ input. All-replicate IsByte 32 0 (omega arith);
}

abbrev miner : Session
miner = spawn_worker (new_proxy 1 4 (codes "miner"))

tick-pool_after_example :
    (after_field.address ≡ detect_addr)
    × (pool_after 1 [] ≡ 1)
    × (login zero_sha (pool_after 1 []) empty_job (set_context nil_map) miner
        ≡ some (turn_down pool_is_down miner))
unfolding tick detecting new_proxy handle_notification hash2address bits2mime_at set_context
tick-pool_after_example =
    tick-pool_after same_target shared after_tick one_field detect detect after_field [] zero_sha
      empty_job (set_context nil_map) miner refl refl refl refl
