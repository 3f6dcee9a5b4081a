-- ===== src/Proxy/Tests.antt =====
-- The proxy on concrete jobs and shares.
use xmrig2xdag.Common.{
  ℕ, ◌*◌, ◌^◌, ◌%◌, IsByte, All-replicate, length-replicate, ◌==◌, if◌then◌else◌, ◌≡◌, ◌≢◌, ◌≤◌,
  ◌↔◌, refl, List, [], ◌∷◌, ◌++◌, All, map, replicate, length, Option, some, none, true, false,
  codes, arith,
}
use xmrig2xdag.Encoding.{hex_value, hex_digit, le_bytes, le_value, encode_to_string, decode_string}
use xmrig2xdag.Base58.Check.{Sha256, checksum, check_encode}
use xmrig2xdag.Proxy.Account.{set_address, set_address-check_encode}
use xmrig2xdag.Proxy.Job.{Job}
use xmrig2xdag.Proxy.Share.{Share, Value, text, validate, validate_format, new_share}
use xmrig2xdag.Proxy.State.{Proxy, Event, send_buff_msg, max_uint64}
use xmrig2xdag.Proxy.Target.{set_target, get_target, Retarget, create_share, make_share}
use xmrig2xdag.Proxy.Target.Laws.{make_share-create_share}
use xmrig2xdag.Proxy.Submit.{
  validate_share, send, keep, better_share, count_share, submit, queued, handle_submit,
  send_or_keep, with_header,
}
use xmrig2xdag.Proxy.Submit.Accepted.{IsKnown, submit-queued}
use xmrig2xdag.Proxy.Submit.Window.Spacing.{Request, submit_all, IsSpaced, submit_all-IsSpaced}
use xmrig2xdag.Proxy.Submit.Window.Message.{IsEarly, IsLate, scores, Sends, submit_all-best}
use xmrig2xdag.Proxy.Close.{by_pool, by_self, shutdown, farewell, close, remove}
use xmrig2xdag.Proxy.Close.Once.{
  End, by_shutdown, by_close, by_remove, end_all, removals, end_all-removals,
}

abbrev first_field : List ℕ
first_field = replicate 32 7

abbrev next_field : List ℕ
next_field = replicate 32 9

abbrev sample_job : Job
sample_job = record {
  blob = encode_to_string (first_field ++ replicate 24 5 ++ replicate 8 1);
  id = codes "job";
  target = codes "b88d0600";
  seed_hash = encode_to_string next_field;
  algo = codes "rx/xdag";
  initial_nonce = 0x01010101;
  current_blob = first_field ++ replicate 24 5 ++ replicate 8 1;
  current_nonce = 0x01010101;
}

abbrev sample_proxy : Proxy
sample_proxy = record {
  id = 3;
  conn = some 0;
  shares = 1;
  has_worker = true;
  current_job = sample_job;
  prev_job_id = codes "before";
  before_prev_job_id = [];
  before_before_prev_job_id = [];
  is_closed = false;
  address_hash = replicate 24 5;
  address = codes "account";
  field_out = 17;
  field_in = 0;
  recv_count = 0;
  recv_byte = replicate 64 0;
  target = [];
  target_since = 0;
  last_send = 10 ^ 9;
  mini_result = max_uint64;
  mini_nonce = 0;
  target_share = 0;
  miner_name = [];
}

-- A share whose value is `v`.
abbrev share_of : List ℕ → ℕ → Share
share_of nonce v = record {
  auth_id = [];
  job_id = codes "job";
  nonce = nonce;
  result = encode_to_string (replicate 24 0 ++ le_bytes 8 v);
}

abbrev sample_share : Share
sample_share = share_of (codes "0a0b0c0d") 500

abbrev same_target : Retarget
same_target old duration count = old

make_share-create_share_example :
    make_share 7 (le_value ((decode_string (sample_share.nonce)).0)) sample_proxy
    ≡ create_share sample_share sample_proxy
unfolding hex_value hex_digit
make_share-create_share_example = make_share-create_share sample_share sample_proxy 7 refl

-- A request with the three parameters of a share, told apart by their first letter.
abbrev sample_params : List ℕ → Option Value
sample_params [] = none
sample_params (c ∷ key) =
    if c == b'j'
    then some (text (sample_share.job_id))
    else if c == b'n'
    then some (text (sample_share.nonce))
    else some (text (sample_share.result))

submit-queued_example : (submit sample_params sample_proxy ≡ some (queued sample_share)) ↔ (
    ((sample_share.job_id) ≢ [])
    × ((sample_share.nonce) ≢ [])
    × IsKnown (sample_share.job_id) sample_proxy)
unfolding new_share hex_digit
submit-queued_example = submit-queued sample_params sample_share sample_proxy refl refl

abbrev job_named : List ℕ → Job
job_named id = record sample_job { id = id }

-- A request at `t` nanoseconds with a share of value `v`.
abbrev request_at : ℕ → List ℕ → ℕ → Request
request_at t nonce v = (t, t, share_of nonce v)

abbrev early_requests : List (Request × ℕ)
early_requests =
    (request_at (2 * 10 ^ 9) (codes "0a0b0c0d") 500, 500)
    ∷ (request_at (3 * 10 ^ 9) (codes "00000001") 300, 300)
    ∷ []

abbrev last_request : Request × ℕ
last_request = (request_at (6 * 10 ^ 9) (codes "00000002") 400, 400)

abbrev all_requests : List Request
all_requests = map (λ (x : Request × ℕ). x.0) early_requests ++ last_request.0 ∷ []

abbrev result_of : Option (Proxy × List (ℕ × Event)) → Proxy × List (ℕ × Event)
result_of none = (sample_proxy, [])
result_of (some r) = r

abbrev after_requests : Proxy × List (ℕ × Event)
after_requests = result_of (submit_all 2 same_target all_requests sample_proxy)

-- One message, with the nonce of the share of value 300.
submit_all_sample :
    after_requests.1
    ≡ (
      6 * 10 ^ 9,
      send_buff_msg (with_header (replicate 24 5 ++ replicate 4 1 ++ 0 ∷ 0 ∷ 0 ∷ 1 ∷ [])),
    )
      ∷ []
unfolding handle_submit validate_share validate validate_format send_or_keep send keep better_share
    make_share create_share count_share set_target hex_value hex_digit get_target
submit_all_sample = refl

submit_all_runs :
    submit_all 2 same_target all_requests sample_proxy ≡ some (after_requests.0, after_requests.1)
unfolding handle_submit validate_share validate validate_format send_or_keep send keep better_share
    make_share create_share count_share set_target hex_value hex_digit get_target
submit_all_runs = refl

submit_all-IsSpaced_example : IsSpaced (10 ^ 9) (after_requests.1)
submit_all-IsSpaced_example =
    submit_all-IsSpaced 2 same_target all_requests sample_proxy (after_requests.0)
      (after_requests.1) submit_all_runs

early_requests-IsEarly : All (IsEarly 2 sample_proxy) early_requests
unfolding handle_submit validate_share validate validate_format send_or_keep send keep better_share
    make_share create_share count_share set_target hex_value hex_digit get_target
early_requests-IsEarly = (((refl, refl, refl, refl), refl), (((refl, refl, refl, refl), refl), tt))

last_request-IsLate : IsLate 2 sample_proxy last_request
unfolding handle_submit validate_share validate validate_format send_or_keep send keep better_share
    make_share create_share count_share set_target hex_value hex_digit get_target
last_request-IsLate = ((refl, refl, refl, refl), refl)

submit_all-best_example :
    (v : ℕ) × (n : ℕ) × ((before : List (ℕ × ℕ)) × (after : List (ℕ × ℕ)) × (scores early_requests
          last_request
        ≡ before ++ (v, n) ∷ after))
    × All (λ (x : ℕ × ℕ). v ≤ x.0) (scores early_requests last_request)
    × Sends sample_proxy (6 * 10 ^ 9) n (after_requests.1)
submit_all-best_example =
    submit_all-best 2 same_target early_requests last_request sample_proxy (after_requests.0)
      (after_requests.1) (refl, (0, refl)) refl early_requests-IsEarly last_request-IsLate
      (omega arith) submit_all_runs

abbrev some_ends : List End
some_ends = by_close ∷ by_remove ∷ by_shutdown 0 by_pool ∷ []

abbrev after_ends : Proxy × List Event
after_ends = elim (end_all (by_shutdown 0 by_self ∷ some_ends) sample_proxy) [
  | none ↦ (sample_proxy, [])
  | some r ↦ r
]

ends_run :
    end_all (by_shutdown 0 by_self ∷ some_ends) sample_proxy ≡ some (after_ends.0, after_ends.1)
unfolding shutdown farewell close remove
ends_run = refl

end_all-removals_example : (after_ends.0.is_closed ≡ true) × (removals (after_ends.1) ≤ 1)
end_all-removals_example =
    end_all-removals (by_shutdown 0 by_self) some_ends sample_proxy (after_ends.0) (after_ends.1)
      refl ends_run

-- A stand-in for SHA-256.
abbrev sample_sha : Sha256
sample_sha = record {
  sum256 = λ input. replicate 32 (length input % 256);
  length-sum256 = λ input. length-replicate 32 (length input % 256);
  sum256-bytes = λ input. All-replicate IsByte 32 (length input % 256) (omega arith);
}

set_address-check_encode_example :
    set_address sample_sha (check_encode sample_sha (replicate 19 6) 1) sample_proxy ≡ (
      record sample_proxy {
        address_hash = (1 ∷ replicate 19 6) ++ checksum sample_sha (1 ∷ replicate 19 6);
        address = check_encode sample_sha (replicate 19 6) 1;
      },
      none,
    )
set_address-check_encode_example =
    set_address-check_encode sample_sha (replicate 19 6) 1 sample_proxy (omega arith) (omega arith)
      refl refl
