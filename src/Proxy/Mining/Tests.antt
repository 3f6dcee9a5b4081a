-- ===== src/Proxy/Mining/Tests.antt =====
-- The requests of miners on concrete parameters, and their theorems there.
use xmrig2xdag.Common.{
  ◌%◌, ◌≡◌, ◌↔◌, refl, ap, List, none, some, Bool, true, false, inl, inr, ℕ, IsByte, All-replicate,
  length-replicate, replicate, length, codes, arith, list_eq, if◌then◌else◌,
}
use xmrig2xdag.Base58.Check.{Sha256, check_encode}
use xmrig2xdag.Stratum.Json.{null, string, number, object, Fields, field, end}
use xmrig2xdag.Stratum.Request.{reset}
use xmrig2xdag.SafeMap.Lookup.{new_safe_map-IsWellFormed}
use xmrig2xdag.Stratum.Request.Accepted.{request}
use xmrig2xdag.Stratum.Codec.{
  fails, DefaultServerCodec, new_default_server_codec, read_request_body,
}
use xmrig2xdag.Proxy.Job.{empty_job}
use xmrig2xdag.Proxy.State.{new_proxy}
use xmrig2xdag.Proxy.Account.{set_address, set_address-check_encode}
use xmrig2xdag.Proxy.Close.{close}
use xmrig2xdag.Proxy.Mining.{
  Session, spawn_worker, context, json, PassThruParams, nil_map, entries, ctx, params_target,
  LoginResult, no_login_param, login, getjob, submit_share, keepalived, status, turn_down,
  remove_proxy, get_worker,
}
use xmrig2xdag.Proxy.Mining.Request.{IsAnswered, login-IsAnswered}
use xmrig2xdag.Proxy.Mining.Login.{IsProper, Outcome, login-Outcome}
use xmrig2xdag.Proxy.Mining.Crashes.{login-after_turned_down, read_request_body-ctx}
use xmrig2xdag.Proxy.Mining.Delivery.{broadcast, broadcast-blocks}

-- Not SHA-256, but a function with the one property that is asked for.
abbrev sum_sha : Sha256
sum_sha = record {
  sum256 = λ input. replicate 32 (length input % 256);
  length-sum256 = λ input. length-replicate 32 (length input % 256);
  sum256-bytes = λ input. All-replicate IsByte 32 (length input % 256) (omega arith);
}

abbrev account : List ℕ
account = check_encode sum_sha (replicate 19 6) 1

abbrev session : Session
session = spawn_worker (new_proxy 7 1000 (codes "first"))

abbrev only_context : PassThruParams
only_context = entries (λ key. if list_eq ctx key then some context else none)

abbrev with_login : PassThruParams
with_login = entries (λ key.
    if list_eq ctx key
    then some context
    else if list_eq (codes "login") key
    then some (json (string account))
    else none)

only_context-IsProper : IsProper only_context
only_context-IsProper = record { has_context = refl; text_login = inl refl; text_pass = inl refl }

login-Outcome_example :
    (r : LoginResult) × (login sum_sha 0 empty_job only_context session ≡ some r)
    × Outcome sum_sha empty_job only_context session r
unfolding spawn_worker
login-Outcome_example =
    login-Outcome sum_sha empty_job only_context 0 session only_context-IsProper refl

-- A login without an account, and then one with it.
abbrev refused : LoginResult
refused = turn_down no_login_param session

refuses : login sum_sha 0 empty_job only_context session ≡ some refused
unfolding login get_worker
refuses = refl

good_account : (set_address sum_sha account (refused.session.proxy)).1 ≡ none
unfolding turn_down remove_proxy spawn_worker close new_proxy
good_account =
    ap (λ x. x.1)
      (set_address-check_encode sum_sha (replicate 19 6) 1 (refused.session.proxy) (omega arith)
        (omega arith) refl refl)

login-after_turned_down_example :
    (login sum_sha 0 empty_job with_login (refused.session) ≡ none)
    × (getjob with_login (refused.session) ≡ none)
    × (submit_share with_login (refused.session) ≡ none)
unfolding turn_down
login-after_turned_down_example =
    login-after_turned_down sum_sha 0 0 empty_job empty_job only_context with_login session refused
      no_login_param account refuses refl refl refl good_account

abbrev with_ctx : Fields
with_ctx = field (codes "ctx") null end

abbrev hostile : DefaultServerCodec
hostile = record new_default_server_codec { req = record reset { params = some (object with_ctx) } }

read_request_body-ctx_example :
    (p : PassThruParams) × (read_request_body params_target nil_map hostile ≡ some p)
    × (login sum_sha 0 empty_job p session ≡ none)
    × (getjob p session ≡ none)
    × (submit_share p session ≡ none)
    × (keepalived p ≡ status (codes "KEEPALIVED"))
read_request_body-ctx_example =
    read_request_body-ctx sum_sha 0 empty_job session hostile with_ctx null refl refl

broadcast-blocks_example : (broadcast true session ≡ none) ↔ (
    (session.proxy.is_closed ≡ false)
    × (session.proxy.has_worker ≡ true)
    × (session.worker.has_proxy ≡ true)
    × (◌≡◌ {A = Bool} true true))
broadcast-blocks_example = broadcast-blocks true session

abbrev login_params : Fields
login_params = field (codes "login") (string account) (field (codes "agent") null end)

login-IsAnswered_example :
    IsAnswered
      (λ c. c)
      sum_sha
      0
      empty_job
      session
      new_default_server_codec
      (number (codes "1"))
      (request (number (codes "1")) (codes "2.0") (codes "login") (object login_params))
      (fails (codes "no"))
unfolding new_default_server_codec spawn_worker
login-IsAnswered_example =
    login-IsAnswered (λ c. c) sum_sha 0 empty_job session new_default_server_codec
      (number (codes "1")) (codes "2.0") login_params (fails (codes "no")) new_safe_map-IsWellFormed
      (omega arith) refl refl (inr (account, refl)) (inl refl) refl
