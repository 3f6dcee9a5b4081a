-- ===== src/Proxy/Mining/Login.antt =====
-- What the requests of proxy/mining.go do, and when they end the process.
use xmrig2xdag.Common.{
  ℕ, ◌≡◌, ◌⊎◌, refl, ap, ◌∙◌, List, [], none, some, true, false, ltb, if◌then◌else◌, codes, list_eq,
  Option-cases, Bool-cases, inl, inr,
}
use xmrig2xdag.Common.Options.{◌>>=◌}
use xmrig2xdag.Base58.Check.{Sha256}
use xmrig2xdag.Stratum.Json.{string}
use xmrig2xdag.Proxy.Job.{Job}
use xmrig2xdag.Proxy.State.{Proxy}
use xmrig2xdag.Proxy.Account.{AccountError, set_address}
use xmrig2xdag.Proxy.Close.{close}
use xmrig2xdag.Proxy.Mining.{
  Session, remove_proxy, context, json, PassThruParams, get, ctx, get_worker, LoginError,
  LoginResult, turn_down, as_text, miner_name, set_account, start_run, login, bad_account,
  no_login_param, pool_is_down,
}

-- A parameter is a text, if it is there.
abbrev pub IsTextOrMissing : List ℕ → PassThruParams → Type 0
IsTextOrMissing key p = (get key p ≡ none) ⊎ ((t : List ℕ) × (get key p ≡ some (json (string t))))

-- The parameters hold the context, and texts as the login and the password.
pub record IsProper (p : PassThruParams) : Type 0 where
  pub has_context : get ctx p ≡ some context
  pub text_login : IsTextOrMissing (codes "login") p
  pub text_pass : IsTextOrMissing (codes "pass") p

-- What a login leaves that is accepted: the account is set, and Run is started once.
pub record IsAccepted (sha : Sha256) (job : Job) (p : PassThruParams) (s : Session)
    (r : LoginResult) : Type 0 where
  pub address : List ℕ
  pub name : List ℕ
  pub named : get (codes "login") p ≡ some (json (string address))
  pub account : set_address sha address (s.proxy) ≡ (r.session.proxy, none)
  pub worker : r.session.worker ≡ s.worker
  pub started : r.started ≡ some name
  pub job_sent : r.reply.job ≡ some job
  pub no_error : r.reply.error ≡ none

-- What a login leaves that is turned down: the proxy is closed, the worker has none, and nothing is started.
pub record IsTurnedDown (r : LoginResult) (e : LoginError) : Type 0 where
  pub closed : r.session.proxy.is_closed ≡ true
  pub alone : r.session.worker.has_proxy ≡ false
  pub not_started : r.started ≡ none
  pub no_job : r.reply.job ≡ none
  pub told : r.reply.error ≡ some e

abbrev pub Outcome : Sha256 → Job → PassThruParams → Session → LoginResult → Type 0
Outcome sha job p s r = elim (r.error) [
  | none ↦ IsAccepted sha job p s r
  | some e ↦ IsTurnedDown r e
]

close-closed : (p : Proxy) → (close p).0.is_closed ≡ true
unfolding close
close-closed p = elim (Bool-cases (p.is_closed)) [
  | inl e ↦ rw (e, close) refl
  | inr e ↦
      rw (e, close) (elim (Bool-cases (ltb 0 (p.id))) [ inl h ↦ rw h refl | inr h ↦ rw h refl ])
]

turn_down-IsTurnedDown :
    (e : LoginError) (s : Session) → s.worker.has_proxy ≡ true → IsTurnedDown (turn_down e s) e
unfolding turn_down remove_proxy
turn_down-IsTurnedDown e s h = record {
  closed = rw (h, remove_proxy) (close-closed (s.proxy));
  alone = rw (h, remove_proxy) refl;
  not_started = refl;
  no_job = refl;
  told = refl;
}

miner_name-returns :
    (p : PassThruParams)
    → IsTextOrMissing (codes "pass") p
    → (name : List ℕ) × (miner_name p ≡ some name)
unfolding miner_name as_text
miner_name-returns p (inl e) = ([], rw (e, miner_name) refl)
miner_name-returns p (inr (t, e)) =
    (if list_eq t (codes "x") then [] else t, rw (e, miner_name) refl)

pub worker-found : (p : PassThruParams) → get ctx p ≡ some context → get_worker p ≡ some tt
unfolding get_worker
worker-found p e = rw (e, get_worker) refl

module _ (sha : Sha256) (job : Job) (p : PassThruParams) where
  pub login-down :
      (n : ℕ) (s : Session)
      → get_worker p ≡ some tt
      → ltb 0 n ≡ true
      → login sha n job p s ≡ some (turn_down pool_is_down s)
  unfolding login
  login-down n s w down = rw (w, login) (rw down refl)

  login-missing :
      (n : ℕ) (s : Session)
      → get_worker p ≡ some tt
      → ltb 0 n ≡ false
      → get (codes "login") p ≡ none
      → login sha n job p s ≡ some (turn_down no_login_param s)
  unfolding login
  login-missing n s w up e = rw (w, login) (rw up (rw (e, login) refl))

  pub login-text :
      (n : ℕ) (s : Session) (address : List ℕ)
      → get_worker p ≡ some tt
      → ltb 0 n ≡ false
      → get (codes "login") p ≡ some (json (string address))
      → login sha n job p s ≡ (
          set_account sha address s >>= (λ a. elim (a.1) [
            | some e ↦ some (turn_down (bad_account e) (a.0))
            | none ↦ start_run job p (a.0)
          ]))
  unfolding login as_text
  login-text n s address w up e = rw (w, login) (rw up (rw (e, login) refl))

  set_account-bad :
      (s : Session) (address : List ℕ) (e : AccountError)
      → (set_address sha address (s.proxy)).1 ≡ some e
      → set_account sha address s ≡ some (s, some e)
  unfolding set_account
  set_account-bad s address e h = rw (h, set_account) refl

  pub set_account-good :
      (s : Session) (address : List ℕ)
      → (set_address sha address (s.proxy)).1 ≡ none
      → set_account sha address s ≡ (
          if s.worker.has_proxy
          then some (record s { proxy = (set_address sha address (s.proxy)).0 }, none)
          else none)
  unfolding set_account
  set_account-good s address h = rw (h, set_account) refl

  -- A login for a good account.
  login-good :
      (n : ℕ) (s : Session) (address name : List ℕ)
      → get_worker p ≡ some tt
      → ltb 0 n ≡ false
      → get (codes "login") p ≡ some (json (string address))
      → (set_address sha address (s.proxy)).1 ≡ none
      → s.worker.has_proxy ≡ true
      → miner_name p ≡ some name
      → (r : LoginResult) × (login sha n job p s ≡ some r) × Outcome sha job p s r
  unfolding start_run
  login-good n s address name w up e good h named =
      let q = (set_address sha address (s.proxy)).0 in
      let r : LoginResult = record {
        session = record s { proxy = q };
        reply = record { id = s.worker.id; job = some job; status = codes "OK"; error = none };
        error = none;
        events = [];
        started = some name;
      } in
      (
        r,
        login-text n s address w up e
            ∙ rw (set_account-good s address good) (rw h (rw (named, start_run) refl)),
        record {
          address = address;
          name = name;
          named = e;
          account = ap (λ x. (q, x)) good;
          worker = refl;
          started = refl;
          job_sent = refl;
          no_error = refl;
        },
      )

  -- With the context and with texts as its parameters, Login returns, for a worker that has a proxy. It
  -- either starts Run once, with the account set in the proxy and a job in the reply, or it closes the
  -- proxy, takes it from the worker, and tells the error in its reply.
  pub login-Outcome :
      (n : ℕ) (s : Session)
      → IsProper p
      → s.worker.has_proxy ≡ true
      → (r : LoginResult) × (login sha n job p s ≡ some r) × Outcome sha job p s r
  unfolding turn_down
  login-Outcome n s proper h =
      let w = worker-found p (proper.has_context) in
      elim (Bool-cases (ltb 0 n)) [
        | inl down ↦ (
          turn_down pool_is_down s,
          login-down n s w down,
          turn_down-IsTurnedDown pool_is_down s h,
        )
        | inr up ↦ elim (proper.text_login) [
          | inl e ↦ (
            turn_down no_login_param s,
            login-missing n s w up e,
            turn_down-IsTurnedDown no_login_param s h,
          )
          | inr (address, e) ↦ elim (Option-cases ((set_address sha address (s.proxy)).1)) [
            | inr (bad, is_bad) ↦ (
              turn_down (bad_account bad) s,
              login-text n s address w up e ∙ rw (set_account-bad s address bad is_bad) refl,
              turn_down-IsTurnedDown (bad_account bad) s h,
            )
            | inl good ↦
                let (name, named) = miner_name-returns p (proper.text_pass) in
                login-good n s address name w up e good h named
          ]
        ]
      ]
