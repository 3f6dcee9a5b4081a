-- ===== src/Proxy/Mining/Crashes.antt =====
-- The requests of proxy/mining.go that end the process: those of a worker whose proxy was taken from it, and
-- those that put another value in the place of the context.
use xmrig2xdag.Common.{
  ℕ, ◌≡◌, ◌⊎◌, refl, sym, ap, ◌∙◌, List, none, some, false, ltb, codes, Option-cases, Bool-cases,
  inl, inr, if◌then◌else◌,
}
use xmrig2xdag.Common.Options.{>>=-eq-some, some-injective}
use xmrig2xdag.Base58.Check.{Sha256}
use xmrig2xdag.Stratum.Json.{Json, string, object, Fields, members, get_member}
use xmrig2xdag.Stratum.Codec.{DefaultServerCodec, read_request_body}
use xmrig2xdag.Proxy.Job.{Job}
use xmrig2xdag.Proxy.Account.{set_address}
use xmrig2xdag.Proxy.Mining.{
  Session, remove_proxy, context, json, PassThruParams, nil_map, entries, get, ctx, set_context,
  unmarshal_params, params_target, get_worker, LoginError, LoginResult, turn_down, as_text,
  miner_name, set_account, start_run, login, getjob, submit_share, keepalived, status, bad_account,
  no_login_param, pool_is_down,
}
use xmrig2xdag.Proxy.Mining.Login.{login-down, login-text, set_account-good, worker-found}

-- A result that is no error, or leaves the worker without a proxy.
abbrev FineOrAlone : LoginResult → Type 0
FineOrAlone r = (r.error ≡ none) ⊎ (r.session.worker.has_proxy ≡ false)

turn_down-alone : (e : LoginError) (s : Session) → (turn_down e s).session.worker.has_proxy ≡ false
unfolding turn_down remove_proxy
turn_down-alone e s = elim (Bool-cases (s.worker.has_proxy)) [
  | inl h ↦ rw (h, remove_proxy) refl
  | inr h ↦ rw (h, remove_proxy) refl
]

turned_down :
    (e : LoginError) (s : Session) (r : LoginResult) → some (turn_down e s) ≡ some r → FineOrAlone r
turned_down e s r h =
    inr (ap (λ x. x.session.worker.has_proxy) (sym (some-injective h)) ∙ turn_down-alone e s)

start_run-fine :
    (job : Job) (p : PassThruParams) (s : Session) (r : LoginResult)
    → start_run job p s ≡ some r
    → FineOrAlone r
unfolding start_run
start_run-fine job p s r h =
    let (name, _, e) = >>=-eq-some (miner_name p) _ h in
    inl (ap (λ x. x.error) (sym (some-injective e)))

login-FineOrAlone :
    (sha : Sha256) (n : ℕ) (job : Job) (p : PassThruParams) (s : Session) (r : LoginResult)
    → login sha n job p s ≡ some r
    → FineOrAlone r
unfolding login
login-FineOrAlone sha n job p s r h =
    let (_, _, rest) = >>=-eq-some (get_worker p) _ h in
    elim (Bool-cases (ltb 0 n)) [
      | inl down ↦ turned_down pool_is_down s r (rw down at rest)
      | inr up ↦ elim (Option-cases (get (codes "login") p)) [
        | inl e ↦ turned_down no_login_param s r (rw (up, e) at rest)
        | inr (entry, e) ↦
            let (address, _, more) = >>=-eq-some (as_text entry) _ (rw (up, e) at rest) in
            let (a, _, last) = >>=-eq-some (set_account sha address s) _ more in
            elim (Option-cases (a.1)) [
              | inl good ↦ start_run-fine job p (a.0) r (rw good at last)
              | inr (bad, e') ↦ turned_down (bad_account bad) (a.0) r (rw e' at last)
            ]
      ]
    ]

-- Behind a login that was turned down, on the same connection and for parameters with the context: a login
-- for a good account ends the process, unless the count says that the pool is down, for then it is turned
-- down in its turn; Getjob and Submit end the process in any case.
pub login-after_turned_down :
    (sha : Sha256) (n n' : ℕ) (job job' : Job) (p p' : PassThruParams) (s : Session)
    (r : LoginResult) (e : LoginError) (address : List ℕ)
    → login sha n job p s ≡ some r
    → r.error ≡ some e
    → get ctx p' ≡ some context
    → get (codes "login") p' ≡ some (json (string address))
    → (set_address sha address (r.session.proxy)).1 ≡ none
    → (login sha n' job' p' (r.session)
        ≡ (if ltb 0 n' then some (turn_down pool_is_down (r.session)) else none))
      × (getjob p' (r.session) ≡ none)
      × (submit_share p' (r.session) ≡ none)
unfolding getjob submit_share
login-after_turned_down sha n n' job job' p p' s r e address h failed has named good =
    let w = worker-found p' has in
    let alone : r.session.worker.has_proxy ≡ false = elim (login-FineOrAlone sha n job p s r h) [
      | inl fine ↦ absurd (let bad : none ≡ some e = sym fine ∙ failed in cc)
      | inr a ↦ a
    ] in
    (
      elim (Bool-cases (ltb 0 n')) [
        | inl down ↦ login-down sha job' p' n' (r.session) w down ∙ rw down refl
        | inr up ↦
            login-text sha job' p' n' (r.session) address w up named
            ∙ rw (set_account-good sha job' p' (r.session) address good) (rw (alone, up) refl)
      ],
      rw (w, getjob) (rw alone refl),
      rw (w, submit_share) (rw alone refl),
    )

no_worker : (p : PassThruParams) (v : Json) → get ctx p ≡ some (json v) → get_worker p ≡ none
unfolding get_worker
no_worker p v h = rw (h, get_worker) refl

-- A member "ctx" in the parameters of a request takes the place of the context, which the codec has put
-- there before: Login, Getjob and Submit end the process then. Keepalived, which does not look at the
-- context, answers.
pub read_request_body-ctx :
    (sha : Sha256) (n : ℕ) (job : Job) (s : Session) (c : DefaultServerCodec) (fs : Fields)
    (v : Json)
    → c.req.params ≡ some (object fs)
    → get_member ctx (members fs) ≡ some v
    → (p : PassThruParams) × (read_request_body params_target nil_map c ≡ some p)
      × (login sha n job p s ≡ none)
      × (getjob p s ≡ none)
      × (submit_share p s ≡ none)
      × (keepalived p ≡ status (codes "KEEPALIVED"))
unfolding keepalived read_request_body login getjob submit_share unmarshal_params
read_request_body-ctx sha n job s c fs v h found =
    let p = entries (λ key. elim (get_member key (members fs)) [
      | some x ↦ some (json x)
      | none ↦ get key (set_context nil_map)
    ]) in
    let bad = no_worker p v (rw (found, get) refl) in
    (
      p,
      rw (h, read_request_body) refl,
      rw (bad, login) refl,
      rw (bad, getjob) refl,
      rw (bad, submit_share) refl,
      refl,
    )
