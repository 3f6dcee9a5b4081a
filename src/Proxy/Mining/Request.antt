-- ===== src/Proxy/Mining/Request.antt =====
-- A login on its whole way: through the codec of stratum/codec.go, to Login of proxy/mining.go, and back.
use xmrig2xdag.Common.{
  ℕ, ◌+◌, ◌^◌, ◌≡◌, ◌⊎◌, ◌<◌, refl, ap, ◌∙◌, List, [], none, some, true, false, codes, list_eq, inl,
  inr, arith,
}
use xmrig2xdag.Base58.Check.{Sha256}
use xmrig2xdag.SafeMap.{IsWellFormed}
use xmrig2xdag.Stratum.Json.{Json, string, object, Fields, members, get_member}
use xmrig2xdag.Stratum.Request.{unmarshal_request}
use xmrig2xdag.Stratum.Request.Accepted.{request, is_request_id, unmarshal_request-request}
use xmrig2xdag.Stratum.Codec.{
  DefaultServerCodec, read_request_header, read_request_body, write_response, header, encoded,
  response, Outcome as Answer, service_method,
}
use xmrig2xdag.Stratum.Codec.Pending.{read-accepted, write_response-read}
use xmrig2xdag.Proxy.Job.{Job}
use xmrig2xdag.Proxy.Mining.{
  Session, json, PassThruParams, nil_map, entries, get, ctx, set_context, unmarshal_params,
  params_target, LoginResult, login,
}
use xmrig2xdag.Proxy.Mining.Login.{IsProper, IsTextOrMissing, Outcome, login-Outcome}

-- A member of the parameters is a text, if it is there.
abbrev pub IsTextMember : List ℕ → Fields → Type 0
IsTextMember key fs =
    (get_member key (members fs) ≡ none)
    ⊎ ((t : List ℕ) × (get_member key (members fs) ≡ some (string t)))

-- The parameters of a method, from those of the request.
abbrev pub decoded : Fields → PassThruParams
unfolding set_context
decoded fs = entries (λ key. elim (get_member key (members fs)) [
  | some v ↦ some (json v)
  | none ↦ get key (set_context nil_map)
])

module _ (fs : Fields) where
  member-found :
      (key : List ℕ) (v : Json)
      → get_member key (members fs) ≡ some v
      → get key (decoded fs) ≡ some (json v)
  unfolding decoded
  member-found key v h = rw (h, get) refl

  member-missing :
      (key : List ℕ)
      → get_member key (members fs) ≡ none
      → get key (decoded fs) ≡ get key (set_context nil_map)
  unfolding decoded set_context
  member-missing key h = rw (h, get) refl

  text-kept :
      (key : List ℕ)
      → list_eq ctx key ≡ false
      → IsTextMember key fs
      → IsTextOrMissing key (decoded fs)
  unfolding set_context
  text-kept key other (inl h) = inl (member-missing key h ∙ rw other refl)
  text-kept key other (inr (t, h)) = inr (t, member-found key (string t) h)

  decoded-IsProper :
      get_member ctx (members fs) ≡ none
      → IsTextMember (codes "login") fs
      → IsTextMember (codes "pass") fs
      → IsProper (decoded fs)
  unfolding set_context
  decoded-IsProper no_ctx name pass = record {
    has_context = member-missing ctx no_ctx;
    text_login = text-kept (codes "login") refl name;
    text_pass = text-kept (codes "pass") refl pass;
  }

  body-decoded :
      (c : DefaultServerCodec)
      → c.req.params ≡ some (object fs)
      → read_request_body params_target nil_map c ≡ some (decoded fs)
  unfolding read_request_body unmarshal_params set_context decoded
  body-decoded c h = rw (h, read_request_body) refl

accepted :
    (id : Json) (version : List ℕ) (fs : Fields)
    → is_request_id id ≡ true
    → unmarshal_request (request id version (codes "login") (object fs))
      ≡ some (record {
        version = version;
        method = codes "login";
        params = some (object fs);
        id = some id;
      })
accepted id version fs h =
    unmarshal_request-request id version (codes "login") (object fs) ∙ rw h refl

login_name : (upper : ℕ → ℕ) → service_method upper (codes "login") ≡ codes "mining.Login"
unfolding service_method
login_name upper = refl

-- What becomes of a request to log in: the method it reaches, its parameters, the login, and the response.
pub record IsAnswered (upper : ℕ → ℕ) (sha : Sha256) (n : ℕ) (job : Job) (s : Session)
    (c : DefaultServerCodec) (id : Json) (v : Json) (outcome : Answer) : Type 0 where
  pub named : (read_request_header upper (some v) c).2 ≡ header (codes "mining.Login") (c.seq + 1)
  pub params : PassThruParams
  pub result : LoginResult
  pub body :
      read_request_body params_target nil_map ((read_request_header upper (some v) c).0)
      ≡ some params
  pub logged_in : login sha n job params s ≡ some result
  pub done : Outcome sha job params s result
  pub answered :
      (write_response (c.seq + 1) outcome ((read_request_header upper (some v) c).0)).1
      ≡ encoded (response (some id) outcome)

-- A request to log in whose parameters have no member `ctx`, and texts as login and pass if they have them,
-- goes all the way: it reaches Login with the parameters it has, Login returns and either starts Run or
-- turns the miner down, and what it returns is written with the id of the request. The codec's map holds no
-- number twice, its numbers have not run out, the id is a number, a text or null, and the worker has a proxy.
pub login-IsAnswered :
    (upper : ℕ → ℕ) (sha : Sha256) (n : ℕ) (job : Job) (s : Session) (c : DefaultServerCodec)
    (id : Json) (version : List ℕ) (fs : Fields) (outcome : Answer)
    → IsWellFormed (c.pending)
    → c.seq + 1 < 2 ^ 64
    → is_request_id id ≡ true
    → get_member ctx (members fs) ≡ none
    → IsTextMember (codes "login") fs
    → IsTextMember (codes "pass") fs
    → s.worker.has_proxy ≡ true
    → IsAnswered upper sha n job s c id (request id version (codes "login") (object fs)) outcome
login-IsAnswered upper sha n job s c id version fs outcome w room id_fits no_ctx name pass has =
    let v = request id version (codes "login") (object fs) in
    let good = accepted id version fs id_fits in
    let read = read-accepted upper c v _ good in
    let (r, logged_in, done) =
      login-Outcome sha job (decoded fs) n s (decoded-IsProper fs no_ctx name pass) has in
    record {
      named =
          ap (λ x. x.2) read
          ∙ rw (login_name upper) (ap (header (codes "mining.Login")) (omega arith));
      params = decoded fs;
      result = r;
      body =
          body-decoded fs ((read_request_header upper (some v) c).0)
            (ap (λ x. x.0.req.params) read);
      logged_in = logged_in;
      done = done;
      answered = (write_response-read upper c v _ [] outcome outcome w good tt (omega arith)).0;
    }
