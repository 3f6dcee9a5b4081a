-- ===== src/Stratum/Request/Accepted.antt =====
-- Which requests of stratum/server.go are accepted, and what is read from them.
use xmrig2xdag.Common.{
  ℕ, ◌≡◌, refl, List, [], ◌∷◌, none, some, Bool, true, false, ◌&&◌, if◌then◌else◌, codes, arith,
}
use xmrig2xdag.Stratum.Json.{Json, null, bool, number, string, array, object, field, end, raw}
use xmrig2xdag.Stratum.Request.{unmarshal_request, assign_members, reset}

-- A request as miners write it.
abbrev pub request : Json → List ℕ → List ℕ → Json → Json
request id version method params = object (
    field (codes "id") id (
      field (codes "jsonrpc") (string version)
        (field (codes "method") (string method) (field (codes "params") params end))))

abbrev pub is_structured : Json → Bool
is_structured (array _) = true
is_structured (object _) = true
is_structured null = false
is_structured (bool _) = false
is_structured (number _) = false
is_structured (string _) = false

abbrev pub is_request_id : Json → Bool
is_request_id null = true
is_request_id (number _) = true
is_request_id (string _) = true
is_request_id (bool _) = false
is_request_id (array _) = false
is_request_id (object _) = false

unmarshal_read :
    (id : Json) (version method : List ℕ) (params : Json)
    → assign_members
        ((codes "id", id)
          ∷ (codes "jsonrpc", string version)
          ∷ (codes "method", string method)
          ∷ (codes "params", params)
          ∷ [])
        reset
      ≡ some (record { version = version; method = method; params = raw params; id = raw id })
unfolding assign_members
unmarshal_read id version method params = refl

-- A request with an id, a version, a method and parameters is accepted exactly if its parameters are an
-- array or an object and its id is a number, a text or null. It is read as it is written, whatever version
-- it names, and with the id null as an id.
pub unmarshal_request-request :
    (id : Json) (version method : List ℕ) (params : Json)
    → unmarshal_request (request id version method params) ≡ (
        if is_structured params && is_request_id id
        then some
            (record { version = version; method = method; params = some params; id = some id })
        else none)
unfolding unmarshal_request
unmarshal_request-request null version method null = refl
unmarshal_request-request id version method null = refl
unmarshal_request-request id version method params = ground arith
