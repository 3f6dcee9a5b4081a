-- ===== src/Stratum/Request.antt =====
-- The requests of miners, in stratum/server.go: what serverRequest's UnmarshalJSON accepts.
pub mod Accepted
use xmrig2xdag.Common.{
  ℕ, ◌≡◌, refl, ◌↔◌, List, [], ◌∷◌, Option, none, some, Bool, true, false, not, ◌&&◌, ◌||◌, ◌==◌,
  if◌then◌else◌, list_eq, codes, Bool-cases, Option-cases, inl, inr, arith,
}
use xmrig2xdag.Common.Options.{◌>>=◌}
use xmrig2xdag.Stratum.Json.{
  Json, null, object, Members, as_map, raw, has_member, fold, set_text, first_byte,
}

pub record ServerRequest : Type 0 where
  pub version : List ℕ
  pub method : List ℕ
  pub params : Option Json
  pub id : Option Json

-- reset
abbrev pub reset : ServerRequest
reset = record { version = []; method = []; params = none; id = none }

-- One member of the object, put into the field that it names.
unfoldable pub assign_member : List ℕ → Json → ServerRequest → Option ServerRequest
assign_member key v r =
    if list_eq (fold key) (codes "jsonrpc")
    then set_text v (r.version) >>= (λ t. some (record r { version = t }))
    else if list_eq (fold key) (codes "method")
    then set_text v (r.method) >>= (λ t. some (record r { method = t }))
    else if list_eq (fold key) (codes "params")
    then some (record r { params = raw v })
    else if list_eq (fold key) (codes "id")
    then some (record r { id = raw v })
    else some r

-- `json.Unmarshal(raw, req(r))`
unfoldable pub assign_members : Members → ServerRequest → Option ServerRequest
unfolding assign_member
assign_members [] r = some r
assign_members ((k, v) ∷ o) r = assign_member k v r >>= (λ r'. assign_members o r')

-- The check of the parameters: an array or an object, where the key is there.
abbrev pub params_fit : Members → ServerRequest → Bool
params_fit o r =
    if has_member (codes "params") o
    then elim (r.params) [ none ↦ false | some v ↦ (first_byte v == 91) || (first_byte v == 123) ]
    else true

-- An id that is null is kept as null, where the key is there.
abbrev pub keep_null : Members → ServerRequest → ServerRequest
keep_null o r =
    if has_member (codes "id") o
    then elim (r.id) [ none ↦ record r { id = some null } | some _ ↦ r ]
    else r

-- The check of the id: no Boolean, object or array, where the key is there.
abbrev pub id_fits : Members → ServerRequest → Bool
id_fits o r =
    if has_member (codes "id") o
    then elim (r.id) [
      | none ↦ false
      | some v ↦ not (
          (first_byte v == b't')
          || (first_byte v == b'f')
          || (first_byte v == 123)
          || (first_byte v == 91))
    ]
    else true

-- UnmarshalJSON: `none` is the error "bad request".
unfoldable pub unmarshal_request : Json → Option ServerRequest
unfolding assign_members
unmarshal_request v = do
  o ← as_map v
  r ← assign_members o reset
  let kept = keep_null o r
  if params_fit o r && id_fits o kept then some kept else none
