-- ===== src/Stratum/Codec.antt =====
-- stratum/codec.go, with the errors of stratum/errors.go: the server's side of JSON-RPC. The encoder's output
-- is a value, and net/rpc, which calls the codec, is not modelled.
pub mod Pending
pub mod Method
use xmrig2xdag.Common.{
  ℕ, zero, suc, ◌+◌, ◌-◌, ◌%◌, ◌^◌, List, [], ◌∷◌, ◌++◌, Option, none, some, Bool, true, false, not,
  ◌&&◌, ◌||◌, leb, ltb, ◌==◌, if◌then◌else◌, codes, has_prefix,
}
use xmrig2xdag.SafeMap
use xmrig2xdag.SafeMap.{SafeMap, new_safe_map}
use xmrig2xdag.Stratum.Json.{Json, null}
use xmrig2xdag.Stratum.Request.{ServerRequest, reset, unmarshal_request}

-- The codes of the errors; the code of JSON-RPC is the number below zero of this size.
pub data Code : Type 0 where
  err_parse err_request err_method err_params err_internal err_server err_server_error : Code

abbrev pub magnitude : Code → ℕ
magnitude err_parse = 32700
magnitude err_request = 32600
magnitude err_method = 32601
magnitude err_params = 32602
magnitude err_internal = 32603
magnitude err_server = 32000
magnitude err_server_error = 32001

pub record RpcError : Type 0 where
  pub code : Code
  pub message : List ℕ

-- serverResponse. A result that is left out is `none`; so is an id that is a nil pointer, which is written
-- as null.
pub record ServerResponse : Type 0 where
  pub version : List ℕ
  pub id : Option Json
  pub result : Option Json
  pub error : Option RpcError

-- A value of the type `interface{}` in the map pending: no value, or a pointer to a raw message, which may
-- be nil itself.
pub data Interface : Type 0 where
  nil_interface : Interface
  raw_message : Option Json → Interface

pub record DefaultServerCodec : Type 0 where
  pub req : ServerRequest
  pub seq : ℕ
  pub pending : SafeMap Interface

-- NewDefaultServerCodec
unfoldable pub new_default_server_codec : DefaultServerCodec
new_default_server_codec = record { req = reset; seq = 0; pending = new_safe_map }

abbrev is_between : ℕ → ℕ → ℕ → Bool
is_between lo hi c = leb lo c && leb c hi

-- The separators of strings.Title: in ASCII what is no letter, digit or underscore, beyond it spaces.
abbrev pub is_separator : ℕ → Bool
is_separator c =
    if ltb c 128
    then not
        (is_between b'0' b'9' c || is_between b'a' b'z' c || is_between b'A' b'Z' c || c == b'_')
    else is_between 0x2000 0x200A c
      || is_between 0x2028 0x2029 c
      || c == 0x85
      || c == 0xA0
      || c == 0x1680
      || c == 0x202F
      || c == 0x205F
      || c == 0x3000

-- unicode.ToTitle; `upper` is Unicode's table beyond ASCII.
abbrev pub to_title : (ℕ → ℕ) → ℕ → ℕ
to_title upper c = if ltb c 128 then (if is_between b'a' b'z' c then c - 32 else c) else upper c

-- strings.Title, behind the rune `before`.
abbrev pub title_from : (ℕ → ℕ) → ℕ → List ℕ → List ℕ
title_from upper before [] = []
title_from upper before (c ∷ cs) =
    (if is_separator before then to_title upper c else c) ∷ title_from upper c cs

abbrev pub title : (ℕ → ℕ) → List ℕ → List ℕ
title upper s = title_from upper b' ' s

-- strings.Contains
abbrev pub contains : List ℕ → List ℕ → Bool
contains [] sub = has_prefix [] sub
contains (c ∷ s) sub = has_prefix (c ∷ s) sub || contains s sub

-- The name of the method for net/rpc.
unfoldable pub service_method : (ℕ → ℕ) → List ℕ → List ℕ
service_method upper method =
    let titled = title upper method in
    if contains titled (codes "mining") then titled else codes "mining." ++ titled

-- What ReadRequestHeader gives to net/rpc.
pub data Header : Type 0 where
  header : List ℕ → ℕ → Header
  decode_failed bad_request : Header

abbrev error_response : Code → List ℕ → ServerResponse
error_response code message = record {
  version = codes "2.0";
  id = some null;
  result = none;
  error = some (record { code = code; message = message });
}

-- ReadRequestHeader, for the next value of the stream, `none` if it has none. The server stops reading after
-- an error, so that what it leaves in `req` does not matter.
unfoldable pub read_request_header :
    (ℕ → ℕ) → Option Json → DefaultServerCodec → DefaultServerCodec × List ServerResponse × Header
read_request_header upper none c =
    (c, error_response err_parse (codes "parse error") ∷ [], decode_failed)
read_request_header upper (some v) c = elim (unmarshal_request v) [
  | none ↦ (c, error_response err_request (codes "invalid request") ∷ [], bad_request)
  | some r ↦
      let seq = (c.seq + 1) % 2 ^ 64 in
      (
        record {
          req = record r { id = none };
          seq = seq;
          pending = SafeMap.set (c.pending) seq (raw_message (r.id));
        },
        [],
        header (service_method upper (r.method)) seq,
      )
]

-- The value that the parameters of a request are read into: what it does with the context, and with JSON.
pub record Target (X : Type 0) : Type 0 where
  pub set_context : X → X
  pub unmarshal : Json → X → Option X

-- ReadRequestBody: `none` is the error with the code errParams.
unfoldable pub read_request_body : {X : Type 0} → Target X → X → DefaultServerCodec → Option X
read_request_body t x c = elim (c.req.params) [
  | none ↦ some (t.set_context x)
  | some params ↦ t.unmarshal params (t.set_context x)
]

-- What a method returns: an error's text, or a value, which may be nil.
pub data Outcome : Type 0 where
  fails : List ℕ → Outcome
  returns : Option Json → Outcome

unfoldable pub response : Option Json → Outcome → ServerResponse
response id (fails message) = record {
  version = codes "2.0";
  id = id;
  result = none;
  error = some (record { code = err_internal; message = message });
}
response id (returns none) = record {
  version = codes "2.0";
  id = id;
  result = some null;
  error = none;
}
response id (returns (some x)) = record {
  version = codes "2.0";
  id = id;
  result = some x;
  error = none;
}

-- What WriteResponse does with the connection.
pub data Written : Type 0 where
  invalid_sequence no_response : Written
  encoded : ServerResponse → Written

-- WriteResponse
unfoldable pub write_response : ℕ → Outcome → DefaultServerCodec → DefaultServerCodec × Written
write_response seq outcome c = elim (SafeMap.get (c.pending) seq) [
  | none ↦ (c, invalid_sequence)
  | some b ↦ (
    record c { pending = SafeMap.del (c.pending) seq },
    elim b [ nil_interface ↦ no_response | raw_message id ↦ encoded (response id outcome) ],
  )
]

-- Notify, which writes without the lock of the responses.
pub record DefaultNotification : Type 0 where
  pub method : List ℕ
  pub params : Json

unfoldable pub notify : List ℕ → Json → DefaultNotification
notify method args = record { method = method; params = args }
