-- ===== src/Stratum/Client.antt =====
-- stratum/client.go: the client's side of JSON-RPC, which also takes notifications. The chunks that the
-- connection gives hold whole JSON values. The type of errors of the package jsonrpc2 is a parameter, with
-- the function that reads one from JSON; `none` of that function is a decoding error.
pub mod Pending
pub mod Buffer
use xmrig2xdag.Common.{
  ℕ, zero, suc, ◌+◌, ◌-◌, ◌*◌, ◌^◌, List, [], ◌∷◌, ◌++◌, Option, none, some, Bool, true, false, not,
  ◌&&◌, ◌||◌, leb, ltb, ◌==◌, if◌then◌else◌, codes, list_eq, length, set, get_elem?,
}
use xmrig2xdag.Common.Options.{◌>>=◌}
use xmrig2xdag.GoMap
use xmrig2xdag.GoMap.{GoMap}
use xmrig2xdag.Stratum.Json.{
  Json, null, bool, number, string, array, object, Members, as_map, raw, has_member, raw_member,
  size, fold, set_text,
}

abbrev pub seq_notify : ℕ
seq_notify = 2 ^ 64 - 1

abbrev pub notification_buffer_length : ℕ
notification_buffer_length = 10

pub record ClientRequest : Type 0 where
  pub version : List ℕ
  pub method : List ℕ
  pub params : Option Json
  pub id : Option ℕ

-- The kinds of the package reflect that matter, with what is asked of the value: for a map whether its keys
-- are texts, and for maps and slices whether it is nil.
pub data Kind : Type 0 where
  map_kind : Bool → Bool → Kind
  slice_kind : Bool → Kind
  array_kind struct_kind other_kind : Kind

-- The parameter of a request: nil, a value, or a pointer, which may be nil, to a value.
pub data Param : Type 0 where
  nil_param : Param
  value : Kind → Json → Param
  pointer : Bool → Kind → Json → Param

-- What becomes of a parameter: it is sent, left out, or refused; or IsNil panics on a nil pointer's target.
pub data Checked : Type 0 where
  sent : Json → Checked
  omitted unsupported panicked : Checked

abbrev pub sent_unless : Bool → Json → Checked
sent_unless is_nil x = if is_nil then omitted else sent x

unfoldable pub check_param : Param → Checked
check_param nil_param = omitted
check_param (value (map_kind true is_nil) x) = sent_unless is_nil x
check_param (value (map_kind false is_nil) x) = sent x
check_param (value (slice_kind is_nil) x) = sent_unless is_nil x
check_param (value array_kind x) = sent x
check_param (value struct_kind x) = sent x
check_param (value other_kind x) = unsupported
check_param (pointer nil (map_kind true is_nil) x) = if nil then panicked else sent_unless is_nil x
check_param (pointer nil (map_kind false is_nil) x) = sent x
check_param (pointer nil (slice_kind is_nil) x) = if nil then panicked else sent_unless is_nil x
check_param (pointer nil array_kind x) = sent x
check_param (pointer nil struct_kind x) = sent x
check_param (pointer nil other_kind x) = unsupported

-- The digits of a number that a uint64 takes.
abbrev pub digits_value : List ℕ → ℕ → Option ℕ
digits_value [] n = some n
digits_value (c ∷ cs) n =
    let rest = digits_value cs (n * 10 + (c - b'0')) in
    if leb b'0' c && leb c b'9' then rest else none

-- A JSON value for a field of type `*uint64`; the outer `none` is an error.
abbrev pub as_uint64 : Json → Option (Option ℕ)
as_uint64 null = some none
as_uint64 (number []) = none
as_uint64 (number (c ∷ cs)) =
    digits_value (c ∷ cs) 0 >>= (λ n. if ltb n (2 ^ 64) then some (some n) else none)
as_uint64 (bool _) = none
as_uint64 (string _) = none
as_uint64 (array _) = none
as_uint64 (object _) = none

pub record ClientResponse (E : Type 0) : Type 0 where
  pub version : List ℕ
  pub id : Option ℕ
  pub result : Option Json
  pub error : Option E

-- Notification: the id is a pointer, given by its place among the numbers that the decoder has allocated. A
-- notification in the channel is a copy, and shares its id with the notification that it was copied from.
pub record Notification : Type 0 where
  pub version : List ℕ
  pub method : List ℕ
  pub params : Option Json
  pub id : Option ℕ

-- clientCodec, with its channel of notifications, the place where one is decoded, and the numbers that the
-- decoder has allocated.
pub record ClientCodec : Type 0 where
  pub notif : Notification
  pub ids : List ℕ
  pub pending : GoMap (List ℕ)
  pub notifications : List Notification

-- The id of a notification, as it is read from the channel.
abbrev pub id_of : ClientCodec → Notification → Option ℕ
id_of c n = elim (n.id) [ none ↦ none | some place ↦ get_elem? (c.ids) place ]

-- newClientCodec
unfoldable pub new_client_codec : ClientCodec
new_client_codec = record {
  notif = record { version = []; method = []; params = none; id = none };
  ids = [];
  pending = [];
  notifications = [];
}

-- What WriteRequest does with the connection.
pub data Request : Type 0 where
  skipped_first unsupported_param encode_failed param_panics : Request
  written : ClientRequest → Request

abbrev pub client_request : ℕ → List ℕ → Option Json → ClientRequest
client_request seq method params = record {
  version = codes "2.0";
  method = method;
  params = params;
  id = if seq == seq_notify then none else some seq;
}

-- The part of WriteRequest behind the checks; `fails` says that the encoder does. The method stays in the
-- map then.
unfoldable pub encode_request :
    ℕ → List ℕ → Option Json → Bool → ClientCodec → ClientCodec × Request
encode_request seq method params fails c = (
  if seq == seq_notify then c else record c { pending = GoMap.put seq method (c.pending) },
  if fails then encode_failed else written (client_request seq method params),
)

-- WriteRequest
unfoldable pub write_request : ℕ → List ℕ → Param → Bool → ClientCodec → ClientCodec × Request
write_request seq method param fails c =
    if seq == 0 then (c, skipped_first) else elim (check_param param) [
      | sent x ↦ encode_request seq method (some x) fails c
      | omitted ↦ encode_request seq method none fails c
      | unsupported ↦ (c, unsupported_param)
      | panicked ↦ (c, param_panics)
    ]

-- Client.Notify
abbrev pub notify : List ℕ → Param → Bool → ClientCodec → ClientCodec × Request
notify method param fails c = write_request seq_notify method param fails c

-- The decoder at work on a notification: it notes an error and goes on with the next member.
pub record Decoding : Type 0 where
  pub notif : Notification
  pub ids : List ℕ
  pub fine : Bool

abbrev failed : Decoding → Decoding
failed d = record d { fine = false }

-- A value for the id: null sets the pointer to nil; for another value the decoder first allocates a zero where
-- there is no pointer, and then writes through it, if the value is a number that fits.
abbrev allocated : Decoding → Decoding
allocated d = elim (d.notif.id) [
  | some place ↦ d
  | none ↦ record d { notif = record d.notif { id = some (length (d.ids)) }; ids = d.ids ++ 0 ∷ [] }
]

abbrev write_id : ℕ → Decoding → Decoding
write_id n d = elim (d.notif.id) [ some place ↦ record d { ids = set (d.ids) place n } | none ↦ d ]

unfoldable pub assign_id : Json → Decoding → Decoding
assign_id v d = elim (as_uint64 v) [
  | none ↦ failed (allocated d)
  | some number_or_null ↦ elim number_or_null [
    | none ↦ record d { notif = record d.notif { id = none } }
    | some n ↦ write_id n (allocated d)
  ]
]

-- One member of an object, put into the field of a notification that it names. A value that does not fit
-- leaves the field.
unfoldable pub assign_notification : List ℕ → Json → Decoding → Decoding
unfolding assign_id
assign_notification key v d =
    if list_eq (fold key) (codes "jsonrpc")
    then elim (set_text v (d.notif.version)) [
      | none ↦ failed d
      | some t ↦ record d { notif = record d.notif { version = t } }
    ]
    else if list_eq (fold key) (codes "method")
    then elim (set_text v (d.notif.method)) [
      | none ↦ failed d
      | some t ↦ record d { notif = record d.notif { method = t } }
    ]
    else if list_eq (fold key) (codes "params")
    then record d { notif = record d.notif { params = raw v } }
    else if list_eq (fold key) (codes "id")
    then assign_id v d
    else d

-- `d.Decode(&c.notif)`: what the object does not name stays from the last notification.
unfoldable pub decode_notification : Members → Decoding → Decoding
unfolding assign_notification
decode_notification [] d = d
decode_notification ((k, v) ∷ o) d = decode_notification o (assign_notification k v d)

-- receiveNotification: `none` is the end of the process.
unfoldable pub receive_notification : ClientCodec → Option ClientCodec
receive_notification c =
    if leb notification_buffer_length (length (c.notifications))
    then none
    else some (record c { notifications = c.notifications ++ c.notif ∷ [] })

-- What ReadResponseHeader gives to net/rpc.
pub data ResponseHeader (E : Type 0) : Type 0 where
  end_of_file notification notification_failed internal_error killed : ResponseHeader E
  server_error : E → ResponseHeader E
  response : List ℕ → ℕ → ResponseHeader E

-- handleNotification, for the value that was no response: what is decoded stays behind an error.
unfoldable pub handle_notification :
    {E : Type 0} → Json → ClientCodec → ClientCodec × ResponseHeader E
handle_notification v c = elim (as_map v) [
  | none ↦ (c, notification_failed)
  | some o ↦
      let d = decode_notification o (record { notif = c.notif; ids = c.ids; fine = true }) in
      let decoded = record c { notif = d.notif; ids = d.ids } in
      if d.fine
      then elim (receive_notification decoded) [
        | none ↦ (decoded, killed)
        | some c' ↦ (c', notification)
      ]
      else (decoded, notification_failed)
]

-- A method that is not in the map is the empty text.
abbrev pub method_of : ℕ → GoMap (List ℕ) → List ℕ
method_of id pending = elim (GoMap.get id pending) [ none ↦ [] | some m ↦ m ]

abbrev is_nil : Option Json → Bool
is_nil none = true
is_nil (some _) = false

-- The check of the error object: a code and a message that are not null, and nothing but data beside.
abbrev pub error_fits : Members → Bool
error_fits o = elim (raw_member (codes "error") o) [
  | none ↦ true
  | some v ↦ elim (as_map v) [
    | none ↦ false
    | some oe ↦
        not (is_nil (raw_member (codes "code") oe))
        && not (is_nil (raw_member (codes "message") oe))
        && not ((not (has_member (codes "data") oe) && ltb 2 (size oe)) || ltb 3 (size oe))
  ]
]

abbrev empty_response : (E : Type 0) → ClientResponse E
empty_response E = record { version = []; id = none; result = none; error = none }

-- A result that is null is kept as null, where the key is there.
abbrev keep_null : {E : Type 0} → Members → ClientResponse E → ClientResponse E
keep_null o r =
    if has_member (codes "result") o
    then elim (r.result) [ none ↦ record r { result = some null } | some _ ↦ r ]
    else r

-- The checks of UnmarshalJSON on the members and on the version.
unfoldable pub response_fits : Members → List ℕ → Bool
response_fits o version =
    has_member (codes "jsonrpc") o
    && has_member (codes "id") o
    && (has_member (codes "result") o || has_member (codes "error") o)
    && leb (size o) 4
    && list_eq version (codes "2.0")
    && error_fits o
    && not (is_nil (raw_member (codes "id") o) && not (has_member (codes "error") o))

module _ {E : Type 0} (decode_error : Json → Option E) where
  -- A value for the field Error.
  abbrev as_error : Json → Option (Option E)
  as_error v = elim (raw v) [ none ↦ some none | some x ↦ decode_error x >>= (λ e. some (some e)) ]

  unfoldable pub assign_response : List ℕ → Json → ClientResponse E → Option (ClientResponse E)
  assign_response key v r =
      if list_eq (fold key) (codes "jsonrpc")
      then set_text v (r.version) >>= (λ t. some (record r { version = t }))
      else if list_eq (fold key) (codes "id")
      then as_uint64 v >>= (λ n. some (record r { id = n }))
      else if list_eq (fold key) (codes "result")
      then some (record r { result = raw v })
      else if list_eq (fold key) (codes "error")
      then as_error v >>= (λ e. some (record r { error = e }))
      else some r

  unfoldable pub assign_responses : Members → ClientResponse E → Option (ClientResponse E)
  unfolding assign_response
  assign_responses [] r = some r
  assign_responses ((k, v) ∷ o) r = assign_response k v r >>= (λ r'. assign_responses o r')

  -- UnmarshalJSON of clientResponse: `none` is the error "bad response".
  unfoldable pub unmarshal_response : Json → Option (ClientResponse E)
  unfolding assign_responses
  unmarshal_response v = do
    o ← as_map v
    r ← assign_responses o (empty_response E)
    if response_fits o (r.version) then some (keep_null o r) else none

  -- What ReadResponseHeader does with a response. It leaves the connection with an error before it looks
  -- at the map, if the response has one.
  unfoldable pub match_response : ClientResponse E → ClientCodec → ClientCodec × ResponseHeader E
  match_response r c = elim (r.error) [
    | some e ↦ (c, server_error e)
    | none ↦ elim (r.id) [
      | none ↦ (c, internal_error)
      | some id ↦ (
        record c { pending = GoMap.delete id (c.pending) },
        response (method_of id (c.pending)) id,
      )
    ]
  ]

  -- ReadResponseHeader, on the chunks that are still to come: the decoder is made anew, and drops what the
  -- chunk holds behind its first value.
  unfoldable pub read_response_header :
      List (List Json) → ClientCodec → ClientCodec × ResponseHeader E
  read_response_header [] c = (c, end_of_file)
  read_response_header ([] ∷ chunks) c = read_response_header chunks c
  read_response_header ((v ∷ _) ∷ _) c = elim (unmarshal_response v) [
    | none ↦ handle_notification v c
    | some r ↦ match_response r c
  ]

  -- ReadResponseBody: nothing is read for a reply that nobody waits for, or from a response without result.
  unfoldable pub read_response_body :
      {X : Type 0} → (Json → X → Option X) → Option X → ClientResponse E → Option (Option X)
  read_response_body unmarshal none r = some none
  read_response_body unmarshal (some x) r = elim (r.result) [
    | none ↦ some (some x)
    | some v ↦ unmarshal v x >>= (λ y. some (some y))
  ]

-- Client.Call: what is done within thirty seconds, `none` if nothing is.
pub data Called (E : Type 0) : Type 0 where
  call_timed_out answered : Called E
  call_error : E → Called E

unfoldable pub call : {E : Type 0} → Option (Option E) → Called E
call none = call_timed_out
call (some none) = answered
call (some (some e)) = call_error e

-- NewClient: the first request has the number 0.
unfoldable pub new_client : ClientCodec × Request
unfolding write_request new_client_codec check_param encode_request
new_client = write_request 0 (codes "incrementMySequence") nil_param false new_client_codec
