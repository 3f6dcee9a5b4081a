-- ===== src/Stratum/Tests.antt =====
-- Runs of the package stratum, and its theorems at concrete inputs.
use xmrig2xdag.Common.{
  ℕ, ◌≡◌, refl, map, List, [], ◌∷◌, ◌++◌, Option, none, some, false, codes, arith,
}
use xmrig2xdag.GoMap
use xmrig2xdag.GoMap.{GoMap}
use xmrig2xdag.SafeMap.Lookup.{new_safe_map-IsWellFormed}
use xmrig2xdag.Stratum.Json.{Json, null, number, string, object, field, end}
use xmrig2xdag.Stratum.Request.{unmarshal_request}
use xmrig2xdag.Stratum.Request.Accepted.{request, unmarshal_request-request}
use xmrig2xdag.Stratum.Codec.{
  new_default_server_codec, write_response, service_method, returns, fails, encoded,
  invalid_sequence, response,
}
use xmrig2xdag.Stratum.Codec.Method.{service_method-mining}
use xmrig2xdag.Stratum.Codec.Pending.{Call, reads, writes, calls, write_response-read}
use xmrig2xdag.Stratum.Client.{
  ClientRequest, ClientResponse, ClientCodec, new_client_codec, new_client, skipped_first,
  nil_param, client_request, written, write_request, read_response_header, unmarshal_response,
  notification, killed, handle_notification, check_param, encode_request, response_fits,
  response as client_answer, seq_notify, ResponseHeader, notification_failed, id_of,
  decode_notification, assign_notification, assign_id, receive_notification,
}
use xmrig2xdag.Stratum.Client.Pending.{read_response-write_request}

abbrev same : ℕ → ℕ
same c = c

abbrev params : Json
params = object (field (codes "login") (string (codes "abc")) end)

abbrev login_request : Json
login_request = request (number (codes "7")) (codes "2.0") (codes "login") params

abbrev notice : Json
notice = object (field (codes "method") (string (codes "login")) end)

login_name : service_method same (codes "login") ≡ codes "mining.Login"
unfolding service_method
login_name = refl

service_method-mining_example :
    service_method same (codes "mining.login") ≡ codes "mining.Mining.Login"
service_method-mining_example = service_method-mining same (codes "login") refl

unmarshal_request-request_example :
    unmarshal_request login_request
    ≡ some (record {
      version = codes "2.0";
      method = codes "login";
      params = some params;
      id = some (number (codes "7"));
    })
unmarshal_request-request_example =
    unmarshal_request-request (number (codes "7")) (codes "2.0") (codes "login") params

-- A notification, and a request that is read and answered before it is answered itself.
abbrev between : List Call
between = reads (some login_request) ∷ writes 2 (returns none) ∷ []

write_response-read_example :
    ((write_response 1
        (fails (codes "no"))
        (calls same (reads (some notice) ∷ between) new_default_server_codec)).1
      ≡ encoded (response none (fails (codes "no"))))
    × ((write_response 1 (returns none) (
          calls same
            (reads (some notice) ∷ (between ++ writes 1 (fails (codes "no")) ∷ []))
            new_default_server_codec)).1
        ≡ invalid_sequence)
unfolding new_default_server_codec unmarshal_request
write_response-read_example =
    write_response-read same new_default_server_codec notice
      (record { version = []; method = codes "login"; params = none; id = none }) between
      (fails (codes "no")) (returns none) new_safe_map-IsWellFormed refl (omega arith, tt)
      (omega arith)

-- An error is read as its message.
abbrev error_text : Json → Option (List ℕ)
error_text (string s) = some s
error_text _ = none

abbrev reply : ℕ → Json
reply id = object (
    field (codes "id") (number (id ∷ []))
      (field (codes "jsonrpc") (string (codes "2.0")) (field (codes "result") null end)))

abbrev fine : ClientResponse (List ℕ)
fine = record { version = codes "2.0"; id = some 1; result = some null; error = none }

read_response-write_request_example :
    ((read_response_header error_text ((reply b'1' ∷ []) ∷ []) (
        xmrig2xdag.Stratum.Client.Pending.calls error_text
          (xmrig2xdag.Stratum.Client.Pending.writes 1 (codes "login") nil_param false ∷ [])
          new_client_codec)).1
      ≡ client_answer (codes "login") 1)
    × (GoMap.get 1 (
          (read_response_header error_text ((reply b'1' ∷ []) ∷ []) (
            xmrig2xdag.Stratum.Client.Pending.calls error_text
              (xmrig2xdag.Stratum.Client.Pending.writes 1 (codes "login") nil_param false ∷ [])
              new_client_codec)).0.pending)
        ≡ none)
unfolding new_client_codec write_request unmarshal_response GoMap.get check_param encode_request
    response_fits
read_response-write_request_example =
    read_response-write_request error_text new_client_codec 1 (codes "login") nil_param false
      (client_request 1 (codes "login") none) [] (reply b'1') [] [] fine tt (omega arith) refl tt
      refl refl refl

-- A notification with an id that is no number is refused, but its method stays in the codec, and the id is a
-- zero from then on.
abbrev bad_notice : Json
bad_notice =
    object (field (codes "method") (string (codes "x")) (field (codes "id") (string []) end))

abbrev after_bad : ClientCodec × ResponseHeader (List ℕ)
after_bad = handle_notification bad_notice new_client_codec

partly_decoded :
    (after_bad.1 ≡ notification_failed)
    × (after_bad.0.notif.method ≡ codes "x")
    × (id_of (after_bad.0) (after_bad.0.notif) ≡ some 0)
unfolding new_client_codec handle_notification decode_notification assign_notification assign_id
partly_decoded = (refl, refl, refl)

-- Two notifications with the ids 1 and 2, of which the first has the id 2 as well when it is read.
abbrev numbered : List ℕ → Json
numbered n =
    object (field (codes "method") (string (codes "x")) (field (codes "id") (number n) end))

abbrev after_two : ClientCodec
after_two =
    (handle_notification {E = List ℕ} (numbered (b'2' ∷ []))
      ((handle_notification {E = List ℕ} (numbered (b'1' ∷ [])) new_client_codec).0)).0

ids_shared : map (id_of after_two) (after_two.notifications) ≡ some 2 ∷ some 2 ∷ []
unfolding new_client_codec handle_notification decode_notification assign_notification assign_id
    receive_notification
ids_shared = refl

first_request : new_client.1 ≡ skipped_first
unfolding new_client
first_request = refl
