-- ===== src/Stratum/Client/Pending.antt =====
-- The map of pending calls in stratum/client.go: every response finds the method of its request.
use xmrig2xdag.Common.{
  ℕ, ◌≡◌, ◌≢◌, refl, ap, ◌∙◌, List, [], ◌∷◌, Option, none, some, Bool, false, ◌==◌, if◌then◌else◌,
  Option-cases, Bool-cases, leb, length, true, inl, inr, arith, ==_iff,
}
use xmrig2xdag.GoMap
use xmrig2xdag.GoMap.{IsUnique}
use xmrig2xdag.GoMap.Laws.{get-put, get-delete, put-IsUnique, delete-IsUnique}
use xmrig2xdag.Stratum.Json.{Json}
use xmrig2xdag.Stratum.Json.{as_map}
use xmrig2xdag.Stratum.Client.{
  ClientCodec, ClientRequest, ClientResponse, Param, seq_notify, sent, omitted, unsupported,
  panicked, check_param, encode_request, write_request, match_response, read_response_header,
  unmarshal_response, response, handle_notification, receive_notification, decode_notification,
  Checked, method_of, notification_buffer_length, Request, written, skipped_first,
  unsupported_param, param_panics,
}

module _ {E : Type 0} (decode_error : Json → Option E) where
  -- What net/rpc does with a client's codec, in any order.
  pub data Call : Type 0 where
    writes : ℕ → List ℕ → Param → Bool → Call
    reads : List (List Json) → Call

  abbrev pub call : Call → ClientCodec → ClientCodec
  call (writes seq method param fails) c = (write_request seq method param fails c).0
  call (reads chunks) c = (read_response_header decode_error chunks c).0

  abbrev pub calls : List Call → ClientCodec → ClientCodec
  calls [] c = c
  calls (x ∷ xs) c = calls xs (call x c)

  abbrev responds : ℕ → Option (ClientResponse E) → Bool
  responds n none = false
  responds n (some r) = elim (r.error) [
    | some _ ↦ false
    | none ↦ elim (r.id) [ none ↦ false | some id ↦ id == n ]
  ]

  -- The next value is a response, without an error, to the request `n`.
  abbrev pub answers : ℕ → List (List Json) → Bool
  answers n [] = false
  answers n ([] ∷ chunks) = answers n chunks
  answers n ((v ∷ _) ∷ _) = responds n (unmarshal_response decode_error v)

  -- The calls leave the request `n` alone.
  abbrev pub Leaves : ℕ → List Call → Type 0
  Leaves n [] = Unit
  Leaves n (writes seq _ _ _ ∷ xs) = (seq ≢ n) × Leaves n xs
  Leaves n (reads chunks ∷ xs) = (answers n chunks ≡ false) × Leaves n xs

  record Keeps (c d : ClientCodec) (n : ℕ) : Type 0 where
    unique : IsUnique (d.pending)
    found : GoMap.get n (d.pending) ≡ GoMap.get n (c.pending)

  same-Keeps :
      (c d : ClientCodec) (n : ℕ) → IsUnique (c.pending) → d.pending ≡ c.pending → Keeps c d n
  same-Keeps c d n u e = record { unique = rw e u; found = rw e refl }

  encode-Keeps :
      (seq : ℕ) (method : List ℕ) (params : Option Json) (fails : Bool) (c : ClientCodec) (n : ℕ)
      → IsUnique (c.pending)
      → seq ≢ n
      → Keeps c ((encode_request seq method params fails c).0) n
  unfolding encode_request
  encode-Keeps seq method params fails c n u ne = elim (Bool-cases (seq == seq_notify)) [
    | inl e ↦ rw e (same-Keeps c c n u refl)
    | inr e ↦ rw e (record {
      unique = put-IsUnique seq method (c.pending) u;
      found = get-put n seq method (c.pending) ∙ ground arith;
    })
  ]

  checked-Keeps :
      (k : Checked) (seq : ℕ) (method : List ℕ) (param : Param) (fails : Bool) (c : ClientCodec)
      (n : ℕ)
      → check_param param ≡ k
      → IsUnique (c.pending)
      → seq ≢ n
      → (seq == 0) ≡ false
      → Keeps c ((write_request seq method param fails c).0) n
  unfolding write_request
  checked-Keeps (sent x) seq method param fails c n e u ne z =
      rw (z, e) (encode-Keeps seq method (some x) fails c n u ne)
  checked-Keeps omitted seq method param fails c n e u ne z =
      rw (z, e) (encode-Keeps seq method none fails c n u ne)
  checked-Keeps unsupported seq method param fails c n e u ne z =
      rw (z, e) (same-Keeps c c n u refl)
  checked-Keeps panicked seq method param fails c n e u ne z = rw (z, e) (same-Keeps c c n u refl)

  write-Keeps :
      (seq : ℕ) (method : List ℕ) (param : Param) (fails : Bool) (c : ClientCodec) (n : ℕ)
      → IsUnique (c.pending)
      → seq ≢ n
      → Keeps c ((write_request seq method param fails c).0) n
  unfolding write_request
  write-Keeps seq method param fails c n u ne = elim (Bool-cases (seq == 0)) [
    | inl z ↦ rw z (same-Keeps c c n u refl)
    | inr z ↦ checked-Keeps (check_param param) seq method param fails c n refl u ne z
  ]

  notification-pending :
      (v : Json) (c : ClientCodec) → (handle_notification {E = E} v c).0.pending ≡ c.pending
  unfolding handle_notification receive_notification
  notification-pending v c = elim (Option-cases (as_map v)) [
    | inl e ↦ rw (e, handle_notification) refl
    | inr (o, e) ↦
        let d = decode_notification o (record { notif = c.notif; ids = c.ids; fine = true }) in
        elim (Bool-cases (d.fine)) [
          | inr bad ↦ rw (e, bad, handle_notification) refl
          | inl fine ↦
              elim (Bool-cases (leb notification_buffer_length (length (c.notifications)))) [
                | inl full ↦ rw (e, fine, full, handle_notification) refl
                | inr room ↦ rw (e, fine, room, handle_notification) refl
              ]
        ]
  ]

  match-Keeps :
      (r : ClientResponse E) (c : ClientCodec) (n : ℕ)
      → IsUnique (c.pending)
      → responds n (some r) ≡ false
      → Keeps c ((match_response decode_error r c).0) n
  unfolding match_response
  match-Keeps r c n u h = elim (Option-cases (r.error)) [
    | inr (e, failed) ↦ rw failed (same-Keeps c c n u refl)
    | inl fine ↦ elim (Option-cases (r.id)) [
      | inl e ↦ rw (fine, e) (same-Keeps c c n u refl)
      | inr (id, e) ↦
          rw (fine, e)
            (record {
              unique = delete-IsUnique id (c.pending) u;
              found =
                  get-delete n id (c.pending) u
                  ∙ ap (λ b. if b then none else GoMap.get n (c.pending)) (rw (fine, e) at h);
            })
    ]
  ]

  read-Keeps :
      (chunks : List (List Json)) (c : ClientCodec) (n : ℕ)
      → IsUnique (c.pending)
      → answers n chunks ≡ false
      → Keeps c ((read_response_header decode_error chunks c).0) n
  unfolding read_response_header
  read-Keeps [] c n u h = same-Keeps c c n u refl
  read-Keeps ([] ∷ chunks) c n u h = read-Keeps chunks c n u h
  read-Keeps ((v ∷ _) ∷ _) c n u h = elim (Option-cases (unmarshal_response decode_error v)) [
    | inl e ↦ rw (e, read_response_header) (same-Keeps c _ n u (notification-pending v c))
    | inr (r, e) ↦ rw (e, read_response_header) (match-Keeps r c n u (rw e at h))
  ]

  calls-Keeps :
      (xs : List Call) (c : ClientCodec) (n : ℕ)
      → IsUnique (c.pending)
      → Leaves n xs
      → Keeps c (calls xs c) n
  calls-Keeps [] c n u out = same-Keeps c c n u refl
  calls-Keeps (writes seq method param fails ∷ xs) c n u out =
      let one = write-Keeps seq method param fails c n u (out.0) in
      let rest =
        calls-Keeps xs ((write_request seq method param fails c).0) n (one.unique) (out.1) in
      record { unique = rest.unique; found = rest.found ∙ one.found }
  calls-Keeps (reads chunks ∷ xs) c n u out =
      let one = read-Keeps chunks c n u (out.0) in
      let rest =
        calls-Keeps xs ((read_response_header decode_error chunks c).0) n (one.unique) (out.1) in
      record { unique = rest.unique; found = rest.found ∙ one.found }

  -- A request that is written is in the map.
  encode-found :
      (seq : ℕ) (method : List ℕ) (params : Option Json) (fails : Bool) (c : ClientCodec)
      → IsUnique (c.pending)
      → seq ≢ seq_notify
      → IsUnique ((encode_request seq method params fails c).0.pending)
        × (GoMap.get seq ((encode_request seq method params fails c).0.pending) ≡ some method)
  unfolding encode_request
  encode-found seq method params fails c u nn = elim (Bool-cases (seq == seq_notify)) [
    | inl e ↦ absurd (nn ((==_iff seq seq_notify).0 e))
    | inr e ↦
        rw e
          (put-IsUnique seq method (c.pending) u, get-put seq seq method (c.pending) ∙ ground arith)
  ]

  abbrev InMap : ℕ → List ℕ → ClientCodec × Request → Type 0
  InMap seq method x = IsUnique (x.0.pending) × (GoMap.get seq (x.0.pending) ≡ some method)

  checked-found :
      (k : Checked) (seq : ℕ) (method : List ℕ) (param : Param) (fails : Bool) (c : ClientCodec)
      (sent_as : ClientRequest)
      → check_param param ≡ k
      → IsUnique (c.pending)
      → seq ≢ seq_notify
      → (seq == 0) ≡ false
      → (write_request seq method param fails c).1 ≡ written sent_as
      → InMap seq method (write_request seq method param fails c)
  unfolding write_request
  checked-found (sent x) seq method param fails c q e u nn z h =
      rw (z, e) (encode-found seq method (some x) fails c u nn)
  checked-found omitted seq method param fails c q e u nn z h =
      rw (z, e) (encode-found seq method none fails c u nn)
  checked-found unsupported seq method param fails c q e u nn z h =
      absurd (let bad : unsupported_param ≡ written q = rw (z, e) at h in cc)
  checked-found panicked seq method param fails c q e u nn z h =
      absurd (let bad : param_panics ≡ written q = rw (z, e) at h in cc)

  write-found :
      (seq : ℕ) (method : List ℕ) (param : Param) (fails : Bool) (c : ClientCodec)
      (sent_as : ClientRequest)
      → IsUnique (c.pending)
      → seq ≢ seq_notify
      → (write_request seq method param fails c).1 ≡ written sent_as
      → InMap seq method (write_request seq method param fails c)
  unfolding write_request
  write-found seq method param fails c q u nn h = elim (Bool-cases (seq == 0)) [
    | inl z ↦ absurd (let bad : skipped_first ≡ written q = rw z at h in cc)
    | inr z ↦ checked-found (check_param param) seq method param fails c q refl u nn z h
  ]

  match-found :
      (r : ClientResponse E) (c : ClientCodec) (seq : ℕ) (method : List ℕ)
      → IsUnique (c.pending)
      → GoMap.get seq (c.pending) ≡ some method
      → r.error ≡ none
      → r.id ≡ some seq
      → ((match_response decode_error r c).1 ≡ response method seq)
        × (GoMap.get seq ((match_response decode_error r c).0.pending) ≡ none)
  unfolding match_response
  match-found r c seq method u found fine id =
      rw (fine, id, match_response)
        (rw (found, method_of) refl, get-delete seq seq (c.pending) u ∙ ground arith)

  read-good :
      (v : Json) (rest : List Json) (more : List (List Json)) (r : ClientResponse E)
      (c : ClientCodec)
      → unmarshal_response decode_error v ≡ some r
      → read_response_header decode_error ((v ∷ rest) ∷ more) c ≡ match_response decode_error r c
  unfolding read_response_header
  read-good v rest more r c good = rw (good, read_response_header) refl

  -- A response without an error gets the method of its request back, whatever other requests are written
  -- and whatever else is read in between, and takes the request from the map: for a request that is
  -- written, with another number than notifications have, on a map with no number twice.
  pub read_response-write_request :
      (c : ClientCodec) (seq : ℕ) (method : List ℕ) (param : Param) (fails : Bool)
      (sent_as : ClientRequest) (xs : List Call) (v : Json) (rest : List Json)
      (more : List (List Json)) (r : ClientResponse E)
      → IsUnique (c.pending)
      → seq ≢ seq_notify
      → (write_request seq method param fails c).1 ≡ written sent_as
      → Leaves seq xs
      → unmarshal_response decode_error v ≡ some r
      → r.error ≡ none
      → r.id ≡ some seq
      → ((read_response_header decode_error
            ((v ∷ rest) ∷ more)
            (calls (writes seq method param fails ∷ xs) c)).1
          ≡ response method seq)
        × (GoMap.get seq (
              (read_response_header decode_error
                ((v ∷ rest) ∷ more)
                (calls (writes seq method param fails ∷ xs) c)).0.pending)
            ≡ none)
  read_response-write_request c seq method param fails q xs v rest more r u nn w out good fine id =
      let first = write-found seq method param fails c q u nn w in
      let d = (write_request seq method param fails c).0 in
      let kept = calls-Keeps xs d seq (first.0) out in
      rw (read-good v rest more r (calls xs d) good)
        (match-found r (calls xs d) seq method (kept.unique) (kept.found ∙ first.1) fine id)
