-- ===== src/Stratum/Codec/Pending.antt =====
-- The map of pending requests in stratum/codec.go: every response finds the id of its request.
use xmrig2xdag.Common.{
  ℕ, suc, ◌+◌, ◌%◌, ◌^◌, ◌≡◌, ◌≢◌, ◌<◌, ◌≤◌, refl, ap, ◌∙◌, List, [], ◌∷◌, ◌++◌, Option, none, some,
  Option-cases, inl, inr, arith,
}
use xmrig2xdag.SafeMap
use xmrig2xdag.SafeMap.{SafeMap, IsWellFormed}
use xmrig2xdag.SafeMap.Lookup.{set-IsWellFormed, del-IsWellFormed, get-set, get-del}
use xmrig2xdag.Stratum.Json.{Json}
use xmrig2xdag.Stratum.Request.{ServerRequest, unmarshal_request}
use xmrig2xdag.Stratum.Codec.{
  DefaultServerCodec, raw_message, read_request_header, write_response, Outcome, encoded,
  invalid_sequence, response, header, service_method,
}

-- What net/rpc does with a codec, in any order.
pub data Call : Type 0 where
  reads : Option Json → Call
  writes : ℕ → Outcome → Call

module _ (upper : ℕ → ℕ) where
  abbrev pub call : Call → DefaultServerCodec → DefaultServerCodec
  call (reads v) c = (read_request_header upper v c).0
  call (writes seq outcome) c = (write_response seq outcome c).0

  abbrev pub calls : List Call → DefaultServerCodec → DefaultServerCodec
  calls [] c = c
  calls (x ∷ xs) c = calls xs (call x c)

-- No response to the request `n` is among the calls.
abbrev pub Leaves : ℕ → List Call → Type 0
Leaves n [] = Unit
Leaves n (reads _ ∷ xs) = Leaves n xs
Leaves n (writes seq _ ∷ xs) = (seq ≢ n) × Leaves n xs

abbrev pub count_reads : List Call → ℕ
count_reads [] = 0
count_reads (reads _ ∷ xs) = suc (count_reads xs)
count_reads (writes _ _ ∷ xs) = count_reads xs

write-found :
    (c : DefaultServerCodec) (seq : ℕ) (outcome : Outcome) (id : Option Json)
    → SafeMap.get (c.pending) seq ≡ some (raw_message id)
    → write_response seq outcome c
      ≡ (record c { pending = SafeMap.del (c.pending) seq }, encoded (response id outcome))
unfolding write_response
write-found c seq outcome id h = rw (h, write_response) refl

write-missing :
    (c : DefaultServerCodec) (seq : ℕ) (outcome : Outcome)
    → SafeMap.get (c.pending) seq ≡ none
    → write_response seq outcome c ≡ (c, invalid_sequence)
unfolding write_response
write-missing c seq outcome h = rw (h, write_response) refl

module _ (upper : ℕ → ℕ) where
  -- A request that is read takes the next number.
  abbrev pub next_seq : DefaultServerCodec → ℕ
  next_seq c = (c.seq + 1) % 2 ^ 64

  pub read-accepted :
      (c : DefaultServerCodec) (v : Json) (r : ServerRequest)
      → unmarshal_request v ≡ some r
      → read_request_header upper (some v) c ≡ (
        record {
          req = record r { id = none };
          seq = next_seq c;
          pending = SafeMap.set (c.pending) (next_seq c) (raw_message (r.id));
        },
        [],
        header (service_method upper (r.method)) (next_seq c),
      )
  unfolding read_request_header
  read-accepted c v r h = rw (h, read_request_header) refl

  read-refused :
      (c : DefaultServerCodec) (v : Json)
      → unmarshal_request v ≡ none
      → (read_request_header upper (some v) c).0 ≡ c
  unfolding read_request_header
  read-refused c v h = rw (h, read_request_header) refl

  -- What every call keeps: the map is well formed, and the number goes up by one at most.
  record Keeps (c d : DefaultServerCodec) (n : ℕ) (steps : ℕ) : Type 0 where
    whole : IsWellFormed (d.pending)
    above : c.seq ≤ d.seq
    below : d.seq ≤ c.seq + steps
    found : SafeMap.get (d.pending) n ≡ SafeMap.get (c.pending) n

  read-Keeps :
      (v : Option Json) (c : DefaultServerCodec) (n : ℕ)
      → IsWellFormed (c.pending)
      → n ≤ c.seq
      → c.seq + 1 < 2 ^ 64
      → Keeps c ((read_request_header upper v c).0) n 1
  unfolding read_request_header
  read-Keeps none c n w le room = record {
    whole = w;
    above = omega arith;
    below = omega arith;
    found = refl;
  }
  read-Keeps (some v) c n w le room = elim (Option-cases (unmarshal_request v)) [
    | inl bad ↦
        rw (read-refused c v bad)
          (record { whole = w; above = omega arith; below = omega arith; found = refl })
    | inr (r, good) ↦ rw (read-accepted c v r good) (record {
      whole = set-IsWellFormed (c.pending) (next_seq c) (raw_message (r.id)) w;
      above = omega arith;
      below = omega arith;
      found = get-set (c.pending) (next_seq c) n (raw_message (r.id)) w ∙ ground arith;
    })
  ]

  write-Keeps :
      (seq : ℕ) (outcome : Outcome) (c : DefaultServerCodec) (n : ℕ)
      → IsWellFormed (c.pending)
      → seq ≢ n
      → Keeps c ((write_response seq outcome c).0) n 0
  unfolding write_response
  write-Keeps seq outcome c n w ne = elim (Option-cases (SafeMap.get (c.pending) seq)) [
    | inl e ↦
        rw (e, write_response)
          (record { whole = w; above = omega arith; below = omega arith; found = refl })
    | inr (b, e) ↦
        rw (e, write_response)
          (record {
            whole = del-IsWellFormed (c.pending) seq w;
            above = omega arith;
            below = omega arith;
            found = get-del (c.pending) seq n w ∙ ground arith;
          })
  ]

  calls-Keeps :
      (xs : List Call) (c : DefaultServerCodec) (n : ℕ)
      → IsWellFormed (c.pending)
      → n ≤ c.seq
      → c.seq + count_reads xs < 2 ^ 64
      → Leaves n xs
      → Keeps c (calls upper xs c) n (count_reads xs)
  calls-Keeps [] c n w le room out = record {
    whole = w;
    above = omega arith;
    below = omega arith;
    found = refl;
  }
  calls-Keeps (reads v ∷ xs) c n w le room out =
      let one = read-Keeps v c n w le (omega arith) in
      let rest =
        calls-Keeps xs ((read_request_header upper v c).0) n (one.whole) (omega (arith, one.above))
          (omega (arith, one.below)) out in
      record {
        whole = rest.whole;
        above = omega (arith, one.above, rest.above);
        below = omega (arith, one.below, rest.below);
        found = rest.found ∙ one.found;
      }
  calls-Keeps (writes seq outcome ∷ xs) c n w le room out =
      let one = write-Keeps seq outcome c n w (out.0) in
      let rest =
        calls-Keeps xs ((write_response seq outcome c).0) n (one.whole) (omega (arith, one.above))
          (omega (arith, one.below)) (out.1) in
      record {
        whole = rest.whole;
        above = omega (arith, one.above, rest.above);
        below = omega (arith, one.below, rest.below);
        found = rest.found ∙ one.found;
      }

  calls-last :
      (xs : List Call) (x : Call) (c : DefaultServerCodec)
      → calls upper (xs ++ x ∷ []) c ≡ call upper x (calls upper xs c)
  calls-last [] x c = refl
  calls-last (y ∷ xs) x c = calls-last xs x (call upper y c)

  -- What is left of a request in the map, right after it is read.
  read-found :
      (c : DefaultServerCodec) (v : Json) (r : ServerRequest)
      → IsWellFormed (c.pending)
      → unmarshal_request v ≡ some r
      → c.seq + 1 < 2 ^ 64
      → ((read_request_header upper (some v) c).0.seq ≡ c.seq + 1)
        × (SafeMap.get ((read_request_header upper (some v) c).0.pending) (c.seq + 1)
            ≡ some (raw_message (r.id)))
  read-found c v r w good room =
      let same : next_seq c ≡ c.seq + 1 = omega arith in
      rw (read-accepted c v r good) (
        same,
        rw same (get-set (c.pending) (c.seq + 1) (c.seq + 1) (raw_message (r.id)) w ∙ ground arith),
      )

  -- The response to a request carries the id of that request, whatever is read and answered in between,
  -- in whatever order, and a second response to it is refused: for a request that is accepted, on a codec
  -- whose map holds no number twice, as long as the numbers do not run out. An id that was left out is
  -- answered with null: notifications have a response too.
  pub write_response-read :
      (c : DefaultServerCodec) (v : Json) (r : ServerRequest) (xs : List Call)
      (outcome again : Outcome)
      → IsWellFormed (c.pending)
      → unmarshal_request v ≡ some r
      → Leaves (c.seq + 1) xs
      → c.seq + 1 + count_reads xs < 2 ^ 64
      → ((write_response (c.seq + 1) outcome (calls upper (reads (some v) ∷ xs) c)).1
          ≡ encoded (response (r.id) outcome))
        × ((write_response
              (c.seq + 1)
              again
              (calls upper (reads (some v) ∷ (xs ++ writes (c.seq + 1) outcome ∷ [])) c)).1
            ≡ invalid_sequence)
  write_response-read c v r xs outcome again w good out room =
      let d = (read_request_header upper (some v) c).0 in
      let (moved, there) = read-found c v r w good (omega arith) in
      let one = read-Keeps (some v) c 0 w (omega arith) (omega arith) in
      let kept =
        calls-Keeps xs d (c.seq + 1) (one.whole) (omega (arith, moved)) (omega (arith, moved))
          out in
      let e = calls upper xs d in
      let found = kept.found ∙ there in
      let answered = write-found e (c.seq + 1) outcome (r.id) found in
      let gone = get-del (e.pending) (c.seq + 1) (c.seq + 1) (kept.whole) ∙ ground arith in
      (
        ap (λ x. x.1) answered,
        ap (λ f. (write_response (c.seq + 1) again f).1)
              (calls-last (reads (some v) ∷ xs) (writes (c.seq + 1) outcome) c
                ∙ ap (λ x. x.0) answered)
            ∙ ap (λ x. x.1)
                (write-missing (record e { pending = SafeMap.del (e.pending) (c.seq + 1) })
                  (c.seq + 1) again gone),
      )
