-- ===== src/Xdag/Connection/Order.antt =====
-- What xdag/connect.go keeps in every order of steps: messages go over the socket in the order in which they
-- were put into the channel, and no step panics.
use xmrig2xdag.Common.{
  ℕ, suc, ◌≡◌, ◌⊎◌, ◌≤◌, ◌<◌, refl, sym, ap, ap₂, ◌∙◌, List, [], ◌∷◌, ◌++◌, Option, none, some,
  Bool, true, false, not, ◌&&◌, ◌||◌, leb, ltb, if◌then◌else◌, length, length-append, Bool-cases,
  Option-cases, inl, inr, arith,
}
use mathlib.Core.List.{append_assoc, append-nil}
use xmrig2xdag.Xdag.Connection.{
  Connection, new_connection, Outcome, is_some, send_buff_msg, stop, take_first, leave,
  select_message, write, Step, sends, selects, writes, stops, step, run, buffer_size,
}

abbrev pub flight : Option (List ℕ) → List (List ℕ)
flight none = []
flight (some m) = m ∷ []

-- The socket has the messages `accepted`, but for one at most that was lost, and for those in the channel.
-- While the writer runs, the one is the message that it has taken.
pub record IsOrdered (c : Connection) (accepted : List (List ℕ)) : Type 0 where
  pub lost : List (List ℕ)
  pub ordered : c.written ++ (lost ++ c.buffer) ≡ accepted
  pub one : length lost ≤ 1
  pub live : c.writing ≡ true → lost ≡ flight (c.in_flight)
  pub room : length (c.buffer) ≤ 8
  pub same : c.is_closed ≡ c.chan_closed

push {ℓ} :
    {A : Type ℓ} (a l b x acc : List A) → a ++ (l ++ b) ≡ acc → a ++ (l ++ (b ++ x)) ≡ acc ++ x
push a l b x acc e =
    ap (λ t. a ++ t) (sym (append_assoc l b x))
    ∙ sym (append_assoc a (l ++ b) x)
    ∙ ap (λ t. t ++ x) e

-- What a step leaves.
abbrev Goes : Outcome → List (List ℕ) → Type 0
Goes o acc =
    (d : Connection) × (out : List (List ℕ)) × (o ≡ some (d, out)) × IsOrdered d (acc ++ out)

stays : (c : Connection) (acc : List (List ℕ)) → IsOrdered c acc → IsOrdered c (acc ++ [])
stays c acc h = rw (append-nil acc) h

send-Goes :
    (m : List ℕ) (c : Connection) (acc : List (List ℕ))
    → IsOrdered c acc
    → Goes (send_buff_msg m c) acc
unfolding send_buff_msg
send-Goes m c acc h = elim (Bool-cases (c.is_closed || is_some (c.waiting))) [
  | inl e ↦ (c, [], rw (e, send_buff_msg) refl, stays c acc h)
  | inr e ↦
      let open_chan : c.chan_closed ≡ false = ground (arith, h.same) in
      elim (Bool-cases (leb buffer_size (length (c.buffer)))) [
        | inl full ↦ (
          record c { waiting = some m },
          [],
          rw (e, send_buff_msg) (rw open_chan (rw full refl)),
          stays (record c { waiting = some m }) acc
              (record {
                lost = h.lost;
                ordered = h.ordered;
                one = h.one;
                live = h.live;
                room = h.room;
                same = h.same;
              }),
        )
        | inr free ↦ (
          record c { buffer = c.buffer ++ m ∷ [] },
          m ∷ [],
          rw (e, send_buff_msg) (rw open_chan (rw free refl)),
          record {
            lost = h.lost;
            ordered = push (c.written) (h.lost) (c.buffer) (m ∷ []) acc (h.ordered);
            one = h.one;
            live = h.live;
            room = omega (arith, length-append (c.buffer) (m ∷ []), below (length (c.buffer)) free);
            same = h.same;
          },
        )
      ]
]
  where
    below : (n : ℕ) → leb 8 n ≡ false → n < 8
    below n e = ground arith

stop-Goes : (c : Connection) (acc : List (List ℕ)) → IsOrdered c acc → Goes (stop c) acc
unfolding stop
stop-Goes c acc h = elim (Bool-cases (is_some (c.waiting) || c.is_closed)) [
  | inl e ↦ (c, [], rw (e, stop) refl, stays c acc h)
  | inr e ↦
      let open_chan : c.chan_closed ≡ false = ground (arith, h.same) in
      (
        record c { is_closed = true; cancelled = true; chan_closed = true },
        [],
        rw (e, stop) (rw open_chan refl),
        stays (record c { is_closed = true; cancelled = true; chan_closed = true }) acc
            (record {
              lost = h.lost;
              ordered = h.ordered;
              one = h.one;
              live = h.live;
              room = h.room;
              same = refl;
            }),
      )
]

leave-IsOrdered :
    (c : Connection) (acc : List (List ℕ)) → IsOrdered c acc → IsOrdered (leave c) (acc ++ [])
leave-IsOrdered c acc h = stays (leave c) acc (record {
  lost = h.lost;
  ordered = h.ordered;
  one = h.one;
  live = λ bad. cc;
  room = h.room;
  same = h.same;
})

-- The first message goes from the channel to the writer, and one that waits goes behind the rest.
module _ (m : List ℕ) (rest : List (List ℕ)) (c : Connection) (acc : List (List ℕ)) where
  first_taken :
      (h : IsOrdered c acc)
      → c.buffer ≡ m ∷ rest
      → h.lost ≡ []
      → c.written ++ (m ∷ [] ++ rest) ≡ acc
  first_taken h b l = ap₂ (λ t u. c.written ++ (t ++ u)) (sym l) (sym b) ∙ h.ordered

  take_first-IsOrdered :
      IsOrdered c acc
      → c.buffer ≡ m ∷ rest
      → c.writing ≡ true
      → c.in_flight ≡ none
      → IsOrdered ((take_first m rest c).0) (acc ++ (take_first m rest c).1)
  unfolding take_first
  take_first-IsOrdered h b w f =
      let l : h.lost ≡ [] = h.live w ∙ ap flight f in
      let fits : suc (length rest) ≤ 8 = omega (arith, h.room, ap length b) in
      elim (Option-cases (c.waiting)) [
        | inl e ↦
            rw (e, take_first)
              (stays (record c { in_flight = some m; buffer = rest }) acc
                (record {
                  lost = m ∷ [];
                  ordered = first_taken h b l;
                  one = omega arith;
                  live = λ _. refl;
                  room = omega arith;
                  same = h.same;
                }))
        | inr (x, e) ↦
            rw (e, take_first)
              (record {
                lost = m ∷ [];
                ordered = push (c.written) (m ∷ []) rest (x ∷ []) acc (first_taken h b l);
                one = omega arith;
                live = λ _. refl;
                room = omega (arith, length-append rest (x ∷ []));
                same = h.same;
              })
      ]

select-IsOrdered :
    (pool_down : ℕ) (done_first : Bool) (c : Connection) (acc : List (List ℕ))
    → IsOrdered c acc
    → c.writing ≡ true
    → c.in_flight ≡ none
    → IsOrdered
        ((select_message pool_down done_first c).0)
        (acc ++ (select_message pool_down done_first c).1)
unfolding select_message
select-IsOrdered n d c acc h w f = elim (Bool-cases (ltb 0 n || (c.cancelled && d))) [
  | inl e ↦ rw (e, select_message) (leave-IsOrdered c acc h)
  | inr e ↦ elim (List-cases (c.buffer)) [
    | inl nothing ↦ elim (Bool-cases (c.cancelled && not (c.chan_closed))) [
      | inl over ↦
          rw (e, select_message) (rw (nothing, select_message) (rw over (leave-IsOrdered c acc h)))
      | inr goes_on ↦
          rw (e, select_message) (rw (nothing, select_message) (rw goes_on (stays c acc h)))
    ]
    | inr (m, rest, b) ↦
        rw (e, select_message) (rw (b, select_message) (take_first-IsOrdered m rest c acc h b w f))
  ]
]
  where
    List-cases :
        (l : List (List ℕ)) → (l ≡ []) ⊎ ((m : List ℕ) × (rest : List (List ℕ)) × (l ≡ m ∷ rest))
    List-cases [] = inl refl
    List-cases (m ∷ rest) = inr (m, rest, refl)

write-IsOrdered :
    (fails : Bool) (m : List ℕ) (c : Connection) (acc : List (List ℕ))
    → IsOrdered c acc
    → c.writing ≡ true
    → c.in_flight ≡ some m
    → IsOrdered (write fails m c) (acc ++ [])
unfolding write
write-IsOrdered fails m c acc h w f =
    let l : h.lost ≡ m ∷ [] = h.live w ∙ ap flight f in
    let all : c.written ++ (m ∷ c.buffer) ≡ acc =
      ap (λ t. c.written ++ (t ++ c.buffer)) (sym l) ∙ h.ordered in
    elim (Bool-cases (fails || c.is_closed)) [
      | inl e ↦
          rw (e, write)
            (stays (record c { in_flight = none; writing = false }) acc
              (record {
                lost = m ∷ [];
                ordered = all;
                one = omega arith;
                live = λ bad. cc;
                room = h.room;
                same = h.same;
              }))
      | inr e ↦
          rw (e, write)
            (stays (record c { in_flight = none; written = c.written ++ m ∷ [] }) acc
              (record {
                lost = [];
                ordered = append_assoc (c.written) (m ∷ []) (c.buffer) ∙ all;
                one = omega arith;
                live = λ _. refl;
                room = h.room;
                same = h.same;
              }))
    ]

write-Goes :
    (fails : Bool) (c : Connection) (acc : List (List ℕ))
    → IsOrdered c acc
    → Goes (step (writes fails) c) acc
unfolding step
write-Goes fails c acc h = elim (Option-cases (c.in_flight)) [
  | inl e ↦ (c, [], ap then_write e, stays c acc h)
  | inr (m, e) ↦ elim (Bool-cases (c.writing)) [
    | inl w ↦ (
      write fails m c,
      [],
      ap then_write e ∙ ap (λ b. if b then some (write fails m c, []) else some (c, [])) w,
      write-IsOrdered fails m c acc h w e,
    )
    | inr w ↦ (
      c,
      [],
      ap then_write e ∙ ap (λ b. if b then some (write fails m c, []) else some (c, [])) w,
      stays c acc h,
    )
  ]
]
  where
    then_write : Option (List ℕ) → Outcome
    then_write none = some (c, [])
    then_write (some m) = if c.writing then some (write fails m c, []) else some (c, [])

step-Goes :
    (s : Step) (c : Connection) (acc : List (List ℕ)) → IsOrdered c acc → Goes (step s c) acc
unfolding step
step-Goes (sends m) c acc h = send-Goes m c acc h
step-Goes stops c acc h = stop-Goes c acc h
step-Goes (selects n d) c acc h = elim (Bool-cases (c.writing && not (is_some (c.in_flight)))) [
  | inl e ↦ (
    (select_message n d c).0,
    (select_message n d c).1,
    rw (e, step) refl,
    select-IsOrdered n d c acc h (ground arith) (ground arith),
  )
  | inr e ↦ (c, [], rw (e, step) refl, stays c acc h)
]
step-Goes (writes fails) c acc h = write-Goes fails c acc h

run-Goes :
    (ss : List Step) (c : Connection) (acc : List (List ℕ)) → IsOrdered c acc → Goes (run ss c) acc
unfolding run
run-Goes [] c acc h = (c, [], refl, stays c acc h)
run-Goes (s ∷ ss) c acc h =
    let (d, out, e, hd) = step-Goes s c acc h in
    let (f, more, e', hf) = run-Goes ss d (acc ++ out) hd in
    (f, out ++ more, rw (e, run) (rw (e', run) refl), rw (sym (append_assoc acc out more)) hf)

-- In every order of steps of a new connection, nothing panics: no message is sent on a closed channel, and
-- no channel is closed twice. What the socket has are the messages that were put into the channel, in their
-- order, but for those still in it, eight at most, and one before them at most; while the writer runs, that
-- one is in its hands.
pub run-IsOrdered :
    (conn_id : ℕ) (ss : List Step)
    → (c : Connection) × (accepted : List (List ℕ)) × (run ss (new_connection conn_id)
        ≡ some (c, accepted))
      × IsOrdered c accepted
unfolding new_connection
run-IsOrdered conn_id ss = run-Goes ss (new_connection conn_id) [] (record {
  lost = [];
  ordered = refl;
  one = omega arith;
  live = λ _. refl;
  room = omega arith;
  same = refl;
})
