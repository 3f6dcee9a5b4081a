-- ===== src/Xdag/Connection/Reader.antt =====
-- StartReader of xdag/connect.go: the stream of the pool is cut into fields of 32 bytes. A field goes to the
-- channel jobNotify, in which the reader waits for room.
use xmrig2xdag.Common.{
  ℕ, zero, suc, ◌+◌, ◌≡◌, ◌<◌, refl, sym, ap, ◌∙◌, List, [], ◌∷◌, ◌++◌, Bool, true, false, leb, ltb,
  ◌==◌, if◌then◌else◌, length, length-append, take, drop, take-append, drop-append, All, arith,
}
use mathlib.Core.List.{append_assoc, append-nil}
use xmrig2xdag.Xdag.Connection.{Connection}

abbrev pub field_size : ℕ
field_size = 32

-- What ends the stream: its end, the deadline of 128 seconds, or another failure.
pub data Ending : Type 0 where
  eof timeout failure : Ending

-- The reader: the connection, the bytes that will come and what ends them, the fields that were passed on,
-- and the shared count PoolDown. It leaves for Stop.
pub record Reader : Type 0 where
  pub conn : Connection
  pub input : List ℕ
  pub ending : Ending
  pub notified : List (List ℕ)
  pub pool_down : ℕ
  pub reading : Bool

abbrev leave : Reader → Reader
leave r = record r { reading = false }

-- The error of io.ReadFull: an end within a field is not io.EOF.
unfoldable pub read_error : Reader → Reader
read_error r = elim (r.ending) [
  | eof ↦
      if length (r.input) == 0
      then leave (record r { conn = record r.conn { eof_count = r.conn.eof_count + 1 } })
      else leave r
  | timeout ↦ leave (record r { pool_down = r.pool_down + 1 })
  | failure ↦ leave r
]

-- A field that was read, which is passed on unless the connection is closed.
unfoldable pub pass_on : Reader → Reader
pass_on r =
    let rest = record r { input = drop field_size (r.input) } in
    if r.conn.is_closed
    then rest
    else record rest { notified = r.notified ++ take field_size (r.input) ∷ [] }

-- One round of StartReader.
unfoldable pub read_step : Reader → Reader
unfolding pass_on read_error
read_step r =
    if r.reading
    then (if ltb 0 (r.pool_down)
        then leave r
        else if r.conn.cancelled
        then leave r
        else if leb field_size (length (r.input))
        then pass_on r
        else read_error r)
    else r

abbrev pub read_steps : ℕ → Reader → Reader
read_steps zero r = r
read_steps (suc n) r = read_steps n (read_step r)

abbrev pub concat : List (List ℕ) → List ℕ
concat [] = []
concat (f ∷ fs) = f ++ concat fs

abbrev pub IsField : List ℕ → Type 0
IsField f = length f ≡ 32

-- A reader at work on a connection that nobody closes, while the pool is up.
abbrev pub reader : Connection → List ℕ → Ending → List (List ℕ) → Reader
reader conn input ending notified = record {
  conn = conn;
  input = input;
  ending = ending;
  notified = notified;
  pool_down = 0;
  reading = true;
}

module _ (conn : Connection) (alive : conn.is_closed ≡ false) (going : conn.cancelled ≡ false) where
  read_field :
      (f input : List ℕ) (ending : Ending) (seen : List (List ℕ))
      → IsField f
      → read_step (reader conn (f ++ input) ending seen) ≡ reader conn input ending (seen ++ f ∷ [])
  unfolding read_step pass_on
  read_field f input ending seen h =
      let enough : leb 32 (length (f ++ input)) ≡ true = ground (arith, length-append f input) in
      rw (going, read_step)
        (rw (enough, read_step)
          (rw (alive, pass_on) (rw (drop-append 32 f input h, take-append 32 f input h) refl)))

  read_last :
      (tail : List ℕ) (ending : Ending) (seen : List (List ℕ))
      → length tail < 32
      → read_step (reader conn tail ending seen) ≡ read_error (reader conn tail ending seen)
  unfolding read_step
  read_last tail ending seen h =
      let short : leb 32 (length tail) ≡ false = ground arith in
      rw (going, read_step) (rw (short, read_step) refl)

  read_fields :
      (fs : List (List ℕ)) (tail : List ℕ) (ending : Ending) (seen : List (List ℕ))
      → All IsField fs
      → length tail < 32
      → read_steps (suc (length fs)) (reader conn (concat fs ++ tail) ending seen)
        ≡ read_error (reader conn tail ending (seen ++ fs))
  read_fields [] tail ending seen hf ht =
      read_last tail ending seen ht
      ∙ ap (λ s. read_error (reader conn tail ending s)) (sym (append-nil seen))
  read_fields (f ∷ fs) tail ending seen hf ht =
      ap (λ i. read_steps (suc (length fs)) (read_step (reader conn i ending seen)))
        (append_assoc f (concat fs) tail)
      ∙ ap (read_steps (suc (length fs))) (read_field f (concat fs ++ tail) ending seen (hf.0))
      ∙ read_fields fs tail ending (seen ++ f ∷ []) (hf.1) ht
      ∙ ap (λ s. read_error (reader conn tail ending s)) (append_assoc seen (f ∷ []) fs)

-- What the end of a stream leaves, behind a field that is not complete.
abbrev pub Ended : Connection → List (List ℕ) → List ℕ → Ending → Reader → Type 0
Ended conn fs tail ending r =
    (r.notified ≡ fs)
    × (r.reading ≡ false)
    × (r.conn.eof_count ≡ conn.eof_count + eofs tail ending)
    × (r.pool_down ≡ timeouts ending)
  where
    eofs : List ℕ → Ending → ℕ
    eofs [] eof = 1
    eofs [] timeout = 0
    eofs [] failure = 0
    eofs (_ ∷ _) _ = 0

    timeouts : Ending → ℕ
    timeouts timeout = 1
    timeouts eof = 0
    timeouts failure = 0

error-Ended :
    (conn : Connection) (fs : List (List ℕ)) (tail : List ℕ) (ending : Ending)
    → Ended conn fs tail ending (read_error (reader conn tail ending fs))
unfolding read_error
error-Ended conn fs [] eof = (refl, refl, refl, refl)
error-Ended conn fs [] timeout = (refl, refl, omega arith, omega arith)
error-Ended conn fs [] failure = (refl, refl, omega arith, refl)
error-Ended conn fs (x ∷ tail) eof = ground arith
error-Ended conn fs (x ∷ tail) timeout = (refl, refl, omega arith, omega arith)
error-Ended conn fs (x ∷ tail) failure = (refl, refl, omega arith, refl)

-- While nobody closes the connection and the pool is up, a stream of whole fields, and less than one more,
-- is passed on field by field, in order and with nothing lost but the last part. The rounds are one more
-- than the fields, and the last one ends the reader. An end is counted if it comes right behind a field,
-- and the pool as down if the deadline passes.
pub read_steps-Ended :
    (conn : Connection) (fs : List (List ℕ)) (tail : List ℕ) (ending : Ending)
    → conn.is_closed ≡ false
    → conn.cancelled ≡ false
    → All IsField fs
    → length tail < 32
    → Ended conn fs tail ending
        (read_steps (suc (length fs)) (reader conn (concat fs ++ tail) ending []))
read_steps-Ended conn fs tail ending alive going hf ht =
    rw (read_fields conn alive going fs tail ending [] hf ht) (error-Ended conn fs tail ending)
