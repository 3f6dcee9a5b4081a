-- ===== src/Proxy/Naming.antt =====
-- proxy/uniuri.go: random names. The random bytes are an argument, read by read.
mod Tests
use xmrig2xdag.Common.{
  ℕ, zero, suc, ◌+◌, ◌-◌, ◌*◌, ◌/◌, ◌%◌, ◌≡◌, ◌<◌, ◌≤◌, refl, sym, ap, ◌∙◌, List, [], ◌∷◌, ◌++◌,
  All, All-append, IsByte, Option, none, some, ◌↔◌, inl, inr, false, Bool-cases, ◌||◌, ◌==◌, ==_iff,
  ltb, if◌then◌else◌, codes, length, length-append, get_or, arith,
}
use xmrig2xdag.Common.Options.{◌>>=◌}
use native.Mathlib.Nat.{
  mod-add-div, mod-lt, div-lt_iff_lt-mul, mul_comm, add-mul-mod_self_left, mod-eq_of_lt,
  div-eq_of_lt, add-mul-div_left,
}

abbrev pub std_chars : List ℕ
std_chars = codes "ABCDEFGHIJKLMNOPQRSTUVWXYZabcdefghijklmnopqrstuvwxyz0123456789"

-- `maxrb := 255 - (256 % clen)`
abbrev pub max_byte : ℕ → ℕ
max_byte clen = 255 - 256 % clen

-- The loop over the bytes of one read: the characters written, and how many are still to be written of
-- the `n` that were.
unfoldable pub fill : List ℕ → ℕ → List ℕ → List ℕ × ℕ
fill chars zero r = ([], 0)
fill chars (suc n) [] = ([], suc n)
fill chars (suc n) (c ∷ r) =
    let skipped = fill chars (suc n) r in
    let rest = fill chars n r in
    if ltb (max_byte (length chars)) c
    then skipped
    else (get_or chars (c % length chars) 0 ∷ rest.0, rest.1)

-- The outer loop; `none` when it asks for more reads than there are.
unfoldable pub read_loop : List ℕ → ℕ → List (List ℕ) → Option (List ℕ)
read_loop chars n [] = none
read_loop chars n (r ∷ rs) =
    let (b, left) = fill chars n r in
    let rest = read_loop chars left rs in
    if left == 0 then some b else rest >>= (λ more. some (b ++ more))

pub data Name : Type 0 where
  name : List ℕ → Name
  wrong_charset out_of_reads : Name

-- NewLenChars
unfoldable pub new_len_chars : ℕ → List ℕ → List (List ℕ) → Name
new_len_chars n chars reads =
    let clen = length chars in
    if n == 0
    then name []
    else if ltb clen 2 || ltb 256 clen
    then wrong_charset
    else elim (read_loop chars n reads) [ none ↦ out_of_reads | some b ↦ name b ]

-- NewLen
unfoldable pub new_len : ℕ → List (List ℕ) → Name
unfolding new_len_chars
new_len n reads = new_len_chars n std_chars reads

-- How many bytes the code does not skip.
abbrev pub usable : ℕ → List ℕ → ℕ
usable clen [] = 0
usable clen (c ∷ r) = if ltb (max_byte clen) c then usable clen r else suc (usable clen r)

abbrev pub usable_all : ℕ → List (List ℕ) → ℕ
usable_all clen [] = 0
usable_all clen (r ∷ rs) = usable clen r + usable_all clen rs

-- A character of the charset, by its place.
abbrev pub IsCharOf : List ℕ → ℕ → Type 0
IsCharOf chars c = (i : ℕ) × (i < length chars) × (c ≡ get_or chars i 0)

fill-left :
    (chars : List ℕ) (n : ℕ) (r : List ℕ)
    → 0 < length chars
    → ((fill chars n r).1 ≡ n - usable (length chars) r)
      × (length ((fill chars n r).0) + (fill chars n r).1 ≡ n)
      × All (IsCharOf chars) ((fill chars n r).0)
unfolding fill
fill-left chars zero r h = (omega arith, refl, tt)
fill-left chars (suc n) [] h = (omega arith, omega arith, tt)
fill-left chars (suc n) (c ∷ r) h = elim (Bool-cases (ltb (max_byte (length chars)) c)) [
  | inl skip ↦ rw (skip, fill) (fill-left chars (suc n) r h)
  | inr use_it ↦
      let (left, all, chosen) = fill-left chars n r h in
      rw (use_it, fill)
        (omega (arith, left), omega (arith, all), ((c % length chars, mod-lt c h, refl), chosen))
]

-- A byte below 256 is used, and picks the character at place `i`, exactly if it is one of the `256 / clen`
-- numbers `i`, `i + clen`, `i + 2 * clen`, and so on: no character is likelier than another.
pub usable-fair :
    (clen i c : ℕ)
    → 2 ≤ clen
    → clen ≤ 256
    → i < clen
    → IsByte c
    → ((c ≤ max_byte clen) × (c % clen ≡ i)) ↔ ((q : ℕ) × (q < 256 / clen) × (c ≡ i + clen * q))
usable-fair clen i c h2 h256 hi hc = (
  λ (used, place). (
    c / clen,
    (div-lt_iff_lt-mul (omega arith)).1
        (omega (arith, used, parts 256, mul_comm clen (256 / clen))),
    sym (parts c) ∙ ap (λ m. m + clen * (c / clen)) place,
  ),
  λ (q, below, e).
      let quotient =
        ap (λ m. m / clen) e
        ∙ add-mul-div_left i q (omega arith)
        ∙ ap (λ m. m + q) (div-eq_of_lt hi) in
      let in_range =
        (div-lt_iff_lt-mul {k = clen} {x = c} {y = 256 / clen} (omega arith)).0
          (omega (arith, quotient, below)) in
      (
        omega (arith, in_range, parts 256, mul_comm clen (256 / clen)),
        ap (λ m. m % clen) e ∙ add-mul-mod_self_left i clen q ∙ mod-eq_of_lt hi,
      ),
)
  where
    parts : (n : ℕ) → n % clen + clen * (n / clen) ≡ n
    parts n = mod-add-div n clen

read_loop-returns :
    (chars : List ℕ) (n : ℕ) (reads : List (List ℕ))
    → 0 < length chars
    → 0 < n
    → n ≤ usable_all (length chars) reads
    → (b : List ℕ) × (read_loop chars n reads ≡ some b) × (length b ≡ n) × All (IsCharOf chars) b
unfolding read_loop
read_loop-returns chars n [] h hn enough = absurd (omega arith)
read_loop-returns chars n (r ∷ rs) h hn enough =
    let (left, all, chosen) = fill-left chars n r h in
    elim (Bool-cases ((fill chars n r).1 == 0)) [
      | inl full ↦
          rw (full, read_loop)
            ((fill chars n r).0, refl, omega (arith, all, (==_iff _ _).0 full), chosen)
      | inr open_end ↦
          let (b, e, hb, more) =
            read_loop-returns chars ((fill chars n r).1) rs h (not_zero _ open_end)
              (omega (arith, left)) in
          rw (open_end, e, read_loop)
            (
              (fill chars n r).0 ++ b,
              refl,
              omega (arith, length-append ((fill chars n r).0) b, hb, all),
              All-append (IsCharOf chars) ((fill chars n r).0) b chosen more,
            )
    ]
  where
    not_zero : (m : ℕ) → (m == 0) ≡ false → 0 < m
    not_zero m e = ground arith

-- NewLenChars gives a name of the length asked for, out of the characters of the charset, as soon as the
-- reads have as many bytes that are not skipped; the charset has from 2 to 256 characters.
pub new_len_chars-returns :
    (n : ℕ) (chars : List ℕ) (reads : List (List ℕ))
    → 2 ≤ length chars
    → length chars ≤ 256
    → 0 < n
    → n ≤ usable_all (length chars) reads
    → (b : List ℕ) × (new_len_chars n chars reads ≡ name b)
      × (length b ≡ n)
      × All (IsCharOf chars) b
unfolding new_len_chars
new_len_chars-returns n chars reads h2 h256 hn enough =
    let (b, e, hb, chosen) = read_loop-returns chars n reads (omega arith) hn enough in
    rw (asked n hn, good_charset (length chars) h2 h256, e, new_len_chars) (b, refl, hb, chosen)
  where
    asked : (m : ℕ) → 0 < m → (m == 0) ≡ false
    asked m h = ground arith

    good_charset : (m : ℕ) → 2 ≤ m → m ≤ 256 → (ltb m 2 || ltb 256 m) ≡ false
    good_charset m h k = ground arith
