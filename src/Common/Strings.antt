-- ===== src/Common/Strings.antt =====
-- Texts as lists of bytes, and the parts of Go's slices: `copy`, slicing, `strings.HasPrefix`.
use Prim.Native.Char.{code}
use Prim.Native.String.{String}
use Prim.Native.Nat.{ℕ, suc, ◌+◌, ◌-◌, ◌≤◌}
use mathlib.Core.Path.{◌≡◌, refl, sym, ap, ◌∙◌}
use mathlib.Core.Bool.{Bool, true, false, ◌&&◌}
use mathlib.Core.List.{List, [], ◌∷◌, ◌++◌, append_assoc, append-nil}
use native.Mathlib.Omega.{arith}
use xmrig2xdag.Common.Lists.{
  length, take, drop, length-take, length-drop, length-append, take-append, drop_all,
}
use xmrig2xdag.Common.Tests.{◌==◌}

-- The bytes of an ASCII text.
abbrev pub codes : String → List ℕ
codes String.[] = []
codes (String.◌∷◌ c s) = code c ∷ codes s

abbrev pub has_prefix : List ℕ → List ℕ → Bool
has_prefix s [] = true
has_prefix [] (p ∷ ps) = false
has_prefix (c ∷ s) (p ∷ ps) = (c == p) && has_prefix s ps

-- `s[from:to]`, for bounds that hold.
abbrev pub slice : List ℕ → ℕ → ℕ → List ℕ
slice s from to = take (to - from) (drop from s)

-- `copy(dst, src)`: as many elements as both have.
abbrev pub copy : List ℕ → List ℕ → List ℕ
copy [] src = []
copy (d ∷ dst) [] = d ∷ dst
copy (d ∷ dst) (s ∷ src) = s ∷ copy dst src

-- `copy(dst[from:to], src)`
abbrev pub copy_at : List ℕ → ℕ → ℕ → List ℕ → List ℕ
copy_at dst from to src = take from dst ++ (copy (slice dst from to) src ++ drop to dst)

pub copy_all : (dst src : List ℕ) → length dst ≡ length src → copy dst src ≡ src
copy_all [] [] h = refl
copy_all [] (s ∷ src) h = absurd (omega arith)
copy_all (d ∷ dst) [] h = absurd (omega arith)
copy_all (d ∷ dst) (s ∷ src) h = ap (λ l. s ∷ l) (copy_all dst src (omega arith))

pub length-copy : (dst src : List ℕ) → length (copy dst src) ≡ length dst
length-copy [] src = refl
length-copy (d ∷ dst) [] = refl
length-copy (d ∷ dst) (s ∷ src) = ap suc (length-copy dst src)

-- A part that is written whole.
pub copy_at_all :
    (dst : List ℕ) (from to : ℕ) (src : List ℕ)
    → from + length src ≡ to
    → to ≤ length dst
    → copy_at dst from to src ≡ take from dst ++ (src ++ drop to dst)
copy_at_all dst from to src h le =
    ap (λ l. take from dst ++ (l ++ drop to dst))
      (copy_all (slice dst from to) src
        (length-take (to - from) (drop from dst) ∙ omega (arith, length-drop from dst)))

-- A suffix that is written whole.
pub copy_at-suffix :
    (l r src : List ℕ) (from to : ℕ)
    → length l ≡ from
    → from + length src ≡ to
    → length r ≡ length src
    → copy_at (l ++ r) from to src ≡ l ++ src
copy_at-suffix l r src from to hl ht hr =
    copy_at_all (l ++ r) from to src ht (omega (arith, length-append l r))
    ∙ rw (take-append from l r hl, drop_all to (l ++ r) (omega (arith, length-append l r)))
        (ap (λ t. l ++ t) (append-nil src))

-- Two parts that are written one behind the other, up to the end.
pub copy_at-twice :
    (dst a b : List ℕ) (from mid to : ℕ)
    → from + length a ≡ mid
    → mid + length b ≡ to
    → length dst ≡ to
    → copy_at (copy_at dst from mid a) mid to b ≡ take from dst ++ (a ++ b)
copy_at-twice dst a b from mid to ha hb hd =
    ap (λ l. copy_at l mid to b)
      (copy_at_all dst from mid a ha (omega arith)
        ∙ sym (append_assoc (take from dst) a (drop mid dst)))
    ∙ copy_at-suffix (take from dst ++ a) (drop mid dst) b mid to
        (omega (arith, length-append (take from dst) a, length-take from dst)) hb
        (omega (arith, length-drop mid dst))
    ∙ append_assoc (take from dst) a b

pub length-copy_at :
    (dst : List ℕ) (from to : ℕ) (src : List ℕ)
    → from ≤ to
    → to ≤ length dst
    → length (copy_at dst from to src) ≡ length dst
length-copy_at dst from to src le room = omega (
  arith,
  length-append (take from dst) (copy (slice dst from to) src ++ drop to dst),
  length-append (copy (slice dst from to) src) (drop to dst),
  length-copy (slice dst from to) src,
  length-take from dst,
  length-drop to dst,
  length-take (to - from) (drop from dst),
  length-drop from dst,
)
