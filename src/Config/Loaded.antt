-- ===== src/Config/Loaded.antt =====
-- What config/config.go makes of a file, field by field.
use xmrig2xdag.Common.{
  ℕ, ◌≡◌, refl, sym, ap, ap₂, ◌∙◌, List, [], ◌∷◌, Option, none, some, true, false, ◌&&◌,
  if◌then◌else◌, list_eq, list_eq→eq, Bool-cases, Option-cases, inl, inr, arith, All,
}
use xmrig2xdag.Common.Options.{◌>>=◌, >>=-eq-some, some-injective}
use xmrig2xdag.Stratum.Json.{Json, Members, as_map, fold}
use xmrig2xdag.Config.{
  Field, config, ConfigError, ok, err, set_default, set_defaults, set_value, set_field, matches,
  assign, assign_all, validate, check, load, config_from_file, is_empty_text, default_value,
  missing_value, bad_default, bad_json,
}

-- A field on its own: the members that name it are put into it, in the order of the file.
abbrev pub load_field : Members → Field → Option Field
load_field [] f = some f
load_field ((k, v) ∷ o) f =
    (if matches k f then set_field v f else some f) >>= (λ g. load_field o g)

-- The fields of two lists, one by one.
abbrev pub Each : (Field → Field → Type 0) → List Field → List Field → Type 0
Each P [] [] = Unit
Each P [] (_ ∷ _) = ⊥
Each P (_ ∷ _) [] = ⊥
Each P (f ∷ fs) (g ∷ gs) = P f g × Each P fs gs

-- No two fields have one name in the file.
abbrev pub Distinct : List Field → Type 0
Distinct [] = Unit
Distinct (f ∷ fs) = All (λ g. list_eq (f.json) (g.json) ≡ false) fs × Distinct fs

abbrev SameTag : Field → Field → Type 0
SameTag f g = f.json ≡ g.json

set_field-SameTag : (v : Json) (f g : Field) → set_field v f ≡ some g → SameTag f g
unfolding set_field
set_field-SameTag v f g h =
    let (w, _, e) = >>=-eq-some (set_value v (f.value)) _ h in ap (λ x. x.json) (some-injective e)

Each-refl : (P : Field → Field → Type 0) (fs : List Field) → All (λ f. P f f) fs → Each P fs fs
Each-refl P [] h = tt
Each-refl P (f ∷ fs) h = (h.0, Each-refl P fs (h.1))

-- One member, for one field.
abbrev Takes : List ℕ → Json → Field → Field → Type 0
Takes key v f g = (if matches key f then set_field v f else some f) ≡ some g

-- A key that one field matches is matched by none of another name.
others :
    (key : List ℕ) (f : Field) (fs : List Field)
    → matches key f ≡ true
    → All (λ g. list_eq (f.json) (g.json) ≡ false) fs
    → (v : Json) → All (λ g. Takes key v g g) fs
others key f [] m h v = tt
others key f (g ∷ fs) m h v = (
  ap (λ b. if b then set_field v g else some g)
      (ap (λ t. list_eq t (g.json)) (list_eq→eq (fold key) (f.json) m) ∙ h.0),
  others key f fs m (h.1) v,
)

assign-Each :
    (key : List ℕ) (v : Json) (fs gs : List Field)
    → Distinct fs
    → assign key v fs ≡ some gs
    → Each (Takes key v) fs gs
unfolding assign
assign-Each key v [] [] d h = tt
assign-Each key v [] (g ∷ gs) d h = absurd (let bad : [] ≡ g ∷ gs = some-injective h in cc)
assign-Each key v (f ∷ fs) gs d h = elim (Bool-cases (matches key f)) [
  | inl m ↦
      let (g, e, last) = >>=-eq-some (set_field v f) _ (rw (m, assign) at h) in
      rw (sym (some-injective last))
        (rw m e, Each-refl (Takes key v) fs (others key f fs m (d.0) v))
  | inr m ↦
      let (rest, e, last) = >>=-eq-some (assign key v fs) _ (rw (m, assign) at h) in
      rw (sym (some-injective last)) (rw m refl, assign-Each key v fs rest (d.1) e)
]

Takes-SameTag : (key : List ℕ) (v : Json) (f g : Field) → Takes key v f g → SameTag f g
Takes-SameTag key v f g h = elim (Bool-cases (matches key f)) [
  | inl m ↦ set_field-SameTag v f g (rw m at h)
  | inr m ↦ ap (λ x. x.json) (some-injective (rw m at h))
]

Each-map :
    (P Q : Field → Field → Type 0) (fs gs : List Field)
    → ((f g : Field) → P f g → Q f g)
    → Each P fs gs
    → Each Q fs gs
Each-map P Q [] [] s h = tt
Each-map P Q [] (g ∷ gs) s h = h
Each-map P Q (f ∷ fs) [] s h = h
Each-map P Q (f ∷ fs) (g ∷ gs) s h = (s f g (h.0), Each-map P Q fs gs s (h.1))

Each-compose :
    (P Q R : Field → Field → Type 0) (fs gs hs : List Field)
    → ((f g h : Field) → P f g → Q g h → R f h)
    → Each P fs gs
    → Each Q gs hs
    → Each R fs hs
Each-compose P Q R [] [] [] s p q = tt
Each-compose P Q R [] [] (h ∷ hs) s p q = q
Each-compose P Q R [] (g ∷ gs) hs s p q = absurd p
Each-compose P Q R (f ∷ fs) [] hs s p q = absurd p
Each-compose P Q R (f ∷ fs) (g ∷ gs) [] s p q = q
Each-compose P Q R (f ∷ fs) (g ∷ gs) (h ∷ hs) s p q =
    (s f g h (p.0) (q.0), Each-compose P Q R fs gs hs s (p.1) (q.1))

tags-apart :
    (f f' : Field) (fs gs : List Field)
    → SameTag f f'
    → Each SameTag fs gs
    → All (λ g. list_eq (f.json) (g.json) ≡ false) fs
    → All (λ g. list_eq (f'.json) (g.json) ≡ false) gs
tags-apart f f' [] [] e h d = tt
tags-apart f f' [] (g ∷ gs) e h d = absurd h
tags-apart f f' (x ∷ fs) [] e h d = absurd h
tags-apart f f' (x ∷ fs) (g ∷ gs) e h d =
    (ap₂ (λ a b. list_eq a b) (sym e) (sym (h.0)) ∙ d.0, tags-apart f f' fs gs e (h.1) (d.1))

Each-Distinct : (fs gs : List Field) → Each SameTag fs gs → Distinct fs → Distinct gs
Each-Distinct [] [] h d = tt
Each-Distinct [] (g ∷ gs) h d = absurd h
Each-Distinct (f ∷ fs) [] h d = absurd h
Each-Distinct (f ∷ fs) (g ∷ gs) h d =
    (tags-apart f g fs gs (h.0) (h.1) (d.0), Each-Distinct fs gs (h.1) (d.1))

All-refl : (fs : List Field) → All (λ f. ◌≡◌ {A = Option Field} (some f) (some f)) fs
All-refl [] = tt
All-refl (f ∷ fs) = (refl, All-refl fs)

assign_all-Each :
    (o : Members) (fs gs : List Field)
    → Distinct fs
    → assign_all o fs ≡ some gs
    → Each (λ f g. load_field o f ≡ some g) fs gs
unfolding assign_all
assign_all-Each [] fs gs d h =
    rw (sym (some-injective h)) (Each-refl (λ f g. load_field [] f ≡ some g) fs (All-refl fs))
assign_all-Each ((k, v) ∷ o) fs gs d h =
    let (ms, e, last) = >>=-eq-some (assign k v fs) _ h in
    let first = assign-Each k v fs ms d e in
    let d' = Each-Distinct fs ms (Each-map (Takes k v) SameTag fs ms (Takes-SameTag k v) first) d in
    Each-compose (Takes k v) (λ f g. load_field o f ≡ some g)
      (λ f g. load_field ((k, v) ∷ o) f ≡ some g) fs ms gs (λ f m g p q. rw p q) first
      (assign_all-Each o ms gs d' last)

set_default-SameTag : (f g : Field) → set_default f ≡ some g → SameTag f g
unfolding set_default
set_default-SameTag f g h = elim (Bool-cases (list_eq (f.default) [])) [
  | inl e ↦ ap (λ x. x.json) (some-injective (rw (e, set_default) at h))
  | inr e ↦
      let (w, _, last) =
        >>=-eq-some (default_value (f.default) (f.value)) _ (rw (e, set_default) at h) in
      ap (λ x. x.json) (some-injective last)
]

set_defaults-Each :
    (fs gs : List Field) → set_defaults fs ≡ some gs → Each (λ f g. set_default f ≡ some g) fs gs
unfolding set_defaults
set_defaults-Each [] [] h = tt
set_defaults-Each [] (g ∷ gs) h = absurd (let bad : [] ≡ g ∷ gs = some-injective h in cc)
set_defaults-Each (f ∷ fs) gs h =
    let (g, e, rest) = >>=-eq-some (set_default f) _ h in
    let (hs, e', last) = >>=-eq-some (set_defaults fs) _ rest in
    rw (sym (some-injective last)) (e, set_defaults-Each fs hs e')

-- A required field has a value that is not the empty text.
abbrev pub IsGiven : Field → Type 0
IsGiven g = (g.required && is_empty_text (g.value)) ≡ false

validate-IsGiven : (gs : List Field) → validate gs ≡ none → All IsGiven gs
unfolding validate
validate-IsGiven [] h = tt
validate-IsGiven (g ∷ gs) h = elim (Bool-cases (g.required && is_empty_text (g.value))) [
  | inl e ↦ absurd (let bad : some (missing_value (g.name)) ≡ none = rw (e, validate) at h in cc)
  | inr e ↦ (e, validate-IsGiven gs (rw (e, validate) at h))
]

config-Distinct : Distinct config
config-Distinct = ground arith

wrong : (x : ConfigError) (gs : List Field) → err x ≡ ok gs → ⊥
wrong x gs e = cc

ok-injective : {a b : List Field} → ok a ≡ ok b → a ≡ b
ok-injective e = cc

check-ok : (hs gs : List Field) → check hs ≡ ok gs → (hs ≡ gs) × (validate hs ≡ none)
unfolding check
check-ok hs gs h = elim (Option-cases (validate hs)) [
  | inl e ↦ (ok-injective (rw (e, check) at h), e)
  | inr (x, e) ↦ absurd (wrong x gs (rw (e, check) at h))
]

load-ok :
    (v : Json) (fs gs : List Field)
    → load v fs ≡ ok gs
    → ((as_map v >>= (λ o. assign_all o fs)) ≡ some gs) × (validate gs ≡ none)
unfolding load
load-ok v fs gs h = elim (Option-cases (as_map v >>= (λ o. assign_all o fs))) [
  | inl e ↦ absurd (wrong bad_json gs (rw (e, load) at h))
  | inr (hs, e) ↦
      let (same, fine) = check-ok hs gs (rw (e, load) at h) in
      (e ∙ ap some same, ap validate (sym same) ∙ fine)
]

from_file-ok :
    (v : Json) (gs : List Field)
    → config_from_file v ≡ ok gs
    → (fs : List Field) × (set_defaults config ≡ some fs) × (load v fs ≡ ok gs)
unfolding config_from_file
from_file-ok v gs h = elim (Option-cases (set_defaults config)) [
  | inl e ↦ absurd (wrong bad_default gs (rw (e, config_from_file) at h))
  | inr (fs, e) ↦ (fs, e, rw (e, config_from_file) at h)
]

-- A configuration that is read from a file has a value for each required field, and each of its fields is
-- what the members of the file with its name, in any case, make of its default: a value in the file comes
-- before the default, be it zero or false, the last one counts, and no field depends on the others.
pub config_from_file-Each :
    (v : Json) (gs : List Field)
    → config_from_file v ≡ ok gs
    → (o : Members) × (as_map v ≡ some o)
      × Each (λ f g. (set_default f >>= load_field o) ≡ some g) config gs
      × All IsGiven gs
config_from_file-Each v gs h =
    let (fs, e, loaded) = from_file-ok v gs h in
    let (assigned, fine) = load-ok v fs gs loaded in
    let (o, object, last) = >>=-eq-some (as_map v) _ assigned in
    let first = set_defaults-Each config fs e in
    let d =
      Each-Distinct config fs
        (Each-map (λ f g. set_default f ≡ some g) SameTag config fs set_default-SameTag first)
        config-Distinct in
    (
      o,
      object,
      Each-compose (λ f g. set_default f ≡ some g) (λ f g. load_field o f ≡ some g)
          (λ f g. (set_default f >>= load_field o) ≡ some g) config fs gs (λ f m g p q. rw p q)
          first (assign_all-Each o fs gs d last),
      validate-IsGiven gs fine,
    )
