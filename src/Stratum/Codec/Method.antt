-- ===== src/Stratum/Codec/Method.antt =====
-- The name that stratum/codec.go makes of a request's method.
use xmrig2xdag.Common.{
  ℕ, ◌≡◌, refl, ap, ◌∙◌, List, [], ◌∷◌, ◌++◌, true, false, if◌then◌else◌, codes,
}
use xmrig2xdag.Stratum.Codec.{is_separator, title_from, title, contains, service_method}

module _ (upper : ℕ → ℕ) where
  title_from-separator :
      (c : ℕ) (s : List ℕ) → is_separator c ≡ true → title_from upper c s ≡ title upper s
  title_from-separator c [] h = refl
  title_from-separator c (x ∷ s) h = rw h refl

  title-mining :
      (m : List ℕ) → title upper (codes "mining." ++ m) ≡ codes "Mining." ++ title upper m
  title-mining m = ap (λ t. codes "Mining." ++ t) (title_from-separator b'.' m refl)

  -- The prefix of a method that names the service is not recognised, since the test comes after the first
  -- letters are made capital: the prefix is put in front once more. It is so for every method that does
  -- not have the prefix somewhere else.
  pub service_method-mining :
      (m : List ℕ)
      → contains (title upper m) (codes "mining") ≡ false
      → service_method upper (codes "mining." ++ m) ≡ codes "mining.Mining." ++ title upper m
  unfolding service_method
  service_method-mining m h =
      ap (λ t. if contains t (codes "mining") then t else codes "mining." ++ t) (title-mining m)
      ∙ ap
          (λ b.
            if b then codes "Mining." ++ title upper m else codes "mining.Mining." ++ title upper m)
          h
