-- ===== src/Prelude/Dict.antt =====
-- Go's maps as association lists, for any key with an equality test. Texts that are only compared
-- are the native `String`.
use lemul.Prelude.{◌≡◌, ◌↔◌, List, [], ◌∷◌, Option, none, some, Bool, true, arith, if◌then◌else◌}
use Prim.Native.String.{String}
use text.Mathlib.Text.{◌==◌ as str_eq}
use text.Mathlib.TextEquality.{eq_iff}

pub record Key {ℓ} (K : Type ℓ) : Type ℓ where
  pub test : K → K → Bool
  pub test_iff : (a b : K) → (test a b ≡ true) ↔ (a ≡ b)

abbrev pub eqb {ℓ} : {K : Type ℓ} ⦃e : Key K⦄ → K → K → Bool
eqb ⦃e⦄ = e.test

pub eqb_iff {ℓ} : {K : Type ℓ} ⦃e : Key K⦄ (a b : K) → (eqb a b ≡ true) ↔ (a ≡ b)
eqb_iff ⦃e⦄ = e.test_iff

instance abbrev pub string_key : Key String
string_key = record { test = str_eq; test_iff = eq_iff }

abbrev pub Dict {ℓ} : Type ℓ → Type ℓ → Type ℓ
Dict K V = List (K × V)

module _ {ℓ} {K V : Type ℓ} ⦃e : Key K⦄ where
  unfoldable pub lookup : K → Dict K V → Option V
  lookup k [] = none
  lookup k ((j, v) ∷ d) = if eqb j k then some v else lookup k d

  -- delete(d, k)
  unfoldable pub without : K → Dict K V → Dict K V
  without k [] = []
  without k ((j, v) ∷ d) = let rest = without k d in if eqb j k then rest else (j, v) ∷ rest

  -- d[k] = v
  unfoldable pub put : K → V → Dict K V → Dict K V
  put k v d = (k, v) ∷ without k d

  pub lookup-without :
      (k j : K) (d : Dict K V) → lookup j (without k d) ≡ (if eqb k j then none else lookup j d)
  unfolding lookup without
  lookup-without k j [] = ground arith
  lookup-without k j ((i, v) ∷ d) =
      ground (arith, lookup-without k j d, eqb_iff i k, eqb_iff i j, eqb_iff k j)

  pub lookup-put :
      (k j : K) (v : V) (d : Dict K V)
      → lookup j (put k v d) ≡ (if eqb k j then some v else lookup j d)
  unfolding lookup put
  lookup-put k j v d = ground (arith, lookup-without k j d)
