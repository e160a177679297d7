-- ===== src/Prelude/Text.antt =====
-- Texts that are looked into are lists of their bytes. `bytes` makes one of an ASCII literal.
use Prim.Native.String.{String, [] as nil, ◌∷◌ as cons}
use Prim.Native.Char.{code}
use lemul.Prelude.{
  refl, ℕ, ◌≡◌, ◌↔◌, List, [], ◌∷◌, Bool, true, false, ◌&&◌, ◌==◌, Option, none, some, All, ◌≢◌,
  ◌++◌, if◌then◌else◌, Bool-cases, Option-cases, inl, inr, subst, arith,
}

abbrev pub Bytes : Type 0
Bytes = List ℕ

unfoldable pub bytes : String → Bytes
bytes nil = []
bytes (cons c s) = code c ∷ bytes s

unfoldable pub equal : Bytes → Bytes → Bool
equal [] [] = true
equal [] (b ∷ s) = false
equal (a ∷ r) [] = false
equal (a ∷ r) (b ∷ s) = (a == b) && equal r s

pub equal_iff : (a b : Bytes) → (equal a b ≡ true) ↔ (a ≡ b)
unfolding equal
equal_iff [] [] = ground arith
equal_iff [] (b ∷ s) = ground arith
equal_iff (a ∷ r) [] = ground arith
equal_iff (a ∷ r) (b ∷ s) = ground (arith, equal_iff r s)

-- strings.HasPrefix of a text and a prefix.
unfoldable pub has_prefix : Bytes → Bytes → Bool
has_prefix s [] = true
has_prefix [] (p ∷ ps) = false
has_prefix (c ∷ s) (p ∷ ps) = (c == p) && has_prefix s ps

unfoldable pub cut_on : ℕ → Option (Bytes × Bytes) → Option (Bytes × Bytes)
cut_on c none = none
cut_on c (some (before, after)) = some (c ∷ before, after)

-- strings.Cut at a separator of one byte.
unfoldable pub cut : ℕ → Bytes → Option (Bytes × Bytes)
cut b [] = none
cut b (c ∷ s) = let rest = cut b s in if c == b then some ([], s) else cut_on c rest

pub cut-append : (b : ℕ) (p s : Bytes) → All (λ c. c ≢ b) p → cut b (p ++ (b ∷ s)) ≡ some (p, s)
unfolding cut cut_on
cut-append b [] s h = ground arith
cut-append b (c ∷ p) s h = ground (arith, cut-append b p s h.1)

-- What stands before the first separator has none in it.
pub cut-split :
    (b : ℕ) (s k v : Bytes) → cut b s ≡ some (k, v) → (s ≡ k ++ (b ∷ v)) × All (λ c. c ≢ b) k
unfolding cut cut_on
cut-split b [] k v e = cc e
cut-split b (c ∷ s) k v e = elim (Bool-cases (c == b)) [
  | inl t ↦
      let first : Option (Bytes × Bytes) = some ([], s) in
      let r : first ≡ some (k, v) = ground (arith, e, t) in
      let start : [] ≡ k = cc r in (ground (arith, r), subst (All (λ c. c ≢ b)) start tt)
  | inr t ↦ elim (Option-cases (cut b s)) [
    | inl n ↦ absurd (ground (arith, e, t, n))
    | inr ((p, r), n) ↦
        let h = cut-split b s p r n in
        let longer : Option (Bytes × Bytes) = some (c ∷ p, r) in
        let same : longer ≡ some (k, v) = ground (arith, e, t, n) in
        let start : c ∷ p ≡ k = cc same in
        (ground (arith, h.0, same), subst (All (λ c. c ≢ b)) start (ground arith, h.1))
  ]
]

-- A text with a prefix is the prefix and a rest.
pub prefix-split : (s p : Bytes) → has_prefix s p ≡ true → (r : Bytes) × (s ≡ p ++ r)
unfolding has_prefix
prefix-split s [] h = (s, refl)
prefix-split [] (p ∷ ps) h = cc h
prefix-split (c ∷ s) (p ∷ ps) h =
    let (r, e) = prefix-split s ps (ground arith) in (r, ground (arith, e))
