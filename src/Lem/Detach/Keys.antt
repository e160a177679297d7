-- ===== src/Lem/Detach/Keys.antt =====
-- cmd/lem/detach.go: where the detach key is found in what a terminal sends, and where there is none.
use lemul.Prelude.{ℕ, ◌+◌, ◌≤◌, ◌≡◌, ◌≢◌, List, [], ◌∷◌, ◌++◌, length, All}
use lemul.Prelude.Int.{ℤ}
use lemul.Lem.Detach.{detach_from}
use lemul.Lem.Detach.Sequences.{IsParam, IsFinal, Params, IsDetach}

-- A byte that begins no key and no sequence.
abbrev pub IsPlain : ℕ → Type 0
IsPlain c = (c ≢ 0x1d) × (c ≢ 0x1b)

-- A whole control sequence.
abbrev pub csi : List ℕ → ℕ → List ℕ
csi p final = 0x1b ∷ b'[' ∷ (p ++ (final ∷ []))

-- What a terminal sends that is no detach key: a byte, an escape before another byte, a sequence whose
-- parameters say another key, or none with Control, and a sequence that ends in another byte.
pub data Harmless : List ℕ → Type 0 where
  byte : (c : ℕ) → IsPlain c → Harmless (c ∷ [])
  escape : (c : ℕ) → IsPlain c → c ≢ b'[' → Harmless (0x1b ∷ c ∷ [])
  other_key :
      (p : List ℕ) (zs : List ℤ) (final : ℕ)
      → Params p zs
      → IsFinal final
      → ¬ IsDetach zs final
      → Harmless (csi p final)
  other_sequence :
      (p : List ℕ) (final : ℕ)
      → All IsParam p
      → IsFinal final
      → final ≢ b'u'
      → final ≢ b'~'
      → Harmless (csi p final)

pub data Typed : List ℕ → Type 0 where
  nothing : Typed []
  and_then : (w s : List ℕ) → Harmless w → Typed s → Typed (w ++ s)

-- Ctrl-], in its three encodings.
pub data IsKey : List ℕ → Type 0 where
  legacy : IsKey (0x1d ∷ [])
  sequence :
      (p : List ℕ) (zs : List ℤ) (final : ℕ)
      → Params p zs
      → IsFinal final
      → IsDetach zs final
      → IsKey (csi p final)

-- That the loop goes on behind a text, with fuel for what is left.
abbrev Passes : List ℕ → Type 0
Passes w =
    (n i : ℕ) (p : List ℕ)
    → length w + length p ≤ n
    → (m : ℕ) × (detach_from n i (w ++ p) ≡ detach_from m (i + length w) p) × (length p ≤ m)
