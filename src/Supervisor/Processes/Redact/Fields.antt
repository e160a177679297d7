-- ===== src/Supervisor/Processes/Redact/Fields.antt =====
-- internal/supervisor/procfs.go: strings.Split and strings.Join at a space undo one another.
use lemul.Prelude.{
  ℕ, ◌≡◌, ◌≢◌, refl, ap, ◌∙◌, List, [], ◌∷◌, ◌++◌, ◌==◌, All, inl, inr, Bool-cases, arith,
}
use lemul.Prelude.Text.{Bytes, bytes}
use lemul.Supervisor.Processes.Redact.{redacted, prepend, split, join}

-- Fields without a space, which strings.Split gives and strings.Join can join.
abbrev pub Spaceless : Bytes → Type 0
Spaceless f = All (λ c. c ≢ 32) f

prepend-Spaceless :
    (c : ℕ) (ws : List Bytes) → c ≢ 32 → All Spaceless ws → All Spaceless (prepend c ws)
unfolding prepend
prepend-Spaceless c [] n h = ((n, tt), tt)
prepend-Spaceless c (w ∷ ws) n h = ((n, h.0), h.1)

pub split-Spaceless : (s : Bytes) → All Spaceless (split 32 s)
unfolding split
split-Spaceless [] = (tt, tt)
split-Spaceless (c ∷ s) = elim (Bool-cases (c == 32)) [
  | inl e ↦ rw e (tt, split-Spaceless s)
  | inr e ↦ rw e (prepend-Spaceless c (split 32 s) (ground arith) (split-Spaceless s))
]

pub Spaceless-front : (k r : Bytes) → Spaceless (k ++ r) → Spaceless k
Spaceless-front [] r h = tt
Spaceless-front (c ∷ k) r h = (h.0, Spaceless-front k r h.1)

pub Spaceless-redacted : Spaceless redacted
unfolding redacted bytes
Spaceless-redacted = omega arith

split-word : (w : Bytes) → Spaceless w → split 32 w ≡ w ∷ []
unfolding split prepend
split-word [] h = refl
split-word (c ∷ w) h = ground (arith, split-word w h.1)

split-append : (w s : Bytes) → Spaceless w → split 32 (w ++ (32 ∷ s)) ≡ w ∷ split 32 s
unfolding split prepend
split-append [] s h = ground arith
split-append (c ∷ w) s h = ground (arith, split-append w s h.1)

pub split-join :
    (w : Bytes) (ws : List Bytes) → All Spaceless (w ∷ ws) → split 32 (join 32 (w ∷ ws)) ≡ w ∷ ws
unfolding join
split-join w [] h = split-word w h.0
split-join w (v ∷ ws) h =
    split-append w (join 32 (v ∷ ws)) h.0 ∙ ap (λ l. w ∷ l) (split-join v ws h.1)
