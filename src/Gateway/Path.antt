-- ===== src/Gateway/Path.antt =====
-- Go's path.Clean, as internal/gateway/proxy.go uses it: the shortest path that is equal by its text
-- alone. The stack holds the elements that are kept, the last one first.
use lemul.Prelude.{
  ℕ, ◌≡◌, ◌≢◌, refl, sym, List, [], ◌∷◌, ◌++◌, Bool, true, false, ◌||◌, ◌==◌, if◌then◌else◌, All,
  inl, inr, Bool-cases, subst, if_elim, if_true, if_false, ◌⊎◌, arith,
}
use lemul.Prelude.Text.{Bytes, bytes, equal, equal_iff}

unfoldable pub prepend : ℕ → List Bytes → List Bytes
prepend c [] = (c ∷ []) ∷ []
prepend c (w ∷ ws) = (c ∷ w) ∷ ws

-- The elements between the slashes, empty ones included.
unfoldable pub elements : Bytes → List Bytes
elements [] = [] ∷ []
elements (c ∷ s) = let rest = elements s in if c == b'/' then [] ∷ rest else prepend c rest

-- A dot-dot element: it takes back the element before it, and stays in front of a path without a root.
unfoldable pub step_back : Bool → List Bytes → List Bytes
step_back true [] = []
step_back false [] = bytes ".." ∷ []
step_back rooted (w ∷ ws) = if equal w (bytes "..") then bytes ".." ∷ w ∷ ws else ws

unfoldable pub clean_step : Bool → List Bytes → Bytes → List Bytes
clean_step rooted ws w =
    if equal w [] || equal w (bytes ".")
    then ws
    else if equal w (bytes "..")
    then step_back rooted ws
    else w ∷ ws

unfoldable pub clean_all : Bool → List Bytes → List Bytes → List Bytes
clean_all rooted ws [] = ws
clean_all rooted ws (e ∷ es) = clean_all rooted (clean_step rooted ws e) es

unfoldable pub reverse_onto : List Bytes → List Bytes → List Bytes
reverse_onto [] ws = ws
reverse_onto (v ∷ vs) ws = reverse_onto vs (v ∷ ws)

unfoldable pub join : List Bytes → Bytes
join [] = []
join (w ∷ []) = w
join (w ∷ v ∷ ws) = w ++ (b'/' ∷ join (v ∷ ws))

unfoldable pub or_dot : Bytes → Bytes
or_dot [] = bytes "."
or_dot (c ∷ s) = c ∷ s

-- path.Clean
unfoldable pub path_clean : Bytes → Bytes
path_clean [] = bytes "."
path_clean (c ∷ s) =
    if c == b'/'
    then b'/' ∷ join (reverse_onto (clean_all true [] (elements s)) [])
    else or_dot (join (reverse_onto (clean_all false [] (elements (c ∷ s))) []))

-- An element that leads one directory down.
abbrev pub IsElement : Bytes → Type 0
IsElement w = (w ≢ []) × (w ≢ bytes ".") × (w ≢ bytes "..") × All (λ c. c ≢ b'/') w

-- A path from the root with such elements only.
abbrev pub IsResolved : Bytes → Type 0
IsResolved p = (ws : List Bytes) × (p ≡ b'/' ∷ join ws) × All IsElement ws

abbrev Slashless : Bytes → Type 0
Slashless w = All (λ c. c ≢ b'/') w

prepend-Slashless :
    (c : ℕ) (ws : List Bytes) → c ≢ b'/' → All Slashless ws → All Slashless (prepend c ws)
unfolding prepend
prepend-Slashless c [] n h = ((n, tt), tt)
prepend-Slashless c (w ∷ ws) n h = ((n, h.0), h.1)

elements-Slashless : (s : Bytes) → All Slashless (elements s)
unfolding elements
elements-Slashless [] = (tt, tt)
elements-Slashless (c ∷ s) = elim (Bool-cases (c == b'/')) [
  | inl e ↦ rw e (tt, elements-Slashless s)
  | inr e ↦ rw e (prepend-Slashless c (elements s) (ground arith) (elements-Slashless s))
]

-- What a step keeps of a stack, for elements that are to satisfy P.
step_back-All :
    (P : Bytes → Type 0) (rooted : Bool) (ws : List Bytes)
    → (rooted ≡ false → P (bytes ".."))
    → All P ws
    → All P (step_back rooted ws)
unfolding step_back
step_back-All P true [] d h = tt
step_back-All P false [] d h = (d refl, tt)
step_back-All P true (w ∷ ws) d h = elim (Bool-cases (equal w (bytes ".."))) [
  | inl e ↦ subst (All P) (sym (if_true _ _ e)) (subst P ((equal_iff w (bytes "..")).0 e) h.0, h)
  | inr e ↦ subst (All P) (sym (if_false _ _ e)) h.1
]
step_back-All P false (w ∷ ws) d h =
    if_elim (λ l. All P l) (equal w (bytes "..")) (bytes ".." ∷ w ∷ ws) ws (d refl, h) h.1

clean_step-All :
    (P : Bytes → Type 0) (rooted : Bool) (ws : List Bytes) (w : Bytes)
    → (rooted ≡ false → P (bytes ".."))
    → (w ≢ [] → w ≢ bytes "." → w ≢ bytes ".." → P w)
    → All P ws
    → All P (clean_step rooted ws w)
unfolding clean_step
clean_step-All P rooted ws w d p h = elim (Bool-cases (equal w [] || equal w (bytes "."))) [
  | inl e ↦ subst (All P) (sym (if_true _ _ e)) h
  | inr e ↦ subst (All P) (sym (if_false _ _ e)) (elim (Bool-cases (equal w (bytes ".."))) [
    | inl f ↦ subst (All P) (sym (if_true _ _ f)) (step_back-All P rooted ws d h)
    | inr f ↦ subst (All P) (sym (if_false _ _ f)) (
      p (ground (arith, e, equal_iff w [])) (ground (arith, e, equal_iff w (bytes ".")))
          (ground (arith, f, equal_iff w (bytes ".."))),
      h,
    )
  ])
]

clean_all-All :
    (P : Bytes → Type 0) (rooted : Bool) (ws es : List Bytes)
    → (rooted ≡ false → P (bytes ".."))
    → ((w : Bytes) → Slashless w → w ≢ [] → w ≢ bytes "." → w ≢ bytes ".." → P w)
    → All Slashless es
    → All P ws
    → All P (clean_all rooted ws es)
unfolding clean_all
clean_all-All P rooted ws [] d p s h = h
clean_all-All P rooted ws (e ∷ es) d p s h =
    clean_all-All P rooted (clean_step rooted ws e) es d p s.1
      (clean_step-All P rooted ws e d (p e s.0) h)

reverse_onto-All :
    (P : Bytes → Type 0) (vs ws : List Bytes) → All P vs → All P ws → All P (reverse_onto vs ws)
unfolding reverse_onto
reverse_onto-All P [] ws h g = g
reverse_onto-All P (v ∷ vs) ws h g = reverse_onto-All P vs (v ∷ ws) h.1 (h.0, g)

-- A path that does not begin at the root.
abbrev pub Relative : Bytes → Type 0
Relative [] = Unit
Relative (c ∷ s) = c ≢ b'/'

append-Relative : (w s : Bytes) → w ≢ [] → Slashless w → Relative (w ++ s)
append-Relative [] s n h = absurd (n refl)
append-Relative (c ∷ w) s n h = h.0

join-Relative : (ws : List Bytes) → All (λ w. (w ≢ []) × Slashless w) ws → Relative (join ws)
unfolding join
join-Relative [] h = tt
join-Relative ([] ∷ []) h = tt
join-Relative ((c ∷ w) ∷ []) h = h.0.1.0
join-Relative (w ∷ v ∷ ws) h = append-Relative w _ h.0.0 h.0.1

or_dot-Relative : (s : Bytes) → Relative s → Relative (or_dot s)
unfolding or_dot bytes
or_dot-Relative [] h = omega arith
or_dot-Relative (c ∷ s) h = h

-- A cleaned path is relative, or from the root with no element that leads back or nowhere.
pub path_clean-cases : (p : Bytes) → Relative (path_clean p) ⊎ IsResolved (path_clean p)
unfolding path_clean bytes
path_clean-cases [] = inl (omega arith)
path_clean-cases (c ∷ s) = elim (Bool-cases (c == b'/')) [
  | inl e ↦
      let own : All IsElement (clean_all true [] (elements s)) =
        clean_all-All IsElement true [] (elements s) (λ x. cc x) (λ w n a b d. (a, b, d, n))
          (elements-Slashless s) tt in
      inr (
        reverse_onto (clean_all true [] (elements s)) [],
        if_true _ _ e,
        reverse_onto-All IsElement (clean_all true [] (elements s)) [] own tt,
      )
  | inr e ↦
      let P : Bytes → Type 0 = λ w. (w ≢ []) × Slashless w in
      let own : All P (clean_all false [] (elements (c ∷ s))) =
        clean_all-All P false [] (elements (c ∷ s)) (λ x. ((λ y. cc y), omega arith))
          (λ w n a b d. (a, n)) (elements-Slashless (c ∷ s)) tt in
      let all = reverse_onto-All P (clean_all false [] (elements (c ∷ s))) [] own tt in
      inl (
        subst Relative (sym (if_false _ _ e)) (
          or_dot-Relative (join (reverse_onto (clean_all false [] (elements (c ∷ s))) []))
            (join-Relative (reverse_onto (clean_all false [] (elements (c ∷ s))) []) all)))
]
