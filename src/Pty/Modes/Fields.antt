-- ===== src/Pty/Modes/Fields.antt =====
-- The mode map of the tracker: reads after writes, its bound, and the fields of one sequence.
use lemul.Prelude.{
  ℕ, ◌+◌, ◌≤◌, ◌<◌, ◌≡◌, refl, List, [], ◌∷◌, ◌++◌, none, some, Bool, true, arith, if◌then◌else◌,
  length, All, ap, Option-cases, inl, inr,
}
use lemul.Prelude.Int.{ℤ, eqb_ℤ, eqb_ℤ_iff}
use lemul.Strconv.{atoi, itoa, fits_int}
use lemul.Strconv.RoundTrip.{atoi-itoa, atoi-fits_int, IsNumeral, itoa-All}
use lemul.Pty.Modes.{
  max_tracked_modes, lookup, insert, split, cons_head, set_mode, set_field, set_fields, drop_last,
}

abbrev pub FitsAll : List (ℤ × Bool) → Type 0
FitsAll [] = Unit
FitsAll ((k, v) ∷ d) = (fits_int k ≡ true) × FitsAll d

pub lookup-insert :
    (n j : ℤ) (v : Bool) (d : List (ℤ × Bool))
    → lookup j (insert n v d) ≡ (if eqb_ℤ n j then some v else lookup j d)
unfolding lookup insert
lookup-insert n j v [] = refl
lookup-insert n j v ((k, w) ∷ d) =
    ground (arith, eqb_ℤ_iff k n, eqb_ℤ_iff k j, eqb_ℤ_iff n j, lookup-insert n j v d)

length-insert : (n : ℤ) (v : Bool) (d : List (ℤ × Bool)) → length (insert n v d) ≤ length d + 1
unfolding insert
length-insert n v [] = omega arith
length-insert n v ((k, w) ∷ d) = ground (arith, length-insert n v d)

length-insert_known :
    (n : ℤ) (v w : Bool) (d : List (ℤ × Bool))
    → lookup n d ≡ some w
    → length (insert n v d) ≡ length d
unfolding insert lookup
length-insert_known n v w [] h = cc
length-insert_known n v w ((k, u) ∷ d) h = ground (arith, length-insert_known n v w d)

insert-FitsAll :
    (n : ℤ) (v : Bool) (d : List (ℤ × Bool))
    → fits_int n ≡ true
    → FitsAll d
    → FitsAll (insert n v d)
unfolding insert
insert-FitsAll n v [] f h = (f, tt)
insert-FitsAll n v ((k, w) ∷ d) f h = ground (arith, insert-FitsAll n v d f h.1)

-- What a commit keeps of the map: at most 64 modes, each a 64-bit integer.
pub record IsModeMap (d : List (ℤ × Bool)) : Type 0 where
  pub size : length d ≤ max_tracked_modes
  pub keys : FitsAll d

pub set_mode-IsModeMap :
    (v : Bool) (n : ℤ) (d : List (ℤ × Bool))
    → fits_int n ≡ true
    → IsModeMap d
    → IsModeMap (set_mode v n d)
unfolding set_mode
set_mode-IsModeMap v n d f h = elim (Option-cases (lookup n d)) [
  | inl e ↦ ground (arith, length-insert n v d, insert-FitsAll n v d f h.keys)
  | inr (w, e) ↦ ground (arith, length-insert_known n v w d e, insert-FitsAll n v d f h.keys)
]

pub length-set_mode :
    (v : Bool) (n : ℤ) (d : List (ℤ × Bool)) → length (set_mode v n d) ≤ length d + 1
unfolding set_mode
length-set_mode v n d = ground (arith, length-insert n v d)

-- While there is room, a write is a write.
pub lookup-set_mode :
    (v : Bool) (n j : ℤ) (d : List (ℤ × Bool))
    → length d < max_tracked_modes
    → lookup j (set_mode v n d) ≡ (if eqb_ℤ n j then some v else lookup j d)
unfolding set_mode
lookup-set_mode v n j d h = ground (arith, lookup-insert n j v d)

set_field-none : (v : Bool) (f : List ℕ) (d : List (ℤ × Bool)) → atoi f ≡ none → set_field v f d ≡ d
unfolding set_field
set_field-none v f d e = ground arith

set_field-some :
    (v : Bool) (f : List ℕ) (d : List (ℤ × Bool)) (n : ℤ)
    → atoi f ≡ some n
    → set_field v f d ≡ set_mode v n d
unfolding set_field
set_field-some v f d n e = ground arith

pub set_fields-IsModeMap :
    (v : Bool) (fs : List (List ℕ)) (d : List (ℤ × Bool))
    → IsModeMap d
    → IsModeMap (set_fields v fs d)
unfolding set_fields
set_fields-IsModeMap v [] d h = h
set_fields-IsModeMap v (f ∷ fs) d h = elim (Option-cases (atoi f)) [
  | inl e ↦ rw (set_field-none v f d e) (set_fields-IsModeMap v fs d h)
  | inr (n, e) ↦ rw (set_field-some v f d n e) (
      set_fields-IsModeMap v fs (set_mode v n d) (set_mode-IsModeMap v n d (atoi-fits_int f n e) h))
]

pub drop_last-append : (ps : List ℕ) (b : ℕ) → drop_last (ps ++ b ∷ []) ≡ ps
unfolding drop_last
drop_last-append [] b = refl
drop_last-append (c ∷ []) b = refl
drop_last-append (c ∷ e ∷ ps) b = ap (λ t. c ∷ t) (drop_last-append (e ∷ ps) b)

split-numeral : (s : List ℕ) → All IsNumeral s → split b';' s ≡ s ∷ []
unfolding split cons_head
split-numeral [] h = refl
split-numeral (c ∷ s) h = rw (split-numeral s h.1) (ground arith)

-- A parameter list that is one printed mode sets that mode.
pub set_fields-itoa :
    (v : Bool) (n : ℤ) (d : List (ℤ × Bool))
    → fits_int n ≡ true
    → set_fields v (split b';' (itoa n)) d ≡ set_mode v n d
unfolding set_fields
set_fields-itoa v n d f =
    rw (split-numeral (itoa n) (itoa-All n f).0) (set_field-some v (itoa n) d n (atoi-itoa n f))
