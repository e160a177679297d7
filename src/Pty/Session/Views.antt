-- ===== src/Pty/Session/Views.antt =====
-- What each operation of a session does to the attachment at one index.
use lemul.Prelude.{
  ℕ, zero, suc, ◌≡◌, refl, List, [], ◌∷◌, ◌++◌, some, arith, ◌==◌, if◌then◌else◌, length, get_elem?,
  map, Bool-cases, inl, inr,
}
use lemul.Pty.Session.{
  View, Session, update, fan_out, end_view, detach_view, take_view, read, finish, attach, detach,
  take, resize, write, Op, read_op, finish_op, attach_op, detach_op, take_op, resize_op, write_op,
  step,
}

module _ {ℓ} {A : Type ℓ} where
  get_elem?-map :
      (f : A → A) (xs : List A) (i : ℕ) {v : A}
      → get_elem? xs i ≡ some v
      → get_elem? (map f xs) i ≡ some (f v)
  get_elem?-map f [] i e = cc
  get_elem?-map f (x ∷ xs) zero e = cc
  get_elem?-map f (x ∷ xs) (suc i) e = get_elem?-map f xs i e

  get_elem?-append :
      (xs ys : List A) (i : ℕ) {v : A} → get_elem? xs i ≡ some v → get_elem? (xs ++ ys) i ≡ some v
  get_elem?-append [] ys i e = cc
  get_elem?-append (x ∷ xs) ys zero e = e
  get_elem?-append (x ∷ xs) ys (suc i) e = get_elem?-append xs ys i e

  pub get_elem?-snoc : (xs : List A) (v : A) → get_elem? (xs ++ v ∷ []) (length xs) ≡ some v
  get_elem?-snoc [] v = refl
  get_elem?-snoc (x ∷ xs) v = get_elem?-snoc xs v

get_elem?-update :
    (j : ℕ) (f : View → View) (xs : List View) (i : ℕ) {v : View}
    → get_elem? xs i ≡ some v
    → get_elem? (update j f xs) i ≡ some (if i == j then f v else v)
unfolding update
get_elem?-update j f [] i e = cc
get_elem?-update zero f (x ∷ xs) zero e = ground arith
get_elem?-update zero f (x ∷ xs) (suc i) e = ground arith
get_elem?-update (suc j) f (x ∷ xs) zero e = ground arith
get_elem?-update (suc j) f (x ∷ xs) (suc i) e = ground (arith, get_elem?-update j f xs i e)

-- The operation, as the attachment at index `i` sees it.
abbrev pub view_step : ℕ → Op → View → View
view_step i (read_op buf now) v = fan_out buf v
view_step i (finish_op code) v = end_view v
view_step i (detach_op j) v = if i == j then detach_view v else v
view_step i (take_op j) v = if i == j then take_view v else v
view_step i _ v = v

pub views-step :
    (i : ℕ) (o : Op) (s : Session) {v : View}
    → get_elem? s.views i ≡ some v
    → get_elem? (step o s).views i ≡ some (view_step i o v)
unfolding step read finish attach detach take resize write
views-step i (read_op buf now) s e = get_elem?-map (fan_out buf) s.views i e
views-step i (finish_op code) s e = get_elem?-map end_view s.views i e
views-step i (attach_op r rows cols p) s e = elim (Bool-cases s.exited) [
  | inl x ↦ rw x e
  | inr x ↦ rw x (get_elem?-append s.views _ i e)
]
views-step i (detach_op j) s e = get_elem?-update j detach_view s.views i e
views-step i (take_op j) s e = get_elem?-update j take_view s.views i e
views-step i (resize_op rows cols) s e = ground arith
views-step i (write_op p) s e = ground arith
