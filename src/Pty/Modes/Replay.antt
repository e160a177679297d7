-- ===== src/Pty/Modes/Replay.antt =====
-- The parts of a prelude, read back by a tracker that stands at the boundary.
use mathlib.Core.List.{append_assoc, append-nil}
use lemul.Prelude.{
  ℕ, suc, ◌+◌, ◌≤◌, ◌≡◌, refl, List, [], ◌∷◌, ◌++◌, some, Bool, true, false, arith, if◌then◌else◌,
  ◌&&◌, ◌||◌, not, ltb, length, length-append, All, ap, inl, inr, Bool-cases, sym, ◌∙◌,
}
use lemul.Prelude.Int.{ℤ, eqb_ℤ, eqb_ℤ_iff}
use lemul.Strconv.{itoa, fits_int}
use lemul.Strconv.RoundTrip.{IsNumeral, itoa-All}
use lemul.Pty.Modes.{
  csi_state, ModeTracker, max_partial, max_tracked_modes, transient, lookup, set_mode,
  commit_params, is_final, is_some, reset, final_of, feed_byte_in, feed_byte, feed, replayed,
  insert_sorted, sort_ints, or_false, render, render_all,
}
use lemul.Pty.Modes.Fields.{FitsAll, set_fields-itoa, length-set_mode, lookup-set_mode}
use lemul.Pty.Modes.Invariant.{IsParam, csi, commit-csi}

pub feed-append : (m : ModeTracker) (p q : List ℕ) → feed m (p ++ q) ≡ feed (feed m p) q
unfolding feed
feed-append m [] q = refl
feed-append m (b ∷ p) q = feed-append (feed_byte m b) p q

-- Parameter bytes are held back, up to the bound on `partial`.
feed_params :
    (m : ModeTracker) (p ps : List ℕ)
    → All IsParam ps
    → length p + length ps ≤ max_partial
    → feed (record m { state = csi_state; partial = p }) ps
      ≡ record m { state = csi_state; partial = p ++ ps }
unfolding feed
feed_params m p [] a l = ap (λ t. record m { state = csi_state; partial = t }) (sym (append-nil p))
feed_params m p (b ∷ ps) a l = rw (held b a.0 (omega (arith, length-append {0} p (b ∷ [])))) (
    feed_params m (p ++ b ∷ []) ps a.1 (omega (arith, length-append {0} p (b ∷ [])))
    ∙ ap (λ t. record m { state = csi_state; partial = t }) (append_assoc p (b ∷ []) ps))
  where
    held :
        (b : ℕ)
        → IsParam b
        → length (p ++ b ∷ []) ≤ max_partial
        → feed_byte (record m { state = csi_state; partial = p }) b
          ≡ record m { state = csi_state; partial = p ++ b ∷ [] }
    held b f l =
        unfold feed_byte feed_byte_in in
        let t : ltb max_partial (length (p ++ b ∷ [])) ≡ false = ground arith in rw (f, t)

-- From the boundary, a whole control sequence within the bound is committed, once.
pub feed-csi :
    (m : ModeTracker) (ps : List ℕ) (final : ℕ)
    → All IsParam ps
    → length ps ≤ 62
    → is_final final ≡ true
    → feed (reset m) (csi ps final)
      ≡ reset (
          commit_params final
            (csi ps final)
            ps
            (record m { state = csi_state; partial = csi ps final }))
unfolding feed feed_byte feed_byte_in
feed-csi m ps final a l f =
    feed-append (record m { state = csi_state; partial = 0x1b ∷ b'[' ∷ [] }) ps (final ∷ [])
    ∙ ap (λ t. feed t (final ∷ [])) (feed_params m (0x1b ∷ b'[' ∷ []) ps a (omega arith))
    ∙ last
  where
    last :
        feed_byte (record m { state = csi_state; partial = 0x1b ∷ b'[' ∷ ps }) final
        ≡ reset (
            commit_params final
              (csi ps final)
              ps
              (record m { state = csi_state; partial = csi ps final }))
    last =
        rw f
          (rw (commit-csi (record m { state = csi_state; partial = csi ps final }) ps final refl))

IsParam-of_numeral : (s : List ℕ) → All IsNumeral s → All IsParam s
IsParam-of_numeral [] h = tt
IsParam-of_numeral (c ∷ s) h = (ground arith, IsParam-of_numeral s h.1)

-- One replayed mode sets that mode again.
feed-render :
    (m : ModeTracker) (n : ℤ) (v : Bool)
    → fits_int n ≡ true
    → feed (reset m) (render n v) ≡ reset (record m { dec = set_mode v n m.dec })
unfolding render
feed-render m n v f =
    let (all, len) = itoa-All n f in
    feed-csi m (b'?' ∷ itoa n) (final_of v) (refl, IsParam-of_numeral (itoa n) all) (omega arith)
      (ground arith)
    ∙ committed v
  where
    committed :
        (v : Bool)
        → let final = final_of v in
          let seq = csi (b'?' ∷ itoa n) final in
          reset (
            commit_params final seq (b'?' ∷ itoa n) (record m { state = csi_state; partial = seq }))
          ≡ reset (record m { dec = set_mode v n m.dec })
    committed true = unfold commit_params in rw (set_fields-itoa true n m.dec f)
    committed false = unfold commit_params in rw (set_fields-itoa false n m.dec f)

-- The writes of a replayed list of modes, with their values in `d`.
pub set_all : List ℤ → List (ℤ × Bool) → List (ℤ × Bool) → List (ℤ × Bool)
set_all [] d x = x
set_all (n ∷ ns) d x = set_all ns d (set_mode (or_false (lookup n d)) n x)

abbrev pub FitsKeys : List ℤ → Type 0
FitsKeys ns = All (λ n. fits_int n ≡ true) ns

pub feed-render_all :
    (m : ModeTracker) (ns : List ℤ) (d : List (ℤ × Bool))
    → FitsKeys ns
    → feed (reset m) (render_all ns d) ≡ reset (record m { dec = set_all ns d m.dec })
unfolding render_all set_all
feed-render_all m [] d f = unfold feed in refl
feed-render_all m (n ∷ ns) d f =
    feed-append (reset m) (render n (or_false (lookup n d))) (render_all ns d)
    ∙ ap (λ t. feed t (render_all ns d)) (feed-render m n (or_false (lookup n d)) f.0)
    ∙ feed-render_all (record m { dec = set_mode (or_false (lookup n d)) n m.dec }) ns d f.1

pub contains : ℤ → List ℤ → Bool
contains j [] = false
contains j (n ∷ ns) = eqb_ℤ n j || contains j ns

pub lookup-set_all :
    (j : ℤ) (ns : List ℤ) (d x : List (ℤ × Bool))
    → length x + length ns ≤ max_tracked_modes
    → lookup j (set_all ns d x)
      ≡ (if contains j ns then some (or_false (lookup j d)) else lookup j x)
unfolding set_all contains
lookup-set_all j [] d x l = refl
lookup-set_all j (n ∷ ns) d x l =
    let v = or_false (lookup n d) in
    lookup-set_all j ns d (set_mode v n x) (omega (arith, length-set_mode v n x))
    ∙ ground (arith, lookup-set_mode v n j x, eqb_ℤ_iff n j)

contains-insert_sorted :
    (j n : ℤ) (ns : List ℤ) → contains j (insert_sorted n ns) ≡ (eqb_ℤ n j || contains j ns)
unfolding contains insert_sorted
contains-insert_sorted j n [] = refl
contains-insert_sorted j n (k ∷ ns) = ground (arith, contains-insert_sorted j n ns)

pub contains-sort_ints : (j : ℤ) (ns : List ℤ) → contains j (sort_ints ns) ≡ contains j ns
unfolding contains sort_ints
contains-sort_ints j [] = refl
contains-sort_ints j (n ∷ ns) =
    contains-insert_sorted j n (sort_ints ns) ∙ ap (λ t. eqb_ℤ n j || t) (contains-sort_ints j ns)

pub contains-replayed :
    (j : ℤ) (d : List (ℤ × Bool))
    → contains j (replayed d) ≡ (is_some (lookup j d) && not (transient j))
unfolding contains replayed lookup
contains-replayed j [] = refl
contains-replayed j ((k, v) ∷ d) = ground (arith, contains-replayed j d, eqb_ℤ_iff k j)

length-insert_sorted : (n : ℤ) (ns : List ℤ) → length (insert_sorted n ns) ≡ suc (length ns)
unfolding insert_sorted
length-insert_sorted n [] = refl
length-insert_sorted n (k ∷ ns) = ground (arith, length-insert_sorted n ns)

pub length-replay : (d : List (ℤ × Bool)) → length (sort_ints (replayed d)) ≤ length d
unfolding sort_ints replayed
length-replay [] = omega arith
length-replay ((k, v) ∷ d) =
    ground (arith, length-replay d, length-insert_sorted k (sort_ints (replayed d)))

FitsKeys-insert_sorted :
    (n : ℤ) (ns : List ℤ) → fits_int n ≡ true → FitsKeys ns → FitsKeys (insert_sorted n ns)
unfolding insert_sorted
FitsKeys-insert_sorted n [] f h = (f, tt)
FitsKeys-insert_sorted n (k ∷ ns) f h = ground (arith, FitsKeys-insert_sorted n ns f h.1)

pub FitsKeys-replay : (d : List (ℤ × Bool)) → FitsAll d → FitsKeys (sort_ints (replayed d))
unfolding sort_ints replayed
FitsKeys-replay [] h = tt
FitsKeys-replay ((k, v) ∷ d) h = elim (Bool-cases (transient k)) [
  | inl e ↦ rw e (FitsKeys-replay d h.1)
  | inr e ↦ rw e (FitsKeys-insert_sorted k _ h.0 (FitsKeys-replay d h.1))
]
