-- ===== src/Mgmt/Reaper/Passes.antt =====
-- When the passes of the reaper over one workspace stop its task.
use mathlib.Core.List.{append_assoc, append-nil}
use lemul.Prelude.{
  ℕ, ◌+◌, ◌*◌, ◌≤◌, ◌≡◌, refl, sym, ap, ◌∙◌, subst, List, [], ◌∷◌, ◌++◌, Option, none, some, Bool,
  true, false, ltb, ltb_false→le, arith, Bool-cases, inl, inr, All, All-snoc, ◌⊎◌,
}
use lemul.Prelude.Dict.{string_key}
use lemul.Mgmt.Rows.{WsRef, ref_key}
use lemul.Mgmt.Task.{World}
use lemul.Mgmt.Task.Kept.{Sends}
use lemul.Mgmt.Reaper.Hold.{Spares, Holds, next_hold, expires}
use lemul.Mgmt.Reaper.Pass.{Pass, runs, one_pass, pass-Holds, pass-Spares}

unfoldable pub passes : WsRef → List Pass → World → World
passes k [] w = w
passes k (p ∷ ps) w = passes k ps (one_pass k p w)

-- A report of no session, and a pass whose write of the hold succeeds.
abbrev pub IsQuiet : Pass → Type 0
IsQuiet p = runs p ≡ false

abbrev pub IsWritten : Pass → Type 0
IsWritten p = p.answers.hold_written ≡ true

-- The passes so far end with quiet ones, of which the first set the deadline.
record IsTimed (n : ℕ) (ps : List Pass) (until : ℕ) : Type 0 where
  pub before : List Pass
  pub first : Pass
  pub quiet : List Pass
  pub split : ps ≡ before ++ first ∷ quiet
  pub all_quiet : All IsQuiet (first ∷ quiet)
  pub deadline : until ≡ first.now + n * 1000000000

-- That, where a hold is on the row.
abbrev Timed : ℕ → List Pass → Option ℕ → Type 0
Timed n ps none = Unit
Timed n ps (some until) = IsTimed n ps until

next_hold-Timed :
    (n : ℕ) (ps : List Pass) (p : Pass) (u : Option ℕ) (busy : Bool)
    → runs p ≡ busy
    → Timed n ps u
    → Timed n (ps ++ p ∷ []) (next_hold n u busy p.now)
next_hold-Timed n ps p none true e t = tt
next_hold-Timed n ps p (some x) true e t = tt
next_hold-Timed n ps p none false e t = record {
  before = ps;
  first = p;
  quiet = [];
  split = refl;
  all_quiet = (e, tt);
  deadline = refl;
}
next_hold-Timed n ps p (some x) false e t = elim (Bool-cases (ltb p.now x)) [
  | inl b ↦ rw b record {
    before = t.before;
    first = t.first;
    quiet = t.quiet ++ p ∷ [];
    split = ap (λ l. l ++ p ∷ []) t.split ∙ append_assoc t.before (t.first ∷ t.quiet) (p ∷ []);
    all_quiet = All-snoc IsQuiet (t.first ∷ t.quiet) p t.all_quiet e;
    deadline = t.deadline;
  }
  | inr b ↦ rw b tt
]

overdue :
    (n : ℕ) (ps : List Pass) (p : Pass) (u : Option ℕ) (busy : Bool)
    → runs p ≡ busy
    → Timed n ps u
    → expires u busy p.now ≡ true
    → (before : List Pass) × (first : Pass) × (quiet : List Pass) × (ps ≡ before ++ first ∷ quiet)
      × All IsQuiet (first ∷ quiet)
      × IsQuiet p
      × (first.now + n * 1000000000 ≤ p.now)
overdue n ps p none true r t e = cc
overdue n ps p none false r t e = cc
overdue n ps p (some x) true r t e = cc
overdue n ps p (some x) false r t e =
    let d = t.deadline in
    let late : x ≤ p.now = ltb_false→le p.now x (ground arith) in
    (t.before, t.first, t.quiet, t.split, t.all_quiet, r, omega arith)

module _ (k : WsRef) (n : ℕ) where
  -- What the passes leave: a hold that is timed, and the length of one unchanged.
  record IsOn (ps : List Pass) (w : World) : Type 0 where
    hold : Option ℕ
    row : Holds k hold n w
    timed : Timed n ps hold

  pass-IsOn :
      (ps : List Pass) (p : Pass) (w : World)
      → IsWritten p
      → IsOn ps w
      → IsOn (ps ++ p ∷ []) (one_pass k p w)
  pass-IsOn ps p w e o = record {
    hold = next_hold n o.hold (runs p) p.now;
    row = pass-Holds k n o.hold p w o.row e;
    timed = next_hold-Timed n ps p o.hold (runs p) refl o.timed;
  }

  passes-IsOn :
      (done ps : List Pass) (w : World)
      → All IsWritten ps
      → IsOn done w
      → IsOn (done ++ ps) (passes k ps w)
  unfolding passes
  passes-IsOn done [] w e o = subst (λ l. IsOn l w) (sym (append-nil done)) o
  passes-IsOn done (p ∷ ps) w e o =
      subst (λ l. IsOn l (passes k ps (one_pass k p w))) (append_assoc done (p ∷ []) ps)
        (passes-IsOn (done ++ p ∷ []) ps (one_pass k p w) e.1 (pass-IsOn done p w e.0 o))

-- After any passes over a workspace whose row starts without a warm hold, the writes of the hold
-- succeeding, one more pass sends commands that stop single sessions only, or else: it and the passes
-- before it, back to one that is at least the length of the hold earlier, all had a report of no
-- session.
pub passes-hold :
    (k : WsRef) (n : ℕ) (ps : List Pass) (p : Pass) (w : World)
    → Holds k none n w
    → All IsWritten ps
    → Sends Spares (passes k ps w) (one_pass k p (passes k ps w))
      ⊎ ((before : List Pass) × (first : Pass) × (quiet : List Pass) × (ps
            ≡ before ++ first ∷ quiet)
          × All IsQuiet (first ∷ quiet)
          × IsQuiet p
          × (first.now + n * 1000000000 ≤ p.now))
passes-hold k n ps p w h e =
    let o = passes-IsOn k n [] ps w e (record { hold = none; row = h; timed = tt }) in
    elim (Bool-cases (expires o.hold (runs p) p.now)) [
      | inl x ↦ inr (overdue n ps p o.hold (runs p) refl o.timed x)
      | inr x ↦ inl (pass-Spares k n o.hold p (passes k ps w) o.row x)
    ]
