-- ===== src/Mgmt/Reaper/Silence.antt =====
-- A workspace that does not report lately is left alone by a sweep.
use lemul.Prelude.{
  ℕ, ◌≡◌, refl, sym, ap, ◌∙◌, subst, List, [], ◌∷◌, Option, none, some, Bool, true, false, not,
  if◌then◌else◌, if_true, if_false, if_elim, Bool-cases, Option-cases, inl, inr, All, ◌⊎◌,
}
use lemul.Prelude.Dict.{string_key, eqb, eqb_iff, lookup}
use lemul.Mgmt.Rows.{WsRef, ref_key, Workspace, ActivityReport, deref_or}
use lemul.Mgmt.Activity.{fresh}
use lemul.Mgmt.Task.{
  Answers, World, update_row, set_workspace_status, set_warm_hold, set_idle_pinned,
}
use lemul.Mgmt.Task.Kept.{lookup-update_row, update_row-missing, stop_task-keeps}
use lemul.Mgmt.Reaper.{
  stop_idle_sessions, note_on, note_pinned, expire, hold_on, advance_warm_hold, sweep_on,
  sweep_workspace, sweep_all, sweep,
}

-- Another workspace's row, whatever it is, or its absence.
abbrev Row : WsRef → Option Workspace → World → Type 0
Row j o w = lookup j w.rows ≡ o

module _ (k j : WsRef) (other : eqb k j ≡ false) (o : Option Workspace) where
  by_rows-Row : (w w' : World) → w'.rows ≡ w.rows → Row j o w → Row j o w'
  by_rows-Row w w' e h = ap (lookup j) e ∙ h

  update-Row : (f : Workspace → Workspace) (w : World) → Row j o w → Row j o (update_row k f w)
  update-Row f w h = elim (Option-cases (lookup k w.rows)) [
    | inl e ↦ ap (λ (v : World). lookup j v.rows) (update_row-missing k f w e) ∙ h
    | inr (ws, e) ↦ lookup-update_row k j f w e ∙ if_false _ _ other ∙ h
  ]

  note-Row :
      (ans : Answers) (since : Option ℕ) (p : Bool) (now : ℕ) (w : World)
      → Row j o w
      → Row j o (note_on ans k since p now w)
  unfolding note_on set_idle_pinned
  note-Row ans none p now w h = if_elim (Row j o) _ _ w (update-Row _ w h) h
  note-Row ans (some t) p now w h = if_elim (Row j o) _ _ w (update-Row _ w h) h

  expire-Row :
      (ans : Answers) (ws : Workspace) (w : World) → Row j o w → Row j o (expire ans k ws w)
  unfolding expire set_workspace_status set_warm_hold
  expire-Row ans ws w h =
      let stopped =
        stop_task-keeps k (Row j o) by_rows-Row (λ s. update-Row _) ans (deref_or ws.task_ref) true
          w h in
      let recorded = if_elim (Row j o) ans.status_written _ _ (update-Row _ _ stopped) stopped in
      if_elim (Row j o) ans.hold_written _ _ (update-Row _ _ recorded) recorded

  hold-Row :
      (ans : Answers) (ws : Workspace) (u : Option ℕ) (busy : Bool) (now : ℕ) (w : World)
      → Row j o w
      → Row j o (hold_on ans k ws u busy now w)
  unfolding hold_on set_warm_hold
  hold-Row ans ws none true now w h = h
  hold-Row ans ws (some t) true now w h = if_elim (Row j o) _ _ w (update-Row _ w h) h
  hold-Row ans ws none false now w h = if_elim (Row j o) _ _ w (update-Row _ w h) h
  hold-Row ans ws (some t) false now w h = if_elim (Row j o) _ w _ h (expire-Row ans ws w h)

  sweep-Row :
      (ans : Answers) (rep : ActivityReport) (now : ℕ) (row : Option Workspace) (w : World)
      → Row j o w
      → Row j o (sweep_on ans k rep now row w)
  unfolding sweep_on advance_warm_hold note_pinned stop_idle_sessions
  sweep-Row ans rep now none w h = h
  sweep-Row ans rep now (some ws) w h =
      let (held, w1) = stop_idle_sessions ans k ws rep w in
      hold-Row ans ws ws.warm_hold_until _ now _ (note-Row ans ws.idle_pinned_since held now w1 h)

abbrev pub IsSilent : ℕ → ℕ → WsRef → WsRef × ActivityReport → Type 0
IsSilent interval now j r = r.0 ≡ j → fresh r.1 now interval ≡ false

sweep_all-Row :
    (ans : WsRef → Answers) (interval now : ℕ) (j : WsRef) (o : Option Workspace)
    (reports : List (WsRef × ActivityReport)) (w : World)
    → All (IsSilent interval now j) reports
    → Row j o w
    → Row j o (sweep_all ans interval now reports w)
unfolding sweep_all sweep_workspace
sweep_all-Row ans interval now j o [] w h r = r
sweep_all-Row ans interval now j o ((k, rep) ∷ reports) w h r =
    sweep_all-Row ans interval now j o reports _ h.1 (one (Bool-cases (eqb k j)))
  where
    one :
        (eqb k j ≡ true) ⊎ (eqb k j ≡ false)
        → Row j o (if not (fresh rep now interval) then w else sweep_workspace (ans k) k rep now w)
    one (inl e) = subst (Row j o) (sym (if_true w _ (ap not (h.0 ((eqb_iff k j).0 e))))) r
    one (inr e) =
        if_elim (Row j o) _ w _ r (sweep-Row k j e o (ans k) rep now (lookup k w.rows) w r)

stale-same :
    (ans : WsRef → Answers) (interval now : ℕ) (reports : List (WsRef × ActivityReport)) (w : World)
    → All (λ r. fresh r.1 now interval ≡ false) reports
    → sweep_all ans interval now reports w ≡ w
unfolding sweep_all
stale-same ans interval now [] w h = refl
stale-same ans interval now ((k, rep) ∷ reports) w h =
    ap (sweep_all ans interval now reports) (if_true w _ (ap not h.0))
    ∙ stale-same ans interval now reports w h.1

-- Silence is not idleness: a sweep leaves the row of a workspace as it is, whatever it does to others,
-- if the store has no fresh report of that workspace; and if it has no fresh report of any, the sweep
-- changes nothing and sends nothing.
pub sweep-IsSilent :
    (ans : WsRef → Answers) (interval now : ℕ) (w : World)
    → ((j : WsRef)
        → All (IsSilent interval now j) w.activity
        → lookup j (sweep ans interval now w).rows ≡ lookup j w.rows)
      × (All (λ r. fresh r.1 now interval ≡ false) w.activity → sweep ans interval now w ≡ w)
unfolding sweep
sweep-IsSilent ans interval now w = (
  λ j h. sweep_all-Row ans interval now j (lookup j w.rows) w.activity w h refl,
  stale-same ans interval now w.activity w,
)
