-- ===== src/Mgmt/Task/Snapshot.antt =====
-- What becomes of a workspace's disk when its task is stopped.
use Prim.Native.String.{String}
use lemul.Prelude.{
  ◌≡◌, ◌≢◌, refl, sym, ap, ◌∙◌, subst, [], ◌∷◌, ◌++◌, Option, none, some, Bool, ◌||◌, not, arith,
  if_true, if_false, if_elim, Bool-cases, Option-cases, inl, inr, ◌⊎◌,
}
use lemul.Prelude.Dict.{string_key, eqb, eqb_iff, Dict, lookup}
use lemul.Registry.{Tunnel, Registry, pick_runner}
use lemul.Mgmt.Rows.{WsRef, ref_key, Workspace, deref_or, nullable}
use lemul.Mgmt.Task.{
  Command, stop_workspace, drop_snapshot, Answers, World, update_row, snapshot_of, drop_by,
  record_on, record_snapshot, stopped_by, stop_by, stop_task,
}
use lemul.Mgmt.Task.Kept.{
  lookup-updated, update_row-kept, Sends, sends_nothing, sends_one, sends_both,
}

-- A command that destroys no disk but `old`, and that only if the row names another, `new`.
abbrev pub SparesDisk : String → String → Command → Type 0
SparesDisk old new (drop_snapshot t id) = (id ≡ old) × (old ≢ new) × (new ≢ "")
SparesDisk old new _ = Unit

abbrev pub disk : WsRef → World → String
disk k w = snapshot_of (lookup k w.rows)

-- The disk that the row named is named still, or another is; what is dropped is the former one.
pub record IsPreserved (k : WsRef) (w w' : World) : Type 0 where
  pub named : (disk k w' ≡ disk k w) ⊎ (disk k w' ≢ "")
  pub sends : Sends (SparesDisk (disk k w) (disk k w')) w w'

deref-nullable : (s : String) → deref_or (nullable s) ≡ s
deref-nullable s = ground (arith, eqb_iff s "")

module _ (k : WsRef) where
  unchanged-IsPreserved : (w w' : World) → w'.rows ≡ w.rows → w'.sent ≡ w.sent → IsPreserved k w w'
  unchanged-IsPreserved w w' r e = record {
    named = inl (ap (λ (d : Dict WsRef Workspace). snapshot_of (lookup k d)) r);
    sends = sends_nothing _ w w' e;
  }

  module _ (s : String) (ws : Workspace) (w : World) (row : lookup k w.rows ≡ some ws)
      (nonempty : s ≢ "") where
    abbrev on_row : World
    on_row = update_row k (λ v. record v { snapshot_id = nullable s }) w

    disk-on_row : disk k on_row ≡ s
    disk-on_row = ap snapshot_of (lookup-updated k _ w row) ∙ deref-nullable s

    on_row-IsPreserved :
        (w' : World)
        → w'.rows ≡ on_row.rows
        → Sends (SparesDisk (disk k w) s) w w'
        → IsPreserved k w w'
    on_row-IsPreserved w' e h =
        let named : disk k w' ≡ s =
          ap (λ (d : Dict WsRef Workspace). snapshot_of (lookup k d)) e ∙ disk-on_row in
        record {
          named = inr (subst (λ d. d ≢ "") (sym named) nonempty);
          sends = subst (λ d. Sends (SparesDisk (disk k w) d) w w') (sym named) h;
        }

    drop_by-IsPreserved :
        (p : Option Tunnel × Registry)
        → deref_or ws.snapshot_id ≢ s
        → IsPreserved k w (drop_by (deref_or ws.snapshot_id) p on_row)
    unfolding drop_by
    drop_by-IsPreserved (none, r) d =
        let w' = record on_row { registry = r } in
        on_row-IsPreserved w' refl (sends_nothing _ w w' (update_row-kept k _ w).0)
    drop_by-IsPreserved (some t, r) d =
        let old = deref_or ws.snapshot_id in
        let drop = drop_snapshot t old in
        let w' = record on_row { registry = r; sent = on_row.sent ++ drop ∷ [] } in
        let was = sym (ap snapshot_of row) in
        on_row-IsPreserved w' refl (
          sends_one _ w w' drop (ap (λ l. l ++ drop ∷ []) (update_row-kept k _ w).0)
            (was, subst (λ x. x ≢ s) was d, nonempty))

    record_on-IsPreserved : IsPreserved k w (record_on s k (some ws) w)
    unfolding record_on
    record_on-IsPreserved =
        let old = deref_or ws.snapshot_id in
        elim (Bool-cases (eqb old s || eqb old "")) [
          | inl e ↦
              subst (IsPreserved k w) (sym (if_true on_row _ e)) (
                on_row-IsPreserved on_row refl (sends_nothing _ w on_row (update_row-kept k _ w).0))
          | inr e ↦
              let other : old ≢ s = λ d. ground (arith, (eqb_iff old s).1 d) in
              subst (IsPreserved k w) (sym (if_false on_row _ e))
                (drop_by-IsPreserved (pick_runner k.tenant_id on_row.registry) other)
        ]

  row-IsPreserved :
      (s : String) (w : World) → s ≢ "" → IsPreserved k w (record_on s k (lookup k w.rows) w)
  unfolding record_on
  row-IsPreserved s w nonempty = elim (Option-cases (lookup k w.rows)) [
    | inl e ↦
        subst (λ o. IsPreserved k w (record_on s k o w)) (sym e)
          (unchanged-IsPreserved w w refl refl)
    | inr (ws, e) ↦
        subst (λ o. IsPreserved k w (record_on s k o w)) (sym e)
          (record_on-IsPreserved s ws w e nonempty)
  ]

  record_snapshot-IsPreserved :
      (ans : Answers) (s : String) (w : World) → IsPreserved k w (record_snapshot ans k s w)
  unfolding record_snapshot
  record_snapshot-IsPreserved ans s w = elim (Bool-cases (eqb s "" || not ans.snapshot_written)) [
    | inl e ↦ subst (IsPreserved k w) (sym (if_true w _ e)) (unchanged-IsPreserved w w refl refl)
    | inr e ↦
        let nonempty : s ≢ "" = λ d. ground (arith, (eqb_iff s "").1 d) in
        subst (IsPreserved k w) (sym (if_false w _ e)) (row-IsPreserved s w nonempty)
  ]

  stopped_by-IsPreserved :
      (ans : Answers) (preserve : Bool) (reply : Option String) (w : World)
      → IsPreserved k w (stopped_by ans k preserve reply w)
  unfolding stopped_by
  stopped_by-IsPreserved ans preserve none w = unchanged-IsPreserved w w refl refl
  stopped_by-IsPreserved ans preserve (some s) w =
      if_elim (IsPreserved k w) preserve _ w (record_snapshot-IsPreserved ans s w)
        (unchanged-IsPreserved w w refl refl)

  stop_by-IsPreserved :
      (ans : Answers) (ref : String) (preserve : Bool) (p : Option Tunnel × Registry) (w : World)
      → IsPreserved k w (stop_by ans k ref preserve p w)
  unfolding stop_by
  stop_by-IsPreserved ans ref preserve (none, r) w =
      unchanged-IsPreserved w (record w { registry = r }) refl refl
  stop_by-IsPreserved ans ref preserve (some t, r) w =
      let stop = stop_workspace t k.name ref preserve in
      let v = record w { registry = r; sent = w.sent ++ stop ∷ [] } in
      let rest = stopped_by-IsPreserved ans preserve ans.stopped v in
      record {
        named = rest.named;
        sends =
            sends_both _ w v (stopped_by ans k preserve ans.stopped v)
              (sends_one _ w v stop refl tt) rest.sends;
      }

-- However stopping a task goes, with the disk preserved or not: the row goes on naming the snapshot
-- that it named, or comes to name another one; and a snapshot is dropped only where the row has come to
-- name another one, and then it is the one that the row named before.
pub stop_task-IsPreserved :
    (ans : Answers) (k : WsRef) (ref : String) (preserve : Bool) (w : World)
    → IsPreserved k w (stop_task ans k ref preserve w)
unfolding stop_task
stop_task-IsPreserved ans k ref preserve w =
    if_elim (IsPreserved k w) (eqb ref "") w _ (unchanged-IsPreserved k w w refl refl)
      (stop_by-IsPreserved k ans ref preserve (pick_runner k.tenant_id w.registry) w)
