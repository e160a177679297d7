-- ===== src/Mgmt/Task/Kept.antt =====
-- What a change of one row leaves alone, and what stopping a task sends.
use Prim.Native.String.{String}
use lemul.Prelude.{
  All-append, ◌≡◌, refl, sym, ap, ◌∙◌, List, [], ◌∷◌, ◌++◌, Option, none, some, Bool, ◌||◌, not,
  arith, if◌then◌else◌, if_true, if_elim, All,
}
use mathlib.Core.List.{append_assoc, append-nil}
use lemul.Prelude.Dict.{string_key, eqb, eqb_iff, lookup, put, lookup-put}
use lemul.Registry.{Tunnel, Registry, pick_runner}
use lemul.Mgmt.Rows.{WsRef, ref_key, Workspace, nullable}
use lemul.Mgmt.Task.{
  Command, Answers, World, update_row, drop_by, record_on, record_snapshot, stopped_by, stop_by,
  stop_task,
}

update_row-found :
    (k : WsRef) (f : Workspace → Workspace) (w : World) {ws : Workspace}
    → lookup k w.rows ≡ some ws
    → update_row k f w ≡ record w { rows = put k (f ws) w.rows }
unfolding update_row
update_row-found k f w {ws} e = ground arith

-- The row that an update leaves.
pub lookup-update_row :
    (k j : WsRef) (f : Workspace → Workspace) (w : World) {ws : Workspace}
    → lookup k w.rows ≡ some ws
    → lookup j (update_row k f w).rows ≡ (if eqb k j then some (f ws) else lookup j w.rows)
unfolding update_row
lookup-update_row k j f w {ws} e =
    ap (λ v. lookup j v.rows) (update_row-found k f w e) ∙ lookup-put k j (f ws) w.rows

pub update_row-missing :
    (k : WsRef) (f : Workspace → Workspace) (w : World)
    → lookup k w.rows ≡ none
    → update_row k f w ≡ w
unfolding update_row
update_row-missing k f w e = ground arith

pub update_row-kept :
    (k : WsRef) (f : Workspace → Workspace) (w : World)
    → ((update_row k f w).sent ≡ w.sent)
      × ((update_row k f w).activity ≡ w.activity)
      × ((update_row k f w).registry ≡ w.registry)
unfolding update_row
update_row-kept k f w = ground arith

pub lookup-updated :
    (k : WsRef) (f : Workspace → Workspace) (w : World) {ws : Workspace}
    → lookup k w.rows ≡ some ws
    → lookup k (update_row k f w).rows ≡ some (f ws)
lookup-updated k f w {ws} e = lookup-update_row k k f w e ∙ if_true _ _ ((eqb_iff k k).1 refl)

-- The commands that a change of the world has sent, each with a property.
abbrev pub Sends : (Command → Type 0) → World → World → Type 0
Sends P w w' = (added : List Command) × (w'.sent ≡ w.sent ++ added) × All P added

module _ (P : Command → Type 0) where
  pub sends_nothing : (w w' : World) → w'.sent ≡ w.sent → Sends P w w'
  sends_nothing w w' e = ([], e ∙ sym (append-nil w.sent), tt)

  pub sends_one : (w w' : World) (c : Command) → w'.sent ≡ w.sent ++ c ∷ [] → P c → Sends P w w'
  sends_one w w' c e p = (c ∷ [], e, (p, tt))

  pub sends_both : (w v u : World) → Sends P w v → Sends P v u → Sends P w u
  sends_both w v u (xs, e, h) (ys, d, g) =
      (xs ++ ys, simp (d, e, append_assoc) refl, All-append P xs ys h g)

-- What stopping a task keeps: anything that looks at no more of the world than its rows, and at no
-- snapshot.
module _ (k : WsRef) (Q : World → Type 0) (by_rows : (w w' : World) → w'.rows ≡ w.rows → Q w → Q w')
    (by_snapshot : (s : Option String) (w : World)
      → Q w
      → Q (update_row k (λ v. record v { snapshot_id = s }) w)) where
  drop_by-keeps :
      (previous : String) (p : Option Tunnel × Registry) (w : World)
      → Q w
      → Q (drop_by previous p w)
  unfolding drop_by
  drop_by-keeps previous (none, r) w q = by_rows w _ refl q
  drop_by-keeps previous (some t, r) w q = by_rows w _ refl q

  record_on-keeps : (s : String) (o : Option Workspace) (w : World) → Q w → Q (record_on s k o w)
  unfolding record_on
  record_on-keeps s none w q = q
  record_on-keeps s (some ws) w q =
      let named = by_snapshot (nullable s) w q in if_elim Q _ _ _ named (drop_by-keeps _ _ _ named)

  record_snapshot-keeps :
      (ans : Answers) (s : String) (w : World) → Q w → Q (record_snapshot ans k s w)
  unfolding record_snapshot
  record_snapshot-keeps ans s w q =
      if_elim Q (eqb s "" || not ans.snapshot_written) _ _ q
        (record_on-keeps s (lookup k w.rows) w q)

  stopped_by-keeps :
      (ans : Answers) (preserve : Bool) (reply : Option String) (w : World)
      → Q w
      → Q (stopped_by ans k preserve reply w)
  unfolding stopped_by
  stopped_by-keeps ans preserve none w q = q
  stopped_by-keeps ans preserve (some s) w q = if_elim Q _ _ _ (record_snapshot-keeps ans s w q) q

  stop_by-keeps :
      (ans : Answers) (ref : String) (preserve : Bool) (p : Option Tunnel × Registry) (w : World)
      → Q w
      → Q (stop_by ans k ref preserve p w)
  unfolding stop_by
  stop_by-keeps ans ref preserve (none, r) w q = by_rows w _ refl q
  stop_by-keeps ans ref preserve (some t, r) w q =
      stopped_by-keeps ans preserve ans.stopped _ (by_rows w _ refl q)

  pub stop_task-keeps :
      (ans : Answers) (ref : String) (preserve : Bool) (w : World)
      → Q w
      → Q (stop_task ans k ref preserve w)
  unfolding stop_task
  stop_task-keeps ans ref preserve w q =
      if_elim Q _ _ _ q (stop_by-keeps ans ref preserve (pick_runner k.tenant_id w.registry) w q)
