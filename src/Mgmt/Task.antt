-- ===== src/Mgmt/Task.antt =====
-- What the control plane changes when it stops a workspace's task, from internal/mgmtapi's
-- workspacecrud.go and state.go. `World` is what a sweep reads and writes: the rows of the database,
-- the reports, the registry, and `sent`, the commands sent through tunnels, in order. The database and
-- the agents are outside: `Answers` is what their calls return while one workspace is swept. Nothing
-- else writes the row meanwhile.
pub mod Kept
pub mod Snapshot
use Prim.Native.String.{String}
use lemul.Prelude.{
  ℕ, ◌+◌, ◌*◌, List, [], ◌∷◌, ◌++◌, Option, none, some, Bool, true, false, ◌&&◌, ◌||◌, not, ltb,
  ◌==◌, if◌then◌else◌, length,
}
use lemul.Prelude.Int.{ℤ, pos, ltb_ℤ}
use lemul.Prelude.Dict.{string_key, Dict, eqb, lookup, put}
use lemul.Registry.{Tunnel, Registry, pick_runner, pick_workspace}
use lemul.Mgmt.Rows.{
  WsRef, ref_key, Workspace, deref_or, nullable, SessionActivity, Headroom, ActivityReport,
}
use lemul.Mgmt.Activity.{ActivityStore, forget, fresh}
use lemul.Mgmt.Admission.{idle_timeout}

pub data Command : Type 0 where
  stop_session : Tunnel → String → Command
  stop_workspace : Tunnel → String → String → Bool → Command
  drop_snapshot : Tunnel → String → Command

-- The session rows (a session's id and its own timeout, if any) or the failure to read them; whether
-- each write succeeds; the reply to stop_workspace, none for an error, else the snapshot's id.
pub record Answers : Type 0 where
  pub sessions : Option (List (String × Option ℕ))
  pub pinned_written : Bool
  pub status_written : Bool
  pub hold_written : Bool
  pub snapshot_written : Bool
  pub stopped : Option String

pub record World : Type 0 where
  pub rows : Dict WsRef Workspace
  pub activity : ActivityStore
  pub registry : Registry
  pub sent : List Command

abbrev pub workspace_stopped : String
workspace_stopped = "stopped"

-- An UPDATE of one row; of no row, it does nothing.
unfoldable pub update_row : WsRef → (Workspace → Workspace) → World → World
update_row k f w = elim (lookup k w.rows) [
  | none ↦ w
  | some ws ↦ record w { rows = put k (f ws) w.rows }
]

-- setWorkspaceStatus, which clears the message of an earlier failure.
unfoldable pub set_workspace_status : WsRef → String → String → World → World
set_workspace_status k status task_ref =
    update_row k
      (λ ws. record ws { status = status; task_ref = nullable task_ref; last_error = none })

-- setWarmHold
unfoldable pub set_warm_hold : WsRef → Option ℕ → World → World
set_warm_hold k until = update_row k (λ ws. record ws { warm_hold_until = until })

-- setIdlePinned
unfoldable pub set_idle_pinned : WsRef → Option ℕ → World → World
set_idle_pinned k since = update_row k (λ ws. record ws { idle_pinned_since = since })

-- The snapshot that a row names, where the empty text is none.
abbrev pub snapshot_of : Option Workspace → String
snapshot_of none = ""
snapshot_of (some ws) = deref_or ws.snapshot_id

-- The command to drop a displaced snapshot, if a runner is connected.
drop_by : String → Option Tunnel × Registry → World → World
drop_by previous (none, r) w = record w { registry = r }
drop_by previous (some t, r) w = record w {
  registry = r;
  sent = w.sent ++ drop_snapshot t previous ∷ [];
}

-- The write of the new snapshot, and then the collection of the one that it displaced. Reading the
-- row fails where there is none.
record_on : String → WsRef → Option Workspace → World → World
record_on snapshot k none w = w
record_on snapshot k (some ws) w =
    let previous = deref_or ws.snapshot_id in
    let named = update_row k (λ v. record v { snapshot_id = nullable snapshot }) w in
    if eqb previous snapshot || eqb previous ""
    then named
    else drop_by previous (pick_runner k.tenant_id named.registry) named

-- preserveDisk.record with setWorkspaceSnapshot.
unfoldable pub record_snapshot : Answers → WsRef → String → World → World
unfolding drop_by record_on
record_snapshot ans k snapshot w =
    if eqb snapshot "" || not ans.snapshot_written
    then w
    else record_on snapshot k (lookup k w.rows) w

-- What follows the reply to stop_workspace.
stopped_by : Answers → WsRef → Bool → Option String → World → World
stopped_by ans k preserve none w = w
stopped_by ans k preserve (some snapshot) w =
    if preserve then record_snapshot ans k snapshot w else w

stop_by : Answers → WsRef → String → Bool → Option Tunnel × Registry → World → World
stop_by ans k ref preserve (none, r) w = record w { registry = r }
stop_by ans k ref preserve (some t, r) w =
    stopped_by ans k preserve ans.stopped
      (record w { registry = r; sent = w.sent ++ stop_workspace t k.name ref preserve ∷ [] })

-- stopTask. `preserve` is keepDisk or dropDisk.
unfoldable pub stop_task : Answers → WsRef → String → Bool → World → World
unfolding stop_by stopped_by
stop_task ans k ref preserve w =
    if eqb ref "" then w else stop_by ans k ref preserve (pick_runner k.tenant_id w.registry) w
