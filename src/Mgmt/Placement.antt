-- ===== src/Mgmt/Placement.antt =====
-- internal/mgmtapi's placement of a task: startPlacement and notePlacementFailure of placement.go, and
-- ensureWorkspace of api.go, which the workspace's lock lets run once at a time. Its waits for a tunnel
-- are arguments (what WaitWorkspace answers), as are the replies of the runner and of the database.
pub mod Handle
mod Tests
use Prim.Native.String.{String}
use lemul.Prelude.{
  ℕ, suc, List, [], ◌∷◌, ◌++◌, Option, none, some, Bool, true, false, ◌&&◌, ◌||◌, not,
  if◌then◌else◌,
}
use lemul.Prelude.Dict.{string_key, eqb, lookup}
use lemul.Registry.{Tunnel, Registry, pick_runner, pick_workspace}
use lemul.Mgmt.Rows.{WsRef, ref_key, Workspace, deref_or, nullable}
use lemul.Mgmt.Task.{World, update_row, set_workspace_status, workspace_stopped}

abbrev pub workspace_starting : String
workspace_starting = "starting"

abbrev pub workspace_active : String
workspace_active = "active"

-- What the calls of one placement return: whether the writes of the status at the start, at dispatch
-- and at the end, and of a failure succeed; the failure to take a generation, if any; the tunnel of either wait;
-- and the reply of the runner, a reference or an error's message.
pub data Dispatched : Type 0 where
  refused : String → Dispatched
  reference : String → Dispatched

pub record PlaceAnswers : Type 0 where
  pub start_written : Bool
  pub ref_written : Bool
  pub active_written : Bool
  pub failure_written : Bool
  pub generation_failed : Option String
  pub reconnected : Option Tunnel
  pub dispatched : Dispatched
  pub dialed_in : Option Tunnel

-- failWorkspacePlacement
unfoldable pub fail_workspace_placement : WsRef → String → String → String → World → World
fail_workspace_placement k status task_ref reason =
    update_row k
      (λ ws. record ws { status = status; task_ref = nullable task_ref; last_error = some reason })

-- The status and the reference that notePlacementFailure records.
abbrev pub failure_status : Workspace → String → String × String
failure_status ws dispatched =
    if not (eqb dispatched "")
    then (workspace_starting, dispatched)
    else if not (eqb (deref_or ws.task_ref) "")
    then (ws.status, deref_or ws.task_ref)
    else (workspace_stopped, "")

-- notePlacementFailure, for the row as the caller read it.
unfoldable pub note_placement_failure :
    PlaceAnswers → WsRef → Workspace → String → String → World → World
note_placement_failure ans k ws dispatched cause w =
    let (status, ref) = failure_status ws dispatched in
    if ans.failure_written then fail_workspace_placement k status ref cause w else w

-- What ensureWorkspace returns: a tunnel, or the error that it has also recorded.
pub data Placed : Type 0 where
  placed : Tunnel → Placed
  failed : String → Placed

-- nextGeneration
unfoldable pub next_generation : WsRef → World → World
next_generation k = update_row k (λ ws. record ws { generation = suc ws.generation })

-- The end of the wait for the task that was dispatched.
dial : PlaceAnswers → WsRef → Workspace → String → Option Tunnel → World → Placed × World
dial ans k ws ref none w =
    (failed "did not dial in", note_placement_failure ans k ws ref "did not dial in" w)
dial ans k ws ref (some t) w =
    (placed t, if ans.active_written then set_workspace_status k workspace_active ref w else w)

-- From the reply of the runner on. The error texts are shortened to what varies in them.
after_dispatch : PlaceAnswers → WsRef → Workspace → Dispatched → World → Placed × World
after_dispatch ans k ws (refused cause) w =
    (failed cause, note_placement_failure ans k ws "" cause w)
after_dispatch ans k ws (reference ref) w =
    dial ans k ws ref ans.dialed_in
      (if ans.ref_written then set_workspace_status k workspace_starting ref w else w)

-- A failure to take the generation, or the dispatch.
dispatch : PlaceAnswers → WsRef → Workspace → Option String → World → Placed × World
dispatch ans k ws (some cause) w = (failed cause, note_placement_failure ans k ws "" cause w)
dispatch ans k ws none w =
    let w1 = next_generation k w in
    after_dispatch ans k ws ans.dispatched
      (if ans.start_written then set_workspace_status k workspace_starting "" w1 else w1)

-- From the choice of a runner on.
place_on : PlaceAnswers → WsRef → Workspace → Option Tunnel × Registry → World → Placed × World
place_on ans k ws (none, r) w = (
  failed "no runner connected",
  note_placement_failure ans k ws "" "no runner connected" (record w { registry = r }),
)
place_on ans k ws (some t, r) w =
    dispatch ans k ws ans.generation_failed (record w { registry = r })

-- Whether the row says that a task may be on its way back.
abbrev pub awaited : Workspace → Bool
awaited ws =
    not (eqb (deref_or ws.task_ref) "")
    && (eqb ws.status workspace_active || eqb ws.status workspace_starting)

ensure_on :
    PlaceAnswers → WsRef → Workspace → Option Tunnel → Option Tunnel → World → Placed × World
ensure_on ans k ws (some t) waited w = (placed t, w)
ensure_on ans k ws none (some t) w = (placed t, w)
ensure_on ans k ws none none w = place_on ans k ws (pick_runner k.tenant_id w.registry) w

-- ensureWorkspace, for the row as the caller read it. The waits leave the registry to the waiters' own
-- operations.
unfoldable pub ensure_workspace : PlaceAnswers → WsRef → Workspace → World → Placed × World
unfolding ensure_on place_on dispatch after_dispatch dial
ensure_workspace ans k ws w =
    ensure_on ans k ws
      (pick_workspace (record { tenant_id = k.tenant_id; name = k.name }) w.registry)
      (if awaited ws then ans.reconnected else none) w

-- startPlacement before it spawns ensureWorkspace with the row that it returns.
unfoldable pub start_placement : PlaceAnswers → WsRef → Workspace → World → Workspace × World
start_placement ans k ws w =
    if ans.start_written
    then (
      record ws { status = workspace_starting; last_error = none },
      set_workspace_status k workspace_starting (deref_or ws.task_ref) w,
    )
    else (ws, w)
