-- ===== src/Mgmt/Placement/Handle.antt =====
-- That the reference of a task, the handle for stopping it, is not lost by a placement.
use Prim.Native.String.{String}
use lemul.Prelude.{◌≡◌, some, ◌⊎◌}
use lemul.Prelude.Dict.{string_key, lookup}
use lemul.Registry.{Registry}
use lemul.Mgmt.Rows.{WsRef, ref_key, Workspace, deref_or}
use lemul.Mgmt.Task.{World}
use lemul.Mgmt.Placement.{reference, PlaceAnswers, Placed, failed}

-- The row after a placement: it names the task that it named, or the one that the runner reports, and
-- after a failure it says why.
pub record IsHandled (k : WsRef) (ans : PlaceAnswers) (ws : Workspace) (r : Placed × World)
    : Type 0 where
  pub now : Workspace
  pub row : lookup k r.1.rows ≡ some now
  pub handle :
      (deref_or now.task_ref ≡ deref_or ws.task_ref)
      ⊎ ((ref : String) × (ans.dispatched ≡ reference ref) × (deref_or now.task_ref ≡ ref))
  pub cause : (c : String) → r.0 ≡ failed c → now.last_error ≡ some c

abbrev Handle : PlaceAnswers → Workspace → String → Type 0
Handle ans ws s =
    (s ≡ deref_or ws.task_ref) ⊎ ((ref : String) × (ans.dispatched ≡ reference ref) × (s ≡ ref))

module _ (k : WsRef) (ans : PlaceAnswers) (ws : Workspace) where
  -- A row, whatever it is.
  HasRow : World → Type 0
  HasRow w = (v : Workspace) × (lookup k w.rows ≡ some v)
