-- ===== src/Mgmt/Placement/Tests.antt =====
-- A placement on a small input, and the theorem at it.
use lemul.Prelude.{◌≡◌, refl, [], ◌∷◌, none, some, true}
use lemul.Prelude.Dict.{string_key, lookup, without, put}
use lemul.Registry.{get, last_of, pick_runner, pick_workspace}
use lemul.Mgmt.Rows.{WsRef, ref_key, Workspace}
use lemul.Mgmt.Task.{World, update_row, set_workspace_status}
use lemul.Mgmt.Placement.{
  PlaceAnswers, reference, fail_workspace_placement, note_placement_failure, next_generation,
  ensure_workspace,
}

abbrev api : WsRef
api = record { tenant_id = "acme"; name = "api" }

abbrev stopped_row : Workspace
stopped_row = record {
  status = "stopped";
  generation = 1;
  task_ref = none;
  last_error = none;
  snapshot_id = none;
  idle_timeout_secs = 7200;
  warm_hold_secs = 3600;
  warm_hold_until = none;
  idle_pinned_since = none;
  admission_policy = "unlimited";
  max_sessions = 4;
  min_free_memory_pct = 20;
}

abbrev cold : World
cold = record {
  rows = (api, stopped_row) ∷ [];
  activity = [];
  registry = record {
    runners = ("acme", record { ref = 2; tenant_id = "acme"; workspace_name = "" } ∷ []) ∷ [];
    workspaces = [];
    waiters = [];
    rr = 0;
    next_chan = 0;
    sent = [];
  };
  sent = [];
}

-- The runner starts a task, which never dials in.
abbrev slow : PlaceAnswers
slow = record {
  start_written = true;
  ref_written = true;
  active_written = true;
  failure_written = true;
  generation_failed = none;
  reconnected = none;
  dispatched = reference "task-2";
  dialed_in = none;
}

slow-run :
    lookup api (ensure_workspace slow api stopped_row cold).1.rows
    ≡ some (record stopped_row {
      status = "starting";
      generation = 2;
      task_ref = some "task-2";
      last_error = some "did not dial in";
    })
unfolding ensure_workspace note_placement_failure fail_workspace_placement next_generation
    update_row set_workspace_status lookup put without get last_of pick_runner pick_workspace
slow-run = refl

-- A second caller that read the row before the first wrote it, and whose generation cannot be taken,
-- erases the first one's task from the row.
stale-run :
    lookup api
      (ensure_workspace
        (record slow { generation_failed = some "down" })
        api
        stopped_row
        (ensure_workspace slow api stopped_row cold).1).1.rows
    ≡ some (record stopped_row { generation = 2; last_error = some "down" })
unfolding ensure_workspace note_placement_failure fail_workspace_placement next_generation
    update_row set_workspace_status lookup put without get last_of pick_runner pick_workspace
stale-run = refl
