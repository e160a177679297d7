-- ===== src/Mgmt/Tests.antt =====
-- Runs of internal/mgmtapi on small inputs, and its theorems at them.
use Prim.Native.String.{String}
use lemul.Prelude.{
  ℕ, ◌+◌, ◌*◌, ◌/◌, ◌≤◌, ◌≡◌, ◌⊎◌, refl, List, [], ◌∷◌, ◌++◌, none, some, true, false, arith, All,
}
use lemul.Prelude.Int.{ℤ, pos, ◌≤ℤ◌}
use lemul.Prelude.Dict.{string_key, eqb_iff, lookup, without, put}
use lemul.Registry.{Tunnel, get, pick_runner, pick_workspace, last_of}
use lemul.Mgmt.Rows.{WsRef, ref_key, Workspace, SessionActivity, Headroom, ActivityReport}
use lemul.Mgmt.Activity.{fresh}
use lemul.Mgmt.Admission.{AdmissionPolicy, admit, refuse_memory, admits, by_memory, required}
use lemul.Mgmt.Admission.Memory.{admits-room}
use lemul.Mgmt.Task.{
  stop_session, stop_workspace, drop_snapshot, Answers, World, update_row, record_snapshot,
  stop_task,
}
use lemul.Mgmt.Task.Kept.{Sends}
use lemul.Mgmt.Task.Snapshot.{IsPreserved, stop_task-IsPreserved}
use lemul.Mgmt.Reaper.{
  overrides_of, stop_idle_tally, stop_idle_loop, add_finding, finding, classify, sweep,
}
use lemul.Mgmt.Reaper.Hold.{Spares}
use lemul.Mgmt.Reaper.Pass.{Pass, one_pass}
use lemul.Mgmt.Reaper.Passes.{passes, IsQuiet, passes-hold}
use lemul.Mgmt.Reaper.Silence.{sweep-IsSilent, IsSilent}

abbrev policy : AdmissionPolicy
policy = record { policy = "min_free_memory_pct"; max_sessions = pos 4; min_free_pct = pos 20 }

abbrev roomy : Headroom
roomy = record { mem_free_mb = pos 3000; mem_limit_mb = pos 8192; sessions = pos 2; activity = [] }

abbrev tight : Headroom
tight = record { mem_free_mb = pos 1000; mem_limit_mb = pos 8192; sessions = pos 0; activity = [] }

tight_refused :
    admits policy tight true true ≡ refuse_memory (pos 1000) (pos 1638) (pos 20) (pos 8192)
unfolding admits by_memory required
tight_refused = refl

roomy_admitted : admits policy roomy true true ≡ admit
unfolding admits by_memory required
roomy_admitted = refl

admits-room_example : (pos 768 ≤ℤ roomy.mem_free_mb) × (pos (8192 * 20 / 100) ≤ℤ roomy.mem_free_mb)
admits-room_example =
    admits-room policy roomy 8191 20 (λ e. ground (arith, (eqb_iff policy.policy "unlimited").1 e))
      (λ e. ground (arith, (eqb_iff policy.policy "max_sessions").1 e)) refl refl (omega arith)
      roomy_admitted

abbrev api : WsRef
api = record { tenant_id = "acme"; name = "api" }

abbrev row : Workspace
row = record {
  status = "active";
  generation = 1;
  task_ref = some "task-1";
  last_error = none;
  snapshot_id = some "snap-1";
  idle_timeout_secs = 7200;
  warm_hold_secs = 3600;
  warm_hold_until = none;
  idle_pinned_since = none;
  admission_policy = "unlimited";
  max_sessions = 4;
  min_free_memory_pct = 20;
}

abbrev task_tunnel : Tunnel
task_tunnel = record { ref = 1; tenant_id = "acme"; workspace_name = "api" }

abbrev runner_tunnel : Tunnel
runner_tunnel = record { ref = 2; tenant_id = "acme"; workspace_name = "" }

abbrev left : SessionActivity
left = record {
  session_id = "s1";
  attachers = pos 0;
  output_idle_secs = pos 9000;
  model_idle_secs = pos 9000;
  tool_idle_secs = pos 9000;
}

-- A long build: only its tool runs.
abbrev build : SessionActivity
build = record left { session_id = "s2"; tool_idle_secs = pos 0 }

abbrev report_at : ℕ → ℤ → List SessionActivity → ActivityReport
report_at now sessions activity = record {
  headroom = record {
    mem_free_mb = pos 0;
    mem_limit_mb = pos 0;
    sessions = sessions;
    activity = activity;
  };
  received_at = now;
}

abbrev world : World
world = record {
  rows = (api, row) ∷ [];
  activity = (api, report_at 100 (pos 2) (left ∷ build ∷ [])) ∷ [];
  registry = record {
    runners = ("acme", runner_tunnel ∷ []) ∷ [];
    workspaces = (record { tenant_id = "acme"; name = "api" }, task_tunnel ∷ []) ∷ [];
    waiters = [];
    rr = 0;
    next_chan = 0;
    sent = [];
  };
  sent = [];
}

abbrev answers : Answers
answers = record {
  sessions = some (("s1", none) ∷ ("s2", none) ∷ []);
  pinned_written = true;
  status_written = true;
  hold_written = true;
  snapshot_written = true;
  stopped = some "snap-2";
}

-- The session that was left is stopped, and the build is not.
one_stopped :
    (stop_idle_tally answers api row (report_at 100 (pos 2) (left ∷ build ∷ [])) world).commands
    ≡ stop_session task_tunnel "s1" ∷ []
unfolding stop_idle_tally stop_idle_loop add_finding finding classify overrides_of lookup put
    without pick_workspace last_of get lemul.Mgmt.Admission.idle_timeout
one_stopped = refl

-- The disk is kept before the former one is dropped.
task_stopped :
    (stop_task answers api "task-1" true world).sent
    ≡ stop_workspace runner_tunnel "api" "task-1" true ∷ drop_snapshot runner_tunnel "snap-1" ∷ []
unfolding stop_task record_snapshot update_row lookup put without pick_runner get
task_stopped = refl

stop_task-IsPreserved_example : IsPreserved api world (stop_task answers api "task-1" true world)
stop_task-IsPreserved_example = stop_task-IsPreserved answers api "task-1" true world

abbrev quiet_pass : ℕ → Pass
quiet_pass now = record { answers = answers; report = report_at now (pos 0) []; now = now }

passes-hold_example :
    let ps = quiet_pass 1000 ∷ quiet_pass 31000000000 ∷ [] in
    let p = quiet_pass 3700000000000 in
    Sends Spares (passes api ps world) (one_pass api p (passes api ps world))
    ⊎ ((before : List Pass) × (first : Pass) × (quiet : List Pass) × (ps ≡ before ++ first ∷ quiet)
        × All IsQuiet (first ∷ quiet)
        × IsQuiet p
        × (first.now + 3600 * 1000000000 ≤ p.now))
unfolding lookup
passes-hold_example =
    passes-hold api 3600 (quiet_pass 1000 ∷ quiet_pass 31000000000 ∷ []) (quiet_pass 3700000000000)
      world (row, refl, refl, refl) (refl, (refl, tt))

sweep-IsSilent_example :
    ((j : WsRef)
      → All (IsSilent 30000000000 900000000000 j) world.activity
      → lookup j (sweep (λ k. answers) 30000000000 900000000000 world).rows ≡ lookup j world.rows)
    × (All (λ r. fresh r.1 900000000000 30000000000 ≡ false) world.activity
        → sweep (λ k. answers) 30000000000 900000000000 world ≡ world)
sweep-IsSilent_example = sweep-IsSilent (λ k. answers) 30000000000 900000000000 world
