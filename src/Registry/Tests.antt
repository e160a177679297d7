-- ===== src/Registry/Tests.antt =====
-- Runs of internal/registry on small inputs, and its theorems at them.
use lemul.Prelude.{ℕ, ◌≡◌, refl, ◌<◌, List, [], ◌∷◌, some, arith, length}
use lemul.Prelude.Dict.{string_key, lookup, without, put}
use lemul.Registry.{
  Tunnel, WsKey, ws_key, Registry, new, get, put_or_delete, remove, sends, pick_workspace, last_of,
  pick_runner, add_workspace, remove_workspace, wait_workspace, wait_on, Op, add_workspace_op,
  remove_workspace_op, wait_op, step, run,
}
use lemul.Registry.Waiters.{IsServed, run-IsServed}
use lemul.Registry.Rounds.{picks, pick_runner-rounds}

abbrev old_task : Tunnel
old_task = record { ref = 1; tenant_id = "acme"; workspace_name = "api" }

abbrev new_task : Tunnel
new_task = record { ref = 2; tenant_id = "acme"; workspace_name = "api" }

abbrev other_task : Tunnel
other_task = record { ref = 3; tenant_id = "globex"; workspace_name = "api" }

abbrev api : WsKey
api = record { tenant_id = "acme"; name = "api" }

abbrev history : List Op
history =
    wait_op api
    ∷ add_workspace_op old_task
    ∷ add_workspace_op new_task
    ∷ add_workspace_op other_task
    ∷ remove_workspace_op old_task
    ∷ []

-- The one who waited got the first task, and the next one gets the replacement.
history-run :
    ((run history new).sent ≡ (0, old_task) ∷ [])
    × (pick_workspace api (run history new) ≡ some new_task)
unfolding run step new pick_workspace add_workspace remove_workspace wait_workspace wait_on get
    put_or_delete remove sends last_of lookup without put
history-run = (refl, refl)

run-IsServed_example : IsServed (run history new)
run-IsServed_example = run-IsServed history

abbrev runner_1 : Tunnel
runner_1 = record { ref = 4; tenant_id = "acme"; workspace_name = "" }

abbrev runner_2 : Tunnel
runner_2 = record { ref = 5; tenant_id = "acme"; workspace_name = "" }

abbrev two_runners : Registry
two_runners = record {
  runners = ("acme", runner_1 ∷ runner_2 ∷ []) ∷ [];
  workspaces = [];
  waiters = [];
  rr = 6;
  next_chan = 0;
  sent = [];
}

pick_runner-rounds_example :
    (j : ℕ) × (j < length (get "acme" two_runners.runners))
    × ((pick_runner "acme" (picks "acme" j two_runners)).0 ≡ some runner_1)
unfolding get lookup
pick_runner-rounds_example = pick_runner-rounds "acme" two_runners 0 runner_1 refl (omega arith)
