-- ===== src/Registry/Live.antt =====
-- What the registry answers about one key, against the history of that key alone.
use Prim.Native.String.{String}
use lemul.Prelude.{◌≡◌, refl, ap, ◌∙◌, List, [], ◌∷◌, ◌++◌, arith, if◌then◌else◌}
use lemul.Prelude.Dict.{string_key, eqb}
use lemul.Registry.Maps.{get-changed, get-shrunk}
use lemul.Registry.{
  wait_on, Tunnel, WsKey, ws_key, Registry, key, get, remove, pick_runner, add_runner,
  remove_runner, add_workspace, remove_workspace, wait_workspace, give_up, Op, add_runner_op,
  remove_runner_op, add_workspace_op, remove_workspace_op, pick_runner_op, wait_op, give_up_op,
  step, run,
}

-- What one operation does to the tunnels of one workspace, and of the runners of one tenant. What is
-- done under another key, in another organisation or not, changes nothing.
abbrev pub live_step : WsKey → Op → List Tunnel → List Tunnel
live_step k (add_workspace_op t) ts = if eqb (key t) k then ts ++ t ∷ [] else ts
live_step k (remove_workspace_op t) ts = if eqb (key t) k then remove ts t else ts
live_step k _ ts = ts

abbrev pub runner_step : String → Op → List Tunnel → List Tunnel
runner_step id (add_runner_op t) ts = if eqb t.tenant_id id then ts ++ t ∷ [] else ts
runner_step id (remove_runner_op t) ts = if eqb t.tenant_id id then remove ts t else ts
runner_step id _ ts = ts

-- The tunnels that the history has added under a key and not removed, the newest last.
unfoldable pub live : WsKey → List Op → List Tunnel → List Tunnel
live k [] ts = ts
live k (o ∷ os) ts = live k os (live_step k o ts)

unfoldable pub live_runners : String → List Op → List Tunnel → List Tunnel
live_runners id [] ts = ts
live_runners id (o ∷ os) ts = live_runners id os (runner_step id o ts)

pick_runner-kept :
    (id : String) (r : Registry)
    → ((pick_runner id r).1.workspaces ≡ r.workspaces) × ((pick_runner id r).1.runners ≡ r.runners)
unfolding pick_runner
pick_runner-kept id r = ground arith

wait-kept :
    (k : WsKey) (r : Registry)
    → ((wait_workspace k r).1.workspaces ≡ r.workspaces)
      × ((wait_workspace k r).1.runners ≡ r.runners)
unfolding wait_workspace wait_on
wait-kept k r = ground arith

step-live :
    (k : WsKey) (o : Op) (r : Registry)
    → get k (step o r).workspaces ≡ live_step k o (get k r.workspaces)
unfolding step add_runner remove_runner pick_runner add_workspace remove_workspace wait_workspace
    give_up
step-live k (add_runner_op t) r = refl
step-live k (remove_runner_op t) r = refl
step-live k (add_workspace_op t) r = get-changed (key t) k (λ ts. ts ++ t ∷ []) r.workspaces
step-live k (remove_workspace_op t) r = get-shrunk (key t) k (λ ts. remove ts t) r.workspaces
step-live k (pick_runner_op id) r = ap (get k) (pick_runner-kept id r).0
step-live k (wait_op j) r = ap (get k) (wait-kept j r).0
step-live k (give_up_op j c) r = refl

step-runners :
    (id : String) (o : Op) (r : Registry)
    → get id (step o r).runners ≡ runner_step id o (get id r.runners)
unfolding step add_runner remove_runner add_workspace remove_workspace give_up
step-runners id (add_runner_op t) r = get-changed t.tenant_id id (λ ts. ts ++ t ∷ []) r.runners
step-runners id (remove_runner_op t) r = get-shrunk t.tenant_id id (λ ts. remove ts t) r.runners
step-runners id (add_workspace_op t) r = refl
step-runners id (remove_workspace_op t) r = refl
step-runners id (pick_runner_op j) r = ap (get id) (pick_runner-kept j r).1
step-runners id (wait_op j) r = ap (get id) (wait-kept j r).1
step-runners id (give_up_op j c) r = refl

pub run-live :
    (k : WsKey) (os : List Op) (r : Registry)
    → get k (run os r).workspaces ≡ live k os (get k r.workspaces)
unfolding run live
run-live k [] r = refl
run-live k (o ∷ os) r = run-live k os (step o r) ∙ ap (live k os) (step-live k o r)

pub run-live_runners :
    (id : String) (os : List Op) (r : Registry)
    → get id (run os r).runners ≡ live_runners id os (get id r.runners)
unfolding run live_runners
run-live_runners id [] r = refl
run-live_runners id (o ∷ os) r =
    run-live_runners id os (step o r) ∙ ap (live_runners id os) (step-runners id o r)
