-- ===== src/Registry.antt =====
-- internal/registry/registry.go: the live tunnels of the agents, and those who wait for one.
-- A *Tunnel is compared by its pointer, which is `ref` here; the connection itself (yamux) is left
-- out, and so are the other labels. A waiter's channel is a number, `next_chan` the next unused one,
-- and `sent` what AddWorkspace has sent, in order. The mutex makes each operation a step;
-- WaitWorkspace is two: its first half, and its wait giving up because the context expired.
pub mod Maps
pub mod Live
pub mod Pick
pub mod Tally
pub mod Waiters
pub mod Rounds
mod Tests
use Prim.Native.String.{String}
use lemul.Prelude.{
  ℕ, zero, suc, ◌+◌, ◌%◌, ◌^◌, ◌≡◌, ◌↔◌, List, [], ◌∷◌, ◌++◌, Option, none, some, Bool, true, false,
  ◌&&◌, arith, ◌==◌, if◌then◌else◌, length, get_elem?,
}
use lemul.Prelude.Dict.{string_key, Key, eqb, eqb_iff, Dict, lookup, without, put}

pub record Tunnel : Type 0 where
  pub ref : ℕ
  pub tenant_id : String
  pub workspace_name : String

pub record WsKey : Type 0 where
  pub tenant_id : String
  pub name : String

abbrev pub ws_eqb : WsKey → WsKey → Bool
ws_eqb a b = eqb a.tenant_id b.tenant_id && eqb a.name b.name

pub ws_eqb_iff : (a b : WsKey) → (ws_eqb a b ≡ true) ↔ (a ≡ b)
ws_eqb_iff a b = ground (arith, eqb_iff a.tenant_id b.tenant_id, eqb_iff a.name b.name)

instance abbrev pub ws_key : Key WsKey
ws_key = record { test = ws_eqb; test_iff = ws_eqb_iff }

pub record Registry : Type 0 where
  pub runners : Dict String (List Tunnel)
  pub workspaces : Dict WsKey (List Tunnel)
  pub waiters : Dict WsKey (List ℕ)
  pub rr : ℕ
  pub next_chan : ℕ
  pub sent : List (ℕ × Tunnel)

-- New
unfoldable pub new : Registry
new = record { runners = []; workspaces = []; waiters = []; rr = 0; next_chan = 0; sent = [] }

-- Tunnel.key
abbrev pub key : Tunnel → WsKey
key t = record { tenant_id = t.tenant_id; name = t.workspace_name }

module _ {K A : Type 0} ⦃e : Key K⦄ where
  -- A missing key reads as nil.
  unfoldable pub get : K → Dict K (List A) → List A
  get k d = elim (lookup k d) [ none ↦ [] | some xs ↦ xs ]

  -- d[k] = xs, and delete(d, k) if that left it empty.
  unfoldable pub put_or_delete : K → List A → Dict K (List A) → Dict K (List A)
  put_or_delete k xs d = let d' = put k xs d in if length xs == 0 then without k d' else d'

unfoldable pub remove : List Tunnel → Tunnel → List Tunnel
remove [] t = []
remove (x ∷ ts) t = let rest = remove ts t in if x.ref == t.ref then rest else x ∷ rest

unfoldable pub remove_chan : List ℕ → ℕ → List ℕ
remove_chan [] c = []
remove_chan (x ∷ cs) c = let rest = remove_chan cs c in if x == c then rest else x ∷ rest

-- AddRunner
unfoldable pub add_runner : Tunnel → Registry → Registry
add_runner t r = record r {
  runners = put t.tenant_id (get t.tenant_id r.runners ++ t ∷ []) r.runners;
}

-- RemoveRunner
unfoldable pub remove_runner : Tunnel → Registry → Registry
remove_runner t r = record r {
  runners = put_or_delete t.tenant_id (remove (get t.tenant_id r.runners) t) r.runners;
}

-- PickRunner, where none is ErrNoTunnel. The counter is a uint64, and its reduction is Go's.
unfoldable pub pick_runner : String → Registry → Option Tunnel × Registry
pick_runner tenant_id r =
    let ts = get tenant_id r.runners in
    if length ts == 0
    then (none, r)
    else (get_elem? ts ((r.rr + 1) % 2 ^ 64 % length ts), record r { rr = (r.rr + 1) % 2 ^ 64 })

-- The sends of AddWorkspace: one on each waiter's channel, in order.
unfoldable pub sends : List ℕ → Tunnel → List (ℕ × Tunnel)
sends [] t = []
sends (c ∷ cs) t = (c, t) ∷ sends cs t

-- AddWorkspace. A channel has room for the one value that is sent on it, so no send waits.
unfoldable pub add_workspace : Tunnel → Registry → Registry
add_workspace t r = record r {
  workspaces = put (key t) (get (key t) r.workspaces ++ t ∷ []) r.workspaces;
  waiters = without (key t) r.waiters;
  sent = r.sent ++ sends (get (key t) r.waiters) t;
}

-- RemoveWorkspace
unfoldable pub remove_workspace : Tunnel → Registry → Registry
remove_workspace t r = record r {
  workspaces = put_or_delete (key t) (remove (get (key t) r.workspaces) t) r.workspaces;
}

-- ts[len(ts)-1], and none if there is none.
unfoldable pub last_of : List Tunnel → Option Tunnel
last_of [] = none
last_of (t ∷ []) = some t
last_of (t ∷ u ∷ ts) = last_of (u ∷ ts)

-- PickWorkspace, where none is ErrNoTunnel.
unfoldable pub pick_workspace : WsKey → Registry → Option Tunnel
pick_workspace k r = last_of (get k r.workspaces)

-- What the first half of WaitWorkspace comes to: a tunnel at once, or a channel to wait on.
pub data Wait : Type 0 where
  at_once : Tunnel → Wait
  waiting : ℕ → Wait

wait_on : WsKey → Registry → Option Tunnel → Wait × Registry
wait_on k r (some t) = (at_once t, r)
wait_on k r none = (
  waiting r.next_chan,
  record r {
    waiters = put k (get k r.waiters ++ r.next_chan ∷ []) r.waiters;
    next_chan = suc r.next_chan;
  },
)

unfoldable pub wait_workspace : WsKey → Registry → Wait × Registry
unfolding wait_on
wait_workspace k r = wait_on k r (last_of (get k r.workspaces))

-- The other half where the context expired first.
unfoldable pub give_up : WsKey → ℕ → Registry → Registry
give_up k c r = record r { waiters = put_or_delete k (remove_chan (get k r.waiters) c) r.waiters }

-- RunnerCount
unfoldable pub runner_count : String → Registry → ℕ
runner_count tenant_id r = length (get tenant_id r.runners)

-- Every operation on a registry, in the order in which the mutex lets them happen.
pub data Op : Type 0 where
  add_runner_op remove_runner_op add_workspace_op remove_workspace_op : Tunnel → Op
  pick_runner_op : String → Op
  wait_op : WsKey → Op
  give_up_op : WsKey → ℕ → Op

unfoldable pub step : Op → Registry → Registry
step (add_runner_op t) r = add_runner t r
step (remove_runner_op t) r = remove_runner t r
step (add_workspace_op t) r = add_workspace t r
step (remove_workspace_op t) r = remove_workspace t r
step (pick_runner_op tenant_id) r = (pick_runner tenant_id r).1
step (wait_op k) r = (wait_workspace k r).1
step (give_up_op k c) r = give_up k c r

unfoldable pub run : List Op → Registry → Registry
run [] r = r
run (o ∷ os) r = run os (step o r)
