-- ===== src/Supervisor/Activity.antt =====
-- internal/supervisor/activity.go: what the supervisor reports of each session's use. A report's row is
-- the tunnel's SessionActivity (Mgmt/Rows). Times are nanoseconds of one clock.
pub mod Tools
use Prim.Native.String.{String}
use lemul.Prelude.{
  ℕ, ◌-◌, ◌/◌, ◌^◌, List, [], ◌∷◌, Option, none, some, Bool, true, false, ◌||◌, ◌&&◌, not,
  if◌then◌else◌,
}
use lemul.Prelude.Int.{ℤ, pos, eqb_ℤ}
use lemul.Prelude.Text.{Bytes, bytes, equal}
use lemul.Prelude.Dict.{string_key, Dict, eqb, lookup, put, without}
use lemul.Mgmt.Rows.{SessionActivity}
use lemul.Supervisor.Processes.{ProcInfo}

-- activityTracker: when each session was last seen to run a tool.
abbrev pub Tracker : Type 0
Tracker = Dict String ℕ

-- The value under a key, or the one to put there.
unfoldable pub value_or : Option ℕ → ℕ → ℕ
value_or none t = t
value_or (some v) t = v

-- observe: the time that is recorded, and the tracker.
unfoldable pub observe : String → Bool → ℕ → ℕ → Tracker → ℕ × Tracker
observe id running started_at now a =
    let last = if running then now else value_or (lookup id a) started_at in (last, put id last a)

unfoldable pub forget : String → Tracker → Tracker
forget id a = without id a

is_tool : String → ℤ → ProcInfo → Bool
is_tool id root p = eqb p.session_id id && not (eqb_ℤ p.pid root) && not (equal p.state (bytes "Z"))

unfoldable pub has_running_tool : List ProcInfo → String → ℤ → Bool
unfolding is_tool
has_running_tool [] id root = false
has_running_tool (p ∷ ps) id root = is_tool id root p || has_running_tool ps id root

-- secsSince
unfoldable pub secs_since : ℕ → ℕ → ℕ
secs_since now past = (now - past) / 10 ^ 9

-- What sessionActivity asks a session for.
pub record Seen : Type 0 where
  pub id : String
  pub pid : ℤ
  pub started_at : ℕ
  pub last_output : ℕ
  pub attachers : ℕ

unfoldable pub running_on : Option (List ProcInfo) → Seen → Bool
running_on none s = true
running_on (some procs) s = has_running_tool procs s.id s.pid

-- Whether a session counts as running a tool: also where the processes cannot be read.
unfoldable pub tool_running : Option (List ProcInfo) → Seen → Bool
unfolding running_on
tool_running procs s = running_on procs s

unfoldable pub row : Seen → ℕ → ℕ → ℕ → SessionActivity
row s now last_model last_tool = record {
  session_id = s.id;
  attachers = pos s.attachers;
  output_idle_secs = pos (secs_since now s.last_output);
  model_idle_secs = pos (secs_since now last_model);
  tool_idle_secs = pos (secs_since now last_tool);
}

-- sessionActivity, of the sessions in their order; `last_request` is the broker's, with no answer where
-- there is no broker.
unfoldable pub session_activity :
    Option (List ProcInfo)
    → (String → Option ℕ)
    → ℕ
    → List Seen
    → Tracker
    → List SessionActivity × Tracker
session_activity procs last_request now [] a = ([], a)
session_activity procs last_request now (s ∷ ss) a =
    let (last, a') = observe s.id (tool_running procs s) s.started_at now a in
    let (rows, b) = session_activity procs last_request now ss a' in
    (row s now (value_or (last_request s.id) s.started_at) last ∷ rows, b)
