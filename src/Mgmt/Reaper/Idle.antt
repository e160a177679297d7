-- ===== src/Mgmt/Reaper/Idle.antt =====
-- Which sessions the reaper stops.
use Prim.Native.String.{String}
use lemul.Prelude.{ℕ, suc, ◌≡◌, List, Option, none, some}
use mathlib.Core.List.{Memᴰ}
use lemul.Prelude.Int.{pos, ◌≤ℤ◌}
use lemul.Prelude.Dict.{string_key, Dict, lookup}
use lemul.Registry.{ws_key}
use lemul.Mgmt.Rows.{ref_key, Workspace, SessionActivity}
use lemul.Mgmt.Task.{Command, stop_session}

-- A session to which nobody is attached, as it was reported, and that was quiet for that many seconds:
-- no output, no model request and no tool.
pub record IsIdle (a : SessionActivity) (secs : ℕ) : Type 0 where
  pub nobody : a.attachers ≤ℤ pos 0
  pub no_output : pos secs ≤ℤ a.output_idle_secs
  pub no_model : pos secs ≤ℤ a.model_idle_secs
  pub no_tool : pos secs ≤ℤ a.tool_idle_secs

-- The idle timeout of a session, in seconds: its own, which opts out if it is zero, or else its
-- workspace's.
pub data Timeout (ws : Workspace) : Option ℕ → ℕ → Type 0 where
  own : (n : ℕ) → Timeout ws (some (suc n)) (suc n)
  default : (n : ℕ) → ws.idle_timeout_secs ≡ suc n → Timeout ws none (suc n)

-- Why a command is sent: a session of the report that the database knows, with an idle timeout that
-- applies to it and has passed.
pub record IsWarranted (ws : Workspace) (overrides : Dict String (Option ℕ))
    (report : List SessionActivity) (a : SessionActivity) (secs : ℕ) (override : Option ℕ)
    : Type 0 where
  pub reported : Memᴰ a report
  pub recorded : lookup a.session_id overrides ≡ some override
  pub timed : Timeout ws override secs
  pub is_idle : IsIdle a secs

abbrev pub Warranted : Workspace → Dict String (Option ℕ) → List SessionActivity → Command → Type 0
Warranted ws d report (stop_session t id) =
    (a : SessionActivity) × (secs : ℕ) × (override : Option ℕ) × (a.session_id ≡ id)
    × IsWarranted ws d report a secs override
Warranted ws d report _ = Unit
