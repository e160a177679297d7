-- ===== src/Mgmt/Rows.antt =====
-- The records that internal/mgmtapi decides on: a workspace's row and what a task reports. The row has
-- the columns that these decisions read or write; its numbers are not negative by the CHECKs of
-- internal/store/schema.sql. A reported number is a Go int. Times are nanoseconds of the service's
-- clock.
use Prim.Native.String.{String}
use lemul.Prelude.{ℕ, List, ◌≡◌, ◌↔◌, Option, none, some, Bool, true, ◌&&◌, arith, if◌then◌else◌}
use lemul.Prelude.Int.{ℤ}
use lemul.Prelude.Dict.{Key, string_key, eqb, eqb_iff}

-- The workspace, among all organisations.
pub record WsRef : Type 0 where
  pub tenant_id : String
  pub name : String

abbrev pub ref_eqb : WsRef → WsRef → Bool
ref_eqb a b = eqb a.tenant_id b.tenant_id && eqb a.name b.name

pub ref_eqb_iff : (a b : WsRef) → (ref_eqb a b ≡ true) ↔ (a ≡ b)
ref_eqb_iff a b = ground (arith, eqb_iff a.tenant_id b.tenant_id, eqb_iff a.name b.name)

instance abbrev pub ref_key : Key WsRef
ref_key = record { test = ref_eqb; test_iff = ref_eqb_iff }

pub record Workspace : Type 0 where
  pub status : String
  pub generation : ℕ
  pub task_ref : Option String
  pub last_error : Option String
  pub snapshot_id : Option String
  pub idle_timeout_secs : ℕ
  pub warm_hold_secs : ℕ
  pub warm_hold_until : Option ℕ
  pub idle_pinned_since : Option ℕ
  pub admission_policy : String
  pub max_sessions : ℕ
  pub min_free_memory_pct : ℕ

-- derefOr
abbrev pub deref_or : Option String → String
deref_or none = ""
deref_or (some s) = s

-- What setWorkspaceStatus and setWorkspaceSnapshot store for a text: NULL for the empty one.
abbrev pub nullable : String → Option String
nullable s = if eqb s "" then none else some s

pub record SessionActivity : Type 0 where
  pub session_id : String
  pub attachers : ℤ
  pub output_idle_secs : ℤ
  pub model_idle_secs : ℤ
  pub tool_idle_secs : ℤ

pub record Headroom : Type 0 where
  pub mem_free_mb : ℤ
  pub mem_limit_mb : ℤ
  pub sessions : ℤ
  pub activity : List SessionActivity

-- activityReport
pub record ActivityReport : Type 0 where
  pub headroom : Headroom
  pub received_at : ℕ
