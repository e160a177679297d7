-- ===== src/Mgmt/Admission.antt =====
-- internal/mgmtapi/admission.go: whether a workspace takes another session, and after what idle time
-- one is stopped. A refusal carries the numbers that its message prints.
pub mod Memory
use Prim.Native.String.{String}
use lemul.Prelude.{ℕ, zero, suc, [], Option, none, some, Bool, true, false, not, if◌then◌else◌}
use lemul.Prelude.Int.{ℤ, pos, ltb_ℤ, eqb_ℤ, ◌*ℤ◌, quot, wrap64}
use lemul.Prelude.Dict.{string_key, eqb}
use lemul.Mgmt.Rows.{Workspace, WsRef, Headroom, ActivityReport}
use lemul.Mgmt.Activity.{ActivityStore, get, fresh}

abbrev pub admit_unlimited : String
admit_unlimited = "unlimited"

abbrev pub admit_max_sessions : String
admit_max_sessions = "max_sessions"

abbrev pub min_free_floor_mb : ℤ
min_free_floor_mb = pos 768

-- admissionPolicy
pub record AdmissionPolicy : Type 0 where
  pub policy : String
  pub max_sessions : ℤ
  pub min_free_pct : ℤ

-- verdict
pub data Verdict : Type 0 where
  admit : Verdict
  refuse_count : ℤ → ℤ → Verdict
  refuse_memory : ℤ → ℤ → ℤ → ℤ → Verdict

-- byCount
unfoldable pub by_count : AdmissionPolicy → Headroom → Verdict
by_count p report =
    if ltb_ℤ report.sessions p.max_sessions
    then admit
    else refuse_count report.sessions p.max_sessions

-- The free memory that another session needs: the percentage, and at least the floor.
unfoldable pub required : AdmissionPolicy → Headroom → ℤ
required p report =
    let share = quot (wrap64 (report.mem_limit_mb *ℤ p.min_free_pct)) 100 in
    if ltb_ℤ share min_free_floor_mb then min_free_floor_mb else share

unfoldable pub by_memory : AdmissionPolicy → Headroom → Verdict
by_memory p report =
    if ltb_ℤ report.mem_free_mb (required p report)
    then refuse_memory report.mem_free_mb (required p report) p.min_free_pct report.mem_limit_mb
    else admit

-- admits
unfoldable pub admits : AdmissionPolicy → Headroom → Bool → Bool → Verdict
admits p report have is_fresh =
    if eqb p.policy admit_unlimited
    then admit
    else if not have
    then admit
    else if eqb p.policy admit_max_sessions
    then by_count p report
    else if eqb_ℤ report.mem_limit_mb (pos 0)
    then admit
    else if not is_fresh
    then by_count p report
    else by_memory p report

-- policyOf
unfoldable pub policy_of : Workspace → AdmissionPolicy
policy_of ws = record {
  policy = ws.admission_policy;
  max_sessions = pos ws.max_sessions;
  min_free_pct = pos ws.min_free_memory_pct;
}

-- What a missing report reads as.
abbrev pub no_headroom : Headroom
no_headroom = record { mem_free_mb = pos 0; mem_limit_mb = pos 0; sessions = pos 0; activity = [] }

-- admitSession, at the time `now`.
unfoldable pub admit_session : WsRef → Workspace → ℕ → ℕ → ActivityStore → Verdict
admit_session k ws now interval a = elim (get k a) [
  | none ↦ admits (policy_of ws) no_headroom false false
  | some rep ↦ admits (policy_of ws) rep.headroom true (fresh rep now interval)
]

-- idleTimeout, in seconds; none is the opt-out. The seconds are those of a row, so not negative.
abbrev pub timeout_of : ℕ → Option ℕ
timeout_of zero = none
timeout_of (suc n) = some (suc n)

unfoldable pub idle_timeout : Workspace → Option ℕ → Option ℕ
idle_timeout ws none = timeout_of ws.idle_timeout_secs
idle_timeout ws (some secs) = timeout_of secs
