-- ===== src/Supervisor/Activity/Tools.antt =====
-- internal/supervisor/activity.go: how long ago a session ran a tool, and what the control plane makes
-- of it.
use Prim.Native.String.{String}
use lemul.Prelude.{
  ℕ, zero, suc, ◌<◌, ◌≡◌, ◌≢◌, ap, ◌∙◌, List, [], ◌∷◌, Option, none, some, Bool, true,
  if◌then◌else◌, get_elem?, if_true, arith,
}
use lemul.Prelude.Int.{ℤ, eqb_ℤ_iff}
use lemul.Prelude.Text.{bytes, equal_iff}
use lemul.Prelude.Dict.{string_key, eqb, eqb_iff}
use lemul.Mgmt.Rows.{SessionActivity}
use lemul.Mgmt.Reaper.{session_idle, classify}
use lemul.Supervisor.Processes.{ProcInfo}
use lemul.Supervisor.Activity.{
  Tracker, value_or, observe, forget, is_tool, has_running_tool, secs_since, Seen, tool_running,
  row, session_activity,
}

-- What reaches a tracker, in the order in which its mutex lets it happen.
pub data Event : Type 0 where
  observed : String → Bool → ℕ → ℕ → Event
  forgotten : String → Event

unfoldable pub track : List Event → Tracker → Tracker
track [] a = a
track (observed id running started now ∷ es) a = track es (observe id running started now a).1
track (forgotten id ∷ es) a = track es (forget id a)

-- The time of a session's last tool, told from the events by themselves: the time of the last
-- observation that saw one since the session was last forgotten, or the start that was given at the
-- first of the observations.
unfoldable pub last_tool : String → Option ℕ → List Event → Option ℕ
last_tool id t [] = t
last_tool id t (observed j running started now ∷ es) =
    let seen = last_tool id (some (if running then now else value_or t started)) es in
    let other = last_tool id t es in if eqb j id then seen else other
last_tool id t (forgotten j ∷ es) =
    let gone = last_tool id none es in
    let other = last_tool id t es in if eqb j id then gone else other

-- A tool that runs is a process of the session that is neither its own first process nor a zombie.
pub has_running_tool-found :
    (procs : List ProcInfo) (i : ℕ) (p : ProcInfo) (root : ℤ)
    → get_elem? procs i ≡ some p
    → p.pid ≢ root
    → p.state ≢ bytes "Z"
    → has_running_tool procs p.session_id root ≡ true
unfolding has_running_tool is_tool
has_running_tool-found [] i p root e np nz = cc e
has_running_tool-found (q ∷ procs) zero p root e np nz = ground (
  arith,
  e,
  eqb_iff p.session_id p.session_id,
  eqb_ℤ_iff p.pid root,
  equal_iff p.state (bytes "Z"),
)
has_running_tool-found (q ∷ procs) (suc i) p root e np nz =
    ground (arith, has_running_tool-found procs i p root e np nz)

-- A row that says so is pinned or busy.
row-not_idle :
    (s : Seen) (now model secs : ℕ) → 0 < secs → classify (row s now model now) secs ≢ session_idle
unfolding classify row secs_since
row-not_idle s now model secs h e = ground (arith, e)

-- A session that runs a tool when the report is made, or whose processes cannot be read then, has its
-- row in the report, at its place, and the control plane does not find it idle, whatever its timeout.
pub session_activity-not_idle :
    (procs : Option (List ProcInfo)) (last_request : String → Option ℕ) (now secs i : ℕ)
    (ss : List Seen) (a : Tracker) (s : Seen)
    → get_elem? ss i ≡ some s
    → tool_running procs s ≡ true
    → 0 < secs
    → (r : SessionActivity) × (get_elem? (session_activity procs last_request now ss a).0 i
        ≡ some r)
      × (r.session_id ≡ s.id)
      × (classify r secs ≢ session_idle)
unfolding session_activity observe row
session_activity-not_idle procs last_request now secs i [] a s e t h = cc e
session_activity-not_idle procs last_request now secs zero (q ∷ ss) a s e t h =
    let same : q ≡ s = cc e in
    let running : tool_running procs q ≡ true = ap (tool_running procs) same ∙ t in
    let model = value_or (last_request q.id) q.started_at in
    (
      row q now model now,
      ap (λ l. some (row q now model l)) (if_true now _ running),
      named q s same,
      row-not_idle q now model secs h,
    )
  where
    named : (q s : Seen) → q ≡ s → q.id ≡ s.id
    named q s e = ap (λ v. v.id) e
session_activity-not_idle procs last_request now secs (suc i) (q ∷ ss) a s e t h =
    session_activity-not_idle procs last_request now secs i ss _ s e t h
