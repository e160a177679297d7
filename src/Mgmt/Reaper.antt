-- ===== src/Mgmt/Reaper.antt =====
-- internal/mgmtapi/reaper.go: the auto-stop cascade over the workspaces that report.
pub mod Idle
pub mod Hold
pub mod Pass
pub mod Passes
pub mod Silence
use Prim.Native.String.{String}
use lemul.Prelude.{
  ℕ, ◌+◌, ◌*◌, List, [], ◌∷◌, ◌++◌, Option, none, some, Bool, true, false, ◌&&◌, ◌||◌, not, ltb,
  ◌==◌, if◌then◌else◌, length,
}
use lemul.Prelude.Int.{ℤ, pos, ltb_ℤ}
use lemul.Prelude.Dict.{string_key, Dict, eqb, lookup, put}
use lemul.Registry.{Tunnel, Registry, pick_runner, pick_workspace}
use lemul.Mgmt.Rows.{
  WsRef, ref_key, Workspace, deref_or, nullable, SessionActivity, Headroom, ActivityReport,
}
use lemul.Mgmt.Task.{
  Command, stop_session, Answers, World, workspace_stopped, set_workspace_status, set_warm_hold,
  set_idle_pinned, stop_task,
}
use lemul.Mgmt.Activity.{ActivityStore, forget, fresh}
use lemul.Mgmt.Admission.{idle_timeout}

-- sessionState
pub data SessionState : Type 0 where
  session_busy session_pinned session_idle : SessionState

-- classify, where the timeout is in seconds.
unfoldable pub classify : SessionActivity → ℕ → SessionState
classify a secs =
    if ltb_ℤ (pos 0) a.attachers
      || (ltb_ℤ a.output_idle_secs (pos secs) || ltb_ℤ a.model_idle_secs (pos secs))
    then session_busy
    else if ltb_ℤ a.tool_idle_secs (pos secs)
    then session_pinned
    else session_idle

-- The overrides: a later row of the same id takes the place of an earlier one.
unfoldable pub overrides_of :
    List (String × Option ℕ) → Dict String (Option ℕ) → Dict String (Option ℕ)
overrides_of [] d = d
overrides_of ((id, secs) ∷ rows) d = overrides_of rows (put id secs d)

-- What one reported session comes to: unknown to the records, in use, held by a tool, or to be
-- stopped.
pub data Finding : Type 0 where
  unknown busy pinned idle : Finding

finding_of : SessionState → Finding
finding_of session_busy = busy
finding_of session_pinned = pinned
finding_of session_idle = idle

finding_at : SessionActivity → Option ℕ → Finding
finding_at a none = busy
finding_at a (some secs) = finding_of (classify a secs)

finding_on : Workspace → SessionActivity → Option (Option ℕ) → Finding
finding_on ws a none = unknown
finding_on ws a (some override) = finding_at a (idle_timeout ws override)

unfoldable pub finding : Workspace → Dict String (Option ℕ) → SessionActivity → Finding
unfolding finding_of finding_at finding_on
finding ws overrides a = finding_on ws a (lookup a.session_id overrides)

-- The flags and the commands of the loop over the report.
pub record Tally : Type 0 where
  pub any_busy : Bool
  pub any_pinned : Bool
  pub commands : List Command

unfoldable pub add_finding : Tunnel → SessionActivity → Finding → Tally → Tally
add_finding t a unknown n = n
add_finding t a busy n = record n { any_busy = true }
add_finding t a pinned n = record n { any_pinned = true }
add_finding t a idle n = record n { commands = n.commands ++ stop_session t a.session_id ∷ [] }

unfoldable pub stop_idle_loop :
    Workspace → Dict String (Option ℕ) → Tunnel → List SessionActivity → Tally → Tally
stop_idle_loop ws overrides t [] n = n
stop_idle_loop ws overrides t (a ∷ rest) n =
    stop_idle_loop ws overrides t rest (add_finding t a (finding ws overrides a) n)

abbrev no_findings : Tally
no_findings = record { any_busy = false; any_pinned = false; commands = [] }

tally_on :
    Workspace → List SessionActivity → Option (List (String × Option ℕ)) → Option Tunnel → Tally
tally_on ws as_reported (some rows) (some t) =
    stop_idle_loop ws (overrides_of rows []) t as_reported no_findings
tally_on ws as_reported _ _ = no_findings

-- The tally of stopIdleSessions: nothing without a report of sessions, their rows and a tunnel.
unfoldable pub stop_idle_tally : Answers → WsRef → Workspace → ActivityReport → World → Tally
unfolding tally_on
stop_idle_tally ans k ws rep w =
    if length rep.headroom.activity == 0
    then no_findings
    else tally_on ws rep.headroom.activity ans.sessions
        (pick_workspace (record { tenant_id = k.tenant_id; name = k.name }) w.registry)

-- stopIdleSessions, with its answer whether only background processes hold the workspace open. What
-- the stop commands return is only logged.
unfoldable pub stop_idle_sessions :
    Answers → WsRef → Workspace → ActivityReport → World → Bool × World
stop_idle_sessions ans k ws rep w =
    let n = stop_idle_tally ans k ws rep w in
    (n.any_pinned && not n.any_busy, record w { sent = w.sent ++ n.commands })

unfoldable pub note_on : Answers → WsRef → Option ℕ → Bool → ℕ → World → World
note_on ans k none is_pinned now w =
    if is_pinned && ans.pinned_written then set_idle_pinned k (some now) w else w
note_on ans k (some since) is_pinned now w =
    if not is_pinned && ans.pinned_written then set_idle_pinned k none w else w

-- notePinned, for the row as it was read.
unfoldable pub note_pinned : Answers → WsRef → Workspace → Bool → ℕ → World → World
unfolding note_on
note_pinned ans k ws is_pinned now w = note_on ans k ws.idle_pinned_since is_pinned now w

-- The expiry at the end of advanceWarmHold.
unfoldable pub expire : Answers → WsRef → Workspace → World → World
expire ans k ws w =
    let w1 = stop_task ans k (deref_or ws.task_ref) true w in
    let w2 = if ans.status_written then set_workspace_status k workspace_stopped "" w1 else w1 in
    let w3 = if ans.hold_written then set_warm_hold k none w2 else w2 in
    record w3 { activity = forget k w3.activity }

-- The four cases of advanceWarmHold: the hold on the row, and whether a session runs.
unfoldable pub hold_on : Answers → WsRef → Workspace → Option ℕ → Bool → ℕ → World → World
hold_on ans k ws none true now w = w
hold_on ans k ws (some until) true now w = if ans.hold_written then set_warm_hold k none w else w
hold_on ans k ws none false now w =
    if ans.hold_written then set_warm_hold k (some (now + ws.warm_hold_secs * 1000000000)) w else w
hold_on ans k ws (some until) false now w = if ltb now until then w else expire ans k ws w

-- advanceWarmHold, for the row as it was read.
unfoldable pub advance_warm_hold : Answers → WsRef → Workspace → ActivityReport → ℕ → World → World
unfolding hold_on
advance_warm_hold ans k ws rep now w =
    hold_on ans k ws ws.warm_hold_until (ltb_ℤ (pos 0) rep.headroom.sessions) now w

unfoldable pub sweep_on : Answers → WsRef → ActivityReport → ℕ → Option Workspace → World → World
sweep_on ans k rep now none w = record w { activity = forget k w.activity }
sweep_on ans k rep now (some ws) w =
    let (is_pinned, w1) = stop_idle_sessions ans k ws rep w in
    advance_warm_hold ans k ws rep now (note_pinned ans k ws is_pinned now w1)

-- sweepWorkspace. A report without a row is forgotten.
unfoldable pub sweep_workspace : Answers → WsRef → ActivityReport → ℕ → World → World
unfolding sweep_on
sweep_workspace ans k rep now w = sweep_on ans k rep now (lookup k w.rows) w

-- sweep, over the reports in any order: a snapshot of them, taken before the first is acted on.
unfoldable pub sweep_all : (WsRef → Answers) → ℕ → ℕ → List (WsRef × ActivityReport) → World → World
sweep_all ans interval now [] w = w
sweep_all ans interval now ((k, rep) ∷ reports) w =
    sweep_all ans interval now reports
      (if not (fresh rep now interval) then w else sweep_workspace (ans k) k rep now w)

unfoldable pub sweep : (WsRef → Answers) → ℕ → ℕ → World → World
sweep ans interval now w = sweep_all ans interval now w.activity w
