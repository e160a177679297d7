-- ===== src/Mgmt/Reaper/Pass.antt =====
-- What one pass of the reaper over one workspace sends, and what it leaves on the row.
use Prim.Native.String.{String}
use lemul.Prelude.{
  ℕ, ◌≡◌, refl, sym, ap, ◌∙◌, subst, List, [], ◌∷◌, Option, none, some, Bool, true, false, if_elim,
  All, All-snoc, length, ◌==◌,
}
use lemul.Prelude.Int.{pos, ltb_ℤ}
use lemul.Prelude.Dict.{string_key, Dict}
use lemul.Registry.{Tunnel}
use lemul.Mgmt.Rows.{WsRef, ref_key, Workspace, ActivityReport, SessionActivity}
use lemul.Mgmt.Task.{Answers, World, set_idle_pinned}
use lemul.Mgmt.Task.Kept.{update_row-kept, Sends}
use lemul.Mgmt.Reaper.{
  Finding, unknown, busy, pinned, idle, finding, Tally, add_finding, stop_idle_loop, tally_on,
  no_findings, stop_idle_tally, stop_idle_sessions, note_on, note_pinned, advance_warm_hold,
  sweep_on, sweep_workspace, overrides_of,
}
use lemul.Mgmt.Reaper.Hold.{
  Spares, session, Holds, by_rows-Holds, note-Holds, next_hold, expires, hold_on-Holds,
  hold_on-Spares,
}

-- Stopping idle sessions leaves the task running.
add_finding-Spares :
    (t : Tunnel) (a : SessionActivity) (o : Finding) (n : Tally)
    → All Spares n.commands
    → All Spares (add_finding t a o n).commands
unfolding add_finding
add_finding-Spares t a unknown n h = h
add_finding-Spares t a busy n h = h
add_finding-Spares t a pinned n h = h
add_finding-Spares t a idle n h = All-snoc Spares n.commands _ h (session t a.session_id)

loop-Spares :
    (ws : Workspace) (d : Dict String (Option ℕ)) (t : Tunnel) (l : List SessionActivity)
    (n : Tally)
    → All Spares n.commands
    → All Spares (stop_idle_loop ws d t l n).commands
unfolding stop_idle_loop
loop-Spares ws d t [] n h = h
loop-Spares ws d t (a ∷ l) n h =
    loop-Spares ws d t l _ (add_finding-Spares t a (finding ws d a) n h)

tally_on-Spares :
    (ws : Workspace) (l : List SessionActivity) (rows : Option (List (String × Option ℕ)))
    (t : Option Tunnel)
    → All Spares (tally_on ws l rows t).commands
unfolding tally_on
tally_on-Spares ws l none none = tt
tally_on-Spares ws l none (some t) = tt
tally_on-Spares ws l (some rows) none = tt
tally_on-Spares ws l (some rows) (some t) = loop-Spares ws (overrides_of rows []) t l no_findings tt

stop_idle-Spares :
    (ans : Answers) (k : WsRef) (ws : Workspace) (rep : ActivityReport) (w : World)
    → All Spares (stop_idle_tally ans k ws rep w).commands
unfolding stop_idle_tally
stop_idle-Spares ans k ws rep w =
    if_elim (λ (n : Tally). All Spares n.commands) (length rep.headroom.activity == 0) no_findings _
      tt (tally_on-Spares ws rep.headroom.activity ans.sessions _)

note_on-sent :
    (ans : Answers) (k : WsRef) (since : Option ℕ) (p : Bool) (now : ℕ) (w : World)
    → (note_on ans k since p now w).sent ≡ w.sent
unfolding note_on set_idle_pinned
note_on-sent ans k none p now w =
    if_elim (λ (v : World). v.sent ≡ w.sent) _ _ w (update_row-kept k _ w).0 refl
note_on-sent ans k (some t) p now w =
    if_elim (λ (v : World). v.sent ≡ w.sent) _ _ w (update_row-kept k _ w).0 refl

-- One evaluation of one workspace: what the outside answered, the report, and the time.
pub record Pass : Type 0 where
  pub answers : Answers
  pub report : ActivityReport
  pub now : ℕ

abbrev pub runs : Pass → Bool
runs p = ltb_ℤ (pos 0) p.report.headroom.sessions

abbrev pub one_pass : WsRef → Pass → World → World
one_pass k p w = sweep_workspace p.answers k p.report p.now w

-- A pass over a row as it was read.
module _ (k : WsRef) (n : ℕ) (p : Pass) (ws : Workspace) (w : World)
    (secs : ws.warm_hold_secs ≡ n) where
  row-Holds :
      Holds k ws.warm_hold_until n w
      → p.answers.hold_written ≡ true
      → Holds k
          (next_hold n ws.warm_hold_until (runs p) p.now)
          n
          (sweep_on p.answers k p.report p.now (some ws) w)
  unfolding sweep_on advance_warm_hold note_pinned stop_idle_sessions
  row-Holds h e =
      let (held, w1) = stop_idle_sessions p.answers k ws p.report w in
      hold_on-Holds k n p.answers e ws _ secs ws.warm_hold_until (runs p) p.now (
        note-Holds k n ws.warm_hold_until p.answers ws.idle_pinned_since held p.now w1
          (by_rows-Holds k n ws.warm_hold_until w w1 refl h))

  row-Spares :
      expires ws.warm_hold_until (runs p) p.now ≡ false
      → Sends Spares w (sweep_on p.answers k p.report p.now (some ws) w)
  unfolding sweep_on advance_warm_hold note_pinned stop_idle_sessions
  row-Spares e =
      let (held, w1) = stop_idle_sessions p.answers k ws p.report w in
      let noted = note_on p.answers k ws.idle_pinned_since held p.now w1 in
      (
        (stop_idle_tally p.answers k ws p.report w).commands,
        hold_on-Spares k p.answers ws noted ws.warm_hold_until (runs p) p.now e
            ∙ note_on-sent p.answers k ws.idle_pinned_since held p.now w1,
        stop_idle-Spares p.answers k ws p.report w,
      )

module _ (k : WsRef) (n : ℕ) (u : Option ℕ) (p : Pass) (w : World) (h : Holds k u n w) where
  pub pass-Holds :
      p.answers.hold_written ≡ true → Holds k (next_hold n u (runs p) p.now) n (one_pass k p w)
  unfolding sweep_workspace
  pass-Holds e =
      let (ws, row, until, secs) = h in
      subst (λ v. Holds k (next_hold n v (runs p) p.now) n (one_pass k p w)) until
        (subst
          (λ o.
            Holds k (next_hold n ws.warm_hold_until (runs p) p.now) n
              (sweep_on p.answers k p.report p.now o w))
          (sym row) (row-Holds k n p ws w secs (ws, row, refl, secs) e))

  pub pass-Spares : expires u (runs p) p.now ≡ false → Sends Spares w (one_pass k p w)
  unfolding sweep_workspace
  pass-Spares e =
      let (ws, row, until, secs) = h in
      subst (λ o. Sends Spares w (sweep_on p.answers k p.report p.now o w)) (sym row)
        (row-Spares k n p ws w secs (ap (λ v. expires v (runs p) p.now) until ∙ e))
