-- ===== src/Mgmt/Reaper/Hold.antt =====
-- What one pass of the reaper makes of a workspace's warm hold.
use Prim.Native.String.{String}
use lemul.Prelude.{
  ℕ, ◌+◌, ◌*◌, ◌≡◌, refl, sym, ap, ◌∙◌, subst, Option, none, some, Bool, true, false, ltb, not,
  arith, if◌then◌else◌, if_true, if_elim, Bool-cases, inl, inr,
}
use lemul.Prelude.Dict.{string_key, lookup}
use lemul.Registry.{Tunnel}
use lemul.Mgmt.Rows.{WsRef, ref_key, Workspace, deref_or}
use lemul.Mgmt.Activity.{forget}
use lemul.Mgmt.Task.{
  Command, stop_session, Answers, World, update_row, workspace_stopped, set_workspace_status,
  set_warm_hold, set_idle_pinned, stop_task,
}
use lemul.Mgmt.Task.Kept.{lookup-updated, update_row-kept, stop_task-keeps}
use lemul.Mgmt.Reaper.{note_on, expire, hold_on}

-- A command that leaves the task running.
pub data Spares : Command → Type 0 where
  session : (t : Tunnel) (id : String) → Spares (stop_session t id)

-- The row of a workspace, with its hold and the length of one.
abbrev pub Holds : WsRef → Option ℕ → ℕ → World → Type 0
Holds k u n w =
    (ws : Workspace) × (lookup k w.rows ≡ some ws)
    × (ws.warm_hold_until ≡ u)
    × (ws.warm_hold_secs ≡ n)

module _ (k : WsRef) (n : ℕ) where
  pub by_rows-Holds :
      (u : Option ℕ) (w w' : World) → w'.rows ≡ w.rows → Holds k u n w → Holds k u n w'
  by_rows-Holds u w w' e (ws, row, until, secs) = (ws, ap (lookup k) e ∙ row, until, secs)

  -- A write of the other columns.
  pub update-Holds :
      (u : Option ℕ) (f : Workspace → Workspace)
      → ((ws : Workspace)
          → ((f ws).warm_hold_until ≡ ws.warm_hold_until)
            × ((f ws).warm_hold_secs ≡ ws.warm_hold_secs))
      → (w : World) → Holds k u n w
      → Holds k u n (update_row k f w)
  update-Holds u f same w (ws, row, until, secs) =
      (f ws, lookup-updated k f w row, (same ws).0 ∙ until, (same ws).1 ∙ secs)

  hold-Holds : (u v : Option ℕ) (w : World) → Holds k u n w → Holds k v n (set_warm_hold k v w)
  unfolding set_warm_hold
  hold-Holds u v w (ws, row, until, secs) =
      (record ws { warm_hold_until = v }, lookup-updated k _ w row, refl, secs)

  stop_task-Holds :
      (u : Option ℕ) (ans : Answers) (ref : String) (w : World)
      → Holds k u n w
      → Holds k u n (stop_task ans k ref true w)
  stop_task-Holds u ans ref =
      stop_task-keeps k (Holds k u n) (by_rows-Holds u) (λ s. update-Holds u _ (λ ws. (refl, refl)))
        ans ref true

  pub note-Holds :
      (u : Option ℕ) (ans : Answers) (since : Option ℕ) (is_pinned : Bool) (now : ℕ) (w : World)
      → Holds k u n w
      → Holds k u n (note_on ans k since is_pinned now w)
  unfolding note_on set_idle_pinned
  note-Holds u ans none p now w h =
      if_elim (Holds k u n) _ _ _ (update-Holds u _ (λ ws. (refl, refl)) w h) h
  note-Holds u ans (some t) p now w h =
      if_elim (Holds k u n) _ _ _ (update-Holds u _ (λ ws. (refl, refl)) w h) h

  expire-Holds :
      (u : Option ℕ) (ans : Answers) (ws : Workspace) (w : World)
      → ans.hold_written ≡ true
      → Holds k u n w
      → Holds k none n (expire ans k ws w)
  unfolding expire set_workspace_status
  expire-Holds u ans ws w e h =
      let w1 = stop_task ans k (deref_or ws.task_ref) true w in
      let stop = set_workspace_status k workspace_stopped "" in
      let w2 = if ans.status_written then stop w1 else w1 in
      let w3 = if ans.hold_written then set_warm_hold k none w2 else w2 in
      let stopped = stop_task-Holds u ans (deref_or ws.task_ref) w h in
      let recorded =
        if_elim (Holds k u n) ans.status_written (stop w1) w1
          (update-Holds u _ (λ v. (refl, refl)) w1 stopped) stopped in
      let cleared =
        subst (Holds k none n) (sym (if_true (set_warm_hold k none w2) w2 e))
          (hold-Holds u none w2 recorded) in
      by_rows-Holds none w3 (record w3 { activity = forget k w3.activity }) refl cleared

-- What one pass makes of the hold, by whether a session runs.
abbrev pub next_hold : ℕ → Option ℕ → Bool → ℕ → Option ℕ
next_hold n u true now = none
next_hold n none false now = some (now + n * 1000000000)
next_hold n (some until) false now = if ltb now until then some until else none

-- Whether it may stop the task.
abbrev pub expires : Option ℕ → Bool → ℕ → Bool
expires (some until) false now = not (ltb now until)
expires _ _ now = false

module _ (k : WsRef) (n : ℕ) (ans : Answers) (written : ans.hold_written ≡ true) (ws : Workspace)
    (w : World) (secs : ws.warm_hold_secs ≡ n) where
  pub hold_on-Holds :
      (u : Option ℕ) (runs : Bool) (now : ℕ)
      → Holds k u n w
      → Holds k (next_hold n u runs now) n (hold_on ans k ws u runs now w)
  unfolding hold_on
  hold_on-Holds none true now h = h
  hold_on-Holds (some t) true now h =
      subst (Holds k none n) (sym (if_true _ _ written)) (hold-Holds k n (some t) none w h)
  hold_on-Holds none false now h =
      subst (Holds k (some (now + n * 1000000000)) n) (sym (if_true _ _ written))
        (rw secs (hold-Holds k n none (some (now + n * 1000000000)) w h))
  hold_on-Holds (some t) false now h = elim (Bool-cases (ltb now t)) [
    | inl e ↦ rw e h
    | inr e ↦ rw e (expire-Holds k n (some t) ans ws w written h)
  ]

module _ (k : WsRef) (ans : Answers) (ws : Workspace) (w : World) where
  pub hold_on-Spares :
      (u : Option ℕ) (runs : Bool) (now : ℕ)
      → expires u runs now ≡ false
      → (hold_on ans k ws u runs now w).sent ≡ w.sent
  unfolding hold_on set_warm_hold
  hold_on-Spares none true now e = refl
  hold_on-Spares (some t) true now e =
      if_elim (λ (v : World). v.sent ≡ w.sent) ans.hold_written _ _ (update_row-kept k _ w).0 refl
  hold_on-Spares none false now e =
      if_elim (λ (v : World). v.sent ≡ w.sent) ans.hold_written _ _ (update_row-kept k _ w).0 refl
  hold_on-Spares (some t) false now e =
      ap (λ (v : World). v.sent) (if_true {b = ltb now t} _ _ (ground arith))
