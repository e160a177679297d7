-- ===== src/Pty/Session.antt =====
-- internal/ptysession/session.go: one process on one PTY, its output fanned out to its attachments.
-- The session's mutex makes each operation a step. An attachment is shared by the session's set and
-- the client that reads it, so the session's `views` are the store of all attachments ever made, an
-- attachment's identity is its index there, and `attached` is membership of the set. `delivered`
-- records what Next has returned to the client. The PTY is an external library: `sizes` and `stdin`
-- record what it is told, and what its calls return is handed on.
pub mod Views
pub mod Replay
pub mod Seam
pub mod Size
pub mod Viewer
pub mod Ended
use lemul.Prelude.{
  ℕ, zero, suc, ◌+◌, ◌-◌, List, [], ◌∷◌, ◌++◌, Option, none, some, Bool, true, false, ◌&&◌, ◌||◌,
  not, ltb, ◌==◌, if◌then◌else◌, length, get_elem?, map,
}
use lemul.Prelude.Int.{ℤ, pos}
use lemul.Pty.Ring
use lemul.Pty.Ring.{Ring, new_ring, snapshot}
use lemul.Pty.Modes
use lemul.Pty.Modes.{ModeTracker, at_boundary, feed, prelude}
use lemul.Pty.Attachment
use lemul.Pty.Attachment.{
  Attachment, CloseReason, reason_session_ended, reason_detached, NextResult, output,
  new_attachment, push, default_queue_bytes, next, close,
}

pub record View : Type 0 where
  pub att : Attachment
  pub attached : Bool
  pub delivered : List ℕ

-- The identity, the process and the channel are left out; times are seconds of any clock.
pub record Session : Type 0 where
  pub started_at : ℕ
  pub ring : Ring
  pub modes : ModeTracker
  pub views : List View
  pub rows : ℕ
  pub cols : ℕ
  pub exited : Bool
  pub exit_code : ℤ
  pub last_output : ℕ
  pub sizes : List (ℕ × ℕ)
  pub stdin : List ℕ

-- What newSession refuses: an empty command, and a PTY that does not start (`started` is the outcome
-- of pty.StartWithSize).
pub data Created : Type 0 where
  empty_command start_failed : Created
  created : Session → Created

abbrev pub or_default : ℕ → ℕ → ℕ
or_default zero d = d
or_default (suc n) d = suc n

-- newSession
unfoldable pub new_session : List (List ℕ) → ℕ → ℕ → ℤ → Bool → ℕ → Created
new_session [] rows cols ring_bytes started now = empty_command
new_session (_ ∷ _) rows cols ring_bytes started now =
    if started
    then created (record {
      started_at = now;
      ring = new_ring ring_bytes;
      modes = Modes.new;
      views = [];
      rows = or_default rows 24;
      cols = or_default cols 80;
      exited = false;
      exit_code = pos 0;
      last_output = now;
      sizes = (or_default rows 24, or_default cols 80) ∷ [];
      stdin = [];
    })
    else start_failed

-- An operation on one attachment, at its index; an index that names none changes nothing.
unfoldable pub update : ℕ → (View → View) → List View → List View
update i f [] = []
update zero f (v ∷ vs) = f v ∷ vs
update (suc i) f (v ∷ vs) = v ∷ update i f vs

abbrev pub fan_out : List ℕ → View → View
fan_out buf v = if v.attached then record v { att = push buf v.att } else v

-- One round of readLoop that read `buf`, n > 0 bytes, at the time `now`.
unfoldable pub read : List ℕ → ℕ → Session → Session
read buf now s = record s {
  modes = feed s.modes buf;
  ring = Ring.push buf (at_boundary s.modes) s.ring;
  last_output = now;
  views = map (fan_out buf) s.views;
}

abbrev pub end_view : View → View
end_view v =
    if v.attached then record v { att = close reason_session_ended v.att; attached = false } else v

-- finish, with the exit code that Wait gave.
unfoldable pub finish : ℤ → Session → Session
finish code s = record s { exited = true; exit_code = code; views = map end_view s.views }

abbrev pub push_some : List ℕ → Attachment → Attachment
push_some p a = if ltb 0 (length p) then push p a else a

-- The attachment that Attach makes, seeded with the prelude and the replay.
unfoldable pub seeded : Bool → Session → Attachment
seeded read_only s =
    push_some (snapshot s.ring)
      (push_some (prelude s.modes) (new_attachment read_only (pos default_queue_bytes)))

-- What Attach returns: a refusal, or the attachment's index and the nudge that it spawns, if any.
pub data AttachResult : Type 0 where
  session_exited : AttachResult
  attachment : ℕ → Option (ℕ × ℕ) → AttachResult

-- The size that the spawned nudge asks for: a viewer passes zero, which stands for the current one.
abbrev pub nudge_request : Bool → Bool → ℕ → ℕ → Option (ℕ × ℕ)
nudge_request read_only repaint rows cols =
    if repaint then (if read_only then some (0, 0) else some (rows, cols)) else none

unfoldable pub attach : Bool → ℕ → ℕ → Bool → Session → AttachResult × Session
attach read_only rows cols repaint s = if s.exited then (session_exited, s) else (
  attachment (length s.views) (nudge_request read_only repaint rows cols),
  record s {
    views = s.views ++ record { att = seeded read_only s; attached = true; delivered = [] } ∷ [];
  },
)

abbrev pub detach_view : View → View
detach_view v = record v { att = close reason_detached v.att; attached = false }

-- Detach. The child is left running.
unfoldable pub detach : ℕ → Session → Session
detach i s = record s { views = update i detach_view s.views }

abbrev pub output_of : NextResult → List ℕ
output_of (output p) = p
output_of _ = []

abbrev pub take_view : View → View
take_view v = record v { att = (next v.att).1; delivered = v.delivered ++ output_of (next v.att).0 }

-- A client's call of Next.
unfoldable pub take : ℕ → Session → Session
take i s = record s { views = update i take_view s.views }

-- What Resize returns: nil at once, the refusal, or what pty.Setsize makes of the size.
pub data ResizeResult : Type 0 where
  no_size exited_error : ResizeResult
  setsize : ℕ → ℕ → ResizeResult

-- Resize
unfoldable pub resize : ℕ → ℕ → Session → ResizeResult × Session
resize rows cols s =
    if rows == 0 || cols == 0 then (no_size, s) else if s.exited then (exited_error, s) else (
      setsize rows cols,
      record s { rows = rows; cols = cols; sizes = s.sizes ++ (rows, cols) ∷ [] },
    )

-- nudge, once the size it asks for is settled. The results of its Resize calls are dropped.
unfoldable pub nudge_to : ℕ → ℕ → Session → Session
nudge_to rows cols s =
    if not (rows == s.rows) || not (cols == s.cols)
    then (resize rows cols s).1
    else if ltb cols 2
    then s
    else (resize rows cols (resize rows (cols - 1) s).1).1

-- The size that a nudge settles on: a zero in it stands for the present size.
abbrev pub nudge_size : ℕ → ℕ → Session → ℕ × ℕ
nudge_size rows cols s = if rows == 0 || cols == 0 then (s.rows, s.cols) else (rows, cols)

-- nudge, where nothing else resizes the PTY in between; nudgeMu keeps other nudges out.
unfoldable pub nudge : ℕ → ℕ → Session → Session
nudge rows cols s = nudge_to (nudge_size rows cols s).0 (nudge_size rows cols s).1 s

-- What a write to the session returns: the refusal, or what the PTY's Write makes of the bytes.
pub data WriteResult : Type 0 where
  write_exited : WriteResult
  discarded : ℕ → WriteResult
  pty_write : List ℕ → WriteResult

-- Session.write
unfoldable pub write : List ℕ → Session → WriteResult × Session
write p s = if s.exited then (write_exited, s) else (pty_write p, record s { stdin = s.stdin ++ p })

-- Attachment.Write and Attachment.Resize: a viewer's are discarded.
unfoldable pub write_by : Attachment → List ℕ → Session → WriteResult × Session
write_by a p s = if a.read_only then (discarded (length p), s) else write p s

unfoldable pub resize_by : Attachment → ℕ → ℕ → Session → ResizeResult × Session
resize_by a rows cols s = if a.read_only then (no_size, s) else resize rows cols s

-- Attachers
unfoldable pub attachers : List View → ℕ
attachers [] = 0
attachers (v ∷ vs) = let rest = attachers vs in if v.attached then suc rest else rest

-- Everything that can happen to a session, in the order in which the mutex lets it happen.
pub data Op : Type 0 where
  read_op : List ℕ → ℕ → Op
  finish_op : ℤ → Op
  attach_op : Bool → ℕ → ℕ → Bool → Op
  detach_op : ℕ → Op
  take_op : ℕ → Op
  resize_op : ℕ → ℕ → Op
  write_op : List ℕ → Op

unfoldable pub step : Op → Session → Session
step (read_op buf now) s = read buf now s
step (finish_op code) s = finish code s
step (attach_op read_only rows cols repaint) s = (attach read_only rows cols repaint s).1
step (detach_op i) s = detach i s
step (take_op i) s = take i s
step (resize_op rows cols) s = (resize rows cols s).1
step (write_op p) s = (write p s).1

unfoldable pub run : List Op → Session → Session
run [] s = s
run (o ∷ os) s = run os (step o s)

-- The bytes that the child printed in the course of the operations.
abbrev pub output_in : Op → List ℕ
output_in (read_op buf now) = buf
output_in _ = []

unfoldable pub outputs : List Op → List ℕ
outputs [] = []
outputs (o ∷ os) = output_in o ++ outputs os
