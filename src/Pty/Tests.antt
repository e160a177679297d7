-- ===== src/Pty/Tests.antt =====
-- Runs of internal/ptysession on small inputs, and its theorems at them.
use lemul.Prelude.{
  ℕ, ◌≡◌, ◌≢◌, refl, List, [], ◌∷◌, ◌++◌, some, Bool, true, false, arith, get_elem?,
}
use lemul.Prelude.Int.{pos, negsuc}
use lemul.Strconv.{atoi, atoi_positive, unsigned, digits_value}
use lemul.Pty.Ring
use lemul.Pty.Ring.{Chunk, Ring, ring_limit, new_ring, snapshot}
use lemul.Pty.Ring.Window.{total, push_all, IsWindow, push_all-IsWindow}
use lemul.Pty.Modes
use lemul.Pty.Modes.{at_boundary, feed, prelude, lookup}
use lemul.Pty.Modes.RoundTrip.{Replays, prelude-Replays}
use lemul.Pty.Attachment
use lemul.Pty.Attachment.{reason_overflow, reason_detached}
use lemul.Pty.Attachment.Stream.{
  IsLink, pushed, taken, closed_for, link_run, new_link, link_run-IsLink, Event,
}
use lemul.Pty.Session
use lemul.Pty.Session.{
  View, Session, created, new_session, seeded, attach, attachment, session_exited, nudge_request,
  nudge_size, write, write_exited, finish, Op, read_op, attach_op, take_op, resize_op, write_op,
  detach_op, run, outputs,
}
use lemul.Prelude.Dict
use lemul.Prelude.Dict.{string_key}
use lemul.Pty.Manager
use lemul.Pty.Manager.{Manager}
use lemul.Pty.Manager.Live.{run-get}
use lemul.Pty.Session.Replay.{snapshot-boundary}
use lemul.Pty.Session.Seam.{IsSeamless, attach-IsSeamless}
use lemul.Pty.Session.Size.{IsSized}
use lemul.Pty.Session.Viewer.{IsHarmless, Nudged, viewer-IsHarmless}
use lemul.Pty.Session.Ended.{IsOver, finish-final}

-- ESC[?2004h, ESC[>1u, ESC[>4;2m and a letter
abbrev startup : List ℕ
startup =
    0x1b ∷ b'[' ∷ b'?' ∷ b'2' ∷ b'0' ∷ b'0' ∷ b'4' ∷ b'h' ∷ 0x1b ∷ b'[' ∷ b'>' ∷ b'1' ∷ b'u' ∷ 0x1b
    ∷ b'[' ∷ b'>' ∷ b'4' ∷ b';' ∷ b'2' ∷ b'm' ∷ b'x' ∷ []

startup_modes :
    (lookup (pos 2004) (feed Modes.new startup).dec ≡ some true)
    × ((feed Modes.new startup).kitty ≡ 0x1b ∷ b'[' ∷ b'>' ∷ b'1' ∷ b'u' ∷ [])
unfolding lookup feed Modes.feed_byte Modes.feed_byte_in Modes.commit Modes.commit_params
    Modes.params_of Modes.drop_last Modes.set_fields Modes.set_field Modes.set_mode Modes.insert
    Modes.split atoi atoi_positive unsigned digits_value
startup_modes = (refl, refl)

prelude-Replays_example :
    Replays (feed Modes.new startup) (feed Modes.new (prelude (feed Modes.new startup)))
prelude-Replays_example = prelude-Replays startup

abbrev three_chunks : List Chunk
three_chunks =
    record { b = 1 ∷ 2 ∷ 3 ∷ []; clean_start = true }
    ∷ record { b = 4 ∷ 5 ∷ []; clean_start = false }
    ∷ record { b = 6 ∷ []; clean_start = true }
    ∷ []

-- A ring of four bytes has dropped the first chunk, and replays from the third.
ring_runs : snapshot (push_all three_chunks (new_ring (pos 4))) ≡ 6 ∷ []
unfolding snapshot push_all new_ring Ring.push Ring.evict
ring_runs = refl

push_all-IsWindow_example :
    IsWindow (ring_limit (pos 4)) three_chunks (push_all three_chunks (new_ring (pos 4))).chunks
    × ((push_all three_chunks (new_ring (pos 4))).bytes
        ≡ total (push_all three_chunks (new_ring (pos 4))).chunks)
push_all-IsWindow_example = push_all-IsWindow (pos 4) three_chunks

abbrev traffic : List Event
traffic =
    pushed (1 ∷ 2 ∷ [])
    ∷ taken
    ∷ pushed (3 ∷ [])
    ∷ pushed (4 ∷ 5 ∷ 6 ∷ [])
    ∷ closed_for reason_detached
    ∷ []

link_run-IsLink_example : IsLink (link_run traffic (new_link false (pos 3)))
link_run-IsLink_example = link_run-IsLink false (pos 3) traffic

abbrev command : List (List ℕ)
command = (b'c' ∷ []) ∷ []

-- A session of 24 by 80, as newSession makes it at time 100 with a ring of 64 bytes.
abbrev demo : Session
demo = record {
  started_at = 100;
  ring = record { chunks = []; bytes = 0; limit = 64 };
  modes = Modes.new;
  views = [];
  rows = 24;
  cols = 80;
  exited = false;
  exit_code = pos 0;
  last_output = 100;
  sizes = (24, 80) ∷ [];
  stdin = [];
}

demo_created : new_session command 0 0 (pos 64) true 100 ≡ created demo
unfolding new_session new_ring
demo_created = refl

abbrev script : List Op
script =
    read_op startup 101
    ∷ attach_op false 24 80 true
    ∷ take_op 0
    ∷ read_op (b'y' ∷ []) 102
    ∷ write_op (b'q' ∷ [])
    ∷ resize_op 30 100
    ∷ []

snapshot-boundary_example :
    (before : List ℕ) × (outputs script ≡ before ++ snapshot (run script demo).ring)
    × (snapshot (run script demo).ring ≢ [] → at_boundary (feed Modes.new before) ≡ true)
snapshot-boundary_example = snapshot-boundary command 0 0 (pos 64) true 100 demo script demo_created

attach-IsSeamless_example :
    let (result, s') = attach false 24 80 true demo in
    (result ≡ attachment 0 (some (24, 80)))
    × ((v : View) × (get_elem? (run script s').views 0 ≡ some v)
        × IsSeamless ((prelude demo.modes ++ snapshot demo.ring) ++ outputs script) v)
attach-IsSeamless_example = attach-IsSeamless demo false 24 80 true script refl

demo-IsSized : IsSized demo
demo-IsSized = record { rows_pos = omega arith; cols_pos = omega arith; earlier = []; told = refl }

abbrev watched : Session
watched = run (read_op (b'z' ∷ []) 103 ∷ []) (attach true 50 132 true demo).1

abbrev watcher : View
watcher = record {
  att = record {
    read_only = true;
    q = (b'z' ∷ []) ∷ [];
    queued = 1;
    limit = 4194304;
    closed = false;
    reason = Attachment.reason_none;
  };
  attached = true;
  delivered = [];
}

viewer-IsHarmless_example :
    IsHarmless watcher.att watched × Nudged watched (nudge_request true true 50 132)
unfolding run Session.step Session.read attach seeded Attachment.new_attachment Attachment.push
    snapshot prelude Modes.render_all Modes.sort_ints Modes.replayed
viewer-IsHarmless_example =
    viewer-IsHarmless demo 50 132 true (read_op (b'z' ∷ []) 103 ∷ []) watcher refl demo-IsSized refl

finish-final_example :
    let ended = finish (negsuc 0) (run script demo) in
    let s' = run (attach_op true 24 80 true ∷ []) ended in
    IsOver s'
    × (s'.stdin ≡ ended.stdin)
    × (s'.sizes ≡ ended.sizes)
    × ((r : Bool) (rows cols : ℕ) (p : Bool) → attach r rows cols p s' ≡ (session_exited, s'))
    × ((p : List ℕ) → write p s' ≡ (write_exited, s'))
finish-final_example =
    finish-final command 0 0 (pos 64) true 100 demo script (negsuc 0)
      (attach_op true 24 80 true ∷ []) demo_created

abbrev one_session : Manager
one_session = record {
  ring_bytes = pos 64;
  nudge_delay = pos 1;
  sessions = ("s1", 1) ∷ [];
  has_on_exit = true;
  stopped = [];
  exits = [];
}

abbrev races : List Manager.Op
races =
    Manager.insert_op "s2" 2
    ∷ Manager.insert_op "s1" 3
    ∷ Manager.reap_op "s2" (pos 0)
    ∷ Manager.stop_op "s1" false
    ∷ []

-- The loser of the race is stopped with force, and the winner stays.
races-run : (Manager.run races one_session).stopped ≡ (3, true) ∷ (1, false) ∷ []
unfolding Manager.run Manager.step Manager.insert Manager.reap Manager.stop Manager.get Dict.lookup
    Dict.put Dict.without
races-run = refl

run-get_example : Manager.get "s1" (Manager.run races one_session) ≡ some 1
unfolding Manager.get Dict.lookup
run-get_example = run-get "s1" 1 races one_session refl (tt, (tt, (refl, (tt, tt))))
