-- ===== src/Pty/Session/Replay.antt =====
-- The replay ring and the mode tracker of one session, against everything the child has printed.
use mathlib.Core.List.{append_assoc, append-nil}
use lemul.Prelude.{
  ℕ, ◌-◌, ◌≡◌, ◌≢◌, refl, sym, ap, ◌∙◌, subst, List, [], ◌∷◌, ◌++◌, Bool, true, arith, ltb, length,
  Bool-cases, inl, inr,
}
use lemul.Prelude.Int.{ℤ}
use lemul.Pty.Ring
use lemul.Pty.Ring.{Chunk, Ring, new_ring, evict, from_clean, contents, snapshot}
use lemul.Pty.Ring.Window.{contents-append}
use lemul.Pty.Modes
use lemul.Pty.Modes.{ModeTracker, at_boundary, feed}
use lemul.Pty.Modes.Replay.{feed-append}
use lemul.Pty.Session.{
  Session, created, new_session, read, finish, attach, detach, take, resize, write, Op, read_op,
  finish_op, attach_op, detach_op, take_op, resize_op, write_op, step, run, outputs, output_in,
}

-- Each chunk's mark says whether the tracker stands at the boundary where the chunk begins.
abbrev IsMarked : List ℕ → List Chunk → Type 0
IsMarked before [] = Unit {0}
IsMarked before (c ∷ cs) =
    (c.clean_start ≡ at_boundary (feed Modes.new before)) × IsMarked (before ++ c.b) cs

-- `cs` are the last bytes of `history`, in marked chunks.
record IsTail (history : List ℕ) (cs : List Chunk) : Type 0 where
  before : List ℕ
  parts : history ≡ before ++ contents cs
  marks : IsMarked before cs

IsMarked-snoc :
    (before : List ℕ) (cs : List Chunk) (c : Chunk)
    → IsMarked before cs
    → c.clean_start ≡ at_boundary (feed Modes.new (before ++ contents cs))
    → IsMarked before (cs ++ c ∷ [])
unfolding contents
IsMarked-snoc before [] c m e =
    (e ∙ ap (λ t. at_boundary (feed Modes.new t)) (append-nil before), tt)
IsMarked-snoc before (x ∷ cs) c m e = (
  m.0,
  IsMarked-snoc (before ++ x.b) cs c m.1
      (e ∙ ap (λ t. at_boundary (feed Modes.new t)) (sym (append_assoc before x.b (contents cs)))),
)

IsTail-of_rest :
    (history : List ℕ) (c : Chunk) (cs : List Chunk) → IsTail history (c ∷ cs) → IsTail history cs
unfolding contents
IsTail-of_rest history c cs t = record {
  before = t.before ++ c.b;
  parts = t.parts ∙ sym (append_assoc t.before c.b (contents cs));
  marks = t.marks.1;
}

evict-IsTail :
    (history : List ℕ) (limit n : ℕ) (cs : List Chunk)
    → IsTail history cs
    → IsTail history (evict limit n cs).0
unfolding evict
evict-IsTail history limit n [] t = t
evict-IsTail history limit n (c ∷ cs) t = elim (Bool-cases (ltb limit n)) [
  | inl e ↦ rw e (evict-IsTail history limit (n - length c.b) cs (IsTail-of_rest history c cs t))
  | inr e ↦ rw e t
]

-- What a session has kept of its output.
record IsRecorded (history : List ℕ) (s : Session) : Type 0 where
  modes : s.modes ≡ feed Modes.new history
  replay : IsTail history s.ring.chunks

read-IsRecorded :
    (history buf : List ℕ) (now : ℕ) (s : Session)
    → IsRecorded history s
    → IsRecorded (history ++ buf) (read buf now s)
unfolding read Ring.push
read-IsRecorded history buf now s r =
    let c : Chunk = record { b = buf; clean_start = at_boundary s.modes } in
    let cs = s.ring.chunks in
    record {
      modes = ap (λ t. feed t buf) r.modes ∙ sym (feed-append Modes.new history buf);
      replay = evict-IsTail (history ++ buf) s.ring.limit _ (cs ++ c ∷ []) (record {
        before = r.replay.before;
        parts =
            ap (λ t. t ++ buf) r.replay.parts
            ∙ append_assoc r.replay.before (contents cs) buf
            ∙ ap (λ t. r.replay.before ++ t) (sym (snoc cs c));
        marks =
            IsMarked-snoc r.replay.before cs c r.replay.marks
              (ap at_boundary (r.modes ∙ ap (feed Modes.new) r.replay.parts));
      });
    }
  where
    snoc : (cs : List Chunk) (c : Chunk) → contents (cs ++ c ∷ []) ≡ contents cs ++ c.b
    snoc cs c =
        contents-append cs (c ∷ []) ∙ ap (λ t. contents cs ++ t) (unfold contents in append-nil c.b)

same-IsRecorded :
    (history : List ℕ) (s s' : Session)
    → s'.ring ≡ s.ring
    → s'.modes ≡ s.modes
    → IsRecorded history s
    → IsRecorded (history ++ []) s'
same-IsRecorded history s s' e m r = record {
  modes = m ∙ r.modes ∙ ap (feed Modes.new) (sym (append-nil history));
  replay =
      subst (λ h. IsTail h s'.ring.chunks) (sym (append-nil history))
        (subst (λ (g : Ring). IsTail history g.chunks) (sym e) r.replay);
}

-- Every operation keeps the record, and no operation but a read touches the ring or the tracker.
step-IsRecorded :
    (history : List ℕ) (o : Op) (s : Session)
    → IsRecorded history s
    → IsRecorded (history ++ output_in o) (step o s)
unfolding step finish attach detach take resize write
step-IsRecorded history (read_op buf now) s r = read-IsRecorded history buf now s r
step-IsRecorded history (finish_op code) s r = same-IsRecorded history s _ refl refl r
step-IsRecorded history (attach_op v rows cols p) s r =
    same-IsRecorded history s (attach v rows cols p s).1 (ground arith) (ground arith) r
step-IsRecorded history (detach_op i) s r = same-IsRecorded history s _ refl refl r
step-IsRecorded history (take_op i) s r = same-IsRecorded history s _ refl refl r
step-IsRecorded history (resize_op rows cols) s r =
    same-IsRecorded history s (resize rows cols s).1 (ground arith) (ground arith) r
step-IsRecorded history (write_op p) s r =
    same-IsRecorded history s (write p s).1 (ground arith) (ground arith) r

run-IsRecorded :
    (history : List ℕ) (os : List Op) (s : Session)
    → IsRecorded history s
    → IsRecorded (history ++ outputs os) (run os s)
unfolding run outputs
run-IsRecorded history [] s r = same-IsRecorded history s s refl refl r
run-IsRecorded history (o ∷ os) s r =
    subst (λ h. IsRecorded h (run os (step o s))) (append_assoc history (output_in o) (outputs os))
      (run-IsRecorded (history ++ output_in o) os (step o s) (step-IsRecorded history o s r))

new_session-IsRecorded :
    (cmd : List (List ℕ)) (rows cols : ℕ) (ring_bytes : ℤ) (started : Bool) (now : ℕ) (s : Session)
    → new_session cmd rows cols ring_bytes started now ≡ created s
    → IsRecorded [] s
unfolding new_session new_ring feed
new_session-IsRecorded [] rows cols rb b now s e = cc
new_session-IsRecorded (c ∷ cmd) rows cols rb b now s e =
    let none_yet : s.ring.chunks ≡ [] = ground arith in
    record {
      modes = ground arith;
      replay =
          subst (IsTail []) (sym none_yet)
            (record { before = []; parts = unfold contents in refl; marks = tt });
    }

from_clean-boundary :
    (history : List ℕ) (cs : List Chunk)
    → IsTail history cs
    → (before : List ℕ) × (history ≡ before ++ contents (from_clean cs))
      × (contents (from_clean cs) ≢ [] → at_boundary (feed Modes.new before) ≡ true)
unfolding contents from_clean
from_clean-boundary history [] t = (t.before, t.parts, λ ne. absurd (ne refl))
from_clean-boundary history (c ∷ cs) t = elim (Bool-cases c.clean_start) [
  | inl e ↦ (t.before, rw e t.parts, λ _. sym t.marks.0 ∙ e)
  | inr e ↦ rw e (from_clean-boundary history cs (IsTail-of_rest history c cs t))
]

-- A replay is the end of what the child has printed, whole and in order, and it never begins inside
-- a control sequence: the tracker that has read all the output before it stands at the boundary.
pub snapshot-boundary :
    (cmd : List (List ℕ)) (rows cols : ℕ) (ring_bytes : ℤ) (started : Bool) (now : ℕ) (s : Session)
    (os : List Op)
    → new_session cmd rows cols ring_bytes started now ≡ created s
    → (before : List ℕ) × (outputs os ≡ before ++ snapshot (run os s).ring)
      × (snapshot (run os s).ring ≢ [] → at_boundary (feed Modes.new before) ≡ true)
unfolding snapshot
snapshot-boundary cmd rows cols rb b now s os e =
    from_clean-boundary (outputs os) (run os s).ring.chunks
      (run-IsRecorded [] os s (new_session-IsRecorded cmd rows cols rb b now s e)).replay
