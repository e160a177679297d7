-- ===== src/Pty/Session/Seam.antt =====
-- What one client receives: the prelude, the replay, and then the live output, with no seam.
use mathlib.Core.List.{append_assoc, append-nil}
use lemul.Prelude.{
  ℕ, ◌≡◌, refl, sym, ◌∙◌, subst, List, [], ◌∷◌, ◌++◌, some, Bool, true, false, arith, ◌==◌,
  if◌then◌else◌, length, get_elem?, if_false,
}
use lemul.Prelude.Int.{pos}
use lemul.Pty.Ring.{snapshot}
use lemul.Pty.Modes.{prelude}
use lemul.Pty.Attachment.{Attachment, CloseReason, push, close, next_of, next, default_queue_bytes}
use lemul.Pty.Attachment.Stream.{
  Link, IsLink, link_step, new_link-IsLink, push-IsLink, take-IsLink, close-IsLink,
}
use lemul.Pty.Session.{
  View, Session, fan_out, take_view, seeded, push_some, attach, attachment, nudge_request, Op,
  read_op, finish_op, attach_op, detach_op, take_op, resize_op, write_op, step, run, output_in,
  outputs,
}
use lemul.Pty.Session.Views.{view_step, views-step, get_elem?-snoc}

abbrev link_of : List ℕ → View → Link
link_of history v = record { att = v.att; offered = history; delivered = v.delivered }

-- The client's stream against `history`, and an attachment outside the set is a closed one.
pub record IsSeamless (history : List ℕ) (v : View) : Type 0 where
  pub link : IsLink (link_of history v)
  pub open_attached : v.att.closed ≡ false → v.attached ≡ true

-- A push to an attachment that has left the set would change nothing.
fan_out-push :
    (buf : List ℕ) (v : View)
    → (v.att.closed ≡ false → v.attached ≡ true)
    → fan_out buf v ≡ record v { att = push buf v.att }
unfolding push
fan_out-push [] v h = ground arith
fan_out-push (b ∷ buf) v h = ground arith

closed-push : (buf : List ℕ) (a : Attachment) → (push buf a).closed ≡ false → a.closed ≡ false
unfolding push
closed-push [] a h = h
closed-push (b ∷ buf) a h = ground arith

read-IsSeamless :
    (history buf : List ℕ) (v : View)
    → IsSeamless history v
    → IsSeamless (history ++ buf) (fan_out buf v)
unfolding link_step
read-IsSeamless history buf v h = rw (fan_out-push buf v h.open_attached) (record {
  link = push-IsLink buf (link_of history v) h.link;
  open_attached = λ o. h.open_attached (closed-push buf v.att o);
})

open-next : (a : Attachment) → (next a).1.closed ≡ a.closed
unfolding next next_of
open-next a = go a.q
  where
    go : (q : List (List ℕ)) → (next_of q a).1.closed ≡ a.closed
    go [] = ground arith
    go (p ∷ ps) = refl

take-IsSeamless :
    (history : List ℕ) (v : View) → IsSeamless history v → IsSeamless history (take_view v)
unfolding link_step
take-IsSeamless history v h = record {
  link = take-IsLink (link_of history v) h.link;
  open_attached = λ o. h.open_attached (sym (open-next v.att) ∙ o);
}

closed-close : (r : CloseReason) (a : Attachment) → (close r a).closed ≡ true
unfolding close
closed-close r a = ground arith

-- Leaving the set closes the attachment, for either reason.
leave-IsSeamless :
    (r : CloseReason) (history : List ℕ) (v : View)
    → IsSeamless history v
    → IsSeamless history (record v { att = close r v.att; attached = false })
unfolding link_step
leave-IsSeamless r history v h = record {
  link = close-IsLink r (link_of history v) h.link;
  open_attached = λ o. cc (closed-close r v.att);
}

IsSeamless-if :
    (b : Bool) (history : List ℕ) (v w : View)
    → IsSeamless history v
    → IsSeamless history w
    → IsSeamless history (if b then v else w)
IsSeamless-if true history v w hv hw = hv
IsSeamless-if false history v w hv hw = hw

view_step-IsSeamless :
    (i : ℕ) (o : Op) (history : List ℕ) (v : View)
    → IsSeamless history v
    → IsSeamless (history ++ output_in o) (view_step i o v)
view_step-IsSeamless i (read_op buf now) history v h = read-IsSeamless history buf v h
view_step-IsSeamless i (finish_op code) history v h =
    rw append-nil (IsSeamless-if v.attached history _ v (leave-IsSeamless _ history v h) h)
view_step-IsSeamless i (detach_op j) history v h =
    rw append-nil (IsSeamless-if (i == j) history _ v (leave-IsSeamless _ history v h) h)
view_step-IsSeamless i (take_op j) history v h =
    rw append-nil (IsSeamless-if (i == j) history _ v (take-IsSeamless history v h) h)
view_step-IsSeamless i (attach_op r rows cols p) history v h = rw append-nil h
view_step-IsSeamless i (resize_op rows cols) history v h = rw append-nil h
view_step-IsSeamless i (write_op p) history v h = rw append-nil h

run-IsSeamless :
    (i : ℕ) (os : List Op) (history : List ℕ) (s : Session) (v : View)
    → get_elem? s.views i ≡ some v
    → IsSeamless history v
    → (v' : View) × (get_elem? (run os s).views i ≡ some v') × IsSeamless (history ++ outputs os) v'
unfolding run outputs
run-IsSeamless i [] history s v e h = (v, e, rw append-nil h)
run-IsSeamless i (o ∷ os) history s v e h =
    let (v', e', h') =
      run-IsSeamless i os (history ++ output_in o) (step o s) (view_step i o v) (views-step i o s e)
        (view_step-IsSeamless i o history v h) in
    (v', e', subst (λ t. IsSeamless t v') (append_assoc history (output_in o) (outputs os)) h')

push_some-push : (p : List ℕ) (a : Attachment) → push_some p a ≡ push p a
unfolding push
push_some-push [] a = refl
push_some-push (b ∷ p) a = ground arith

-- A fresh attachment has been offered the prelude and the replay.
seeded-IsSeamless :
    (read_only : Bool) (s : Session)
    → IsSeamless
        (prelude s.modes ++ snapshot s.ring)
        (record { att = seeded read_only s; attached = true; delivered = [] })
unfolding seeded link_step
seeded-IsSeamless read_only s = record {
  link =
      rw (push_some-push, push_some-push)
        (push-IsLink (snapshot s.ring) _
          (push-IsLink (prelude s.modes) _ (new_link-IsLink read_only (pos default_queue_bytes))));
  open_attached = λ _. refl;
}

-- Attach to a live session.
pub attach-live :
    (s : Session) (r : Bool) (rows cols : ℕ) (p : Bool)
    → s.exited ≡ false
    → attach r rows cols p s ≡ (
      attachment (length s.views) (nudge_request r p rows cols),
      record s {
        views = s.views ++ record { att = seeded r s; attached = true; delivered = [] } ∷ [];
      },
    )
unfolding attach
attach-live s r rows cols p e = if_false _ _ e

-- Attach to a live session succeeds, and whatever happens to the session afterwards, the bytes that
-- this client has been given are a prefix of the mode prelude, the replay and the live output since,
-- in that order, with no gap and no repetition. While the attachment is open all the rest is in its
-- queue, and it is still in the session's set.
pub attach-IsSeamless :
    (s : Session) (read_only : Bool) (rows cols : ℕ) (repaint : Bool) (os : List Op)
    → s.exited ≡ false
    → let (result, s') = attach read_only rows cols repaint s in
      (result ≡ attachment (length s.views) (nudge_request read_only repaint rows cols))
      × ((v : View) × (get_elem? (run os s').views (length s.views) ≡ some v)
          × IsSeamless ((prelude s.modes ++ snapshot s.ring) ++ outputs os) v)
attach-IsSeamless s r rows cols p os e = rw (attach-live s r rows cols p e) (
  refl,
  run-IsSeamless (length s.views) os (prelude s.modes ++ snapshot s.ring) _ _
      (get_elem?-snoc s.views _) (seeded-IsSeamless r s),
)
