-- ===== src/Pty/Session/Viewer.antt =====
-- What the client of a viewer's attachment can change.
use lemul.Prelude.{
  ℕ, ◌≡◌, refl, ap, ◌∙◌, List, [], ◌∷◌, Option, none, some, Bool, true, false, inl, inr, Bool-cases,
  arith, length, get_elem?, if_true,
}
use lemul.Pty.Ring.{snapshot}
use lemul.Pty.Modes.{prelude}
use lemul.Pty.Attachment.{
  Attachment, CloseReason, reason_session_ended, reason_detached, push, close, next_of, next,
  new_attachment,
}
use lemul.Pty.Session.{
  View, Session, seeded, push_some, attach, no_size, nudge, nudge_request, discarded, write_by,
  resize_by, Op, read_op, finish_op, attach_op, detach_op, take_op, step, run,
}
use lemul.Pty.Session.Seam.{attach-live}
use lemul.Pty.Session.Size.{IsSized, IsNudged, nudge-IsNudged, step-IsSized, run-IsSized}
use lemul.Pty.Session.Views.{view_step, views-step, get_elem?-snoc}

read_only-push : (p : List ℕ) (a : Attachment) → (push p a).read_only ≡ a.read_only
unfolding push
read_only-push p a = ground arith

read_only-close : (r : CloseReason) (a : Attachment) → (close r a).read_only ≡ a.read_only
unfolding close
read_only-close r a = ground arith

read_only-next : (a : Attachment) → (next a).1.read_only ≡ a.read_only
unfolding next next_of
read_only-next a = go a.q
  where
    go : (q : List (List ℕ)) → (next_of q a).1.read_only ≡ a.read_only
    go [] = ground arith
    go (p ∷ ps) = refl

-- The mode of an attachment never changes.
read_only-view_step :
    (i : ℕ) (o : Op) (v : View) → (view_step i o v).att.read_only ≡ v.att.read_only
read_only-view_step i (read_op buf now) v = ground (arith, read_only-push buf v.att)
read_only-view_step i (finish_op code) v =
    ground (arith, read_only-close reason_session_ended v.att)
read_only-view_step i (detach_op j) v = ground (arith, read_only-close reason_detached v.att)
read_only-view_step i (take_op j) v = ground (arith, read_only-next v.att)
read_only-view_step i _ v = refl

read_only-run :
    (i : ℕ) (os : List Op) (s : Session) (v v' : View)
    → get_elem? s.views i ≡ some v
    → get_elem? (run os s).views i ≡ some v'
    → v'.att.read_only ≡ v.att.read_only
unfolding run
read_only-run i [] s v v' e e' = cc
read_only-run i (o ∷ os) s v v' e e' =
    read_only-run i os (step o s) (view_step i o v) v' (views-step i o s e) e'
    ∙ read_only-view_step i o v

read_only-seeded : (r : Bool) (s : Session) → (seeded r s).read_only ≡ r
unfolding seeded new_attachment
read_only-seeded r s = go (snapshot s.ring) _ ∙ go (prelude s.modes) _
  where
    go : (p : List ℕ) (a : Attachment) → (push_some p a).read_only ≡ a.read_only
    go p a = ground (arith, read_only-push p a)

-- What a viewer's client can do with its attachment, whatever has happened since it attached:
-- nothing that reaches the child's input or its size.
pub record IsHarmless (a : Attachment) (s : Session) : Type 0 where
  pub typing : (p : List ℕ) → write_by a p s ≡ (discarded (length p), s)
  pub resizing : (rows cols : ℕ) → resize_by a rows cols s ≡ (no_size, s)

read_only-IsHarmless : (a : Attachment) (s : Session) → a.read_only ≡ true → IsHarmless a s
unfolding write_by resize_by
read_only-IsHarmless a s e = record { typing = λ p. if_true _ _ e; resizing = λ r c. if_true _ _ e }

-- What comes of the nudge of a viewer's attach: none was asked for, the session has ended when it runs,
-- or it leaves the session at the size that it has then.
pub data Nudged (s : Session) : Option (ℕ × ℕ) → Type 0 where
  not_asked : Nudged s none
  too_late : (r c : ℕ) → s.exited ≡ true → Nudged s (some (r, c))
  kept : (r c : ℕ) → IsNudged s.rows s.cols s (nudge r c s) → Nudged s (some (r, c))

request-Nudged :
    (repaint : Bool) (rows cols : ℕ) (s : Session)
    → IsSized s
    → Nudged s (nudge_request true repaint rows cols)
request-Nudged false rows cols s h = not_asked
request-Nudged true rows cols s h = elim (Bool-cases s.exited) [
  | inl e ↦ too_late 0 0 e
  | inr e ↦ kept 0 0 (nudge-IsNudged 0 0 s e h)
]

-- A client that attached to a live session as a viewer stays one: at any later time, with the session
-- live or ended, its writes and its resizes return at once and change nothing; and the nudge that its
-- attach asked for, if any, and whatever size it sent, leaves the session, if it is still live when the
-- nudge runs, at the size that it has then.
pub viewer-IsHarmless :
    (s : Session) (rows cols : ℕ) (repaint : Bool) (os : List Op) (v : View)
    → s.exited ≡ false
    → IsSized s
    → get_elem? (run os (attach true rows cols repaint s).1).views (length s.views) ≡ some v
    → IsHarmless v.att (run os (attach true rows cols repaint s).1)
      × Nudged (run os (attach true rows cols repaint s).1) (nudge_request true repaint rows cols)
unfolding step
viewer-IsHarmless s rows cols repaint os v e z at =
    let s1 = (attach true rows cols repaint s).1 in
    let s' = run os s1 in
    let made =
      get_elem?-snoc s.views (record { att = seeded true s; attached = true; delivered = [] }) in
    (
      read_only-IsHarmless v.att s' (
          read_only-run (length s.views) os s1 _ v
            (ap (λ (t : Session). get_elem? t.views (length s.views))
                (ap (λ t. t.1) (attach-live s true rows cols repaint e))
              ∙ made)
            at
          ∙ read_only-seeded true s),
      request-Nudged repaint rows cols s'
          (run-IsSized os s1 (step-IsSized (attach_op true rows cols repaint) s z)),
    )
