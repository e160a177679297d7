-- ===== src/Pty/Session/Ended.antt =====
-- After the child has exited.
use lemul.Prelude.{
  ℕ, zero, suc, ◌≡◌, refl, sym, ap, ◌∙◌, subst, List, [], ◌∷◌, Bool, true, false, arith, Bool-cases,
  inl, inr, if_true, All, All-snoc, map,
}
use lemul.Prelude.Int.{ℤ}
use lemul.Pty.Attachment.{Attachment, close, next_of, next}
use lemul.Pty.Session.{
  View, Session, created, new_session, update, fan_out, end_view, detach_view, take_view, read,
  finish, attach, session_exited, detach, take, resize, write, write_exited, Op, read_op, finish_op,
  attach_op, detach_op, take_op, resize_op, write_op, step, run,
}

-- An attachment outside the set is a closed one.
abbrev IsKept : View → Type 0
IsKept v = v.att.closed ≡ false → v.attached ≡ true

abbrev IsGone : View → Type 0
IsGone v = (v.att.closed ≡ true) × (v.attached ≡ false)

-- The session is over: nothing is attached to it, and every attachment ever made is closed.
pub record IsOver (s : Session) : Type 0 where
  pub over : s.exited ≡ true
  pub gone : All IsGone s.views

All-map :
    (P Q : View → Type 0) (f : View → View)
    → ((v : View) → P v → Q (f v))
    → (vs : List View) → All P vs
    → All Q (map f vs)
All-map P Q f g [] h = tt
All-map P Q f g (v ∷ vs) h = (g v h.0, All-map P Q f g vs h.1)

module _ (P : View → Type 0) where
  All-update :
      (f : View → View)
      → ((v : View) → P v → P (f v))
      → (i : ℕ) (vs : List View) → All P vs
      → All P (update i f vs)
  unfolding update
  All-update f g i [] h = tt
  All-update f g zero (v ∷ vs) h = (g v h.0, h.1)
  All-update f g (suc i) (v ∷ vs) h = (h.0, All-update f g i vs h.1)

closed-next : (a : Attachment) → (next a).1.closed ≡ a.closed
unfolding next next_of
closed-next a = go a.q
  where
    go : (q : List (List ℕ)) → (next_of q a).1.closed ≡ a.closed
    go [] = ground arith
    go (p ∷ ps) = refl

end-IsGone : (v : View) → IsKept v → IsGone (end_view v)
unfolding close
end-IsGone v k = ground arith

fan_out-IsGone : (buf : List ℕ) (v : View) → IsGone v → IsGone (fan_out buf v)
fan_out-IsGone buf v g = ground arith

end_again-IsGone : (v : View) → IsGone v → IsGone (end_view v)
end_again-IsGone v g = ground arith

detach-IsGone : (v : View) → IsGone v → IsGone (detach_view v)
unfolding close
detach-IsGone v g = ground arith

take-IsGone : (v : View) → IsGone v → IsGone (take_view v)
take-IsGone v g = (closed-next v.att ∙ g.0, g.1)

-- What every operation answers, and leaves, once the child has exited.
module _ (s : Session) (e : s.exited ≡ true) where
  attach_refused :
      (r : Bool) (rows cols : ℕ) (p : Bool) → attach r rows cols p s ≡ (session_exited, s)
  unfolding attach
  attach_refused r rows cols p = if_true _ _ e

  write_refused : (p : List ℕ) → write p s ≡ (write_exited, s)
  unfolding write
  write_refused p = if_true _ _ e

  resize_refused : (rows cols : ℕ) → (resize rows cols s).1 ≡ s
  unfolding resize
  resize_refused rows cols = ground arith

-- Nothing brings a session back.
step-IsOver : (o : Op) (s : Session) → IsOver s → IsOver (step o s)
unfolding step read finish detach take
step-IsOver (read_op buf now) s h = record {
  over = h.over;
  gone = All-map IsGone IsGone (fan_out buf) (fan_out-IsGone buf) s.views h.gone;
}
step-IsOver (finish_op code) s h = record {
  over = refl;
  gone = All-map IsGone IsGone end_view end_again-IsGone s.views h.gone;
}
step-IsOver (attach_op r rows cols p) s h =
    subst IsOver (sym (ap (λ t. t.1) (attach_refused s h.over r rows cols p))) h
step-IsOver (detach_op i) s h = record {
  over = h.over;
  gone = All-update IsGone detach_view detach-IsGone i s.views h.gone;
}
step-IsOver (take_op i) s h = record {
  over = h.over;
  gone = All-update IsGone take_view take-IsGone i s.views h.gone;
}
step-IsOver (resize_op rows cols) s h = subst IsOver (sym (resize_refused s h.over rows cols)) h
step-IsOver (write_op p) s h = subst IsOver (sym (ap (λ t. t.1) (write_refused s h.over p))) h

same : (s' s : Session) → s' ≡ s → (s'.stdin ≡ s.stdin) × (s'.sizes ≡ s.sizes)
same s' s e = (ap (λ (t : Session). t.stdin) e, ap (λ (t : Session). t.sizes) e)

-- The child is told nothing more.
step-told :
    (o : Op) (s : Session) → IsOver s → ((step o s).stdin ≡ s.stdin) × ((step o s).sizes ≡ s.sizes)
unfolding step read finish detach take
step-told (read_op buf now) s h = (refl, refl)
step-told (finish_op code) s h = (refl, refl)
step-told (attach_op r rows cols p) s h =
    same _ s (ap (λ t. t.1) (attach_refused s h.over r rows cols p))
step-told (detach_op i) s h = (refl, refl)
step-told (take_op i) s h = (refl, refl)
step-told (resize_op rows cols) s h = same _ s (resize_refused s h.over rows cols)
step-told (write_op p) s h = same _ s (ap (λ t. t.1) (write_refused s h.over p))

run-IsOver :
    (os : List Op) (s : Session)
    → IsOver s
    → IsOver (run os s) × ((run os s).stdin ≡ s.stdin) × ((run os s).sizes ≡ s.sizes)
unfolding run
run-IsOver [] s h = (h, refl, refl)
run-IsOver (o ∷ os) s h =
    let (over, stdin, sizes) = run-IsOver os (step o s) (step-IsOver o s h) in
    let told = step-told o s h in (over, stdin ∙ told.0, sizes ∙ told.1)

-- Before the exit, an attachment that is open is in the session's set.
fan_out-IsKept : (buf : List ℕ) (v : View) → IsKept v → IsKept (fan_out buf v)
fan_out-IsKept buf v k = ground arith

end-IsKept : (v : View) → IsKept v → IsKept (end_view v)
unfolding close
end-IsKept v k = ground arith

detach-IsKept : (v : View) → IsKept v → IsKept (detach_view v)
unfolding close
detach-IsKept v k = ground arith

take-IsKept : (v : View) → IsKept v → IsKept (take_view v)
take-IsKept v k c = k (sym (closed-next v.att) ∙ c)

step-IsKept : (o : Op) (s : Session) → All IsKept s.views → All IsKept (step o s).views
unfolding step read finish detach take resize write attach
step-IsKept (read_op buf now) s h =
    All-map IsKept IsKept (fan_out buf) (fan_out-IsKept buf) s.views h
step-IsKept (finish_op code) s h = All-map IsKept IsKept end_view end-IsKept s.views h
step-IsKept (attach_op r rows cols p) s h = elim (Bool-cases s.exited) [
  | inl e ↦ rw e h
  | inr e ↦ rw e (All-snoc IsKept s.views _ h (λ _. refl))
]
step-IsKept (detach_op i) s h = All-update IsKept detach_view detach-IsKept i s.views h
step-IsKept (take_op i) s h = All-update IsKept take_view take-IsKept i s.views h
step-IsKept (resize_op rows cols) s h =
    let e : (resize rows cols s).1.views ≡ s.views = ground arith in subst (All IsKept) (sym e) h
step-IsKept (write_op p) s h =
    let e : (write p s).1.views ≡ s.views = ground arith in subst (All IsKept) (sym e) h

run-IsKept : (os : List Op) (s : Session) → All IsKept s.views → All IsKept (run os s).views
unfolding run
run-IsKept [] s h = h
run-IsKept (o ∷ os) s h = run-IsKept os (step o s) (step-IsKept o s h)

new_session-IsKept :
    (cmd : List (List ℕ)) (rows cols : ℕ) (ring_bytes : ℤ) (started : Bool) (now : ℕ) (s : Session)
    → new_session cmd rows cols ring_bytes started now ≡ created s
    → All IsKept s.views
unfolding new_session
new_session-IsKept [] rows cols rb b now s e = cc
new_session-IsKept (c ∷ cmd) rows cols rb b now s e =
    let none_yet : s.views ≡ [] = ground arith in subst (All IsKept) (sym none_yet) tt

finish-IsOver : (code : ℤ) (s : Session) → All IsKept s.views → IsOver (finish code s)
unfolding finish
finish-IsOver code s h = record {
  over = refl;
  gone = All-map IsKept IsGone end_view end-IsGone s.views h;
}

-- Once the child of a session has exited, whatever happened before and whatever is tried after:
-- every attachment ever made is closed and out of the set, a further attach or write is refused with
-- the state unchanged, and nothing more is written to the child or told of sizes.
pub finish-final :
    (cmd : List (List ℕ)) (rows cols : ℕ) (ring_bytes : ℤ) (started : Bool) (now : ℕ) (s : Session)
    (os : List Op) (code : ℤ) (later : List Op)
    → new_session cmd rows cols ring_bytes started now ≡ created s
    → let ended = finish code (run os s) in
      let s' = run later ended in
      IsOver s'
      × (s'.stdin ≡ ended.stdin)
      × (s'.sizes ≡ ended.sizes)
      × ((r : Bool) (rows cols : ℕ) (p : Bool) → attach r rows cols p s' ≡ (session_exited, s'))
      × ((p : List ℕ) → write p s' ≡ (write_exited, s'))
finish-final cmd rows cols rb b now s os code later e =
    let kept = run-IsKept os s (new_session-IsKept cmd rows cols rb b now s e) in
    let ended = finish code (run os s) in
    let (over, stdin, sizes) = run-IsOver later ended (finish-IsOver code (run os s) kept) in
    (
      over,
      stdin,
      sizes,
      attach_refused (run later ended) over.over,
      write_refused (run later ended) over.over,
    )
