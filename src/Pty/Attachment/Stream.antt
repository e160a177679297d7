-- ===== src/Pty/Attachment/Stream.antt =====
-- What the reader of an attachment has been given, against what was pushed to it.
use mathlib.Core.List.{append_assoc, append-nil}
use lemul.Prelude.{
  ℕ, ◌+◌, ◌-◌, ◌≤◌, ◌≡◌, refl, sym, ap, ◌∙◌, List, [], ◌∷◌, ◌++◌, Bool, true, false, arith, ltb,
  if◌then◌else◌, length, length-append, concat, Bool-cases, inl, inr, ltb_false→le,
}
use lemul.Prelude.Int.{ℤ}
use lemul.Pty.Attachment.{
  Attachment, CloseReason, NextResult, output, new_attachment, push, next_of, next, close,
  reason_overflow,
}

-- An attachment with the bytes that were pushed to it and the bytes that Next has returned.
pub record Link : Type 0 where
  pub att : Attachment
  pub offered : List ℕ
  pub delivered : List ℕ

pub data Event : Type 0 where
  pushed : List ℕ → Event
  taken : Event
  closed_for : CloseReason → Event

abbrev pub returned : NextResult → List ℕ
returned (output p) = p
returned _ = []

unfoldable pub link_step : Event → Link → Link
link_step (pushed p) l = record l { att = push p l.att; offered = l.offered ++ p }
link_step taken l = record l {
  att = (next l.att).1;
  delivered = l.delivered ++ returned (next l.att).0;
}
link_step (closed_for r) l = record l { att = close r l.att }

unfoldable pub link_run : List Event → Link → Link
link_run [] l = l
link_run (e ∷ es) l = link_run es (link_step e l)

abbrev pub new_link : Bool → ℤ → Link
new_link read_only limit = record {
  att = new_attachment read_only limit;
  offered = [];
  delivered = [];
}

-- The reader's bytes are a prefix of what was pushed. While the attachment is open the rest is in
-- the queue, whole; bytes are lost only at the end, and only once it is closed.
pub record IsLink (l : Link) : Type 0 where
  pub counted : l.att.queued ≡ length (concat l.att.q)
  pub within : l.att.queued ≤ l.att.limit
  pub lost : List ℕ
  pub stream : l.offered ≡ l.delivered ++ (concat l.att.q ++ lost)
  pub whole : l.att.closed ≡ false → lost ≡ []

concat-snoc : (q : List (List ℕ)) (p : List ℕ) → concat (q ++ p ∷ []) ≡ concat q ++ p
concat-snoc [] p = append-nil p
concat-snoc (x ∷ q) p = ap (λ t. x ++ t) (concat-snoc q p) ∙ sym (append_assoc x (concat q) p)

pub new_link-IsLink : (read_only : Bool) (limit : ℤ) → IsLink (new_link read_only limit)
unfolding new_attachment
new_link-IsLink r limit = record {
  counted = refl;
  within = omega arith;
  lost = [];
  stream = refl;
  whole = λ _. refl;
}

-- The branches of push, for output that is not empty.
module _ (b : ℕ) (p : List ℕ) (a : Attachment) where
  push-closed : a.closed ≡ true → push (b ∷ p) a ≡ a
  unfolding push
  push-closed c = ground arith

  push-full :
      a.closed ≡ false
      → ltb a.limit (a.queued + length (b ∷ p)) ≡ true
      → push (b ∷ p) a ≡ record a { closed = true; reason = reason_overflow; q = []; queued = 0 }
  unfolding push
  push-full c f = ground arith

  push-fits :
      a.closed ≡ false
      → ltb a.limit (a.queued + length (b ∷ p)) ≡ false
      → push (b ∷ p) a ≡ record a { q = a.q ++ (b ∷ p) ∷ []; queued = a.queued + length (b ∷ p) }
  unfolding push
  push-fits c f = ground arith

append_regroup : (d q l p : List ℕ) → (d ++ (q ++ l)) ++ p ≡ d ++ (q ++ (l ++ p))
append_regroup d q l p = simp append_assoc

-- A push, a read and a close each keep the invariant.
pub push-IsLink : (p : List ℕ) (l : Link) → IsLink l → IsLink (link_step (pushed p) l)
unfolding link_step
push-IsLink [] l h =
    unfold push in
    record {
      counted = h.counted;
      within = h.within;
      lost = h.lost;
      stream = append-nil l.offered ∙ h.stream;
      whole = h.whole;
    }
push-IsLink (b ∷ p) l h = elim (Bool-cases l.att.closed) [
  | inl c ↦ rw (push-closed b p l.att c) (record {
    counted = h.counted;
    within = h.within;
    lost = h.lost ++ b ∷ p;
    stream =
        ap (λ t. t ++ b ∷ p) h.stream ∙ append_regroup l.delivered (concat l.att.q) h.lost (b ∷ p);
    whole = λ o. cc;
  })
  | inr c ↦ elim (Bool-cases (ltb l.att.limit (l.att.queued + length (b ∷ p)))) [
    | inl f ↦ rw (push-full b p l.att c f) (record {
      counted = refl;
      within = omega arith;
      lost = concat l.att.q ++ (h.lost ++ b ∷ p);
      stream =
          ap (λ t. t ++ b ∷ p) h.stream
          ∙ append_regroup l.delivered (concat l.att.q) h.lost (b ∷ p);
      whole = λ o. cc;
    })
    | inr f ↦ rw (push-fits b p l.att c f) (record {
      counted = omega (
        arith,
        h.counted,
        length-append {0} (concat l.att.q) (b ∷ p),
        ap {A = List ℕ} length (concat-snoc l.att.q (b ∷ p)),
      );
      within = ltb_false→le _ _ f;
      lost = [];
      stream =
          ap (λ t. t ++ b ∷ p)
            (h.stream ∙ ap (λ t. l.delivered ++ (concat l.att.q ++ t)) (h.whole c))
          ∙ append_regroup l.delivered (concat l.att.q) [] (b ∷ p)
          ∙ ap (λ t. l.delivered ++ t) (sym (concat-snoc l.att.q (b ∷ p)) ∙ sym (append-nil _));
      whole = λ _. refl;
    })
  ]
]

-- Next on an empty queue changes nothing.
next-empty : (a : Attachment) → a.q ≡ [] → ((next a).1 ≡ a) × (returned (next a).0 ≡ [])
unfolding next next_of
next-empty a e = ground arith

next-cons :
    (a : Attachment) (p : List ℕ) (ps : List (List ℕ))
    → a.q ≡ p ∷ ps
    → ((next a).1 ≡ record a { q = ps; queued = a.queued - length p }) × (returned (next a).0 ≡ p)
unfolding next next_of
next-cons a p ps e = ground arith

pub take-IsLink : (l : Link) → IsLink l → IsLink (link_step taken l)
unfolding link_step
take-IsLink l h = go l.att.q refl
  where
    go : (q : List (List ℕ)) → l.att.q ≡ q → IsLink (link_step taken l)
    go [] e =
        rw ((next-empty l.att e).0, (next-empty l.att e).1)
          (record {
            counted = h.counted;
            within = h.within;
            lost = h.lost;
            stream =
                h.stream ∙ ap (λ t. t ++ (concat l.att.q ++ h.lost)) (sym (append-nil l.delivered));
            whole = h.whole;
          })
    go (p ∷ ps) e =
        let size : l.att.queued ≡ length p + length (concat ps) =
          h.counted ∙ ap (λ t. length (concat t)) e ∙ length-append p (concat ps) in
        rw ((next-cons l.att p ps e).0, (next-cons l.att p ps e).1)
          (record {
            counted = omega (arith, size);
            within = omega (arith, h.within);
            lost = h.lost;
            stream = h.stream ∙ ap (λ t. l.delivered ++ (concat t ++ h.lost)) e ∙ simp append_assoc;
            whole = h.whole;
          })

pub close-IsLink : (r : CloseReason) (l : Link) → IsLink l → IsLink (link_step (closed_for r) l)
unfolding link_step close
close-IsLink r l h = go l.att.closed refl
  where
    go :
        (c : Bool)
        → l.att.closed ≡ c
        → IsLink
            (record l { att = if c then l.att else record l.att { closed = true; reason = r } })
    go true e = h
    go false e = record {
      counted = h.counted;
      within = h.within;
      lost = h.lost;
      stream = h.stream;
      whole = λ o. cc;
    }

step-IsLink : (e : Event) (l : Link) → IsLink l → IsLink (link_step e l)
step-IsLink (pushed p) l h = push-IsLink p l h
step-IsLink taken l h = take-IsLink l h
step-IsLink (closed_for r) l h = close-IsLink r l h

run-IsLink : (es : List Event) (l : Link) → IsLink l → IsLink (link_run es l)
unfolding link_run
run-IsLink [] l h = h
run-IsLink (e ∷ es) l h = run-IsLink es (link_step e l) (step-IsLink e l h)

-- Whatever is pushed, read and closed in whatever order, the reader has been given a prefix of what
-- was pushed, with nothing missing or repeated; as long as the attachment is open the rest is queued,
-- and the queue's size is what `queued` says and within the limit.
pub link_run-IsLink :
    (read_only : Bool) (limit : ℤ) (es : List Event)
    → IsLink (link_run es (new_link read_only limit))
link_run-IsLink r limit es = run-IsLink es (new_link r limit) (new_link-IsLink r limit)
