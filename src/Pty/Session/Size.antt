-- ===== src/Pty/Session/Size.antt =====
-- The size of the PTY: what the session says, what the PTY was told, and what a nudge does.
use mathlib.Core.List.{append_assoc}
use mathlib.Core.Path.{ap₂}
use lemul.Prelude.{
  ℕ, ◌-◌, ◌<◌, ◌≡◌, ◌≢◌, refl, sym, ◌∙◌, subst, List, [], ◌∷◌, ◌++◌, Bool, true, false, not, ◌||◌,
  ltb, arith, ◌==◌, Bool-cases, inl, inr, if_false, ◌⊎◌,
}
use lemul.Prelude.Int.{ℤ}
use lemul.Pty.Session.{
  Session, created, new_session, read, finish, attach, detach, nudge_size, setsize, take, resize,
  nudge_to, nudge, write, Op, attach_op, resize_op, write_op, step, run,
}

-- The PTY has been told a size, no part of it zero, and the session's size is the last one told.
pub record IsSized (s : Session) : Type 0 where
  pub rows_pos : 0 < s.rows
  pub cols_pos : 0 < s.cols
  pub earlier : List (ℕ × ℕ)
  pub told : s.sizes ≡ earlier ++ (s.rows, s.cols) ∷ []

new_session-IsSized :
    (cmd : List (List ℕ)) (rows cols : ℕ) (ring_bytes : ℤ) (started : Bool) (now : ℕ) (s : Session)
    → new_session cmd rows cols ring_bytes started now ≡ created s
    → IsSized s
unfolding new_session
new_session-IsSized [] rows cols rb b now s e = cc
new_session-IsSized (c ∷ cmd) rows cols rb b now s e = record {
  rows_pos = ground arith;
  cols_pos = ground arith;
  earlier = [];
  told = ground arith;
}

-- The refusals of Resize, and what it does otherwise.
resize-live :
    (rows cols : ℕ) (s : Session)
    → (rows == 0 || cols == 0) ≡ false
    → s.exited ≡ false
    → resize rows cols s ≡ (
      setsize rows cols,
      record s { rows = rows; cols = cols; sizes = s.sizes ++ (rows, cols) ∷ [] },
    )
unfolding resize
resize-live rows cols s z e = if_false _ _ z ∙ if_false _ _ e

resize_refused :
    (rows cols : ℕ) (s : Session)
    → ((rows == 0 || cols == 0) ≡ true) ⊎ (s.exited ≡ true)
    → (resize rows cols s).1 ≡ s
unfolding resize
resize_refused rows cols s h = ground arith

sized :
    (rows cols : ℕ) (s : Session)
    → (rows == 0 || cols == 0) ≡ false
    → IsSized (record s { rows = rows; cols = cols; sizes = s.sizes ++ (rows, cols) ∷ [] })
sized rows cols s z = record {
  rows_pos = ground arith;
  cols_pos = ground arith;
  earlier = s.sizes;
  told = refl;
}

pub resize-IsSized : (rows cols : ℕ) (s : Session) → IsSized s → IsSized (resize rows cols s).1
resize-IsSized rows cols s h = elim (Bool-cases (rows == 0 || cols == 0)) [
  | inl z ↦ rw (resize_refused rows cols s (inl z)) h
  | inr z ↦ elim (Bool-cases s.exited) [
    | inl e ↦ rw (resize_refused rows cols s (inr e)) h
    | inr e ↦ rw (resize-live rows cols s z e) (sized rows cols s z)
  ]
]

-- A nudge of a live session leaves it at the size (`rows`, `cols`), and either it has nothing to
-- shrink into, or what it tells the PTY begins with a size that is not the present one.
pub record IsNudged (rows cols : ℕ) (s s' : Session) : Type 0 where
  pub at_rows : s'.rows ≡ rows
  pub at_cols : s'.cols ≡ cols
  pub is_sized : IsSized s'
  pub winch :
      ((rows ≡ s.rows) × (cols ≡ s.cols) × (cols < 2) × (s' ≡ s))
      ⊎ ((first : ℕ × ℕ) × (rest : List (ℕ × ℕ)) × (s'.sizes ≡ s.sizes ++ first ∷ rest)
          × (first ≢ (s.rows, s.cols)))

nudge_to_lem :
    (rows cols : ℕ) (s : Session)
    → (rows == 0 || cols == 0) ≡ false
    → s.exited ≡ false
    → IsSized s
    → IsNudged rows cols s (nudge_to rows cols s)
unfolding nudge_to
nudge_to_lem rows cols s z e h = elim (Bool-cases (not (rows == s.rows) || not (cols == s.cols))) [
  | inl d ↦
      rw (d, resize-live rows cols s z e)
        (record {
          at_rows = refl;
          at_cols = refl;
          is_sized = sized rows cols s z;
          winch = inr ((rows, cols), [], refl, λ p. ground arith);
        })
  | inr d ↦ elim (Bool-cases (ltb cols 2)) [
    | inl l ↦
        rw (d, l)
          (record {
            at_rows = ground arith;
            at_cols = ground arith;
            is_sized = h;
            winch = inl (ground arith, ground arith, ground arith, refl);
          })
    | inr l ↦
        let z' : (rows == 0 || cols - 1 == 0) ≡ false = ground arith in
        let t = record s {
          rows = rows;
          cols = cols - 1;
          sizes = s.sizes ++ (rows, cols - 1) ∷ [];
        } in
        rw (d, l, resize-live rows (cols - 1) s z' e)
          (rw (resize-live rows cols t z e) (record {
            at_rows = refl;
            at_cols = refl;
            is_sized = sized rows cols t z;
            winch =
                inr (
                  (rows, cols - 1),
                  (rows, cols) ∷ [],
                  append_assoc s.sizes _ _,
                  λ p. ground arith,
                );
          }))
  ]
]

pub nudge-IsNudged :
    (rows cols : ℕ) (s : Session)
    → s.exited ≡ false
    → IsSized s
    → let (r, c) = nudge_size rows cols s in IsNudged r c s (nudge rows cols s)
unfolding nudge
nudge-IsNudged rows cols s e h =
    nudge_to_lem (nudge_size rows cols s).0 (nudge_size rows cols s).1 s (ground arith) e h

same-IsSized :
    (s s' : Session)
    → s'.rows ≡ s.rows
    → s'.cols ≡ s.cols
    → s'.sizes ≡ s.sizes
    → IsSized s
    → IsSized s'
same-IsSized s s' r c z h = record {
  rows_pos = subst (λ n. 0 < n) (sym r) h.rows_pos;
  cols_pos = subst (λ n. 0 < n) (sym c) h.cols_pos;
  earlier = h.earlier;
  told = z ∙ h.told ∙ ap₂ (λ a b. h.earlier ++ (a, b) ∷ []) (sym r) (sym c);
}

-- Only Resize changes the size, and it tells the PTY.
pub step-IsSized : (o : Op) (s : Session) → IsSized s → IsSized (step o s)
unfolding step read finish attach detach take write
step-IsSized (resize_op rows cols) s h = resize-IsSized rows cols s h
step-IsSized (attach_op r rows cols p) s h =
    same-IsSized s (attach r rows cols p s).1 (ground arith) (ground arith) (ground arith) h
step-IsSized (write_op p) s h =
    same-IsSized s (write p s).1 (ground arith) (ground arith) (ground arith) h
step-IsSized _ s h = same-IsSized s _ refl refl refl h

pub run-IsSized : (os : List Op) (s : Session) → IsSized s → IsSized (run os s)
unfolding run
run-IsSized [] s h = h
run-IsSized (o ∷ os) s h = run-IsSized os (step o s) (step-IsSized o s h)

-- From its creation on, whatever happens to it, a session's size has no zero in it and is the last
-- size that the PTY was told.
session-IsSized :
    (cmd : List (List ℕ)) (rows cols : ℕ) (ring_bytes : ℤ) (started : Bool) (now : ℕ) (s : Session)
    (os : List Op)
    → new_session cmd rows cols ring_bytes started now ≡ created s
    → IsSized (run os s)
session-IsSized cmd rows cols rb b now s os e =
    run-IsSized os s (new_session-IsSized cmd rows cols rb b now s e)
