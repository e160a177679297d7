-- ===== src/Pty/Ring/Window.antt =====
-- What the ring holds after any output: the longest run of whole recent chunks that fits its limit.
use mathlib.Core.List.{append_assoc, append-nil}
use lemul.Prelude.{
  ℕ, ◌+◌, ◌≤◌, ◌<◌, ◌≡◌, ◌≢◌, refl, sym, ap, ◌∙◌, List, [], ◌∷◌, ◌++◌, Bool, false, arith, leb,
  if◌then◌else◌, length, length-append, Bool-cases, inl, inr, leb→le,
}
use lemul.Prelude.Int.{ℤ}
use lemul.Pty.Ring.{Chunk, Ring, ring_limit, new_ring, evict, push, contents}

abbrev pub total : List Chunk → ℕ
total cs = length (contents cs)

pub total-append : (xs ys : List Chunk) → total (xs ++ ys) ≡ total xs + total ys
unfolding contents
total-append [] ys = omega arith
total-append (x ∷ xs) ys = omega (
  arith,
  total-append xs ys,
  length-append {0} x.b (contents (xs ++ ys)),
  length-append {0} x.b (contents xs),
)

pub contents-append : (xs ys : List Chunk) → contents (xs ++ ys) ≡ contents xs ++ contents ys
unfolding contents
contents-append [] ys = refl
contents-append (x ∷ xs) ys =
    rw (contents-append xs ys) (sym (append_assoc x.b (contents xs) (contents ys)))

-- The longest suffix within the limit, by trying each suffix in turn.
fit : ℕ → List Chunk → List Chunk
fit limit [] = []
fit limit (c ∷ cs) = let rest = fit limit cs in if leb (total (c ∷ cs)) limit then c ∷ cs else rest

-- The byte count is that of the chunks, so the loop's subtraction never stops at 0.
pub record IsRing (r : Ring) : Type 0 where
  pub counted : r.bytes ≡ total r.chunks
  pub within : r.bytes ≤ r.limit

evict-fit :
    (limit : ℕ) (cs : List Chunk) → evict limit (total cs) cs ≡ (fit limit cs, total (fit limit cs))
unfolding evict fit contents
evict-fit limit [] = refl
evict-fit limit (c ∷ cs) = ground (arith, evict-fit limit cs, length-append {0} c.b (contents cs))

total-push : (r : Ring) (c : Chunk) → IsRing r → r.bytes + length c.b ≡ total (r.chunks ++ c ∷ [])
unfolding contents
total-push r c h =
    omega (arith, h.counted, total-append r.chunks (c ∷ []), length-append {0} c.b [])

-- One push, of a chunk to a ring in good order.
push-fit :
    (b : List ℕ) (clean : Bool) (r : Ring)
    → IsRing r
    → (push b clean r).chunks ≡ fit r.limit (r.chunks ++ record { b = b; clean_start = clean } ∷ [])
unfolding push
push-fit b clean r h =
    let c : Chunk = record { b = b; clean_start = clean } in
    rw (total-push r c h) (rw (evict-fit r.limit (r.chunks ++ c ∷ [])))

fit-le : (limit : ℕ) (cs : List Chunk) → total (fit limit cs) ≤ limit
unfolding fit contents
fit-le limit [] = omega arith
fit-le limit (c ∷ cs) = ground (arith, fit-le limit cs)

-- push keeps the byte count right and within the limit, whatever is pushed.
pub push-IsRing : (b : List ℕ) (clean : Bool) (r : Ring) → IsRing r → IsRing (push b clean r)
unfolding push
push-IsRing b clean r h =
    let c : Chunk = record { b = b; clean_start = clean } in
    let cs = r.chunks ++ c ∷ [] in
    rw (total-push r c h)
      (rw (evict-fit r.limit cs) (record { counted = refl; within = fit-le r.limit cs }))

pub new_ring-IsRing : (limit : ℤ) → IsRing (new_ring limit)
unfolding new_ring contents
new_ring-IsRing limit = record { counted = refl; within = omega arith }

fit-fit :
    (limit : ℕ) (xs : List Chunk) (c : Chunk)
    → fit limit (fit limit xs ++ c ∷ []) ≡ fit limit (xs ++ c ∷ [])
unfolding fit
fit-fit limit [] c = refl
fit-fit limit (x ∷ xs) c = elim (Bool-cases (leb (total (x ∷ xs)) limit)) [
  | inl e ↦ rw e refl
  | inr e ↦ rw (e, fit-fit limit xs c) (rw (over e))
]
  where
    over : leb (total (x ∷ xs)) limit ≡ false → leb (total (x ∷ (xs ++ c ∷ []))) limit ≡ false
    over e = ground (arith, total-append (x ∷ xs) (c ∷ []))

-- The pushes of a history, oldest first.
unfoldable pub push_all : List Chunk → Ring → Ring
push_all [] r = r
push_all (c ∷ h) r = push_all h (push c.b c.clean_start r)

push_all-IsRing : (h : List Chunk) (r : Ring) → IsRing r → IsRing (push_all h r)
unfolding push_all
push_all-IsRing [] r i = i
push_all-IsRing (c ∷ h) r i = push_all-IsRing h _ (push-IsRing c.b c.clean_start r i)

push_all-fit :
    (h old : List Chunk) (r : Ring)
    → IsRing r
    → r.chunks ≡ fit r.limit old
    → (push_all h r).chunks ≡ fit r.limit (old ++ h)
unfolding push_all push
push_all-fit [] old r i e = e ∙ ap (fit r.limit) (sym (append-nil old))
push_all-fit (c ∷ h) old r i e =
    push_all-fit h (old ++ c ∷ []) (push c.b c.clean_start r) (push-IsRing c.b c.clean_start r i)
      (push-fit c.b c.clean_start r i ∙ (rw e (fit-fit r.limit old c)))
    ∙ ap (fit r.limit) (append_assoc old (c ∷ []) h)

-- `cs` is the longest suffix of `h` whose bytes fit `limit`: one more chunk, or more, is too much.
pub record IsWindow (limit : ℕ) (h cs : List Chunk) : Type 0 where
  pub older : List Chunk
  pub parts : h ≡ older ++ cs
  pub within : total cs ≤ limit
  pub longest : (p q : List Chunk) → older ≡ p ++ q → q ≢ [] → limit < total (q ++ cs)

nil-of_append : (p q : List Chunk) → [] ≡ p ++ q → q ≡ []
nil-of_append [] q e = sym e
nil-of_append (x ∷ p) q e = cc

-- A window that is the whole list.
whole-IsWindow : (limit : ℕ) (h : List Chunk) → total h ≤ limit → IsWindow limit h h
whole-IsWindow limit h le = record {
  older = [];
  parts = refl;
  within = le;
  longest = λ p q e ne. absurd (ne (nil-of_append p q e));
}

longest-cons :
    (limit : ℕ) (c : Chunk) (h cs : List Chunk) (w : IsWindow limit h cs)
    → limit < total (c ∷ h)
    → (p q : List Chunk) → c ∷ w.older ≡ p ++ q
    → q ≢ []
    → limit < total (q ++ cs)
longest-cons limit c h cs w over [] q e ne = let e' : q ++ cs ≡ c ∷ h = cc (w.parts) in rw e' over
longest-cons limit c h cs w over (x ∷ p) q e ne = w.longest p q (cc) ne

cons-IsWindow :
    (limit : ℕ) (c : Chunk) (h cs : List Chunk)
    → limit < total (c ∷ h)
    → IsWindow limit h cs
    → IsWindow limit (c ∷ h) cs
cons-IsWindow limit c h cs over w = record {
  older = c ∷ w.older;
  parts = ap (λ t. c ∷ t) w.parts;
  within = w.within;
  longest = longest-cons limit c h cs w over;
}

fit-IsWindow : (limit : ℕ) (h : List Chunk) → IsWindow limit h (fit limit h)
unfolding fit
fit-IsWindow limit [] = whole-IsWindow limit [] (unfold contents in omega arith)
fit-IsWindow limit (c ∷ cs) = elim (Bool-cases (leb (total (c ∷ cs)) limit)) [
  | inl e ↦ rw e (whole-IsWindow limit (c ∷ cs) (leb→le _ _ e))
  | inr e ↦ rw e (cons-IsWindow limit c cs (fit limit cs) (ground arith) (fit-IsWindow limit cs))
]

-- After any history of pushes to a new ring, the ring holds the longest suffix of the history that
-- fits the limit, in order, and its byte count is the size of what it holds.
pub push_all-IsWindow :
    (limit : ℤ) (h : List Chunk)
    → IsWindow (ring_limit limit) h (push_all h (new_ring limit)).chunks
      × ((push_all h (new_ring limit)).bytes ≡ total (push_all h (new_ring limit)).chunks)
unfolding new_ring
push_all-IsWindow limit h = (
  rw (push_all-fit h [] (new_ring limit) (new_ring-IsRing limit) (unfold fit in refl))
      (fit-IsWindow (ring_limit limit) h),
  (push_all-IsRing h (new_ring limit) (new_ring-IsRing limit)).counted,
)
