-- ===== src/Pty/Manager/Live.antt =====
-- A session that runs keeps its id.
use Prim.Native.String.{String}
use lemul.Prelude.{
  ℕ, ◌≡◌, refl, ap, ◌∙◌, List, [], ◌∷◌, Option, none, some, Bool, false, arith, if_false, All,
}
use lemul.Prelude.Dict.{string_key, eqb, eqb_iff, lookup, lookup-put, lookup-without}
use lemul.Pty.Manager.{
  Manager, get, insert_on, insert, reap, stop_on, stop, stop_each, stop_all, list, Op, insert_op,
  reap_op, stop_op, stop_all_op, step, run,
}

-- An operation that is not the end of the session's child.
abbrev pub Spares : String → Op → Type 0
Spares id (reap_op other code) = eqb other id ≡ false
Spares id _ = Unit

insert_on-kept :
    (id other : String) (s t : ℕ) (o : Option ℕ) (m : Manager)
    → lookup other m.sessions ≡ o
    → lookup id m.sessions ≡ some s
    → lookup id (insert_on o other t m).1.sessions ≡ some s
unfolding insert_on
insert_on-kept id other s t (some x) m e h = h
insert_on-kept id other s t none m e h =
    ground (arith, lookup-put other id t m.sessions, eqb_iff other id, e, h)

stop_on-kept :
    (o : Option ℕ) (force : Bool) (m : Manager) → (stop_on o force m).1.sessions ≡ m.sessions
unfolding stop_on
stop_on-kept none force m = refl
stop_on-kept (some s) force m = refl

stop_each-kept :
    (l : List (String × ℕ)) (force : Bool) (m : Manager)
    → (stop_each l force m).sessions ≡ m.sessions
unfolding stop_each
stop_each-kept [] force m = refl
stop_each-kept (e ∷ l) force m = stop_each-kept l force _

step-kept :
    (id : String) (s : ℕ) (o : Op) (m : Manager)
    → Spares id o
    → get id m ≡ some s
    → get id (step o m) ≡ some s
unfolding step get insert reap stop stop_all
step-kept id s (insert_op other t) m p h = insert_on-kept id other s t _ m refl h
step-kept id s (reap_op other code) m p h = lookup-without other id m.sessions ∙ if_false _ _ p ∙ h
step-kept id s (stop_op other force) m p h = ap (lookup id) (stop_on-kept _ force m) ∙ h
step-kept id s (stop_all_op force) m p h =
    ap (lookup id) (stop_each-kept (list m.sessions) force m) ∙ h

-- A session that has an id has it, whatever else is created, stopped or reaped, until its own child is
-- reaped: no Create replaces it, however the halves of several interleave.
pub run-get :
    (id : String) (s : ℕ) (os : List Op) (m : Manager)
    → get id m ≡ some s
    → All (Spares id) os
    → get id (run os m) ≡ some s
unfolding run
run-get id s [] m h p = h
run-get id s (o ∷ os) m h p = run-get id s os (step o m) (step-kept id s o m p.0 h) p.1
