-- ===== src/Pty/Manager.antt =====
-- internal/ptysession/manager.go: the sessions of one task, by id. A *Session is compared by its
-- pointer, a number here; what a session does is Pty/Session. `stopped` records the sessions that Stop
-- was called on, with force or without, and `exits` the calls of onExit, where one is given. Create
-- unlocks between its check and its insertion, so it is two operations, and anything may happen between.
pub mod Live
use Prim.Native.String.{String, compare}
use Prim.Native.Nat.{Ordering}
use lemul.Prelude.{
  ℕ, List, [], ◌∷◌, ◌++◌, Option, none, some, Bool, true, false, if◌then◌else◌, length,
}
use lemul.Pty.Ring.{default_ring_bytes}
use lemul.Prelude.Int.{ℤ, pos, ltb_ℤ}
use lemul.Prelude.Dict.{string_key, Dict, lookup, put, without}

-- Times are nanoseconds.
pub record Manager : Type 0 where
  pub ring_bytes : ℤ
  pub nudge_delay : ℤ
  pub sessions : Dict String ℕ
  pub has_on_exit : Bool
  pub stopped : List (ℕ × Bool)
  pub exits : List (String × ℤ)

-- Options
pub record Options : Type 0 where
  pub ring_bytes : ℤ
  pub nudge_delay : ℤ
  pub has_on_exit : Bool

-- A setting, or its default where it is not positive.
abbrev pub or_default : ℤ → ℤ → ℤ
or_default n d = if ltb_ℤ (pos 0) n then n else d

abbrev pub default_nudge_delay : ℤ
default_nudge_delay = pos 75000000

-- NewManager
unfoldable pub new_manager : Options → Manager
new_manager o = record {
  ring_bytes = or_default o.ring_bytes (pos default_ring_bytes);
  nudge_delay = or_default o.nudge_delay default_nudge_delay;
  sessions = [];
  has_on_exit = o.has_on_exit;
  stopped = [];
  exits = [];
}

-- Get
unfoldable pub get : String → Manager → Option ℕ
get id m = lookup id m.sessions

-- The first half of Create: whether it goes on to fork, and not return ErrExists.
unfoldable pub may_create : String → Manager → Bool
may_create id m = elim (lookup id m.sessions) [ none ↦ true | some s ↦ false ]

insert_on : Option ℕ → String → ℕ → Manager → Bool × Manager
insert_on none id s m = (true, record m { sessions = put id s m.sessions })
insert_on (some other) id s m = (false, record m { stopped = m.stopped ++ (s, true) ∷ [] })

-- The second half of Create, with the session `s` that newSession forked; false is ErrExists.
unfoldable pub insert : String → ℕ → Manager → Bool × Manager
unfolding insert_on
insert id s m = insert_on (lookup id m.sessions) id s m

-- reap
unfoldable pub reap : String → ℤ → Manager → Manager
reap id code m = record m {
  sessions = without id m.sessions;
  exits = if m.has_on_exit then m.exits ++ (id, code) ∷ [] else m.exits;
}

-- Count
unfoldable pub count : Manager → ℕ
count m = length m.sessions

before : String → String → Bool
before a b = elim (compare a b) [ Ordering.lt ↦ true | _ ↦ false ]

insert_by_id : String × ℕ → List (String × ℕ) → List (String × ℕ)
insert_by_id e [] = e ∷ []
insert_by_id e (x ∷ xs) =
    let rest = insert_by_id e xs in if before x.0 e.0 then x ∷ rest else e ∷ x ∷ xs

-- List. The ids differ, so a stable sort gives what sort.Slice gives.
unfoldable pub list : Dict String ℕ → List (String × ℕ)
unfolding insert_by_id before
list [] = []
list (e ∷ d) = insert_by_id e (list d)

stop_on : Option ℕ → Bool → Manager → Bool × Manager
stop_on none force m = (false, m)
stop_on (some s) force m = (true, record m { stopped = m.stopped ++ (s, force) ∷ [] })

-- Stop; false is ErrNotFound.
unfoldable pub stop : String → Bool → Manager → Bool × Manager
unfolding stop_on
stop id force m = stop_on (get id m) force m

stop_each : List (String × ℕ) → Bool → Manager → Manager
stop_each [] force m = m
stop_each ((id, s) ∷ l) force m =
    stop_each l force (record m { stopped = m.stopped ++ (s, force) ∷ [] })

-- StopAll
unfoldable pub stop_all : Bool → Manager → Manager
unfolding stop_each
stop_all force m = stop_each (list m.sessions) force m

-- What changes a manager, in the order in which its mutex lets it happen.
pub data Op : Type 0 where
  insert_op : String → ℕ → Op
  reap_op : String → ℤ → Op
  stop_op : String → Bool → Op
  stop_all_op : Bool → Op

unfoldable pub step : Op → Manager → Manager
step (insert_op id s) m = (insert id s m).1
step (reap_op id code) m = reap id code m
step (stop_op id force) m = (stop id force m).1
step (stop_all_op force) m = stop_all force m

unfoldable pub run : List Op → Manager → Manager
run [] m = m
run (o ∷ os) m = run os (step o m)
