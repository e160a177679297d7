-- ===== src/Supervisor/Members/Once.antt =====
-- internal/supervisor: a member's home is made at most once on a task.
use lemul.Prelude.{
  ℕ, ◌+◌, ◌≤◌, List, [], ◌∷◌, Option, none, some, Bool, ◌==◌, not, if◌then◌else◌, if_elim, inl, inr,
  Bool-cases, arith,
}
use lemul.Prelude.Text.{Bytes}
use lemul.Prelude.Dict.{string_key, lookup}
use lemul.Supervisor.Environ.{Identity}
use lemul.Supervisor.Members.{
  Identities, new_identities, contains, mark_provisioned, handle_session_identity, Setting, Found,
  provision_on, known_on, identity_for, Op, identity_op, start_op, step, run, Reply,
}

-- How often a number is in a list.
unfoldable pub times : ℕ → List ℕ → ℕ
times u [] = 0
times u (v ∷ vs) = (if v == u then 1 else 0) + times u vs

-- Attempts were made for marked uids only, and one for each.
abbrev pub Once : Identities → Type 0
Once s = (u : ℕ) → times u s.attempts ≤ (if contains u s.provisioned then 1 else 0)

provision_on-Once :
    (who : Identity) (works : Bool) (s : Identities)
    → Once s
    → Once (provision_on who works (mark_provisioned who.uid s)).1
unfolding provision_on mark_provisioned
provision_on-Once who works s h = elim (Bool-cases (contains who.uid s.provisioned)) [
  | inl e ↦ rw e h
  | inr e ↦ rw e (λ u. unfold times contains in ground (arith, h u, e))
]

known_on-Once :
    (o : Setting) (works : Bool) (w : Option Identity) (s : Identities)
    → Once s
    → Once (known_on o works w s).1
unfolding known_on
known_on-Once o works none s h = h
known_on-Once o works (some who) s h = provision_on-Once who works s h

step-Once :
    (claude_dir : Bytes → Bytes) (o : Setting) (op : Op) (s : Identities)
    → Once s
    → Once (step claude_dir o op s)
unfolding step handle_session_identity identity_for
step-Once claude_dir o (identity_op none) s h = h
step-Once claude_dir o (identity_op (some r)) s h =
    if_elim (λ (v : Reply × Identities). Once v.1) _ _ _ h h
step-Once claude_dir o (start_op id works) s h =
    if_elim (λ (v : Found × Identities). Once v.1) (not (o.euid == 0)) _ _ h
      (known_on-Once o works (lookup id s.m) s h)

run-Once :
    (claude_dir : Bytes → Bytes) (o : Setting) (ops : List Op) (s : Identities)
    → Once s
    → Once (run claude_dir o ops s)
unfolding run
run-Once claude_dir o [] s h = h
run-Once claude_dir o (op ∷ ops) s h =
    run-Once claude_dir o ops (step claude_dir o op s) (step-Once claude_dir o op s h)

-- A uid's home is asked for at most once, after any messages and starts in any order, whether or not
-- making it worked.
pub run-times :
    (claude_dir : Bytes → Bytes) (o : Setting) (ops : List Op) (u : ℕ)
    → times u (run claude_dir o ops new_identities).attempts ≤ 1
run-times claude_dir o ops u =
    let s = run claude_dir o ops new_identities in
    bound (contains u s.provisioned)
      (run-Once claude_dir o ops new_identities (unfold new_identities times in λ v. omega arith) u)
  where
    bound :
        (b : Bool)
        → times u (run claude_dir o ops new_identities).attempts ≤ (if b then 1 else 0)
        → times u (run claude_dir o ops new_identities).attempts ≤ 1
    bound b h = ground (arith, h)
