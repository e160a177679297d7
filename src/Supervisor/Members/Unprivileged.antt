-- ===== src/Supervisor/Members/Unprivileged.antt =====
-- internal/supervisor: a session of a root supervisor does not run as root, and a home is made once.
use Prim.Native.String.{String}
use lemul.Prelude.{
  ℕ, zero, suc, ◌≡◌, ◌≢◌, refl, sym, ap, ◌∙◌, List, [], ◌∷◌, Option, none, some, Bool, true, false,
  ◌||◌, ◌==◌, not, if_elim, if_false, All, inl, inr, Bool-cases, subst, arith,
}
use lemul.Prelude.Text.{Bytes}
use lemul.Prelude.Dict.{string_key, eqb, lookup, put, lookup-put}
use lemul.Supervisor.Environ.{Identity}
use lemul.Supervisor.Members.{
  Credential, groups_of, credential_for, session_credential, credential, Identities, empty,
  mark_provisioned, Request, handle_session_identity, Setting, Found, found, provision_on, known_on,
  identity_for, Op, identity_op, start_op, step, run,
}

-- An identity that a session may run as.
pub record IsMember (who : Identity) : Type 0 where
  pub own_uid : who.uid ≢ 0
  pub own_home : who.home ≢ []

-- Every identity that is kept is one.
abbrev pub Kept : Identities → Type 0
Kept s = (id : String) (who : Identity) → lookup id s.m ≡ some who → IsMember who

-- The credential keeps a session from root and from root's group.
pub record IsUnprivileged (uid : ℕ) (c : Credential) : Type 0 where
  pub as_member : c.uid ≡ uid
  pub no_root : c.uid ≢ 0
  pub no_root_group : c.gid ≢ 0
  pub no_root_groups : All (λ g. g ≢ 0) c.groups

groups_of-All : (shared : Option ℕ) → All (λ g. g ≢ 0) (groups_of shared)
unfolding groups_of
groups_of-All none = tt
groups_of-All (some zero) = tt
groups_of-All (some (suc g)) = (omega arith, tt)

Kept-put :
    (j : String) (w : Identity) (s : Identities)
    → IsMember w
    → Kept s
    → Kept (record s { m = put j w s.m })
Kept-put j w s mem h id who e = elim (Bool-cases (eqb j id)) [
  | inl t ↦ subst IsMember (here t) mem
  | inr t ↦ h id who (ground (arith, lookup-put j id w s.m, e, t))
]
  where
    here : eqb j id ≡ true → w ≡ who
    here t = ground (arith, lookup-put j id w s.m, e, t)

empty-nonempty : (b : Bytes) → empty b ≡ false → b ≢ []
unfolding empty
empty-nonempty [] e n = cc e
empty-nonempty (c ∷ b) e n = cc n

pub handle_session_identity-Kept :
    (claude_dir : Bytes → Bytes) (r : Option Request) (s : Identities)
    → Kept s
    → Kept (handle_session_identity claude_dir r s).1
unfolding handle_session_identity
handle_session_identity-Kept claude_dir none s h = h
handle_session_identity-Kept claude_dir (some r) s h =
    elim (Bool-cases (eqb r.session_id "" || (r.uid == 0 || empty r.home))) [
      | inl e ↦ rw e h
      | inr e ↦
          let filled : empty r.home ≡ false = ground arith in
          let mem : IsMember (record {
            uid = r.uid;
            username = r.username;
            home = r.home;
            config_dir = claude_dir r.home;
          }) =
            record { own_uid = ground arith; own_home = empty-nonempty r.home filled } in
          rw e (Kept-put r.session_id _ s mem h)
    ]

mark_provisioned-m : (uid : ℕ) (s : Identities) → (mark_provisioned uid s).1.m ≡ s.m
unfolding mark_provisioned
mark_provisioned-m uid s = ground arith

provision_on-m :
    (who : Identity) (works : Bool) (r : Bool × Identities) → (provision_on who works r).1.m ≡ r.1.m
unfolding provision_on
provision_on-m who works (true, s) = refl
provision_on-m who works (false, s) = refl

known_on-m :
    (o : Setting) (works : Bool) (w : Option Identity) (s : Identities)
    → (known_on o works w s).1.m ≡ s.m
unfolding known_on
known_on-m o works none s = refl
known_on-m o works (some who) s =
    provision_on-m who works (mark_provisioned who.uid s) ∙ mark_provisioned-m who.uid s

pub identity_for-m :
    (o : Setting) (works : Bool) (id : String) (s : Identities)
    → (identity_for o works id s).1.m ≡ s.m
unfolding identity_for
identity_for-m o works id s =
    if_elim (λ (r : Found × Identities). r.1.m ≡ s.m) (not (o.euid == 0)) _ _ refl
      (known_on-m o works (lookup id s.m) s)

run-Kept :
    (claude_dir : Bytes → Bytes) (o : Setting) (ops : List Op) (s : Identities)
    → Kept s
    → Kept (run claude_dir o ops s)
unfolding run step
run-Kept claude_dir o [] s h = h
run-Kept claude_dir o (identity_op r ∷ ops) s h =
    run-Kept claude_dir o ops _ (handle_session_identity-Kept claude_dir r s h)
run-Kept claude_dir o (start_op id works ∷ ops) s h =
    run-Kept claude_dir o ops _
      (λ j who e. h j who (ap (lookup j) (sym (identity_for-m o works id s)) ∙ e))

-- Whatever identityFor gives for a known session is the identity that is kept for it.
provision_on-found :
    (who w : Identity) (works : Bool) (r : Bool × Identities)
    → (provision_on who works r).0 ≡ found w
    → who ≡ w
unfolding provision_on
provision_on-found who w works (false, s) e = cc e
provision_on-found who w true (true, s) e = cc e
provision_on-found who w false (true, s) e = cc e

known_on-found :
    (o : Setting) (works : Bool) (k : Option Identity) (s : Identities) (w : Identity)
    → o.session_uid ≢ 0
    → (known_on o works k s).0 ≡ found w
    → k ≡ some w
unfolding known_on
known_on-found o works none s w n e = absurd (ground (arith, n, e))
known_on-found o works (some who) s w n e =
    ap some (provision_on-found who w works (mark_provisioned who.uid s) e)

pub credential-IsUnprivileged :
    (who : Identity) (shared : Option ℕ)
    → IsMember who
    → (c : Credential) × (credential 0 shared who ≡ some c) × IsUnprivileged who.uid c
unfolding credential session_credential credential_for
credential-IsUnprivileged who shared h =
    let n : (who.uid == 0) ≡ false = ground arith in
    (
      credential_for who.uid who.uid shared,
      if_false _ _ n,
      record {
        as_member = refl;
        no_root = h.own_uid;
        no_root_group = λ z. h.own_uid (sym (if_false who.uid who.uid n) ∙ z);
        no_root_groups = groups_of-All shared;
      },
    )

-- Where the identities that are kept are members', so is the one that a session starts as.
pub identity_for-IsMember :
    (o : Setting) (works : Bool) (id : String) (s : Identities) (who : Identity)
    → o.euid ≡ 0
    → o.session_uid ≢ 0
    → Kept s
    → (identity_for o works id s).0 ≡ found who
    → IsMember who
unfolding identity_for
identity_for-IsMember o works id s who root n k e =
    let known : (known_on o works (lookup id s.m) s).0 ≡ found who = ground (arith, root, e) in
    k id who (known_on-found o works (lookup id s.m) s who n known)
