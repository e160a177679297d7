-- ===== src/Mgmt/Uids/Tests.antt =====
-- The uids of a workspace at two members, whose first sessions start at the same time.
use Prim.Native.String.{String}
use lemul.Prelude.{
  ℕ, ◌≡◌, ◌≤◌, refl, sym, ap, ◌∙◌, List, [], ◌∷◌, ◌++◌, none, some, arith, inl, inr, if_true,
  if_false, Bool-cases,
}
use lemul.Prelude.Dict.{string_key, eqb, lookup, put, without}
use lemul.Mgmt.Access.{Member, Gate, granted, WsScope}
use lemul.Mgmt.Uids.{
  uid_base, homes_root, unix_name, Rows, MemberIdentity, Op, begin, go_on, delete_op, run,
  new_system, done, step, go_on_at, set_at, noted, advance, ensure_member, ensure_on, read_on,
  read_uid, claim_on, claim_uid, identity_of, identity_on, delete_workspace_member, delete_on,
  behind, remove_member,
}
use lemul.Mgmt.Uids.Numbers.{resolved-one_user}
use lemul.Mgmt.Uids.Resolved.{IsSettled, resolve_identity-IsSettled}

abbrev gate : Gate WsScope
gate = granted (record {
  org = record { tenant_id = "t1"; user_id = "ann"; role = "owner" };
  ws = record { id = "w1"; tenant_id = "t1"; owner_user_id = "ann"; access_scope = "org" };
  role = "owner";
})

-- Both take a number before either claims it.
abbrev firsts : List Op
firsts =
    begin 1 "ann"
    ∷ begin 2 "bob"
    ∷ go_on 1
    ∷ go_on 2
    ∷ go_on 1
    ∷ go_on 2
    ∷ go_on 2
    ∷ go_on 1
    ∷ go_on 1
    ∷ go_on 2
    ∷ []

-- Bob is removed, and Ann starts another session.
abbrev later : List Op
later = delete_op gate "bob" ∷ begin 3 "ann" ∷ go_on 3 ∷ go_on 3 ∷ []

abbrev ann_row : Member
ann_row = record { role = "user"; uid = some 2001 }

abbrev ann_identity : MemberIdentity
ann_identity = record {
  uid = 2001;
  username = unix_name 2001;
  home = homes_root ++ (b'/' ∷ unix_name 2001);
}

ann_first : (run firsts new_system).stages 1 ≡ some (done "ann" (some ann_row))
unfolding run step go_on_at set_at noted advance ensure_member ensure_on read_on read_uid claim_on
    claim_uid lookup put without
ann_first = refl

bob_first :
    (run firsts new_system).stages 2
    ≡ some (done "bob" (some (record { role = "user"; uid = some 2000 })))
unfolding run step go_on_at set_at noted advance ensure_member ensure_on read_on read_uid claim_on
    claim_uid lookup put without
bob_first = refl

ann_later : (run later (run firsts new_system)).stages 3 ≡ some (done "ann" (some ann_row))
unfolding run step go_on_at set_at noted advance ensure_member ensure_on read_on read_uid claim_on
    claim_uid lookup put without delete_workspace_member behind delete_on remove_member
ann_later = refl

ann_identified : identity_of (done "ann" (some ann_row)) ≡ some ann_identity
unfolding identity_of identity_on
ann_identified = refl

resolved-one_user_example : (◌≡◌ {A = String} "ann" "ann") × (uid_base ≤ ann_identity.uid)
resolved-one_user_example =
    resolved-one_user firsts later 1 3 "ann" "ann" (some ann_row) (some ann_row) ann_identity
      ann_identity ann_first ann_identified ann_later ann_identified refl

abbrev ann_owner : Member
ann_owner = record { role = "owner"; uid = none }

abbrev shared : Rows
shared = record { next_uid = 2002; members = ("ann", ann_owner) ∷ ("bob", ann_row) ∷ [] }

shared_floored :
    (user : String) (m : Member) (n : ℕ)
    → lookup user shared.members ≡ some m
    → m.uid ≡ some n
    → uid_base ≤ n
unfolding lookup
shared_floored user m n e u = elim (Bool-cases (eqb "ann" user)) [
  | inl a ↦
      let same : ann_owner ≡ m = cc (sym (if_true _ _ a) ∙ e) in
      let empty : none ≡ some n = ap (λ c. c.uid) same ∙ u in cc empty
  | inr a ↦ elim (Bool-cases (eqb "bob" user)) [
    | inl b ↦
        let same : ann_row ≡ m = cc (sym (if_false _ _ a ∙ if_true _ _ b) ∙ e) in
        let given : some 2001 ≡ some n = ap (λ c. c.uid) same ∙ u in
        let number : 2001 ≡ n = cc given in omega (arith, number)
    | inr b ↦ let empty : none ≡ some m = sym (if_false _ _ a ∙ if_false _ _ b) ∙ e in cc empty
  ]
]

resolve_identity-IsSettled_example : IsSettled "ann" shared
resolve_identity-IsSettled_example =
    resolve_identity-IsSettled "ann" shared (record { floor = omega arith; uids = shared_floored })
