-- ===== src/Mgmt/Uids/Resolved.antt =====
-- internal/mgmtapi/sessionidentity.go: resolveIdentity by itself always answers, and once and for all.
use Prim.Native.String.{String}
use lemul.Prelude.{
  ℕ, ◌+◌, ◌≡◌, ◌≤◌, inl, inr, refl, sym, ap, ◌∙◌, subst, ◌∷◌, ◌++◌, Option, none, some, ltb,
  if_true, if_false, Option-cases, arith,
}
use lemul.Prelude.Dict.{string_key, eqb_iff, Dict, lookup, put, lookup-put}
use lemul.Mgmt.Access.{role_user, Member}
use lemul.Mgmt.Uids.{
  uid_base, homes_root, unix_name, Rows, MemberIdentity, ensure_on, ensure_member, Stage, ensuring,
  reading, done, read_uid, read_on, claim_uid, claim_on, advance, advances, identity_on,
  identity_of, resolve_identity,
}

-- No uid is in the range of the image's own users: the constraint in schema.sql.
pub record IsFloored (r : Rows) : Type 0 where
  pub floor : uid_base ≤ r.next_uid
  pub uids :
      (user : String) (m : Member) (n : ℕ)
      → lookup user r.members ≡ some m
      → m.uid ≡ some n
      → uid_base ≤ n

lookup-put_here :
    (user : String) (m : Member) (d : Dict String Member) → lookup user (put user m d) ≡ some m
lookup-put_here user m d = lookup-put user user m d ∙ if_true _ _ ((eqb_iff user user).1 refl)

-- A row with a uid is read, and nothing is written.
settled :
    (user : String) (m : Member) (n : ℕ) (r : Rows)
    → lookup user r.members ≡ some m
    → m.uid ≡ some n
    → advances 5 (ensuring user) r ≡ (done user (some m), r)
unfolding advances advance ensure_member ensure_on read_on read_uid
settled user m n r e u =
    ap (λ o. advances 4 (reading user) (ensure_on o user r)) e
    ∙ ap (λ p. advances 3 p r) (ap (read_on user) e ∙ ap (read_uid user m) u)

-- A row without a uid gets the next number.
unsettled :
    (user : String) (m : Member) (r : Rows)
    → lookup user r.members ≡ some m
    → m.uid ≡ none
    → advances 4 (reading user) r ≡ (
      done user (some (record m { uid = some r.next_uid })),
      record {
        next_uid = r.next_uid + 1;
        members = put user (record m { uid = some r.next_uid }) r.members;
      },
    )
unfolding advances advance read_on read_uid claim_on claim_uid
unsettled user m r e u =
    ap (λ p. advances 3 p r) (ap (read_on user) e ∙ ap (read_uid user m) u)
    ∙ (ap
          (λ o.
            advances 1 (claim_on user r.next_uid o (record r { next_uid = r.next_uid + 1 })).0
              (claim_on user r.next_uid o (record r { next_uid = r.next_uid + 1 })).1)
          e
        ∙ ap
            (λ o.
              advances 1 (claim_uid user r.next_uid m o (record r { next_uid = r.next_uid + 1 })).0
                (claim_uid user r.next_uid m o (record r { next_uid = r.next_uid + 1 })).1)
            u)

-- The identity of a uid.
unfoldable identity : ℕ → MemberIdentity
identity n = record { uid = n; username = unix_name n; home = homes_root ++ (b'/' ∷ unix_name n) }

identity_on-identity : (n : ℕ) → uid_base ≤ n → identity_on (some n) ≡ some (identity n)
unfolding identity_on identity
identity_on-identity n l = if_false {b = ltb n uid_base} _ _ (ground (arith, l))

-- The answer, by the row that the statements end with.
answered :
    (user : String) (m : Member) (n : ℕ) (r q : Rows)
    → advances 5 (ensuring user) r ≡ (done user (some m), q)
    → m.uid ≡ some n
    → uid_base ≤ n
    → resolve_identity user r ≡ (some (identity n), q)
unfolding resolve_identity identity_of
answered user m n r q e u l =
    ap (λ (x : Stage × Rows). (identity_of x.0, x.1)) e
    ∙ ap (λ o. (o, q)) (ap identity_on u ∙ identity_on-identity n l)

-- What a member's role is after a row was ensured.
unfoldable pub role_before : Option Member → String
role_before none = role_user
role_before (some m) = m.role

-- A resolution that is settled: the answer, the row behind it, and the same answer again.
pub record IsSettled (user : String) (r : Rows) : Type 0 where
  pub identity : MemberIdentity
  pub row : Member
  pub answer : (resolve_identity user r).0 ≡ some identity
  pub floor : uid_base ≤ identity.uid
  pub kept : lookup user (resolve_identity user r).1.members ≡ some row
  pub uid : row.uid ≡ some identity.uid
  pub role : row.role ≡ role_before (lookup user r.members)
  pub again :
      resolve_identity user (resolve_identity user r).1
      ≡ (some identity, (resolve_identity user r).1)

of_statements :
    (user : String) (m : Member) (n : ℕ) (r q : Rows)
    → advances 5 (ensuring user) r ≡ (done user (some m), q)
    → lookup user q.members ≡ some m
    → m.uid ≡ some n
    → uid_base ≤ n
    → m.role ≡ role_before (lookup user r.members)
    → IsSettled user r
unfolding identity
of_statements user m n r q e k u l o =
    let a : resolve_identity user r ≡ (some (identity n), q) = answered user m n r q e u l in
    let rows : (resolve_identity user r).1 ≡ q = ap (λ (x : Option MemberIdentity × Rows). x.1) a in
    record {
      identity = identity n;
      row = m;
      answer = ap (λ (x : Option MemberIdentity × Rows). x.0) a;
      floor = l;
      kept = ap (λ c. lookup user c.members) rows ∙ k;
      uid = u;
      role = o;
      again =
          subst (λ c. resolve_identity user c ≡ (some (identity n), c)) (sym rows)
            (answered user m n q q (settled user m n q k u) u l);
    }

-- The next number, claimed for a row without a uid.
abbrev claimed : Member → ℕ → Member
claimed m n = record m { uid = some n }

fresh_row :
    (user : String) (m : Member) (r : Rows)
    → lookup user r.members ≡ some m
    → m.uid ≡ none
    → uid_base ≤ r.next_uid
    → IsSettled user r
unfolding advances advance ensure_member ensure_on role_before
fresh_row user m r e u l =
    of_statements user (claimed m r.next_uid) r.next_uid r _
      (ap (λ o. advances 4 (reading user) (ensure_on o user r)) e ∙ unsettled user m r e u)
      (lookup-put_here user (claimed m r.next_uid) r.members) refl l (sym (ap role_before e))

new_row :
    (user : String) (r : Rows)
    → lookup user r.members ≡ none
    → uid_base ≤ r.next_uid
    → IsSettled user r
unfolding advances advance ensure_member ensure_on role_before
new_row user r e l =
    let plain : Member = record { role = role_user; uid = none } in
    let q : Rows = record r { members = put user plain r.members } in
    of_statements user (claimed plain r.next_uid) r.next_uid r _
      (ap (λ o. advances 4 (reading user) (ensure_on o user r)) e
        ∙ unsettled user plain q (lookup-put_here user plain r.members) refl)
      (lookup-put_here user (claimed plain r.next_uid) (put user plain r.members)) refl l
      (sym (ap role_before e))

-- resolveIdentity, with no step of others in between, answers on rows that keep the floor of the uids:
-- with an identity of at least 2000 that the member's row then has, the member keeping the role that
-- was there and being a user otherwise, and asked again it gives the same and writes nothing.
pub resolve_identity-IsSettled : (user : String) (r : Rows) → IsFloored r → IsSettled user r
unfolding role_before
resolve_identity-IsSettled user r h = elim (Option-cases (lookup user r.members)) [
  | inl e ↦ new_row user r e h.floor
  | inr (m, e) ↦ elim (Option-cases m.uid) [
    | inl u ↦ fresh_row user m r e u h.floor
    | inr (n, u) ↦
        of_statements user m n r r (settled user m n r e u) e u (h.uids user m n e u)
          (sym (ap role_before e))
  ]
]
