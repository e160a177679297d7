-- ===== src/Mgmt/Access/Gates.antt =====
-- internal/mgmtapi: whom the gates let through, exactly.
use Prim.Native.String.{String}
use lemul.Prelude.{
  ◌≡◌, ◌≢◌, ◌↔◌, inl, inr, refl, sym, ap, ◌∙◌, Option, none, some, Bool, true, false, subst,
  if_true, Bool-cases, arith,
}
use lemul.Prelude.Dict.{string_key, eqb, eqb_iff, lookup}
use lemul.Mgmt.Access.{
  pair_key, role_owner, role_user, access_org, Workspace, Member, Tables, Gate, granted, not_found,
  forbidden, conflict, bad_request, failed, OrgScope, WsScope, role_on, org_on, require_org,
  member_on, access_to, found_on, workspace_scope, workspace_on, require_workspace,
}

-- What a member of an organisation is to one of its workspaces: its owner, as an owner of the
-- organisation; what its own row says; or a user, where there is no row and the workspace is open to
-- the organisation.
pub data Standing (t : Tables) (sc : OrgScope) (ws : Workspace) : String → Type 0 where
  as_org_owner : sc.role ≡ role_owner → Standing t sc ws role_owner
  as_member :
      (m : Member)
      → sc.role ≢ role_owner
      → lookup (ws.id, sc.user_id) t.members ≡ some m
      → Standing t sc ws m.role
  by_scope :
      sc.role ≢ role_owner
      → lookup (ws.id, sc.user_id) t.members ≡ none
      → ws.access_scope ≡ access_org
      → Standing t sc ws role_user

-- A caller's place in an organisation.
pub record InOrg (t : Tables) (user slug : String) (sc : OrgScope) : Type 0 where
  pub org : lookup slug t.orgs ≡ some sc.tenant_id
  pub caller : sc.user_id ≡ user
  pub member : lookup (sc.tenant_id, sc.user_id) t.org_members ≡ some sc.role

role_on-InOrg :
    (t : Tables) (user slug org : String) (r : Option String) (sc : OrgScope)
    → lookup slug t.orgs ≡ some org
    → lookup (org, user) t.org_members ≡ r
    → role_on org user r ≡ granted sc
    → InOrg t user slug sc
unfolding role_on
role_on-InOrg t user slug org none sc o m h = cc h
role_on-InOrg t user slug org (some role) sc o m h =
    let own : OrgScope = record { tenant_id = org; user_id = user; role = role } in
    let here : InOrg t user slug own = record { org = o; caller = refl; member = m } in
    let same : own ≡ sc = cc h in subst (InOrg t user slug) same here

org_on-InOrg :
    (t : Tables) (user slug : String) (o : Option String) (sc : OrgScope)
    → lookup slug t.orgs ≡ o
    → org_on t user o ≡ granted sc
    → InOrg t user slug sc
unfolding org_on
org_on-InOrg t user slug none sc e h = cc h
org_on-InOrg t user slug (some org) sc e h =
    role_on-InOrg t user slug org (lookup (org, user) t.org_members) sc e refl h

pub require_org-InOrg :
    (fails : Bool) (t : Tables) (user slug : String) (sc : OrgScope)
    → require_org fails t (some user) slug ≡ granted sc
    → InOrg t user slug sc
unfolding require_org
require_org-InOrg true t user slug sc e = cc e
require_org-InOrg false t user slug sc e = org_on-InOrg t user slug (lookup slug t.orgs) sc refl e

pub InOrg-require_org :
    (t : Tables) (user slug : String) (sc : OrgScope)
    → InOrg t user slug sc
    → require_org false t (some user) slug ≡ granted sc
unfolding require_org org_on role_on
InOrg-require_org t user slug sc h =
    let m : lookup (sc.tenant_id, user) t.org_members ≡ some sc.role =
      ap (λ u. lookup (sc.tenant_id, u) t.org_members) (sym h.caller) ∙ h.member in
    ap (org_on t user) h.org
    ∙ (ap (role_on sc.tenant_id user) m
        ∙ ap (λ u. granted (record { tenant_id = sc.tenant_id; user_id = u; role = sc.role }))
            (sym h.caller))

-- Where the caller owns the organisation, or not.
access_to-owner :
    (t : Tables) (sc : OrgScope) (ws : Workspace)
    → sc.role ≡ role_owner
    → access_to t sc ws ≡ granted (record { org = sc; ws = ws; role = role_owner })
unfolding access_to
access_to-owner t sc ws o = if_true _ _ ((eqb_iff sc.role role_owner).1 o)

access_to-member :
    (t : Tables) (sc : OrgScope) (ws : Workspace)
    → sc.role ≢ role_owner
    → access_to t sc ws ≡ member_on sc ws (lookup (ws.id, sc.user_id) t.members)
unfolding access_to
access_to-member t sc ws n = ground (arith, eqb_iff sc.role role_owner, n)

pub Standing-access_to :
    (t : Tables) (sc : OrgScope) (ws : Workspace) (role : String)
    → Standing t sc ws role
    → access_to t sc ws ≡ granted (record { org = sc; ws = ws; role = role })
unfolding member_on
Standing-access_to t sc ws role (as_org_owner o) = access_to-owner t sc ws o
Standing-access_to t sc ws role (as_member m n e) =
    access_to-member t sc ws n ∙ ap (member_on sc ws) e
Standing-access_to t sc ws role (by_scope n e o) =
    access_to-member t sc ws n
    ∙ (ap (member_on sc ws) e ∙ if_true _ _ ((eqb_iff ws.access_scope access_org).1 o))

-- What access_to grants, told by parts.
abbrev pub Grant : Tables → OrgScope → Workspace → WsScope → Type 0
Grant t sc ws a = (a.org ≡ sc) × (a.ws ≡ ws) × Standing t sc ws a.role

Grant-of :
    (t : Tables) (sc : OrgScope) (ws : Workspace) (role : String) (a : WsScope)
    → Standing t sc ws role
    → granted (record { org = sc; ws = ws; role = role }) ≡ granted a
    → Grant t sc ws a
Grant-of t sc ws role a h e =
    let own : WsScope = record { org = sc; ws = ws; role = role } in
    let here : Grant t sc ws own = (refl, refl, h) in
    let same : own ≡ a = cc e in subst (Grant t sc ws) same here

member_on-Grant :
    (t : Tables) (sc : OrgScope) (ws : Workspace) (m : Option Member) (a : WsScope)
    → sc.role ≢ role_owner
    → lookup (ws.id, sc.user_id) t.members ≡ m
    → member_on sc ws m ≡ granted a
    → Grant t sc ws a
unfolding member_on
member_on-Grant t sc ws (some m) a n e h = Grant-of t sc ws m.role a (as_member m n e) h
member_on-Grant t sc ws none a n e h = elim (Bool-cases (eqb ws.access_scope access_org)) [
  | inl o ↦
      Grant-of t sc ws role_user a (by_scope n e ((eqb_iff ws.access_scope access_org).0 o))
        (sym (if_true _ _ o) ∙ h)
  | inr o ↦ absurd (ground (arith, h, o))
]

access_to-Standing :
    (t : Tables) (sc : OrgScope) (ws : Workspace) (a : WsScope)
    → access_to t sc ws ≡ granted a
    → Grant t sc ws a
access_to-Standing t sc ws a e = elim (Bool-cases (eqb sc.role role_owner)) [
  | inl b ↦
      let o = (eqb_iff sc.role role_owner).0 b in
      Grant-of t sc ws role_owner a (as_org_owner o) (sym (access_to-owner t sc ws o) ∙ e)
  | inr b ↦
      let n : sc.role ≢ role_owner = λ o. ground (arith, eqb_iff sc.role role_owner, b, o) in
      member_on-Grant t sc ws _ a n refl (sym (access_to-member t sc ws n) ∙ e)
]

-- A caller's place in one workspace of an organisation.
pub record Entitled (t : Tables) (user slug name : String) (a : WsScope) : Type 0 where
  pub in_org : InOrg t user slug a.org
  pub workspace : lookup (a.org.tenant_id, name) t.by_name ≡ some a.ws
  pub standing : Standing t a.org a.ws a.role

pub found_on-Grant :
    (t : Tables) (sc : OrgScope) (w : Option Workspace) (a : WsScope)
    → found_on t sc w ≡ granted a
    → (ws : Workspace) × (w ≡ some ws) × Grant t sc ws a
unfolding found_on
found_on-Grant t sc none a e = cc e
found_on-Grant t sc (some ws) a e = (ws, refl, access_to-Standing t sc ws a e)

workspace_on-granted :
    (t : Tables) (name : String) (g : Gate OrgScope) (a : WsScope)
    → workspace_on t name g ≡ granted a
    → (sc : OrgScope) × (g ≡ granted sc) × (workspace_scope t sc name ≡ granted a)
unfolding workspace_on
workspace_on-granted t name (granted sc) a e = (sc, refl, e)
workspace_on-granted t name not_found a e = cc e
workspace_on-granted t name forbidden a e = cc e
workspace_on-granted t name conflict a e = cc e
workspace_on-granted t name bad_request a e = cc e
workspace_on-granted t name failed a e = cc e

-- A caller passes the gate of a workspace, with a role, exactly if the organisation of that slug has
-- the caller as a member and a workspace of that name, and the role is what the caller is to it: its
-- owner by owning the organisation, or else what the caller's own row says, or else a user where the
-- workspace is open to the organisation.
pub require_workspace_iff :
    (t : Tables) (user slug name : String) (a : WsScope)
    → (require_workspace false t (some user) slug name ≡ granted a) ↔ Entitled t user slug name a
unfolding require_workspace workspace_on workspace_scope found_on
require_workspace_iff t user slug name a = (there, back)
  where
    there :
        require_workspace false t (some user) slug name ≡ granted a → Entitled t user slug name a
    there e =
        let (sc, g, f) = workspace_on-granted t name (require_org false t (some user) slug) a e in
        let (ws, w, grant) = found_on-Grant t sc (lookup (sc.tenant_id, name) t.by_name) a f in
        record {
          in_org =
              subst (InOrg t user slug) (sym grant.0) (require_org-InOrg false t user slug sc g);
          workspace =
              ap (λ c. lookup (c.tenant_id, name) t.by_name) grant.0 ∙ (w ∙ ap some (sym grant.1));
          standing =
              subst (λ c. Standing t c a.ws a.role) (sym grant.0)
                (subst (λ w. Standing t sc w a.role) (sym grant.1) grant.2);
        }

    back : Entitled t user slug name a → require_workspace false t (some user) slug name ≡ granted a
    back h =
        ap (workspace_on t name) (InOrg-require_org t user slug a.org h.in_org)
        ∙ (ap (found_on t a.org) h.workspace ∙ Standing-access_to t a.org a.ws a.role h.standing)
