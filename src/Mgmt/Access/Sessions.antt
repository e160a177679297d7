-- ===== src/Mgmt/Access/Sessions.antt =====
-- internal/mgmtapi/workspaces.go: who may know that a session exists.
use Prim.Native.String.{String}
use lemul.Prelude.{
  ◌≡◌, ◌↔◌, ◌⊎◌, inl, inr, refl, sym, ap, ◌∙◌, Option, none, some, true, false, subst, if_true,
  Bool-cases, arith,
}
use lemul.Prelude.Dict.{string_key, eqb_iff, lookup}
use lemul.Mgmt.Access.{
  pair_key, role_owner, Workspace, Session, Tables, Gate, granted, not_found, forbidden, conflict,
  bad_request, failed, OrgScope, WsScope, SessScope, require_org, found_on, workspace_scope_by_id,
  is_mine, is_visible, visible_on, session_on, in_org_on, require_session,
}
use lemul.Mgmt.Access.Gates.{
  Standing, InOrg, require_org-InOrg, InOrg-require_org, Standing-access_to, Grant, found_on-Grant,
}

-- A session that its caller may know of: one of the organisation, in a workspace that is open to the
-- caller, which the caller started or whose workspace the caller owns.
pub record Known (t : Tables) (user slug sid : String) (a : SessScope) : Type 0 where
  pub in_org : InOrg t user slug a.ws.org
  pub session : lookup (a.ws.org.tenant_id, sid) t.sessions ≡ some a.sess
  pub workspace : lookup (a.ws.org.tenant_id, a.sess.workspace_id) t.by_id ≡ some a.ws.ws
  pub standing : Standing t a.ws.org a.ws.ws a.ws.role
  pub own : (a.sess.user_id ≡ a.ws.org.user_id) ⊎ (a.ws.role ≡ role_owner)

is_visible_iff :
    (a : SessScope)
    → (is_visible a ≡ true) ↔ ((a.sess.user_id ≡ a.ws.org.user_id) ⊎ (a.ws.role ≡ role_owner))
unfolding is_visible is_mine
is_visible_iff a =
    ground (arith, eqb_iff a.sess.user_id a.ws.org.user_id, eqb_iff a.ws.role role_owner)

visible_on-granted :
    (sess : Session) (g : Gate WsScope) (a : SessScope)
    → visible_on sess g ≡ granted a
    → (g ≡ granted a.ws) × (a.sess ≡ sess) × (is_visible a ≡ true)
unfolding visible_on
visible_on-granted sess (granted w) a e =
    let s : SessScope = record { ws = w; sess = sess } in
    elim (Bool-cases (is_visible s)) [
      | inl v ↦
          let same : s ≡ a = cc (sym (if_true _ _ v) ∙ e) in
          subst (λ c. (granted w ≡ granted c.ws) × (c.sess ≡ sess) × (is_visible c ≡ true)) same
            (refl, refl, v)
      | inr v ↦ absurd (ground (arith, e, v))
    ]
visible_on-granted sess not_found a e = cc e
visible_on-granted sess forbidden a e = cc e
visible_on-granted sess conflict a e = cc e
visible_on-granted sess bad_request a e = cc e
visible_on-granted sess failed a e = cc e

session_on-granted :
    (t : Tables) (sc : OrgScope) (s : Option Session) (a : SessScope)
    → session_on t sc s ≡ granted a
    → (s ≡ some a.sess)
      × (workspace_scope_by_id t sc a.sess.workspace_id ≡ granted a.ws)
      × (is_visible a ≡ true)
unfolding session_on
session_on-granted t sc none a e = cc e
session_on-granted t sc (some sess) a e =
    let (w, s, v) = visible_on-granted sess (workspace_scope_by_id t sc sess.workspace_id) a e in
    (ap some (sym s), ap (λ c. workspace_scope_by_id t sc c.workspace_id) s ∙ w, v)

in_org_on-granted :
    (t : Tables) (sid : String) (g : Gate OrgScope) (a : SessScope)
    → in_org_on t sid g ≡ granted a
    → (sc : OrgScope) × (g ≡ granted sc)
      × (session_on t sc (lookup (sc.tenant_id, sid) t.sessions) ≡ granted a)
unfolding in_org_on
in_org_on-granted t sid (granted sc) a e = (sc, refl, e)
in_org_on-granted t sid not_found a e = cc e
in_org_on-granted t sid forbidden a e = cc e
in_org_on-granted t sid conflict a e = cc e
in_org_on-granted t sid bad_request a e = cc e
in_org_on-granted t sid failed a e = cc e

-- What the parts say of one scope, for the scope in the answer.
Known-of :
    (t : Tables) (user slug sid : String) (sc : OrgScope) (a : SessScope) (ws : Workspace)
    → InOrg t user slug sc
    → lookup (sc.tenant_id, sid) t.sessions ≡ some a.sess
    → lookup (sc.tenant_id, a.sess.workspace_id) t.by_id ≡ some ws
    → Grant t sc ws a.ws
    → is_visible a ≡ true
    → Known t user slug sid a
Known-of t user slug sid sc a ws i s w grant v = record {
  in_org = subst (InOrg t user slug) (sym grant.0) i;
  session = ap (λ c. lookup (c.tenant_id, sid) t.sessions) grant.0 ∙ s;
  workspace =
      ap (λ c. lookup (c.tenant_id, a.sess.workspace_id) t.by_id) grant.0
      ∙ (w ∙ ap some (sym grant.1));
  standing =
      subst (λ c. Standing t c a.ws.ws a.ws.role) (sym grant.0)
        (subst (λ c. Standing t sc c a.ws.role) (sym grant.1) grant.2);
  own = (is_visible_iff a).0 v;
}

-- A caller passes the gate of a session exactly if the session is one of the organisation of that
-- slug, which has the caller as a member, its workspace is open to the caller, and the caller started
-- the session or owns the workspace.
pub require_session_iff :
    (t : Tables) (user slug sid : String) (a : SessScope)
    → (require_session false t (some user) slug sid ≡ granted a) ↔ Known t user slug sid a
unfolding require_session in_org_on session_on workspace_scope_by_id found_on visible_on
require_session_iff t user slug sid a = (there, back)
  where
    there : require_session false t (some user) slug sid ≡ granted a → Known t user slug sid a
    there e =
        let (sc, g, f) = in_org_on-granted t sid (require_org false t (some user) slug) a e in
        let (s, w, v) = session_on-granted t sc (lookup (sc.tenant_id, sid) t.sessions) a f in
        let (ws, row, grant) =
          found_on-Grant t sc (lookup (sc.tenant_id, a.sess.workspace_id) t.by_id) a.ws w in
        Known-of t user slug sid sc a ws (require_org-InOrg false t user slug sc g) s row grant v

    back : Known t user slug sid a → require_session false t (some user) slug sid ≡ granted a
    back h =
        ap (in_org_on t sid) (InOrg-require_org t user slug a.ws.org h.in_org)
        ∙ (ap (session_on t a.ws.org) h.session
            ∙ (ap (visible_on a.sess) (
                  ap (found_on t a.ws.org) h.workspace
                  ∙ Standing-access_to t a.ws.org a.ws.ws a.ws.role h.standing)
                ∙ if_true _ _ ((is_visible_iff a).1 h.own)))
