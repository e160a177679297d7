-- ===== src/Mgmt/Access.antt =====
-- internal/mgmtapi/principal.go, workspaces.go: what a caller is to an organisation, a
-- workspace and a session. The tables are dictionaries;
-- a caller is the user id of a resolved principal. `fails` says that reading the organisation or the
-- membership in it fails otherwise than by a missing row; the later reads are taken to succeed.
pub mod Gates
pub mod Sessions
mod Tests
use Prim.Native.String.{String}
use lemul.Prelude.{
  ℕ, ◌≡◌, ◌↔◌, List, [], ◌∷◌, Option, none, some, Bool, true, false, ◌&&◌, ◌||◌, not, if◌then◌else◌,
  arith,
}
use lemul.Prelude.Dict.{Key, string_key, eqb, eqb_iff, Dict, lookup, put, without}

pub pair_iff :
    {A B : Type 0} ⦃a : Key A⦄ ⦃b : Key B⦄ (x y : A × B)
    → ((eqb x.0 y.0 && eqb x.1 y.1) ≡ true) ↔ (x ≡ y)
pair_iff (x, u) (y, v) = ground (arith, eqb_iff x y, eqb_iff u v)

instance abbrev pub pair_key : Key (String × String)
pair_key = record { test = λ x y. eqb x.0 y.0 && eqb x.1 y.1; test_iff = pair_iff }

-- roleOwner and roleUser
abbrev pub role_owner : String
role_owner = "owner"

abbrev pub role_user : String
role_user = "user"

-- accessOrg
abbrev pub access_org : String
access_org = "org"

-- A row of workspace, of workspace_member and of session, of what is used here.
pub record Workspace : Type 0 where
  pub id : String
  pub tenant_id : String
  pub owner_user_id : String
  pub access_scope : String

pub record Member : Type 0 where
  pub role : String
  pub uid : Option ℕ

pub record Session : Type 0 where
  pub workspace_id : String
  pub user_id : String

-- The directory's organisations by slug, and the cell's tables: roles by organisation and user,
-- workspaces by organisation and name and by organisation and id, members by workspace and user, and
-- sessions by organisation and id.
pub record Tables : Type 0 where
  pub orgs : Dict String String
  pub org_members : Dict (String × String) String
  pub by_name : Dict (String × String) Workspace
  pub by_id : Dict (String × String) Workspace
  pub members : Dict (String × String) Member
  pub sessions : Dict (String × String) Session

-- What a gate answers: the caller's standing, or an error of HTTP, 404, 403, 409, 400 or 500.
pub data Gate {ℓ} (A : Type ℓ) : Type ℓ where
  granted : A → Gate A
  not_found forbidden conflict bad_request failed : Gate A

-- scope
pub record OrgScope : Type 0 where
  pub tenant_id : String
  pub user_id : String
  pub role : String

-- wsScope
pub record WsScope : Type 0 where
  pub org : OrgScope
  pub ws : Workspace
  pub role : String

-- sessScope
pub record SessScope : Type 0 where
  pub ws : WsScope
  pub sess : Session

unfoldable pub role_on : String → String → Option String → Gate OrgScope
role_on org user none = not_found
role_on org user (some role) = granted (record { tenant_id = org; user_id = user; role = role })

unfoldable pub org_on : Tables → String → Option String → Gate OrgScope
org_on t user none = not_found
org_on t user (some org) = role_on org user (lookup (org, user) t.org_members)

-- requireOrg, with orgScope. `none` is a principal that was not resolved.
unfoldable pub require_org : Bool → Tables → Option String → String → Gate OrgScope
require_org fails t none slug = failed
require_org fails t (some user) slug = if fails then failed else org_on t user (lookup slug t.orgs)

unfoldable pub owner_on : Gate OrgScope → Gate OrgScope
owner_on (granted sc) = if eqb sc.role role_owner then granted sc else forbidden
owner_on g = g

-- requireOwner
unfoldable pub require_owner : Bool → Tables → Option String → String → Gate OrgScope
require_owner fails t user slug = owner_on (require_org fails t user slug)

unfoldable pub member_on : OrgScope → Workspace → Option Member → Gate WsScope
member_on sc ws (some m) = granted (record { org = sc; ws = ws; role = m.role })
member_on sc ws none =
    if eqb ws.access_scope access_org
    then granted (record { org = sc; ws = ws; role = role_user })
    else not_found

-- accessTo
unfoldable pub access_to : Tables → OrgScope → Workspace → Gate WsScope
access_to t sc ws =
    if eqb sc.role role_owner
    then granted (record { org = sc; ws = ws; role = role_owner })
    else member_on sc ws (lookup (ws.id, sc.user_id) t.members)

unfoldable pub found_on : Tables → OrgScope → Option Workspace → Gate WsScope
found_on t sc none = not_found
found_on t sc (some ws) = access_to t sc ws

-- workspaceScope and workspaceScopeByID
unfoldable pub workspace_scope : Tables → OrgScope → String → Gate WsScope
workspace_scope t sc name = found_on t sc (lookup (sc.tenant_id, name) t.by_name)

unfoldable pub workspace_scope_by_id : Tables → OrgScope → String → Gate WsScope
workspace_scope_by_id t sc id = found_on t sc (lookup (sc.tenant_id, id) t.by_id)

unfoldable pub workspace_on : Tables → String → Gate OrgScope → Gate WsScope
workspace_on t name (granted sc) = workspace_scope t sc name
workspace_on t name forbidden = forbidden
workspace_on t name conflict = conflict
workspace_on t name bad_request = bad_request
workspace_on t name not_found = not_found
workspace_on t name failed = failed

-- requireWorkspace
unfoldable pub require_workspace : Bool → Tables → Option String → String → String → Gate WsScope
require_workspace fails t user slug name = workspace_on t name (require_org fails t user slug)

unfoldable pub ws_owner_on : Gate WsScope → Gate WsScope
ws_owner_on (granted a) = if eqb a.role role_owner then granted a else forbidden
ws_owner_on g = g

-- requireWorkspaceOwner
unfoldable pub require_workspace_owner :
    Bool → Tables → Option String → String → String → Gate WsScope
require_workspace_owner fails t user slug name =
    ws_owner_on (require_workspace fails t user slug name)

-- isMine and isVisible
unfoldable pub is_mine : SessScope → Bool
is_mine a = eqb a.sess.user_id a.ws.org.user_id

unfoldable pub is_visible : SessScope → Bool
is_visible a = is_mine a || eqb a.ws.role role_owner

unfoldable pub visible_on : Session → Gate WsScope → Gate SessScope
visible_on sess (granted a) =
    let s : SessScope = record { ws = a; sess = sess } in
    if is_visible s then granted s else not_found
visible_on sess failed = failed
visible_on sess _ = not_found

unfoldable pub session_on : Tables → OrgScope → Option Session → Gate SessScope
session_on t sc none = not_found
session_on t sc (some sess) = visible_on sess (workspace_scope_by_id t sc sess.workspace_id)

unfoldable pub in_org_on : Tables → String → Gate OrgScope → Gate SessScope
in_org_on t sid (granted sc) = session_on t sc (lookup (sc.tenant_id, sid) t.sessions)
in_org_on t sid failed = failed
in_org_on t sid forbidden = forbidden
in_org_on t sid conflict = conflict
in_org_on t sid bad_request = bad_request
in_org_on t sid not_found = not_found

-- requireSession
unfoldable pub require_session : Bool → Tables → Option String → String → String → Gate SessScope
require_session fails t user slug sid = in_org_on t sid (require_org fails t user slug)
