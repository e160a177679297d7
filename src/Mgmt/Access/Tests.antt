-- ===== src/Mgmt/Access/Tests.antt =====
-- The gates of internal/mgmtapi at a small organisation.
use lemul.Prelude.{◌≡◌, ◌↔◌, refl, [], ◌∷◌, some, false}
use lemul.Prelude.Dict.{string_key, lookup}
use lemul.Mgmt.Access.{
  pair_key, Workspace, Session, Tables, granted, WsScope, SessScope, require_org, require_workspace,
  require_session, not_found, org_on, role_on, in_org_on, session_on, workspace_scope_by_id,
  found_on, access_to, member_on, visible_on, is_visible, is_mine,
}
use lemul.Mgmt.Access.Gates.{require_workspace_iff, Entitled}
use lemul.Mgmt.Access.Sessions.{require_session_iff, Known}

abbrev dev : Workspace
dev = record { id = "w1"; tenant_id = "t1"; owner_user_id = "ann"; access_scope = "org" }

abbrev shell : Session
shell = record { workspace_id = "w1"; user_id = "bob" }

abbrev tables : Tables
tables = record {
  orgs = ("acme", "t1") ∷ [];
  org_members = (("t1", "ann"), "owner") ∷ (("t1", "bob"), "user") ∷ (("t1", "eve"), "user") ∷ [];
  by_name = (("t1", "dev"), dev) ∷ [];
  by_id = (("t1", "w1"), dev) ∷ [];
  members = [];
  sessions = (("t1", "s1"), shell) ∷ [];
}

abbrev ann : WsScope
ann = record {
  org = record { tenant_id = "t1"; user_id = "ann"; role = "owner" };
  ws = dev;
  role = "owner";
}

abbrev bob : WsScope
bob = record {
  org = record { tenant_id = "t1"; user_id = "bob"; role = "user" };
  ws = dev;
  role = "user";
}

abbrev bob_shell : SessScope
bob_shell = record { ws = bob; sess = shell }

-- Bob, and not Eve, may know of Bob's session.
bob_granted : require_session false tables (some "bob") "acme" "s1" ≡ granted bob_shell
unfolding lookup require_session require_org org_on role_on in_org_on session_on
    workspace_scope_by_id found_on access_to member_on visible_on is_visible is_mine
bob_granted = refl

eve_refused : require_session false tables (some "eve") "acme" "s1" ≡ not_found
unfolding lookup require_session require_org org_on role_on in_org_on session_on
    workspace_scope_by_id found_on access_to member_on visible_on is_visible is_mine
eve_refused = refl

require_workspace_iff_example :
    (require_workspace false tables (some "ann") "acme" "dev" ≡ granted ann)
    ↔ Entitled tables "ann" "acme" "dev" ann
require_workspace_iff_example = require_workspace_iff tables "ann" "acme" "dev" ann

require_session_iff_example :
    (require_session false tables (some "bob") "acme" "s1" ≡ granted bob_shell)
    ↔ Known tables "bob" "acme" "s1" bob_shell
require_session_iff_example = require_session_iff tables "bob" "acme" "s1" bob_shell
