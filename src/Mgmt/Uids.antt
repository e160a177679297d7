-- ===== src/Mgmt/Uids.antt =====
-- internal/mgmtapi/sessionidentity.go and members.go: the uids of a workspace's members and the verbs on
-- its members. A transaction of resolveIdentity is the list of its statements, of which each is one
-- step, between steps of others; that a query fails otherwise than by a missing
-- row, and that a transaction is rolled back, is not modelled. An answer of a handler keeps what it
-- names: the role that a member was given, the user who was removed.
mod Numbers
mod Resolved
mod Tests
use Prim.Native.String.{String}
use lemul.Prelude.{
  ℕ, zero, suc, ◌+◌, List, [], ◌∷◌, ◌++◌, Option, none, some, Bool, true, false, ◌||◌, ltb, ◌==◌,
  if◌then◌else◌,
}
use lemul.Prelude.Int.{pos}
use lemul.Prelude.Text.{Bytes, bytes}
use lemul.Prelude.Dict.{string_key, eqb, Dict, lookup, put, without}
use lemul.Strconv.{itoa}
use lemul.Mgmt.Access.{
  role_owner, role_user, Member, Gate, granted, not_found, forbidden, conflict, bad_request, failed,
  WsScope,
}

-- uidBase and homesRoot
abbrev pub uid_base : ℕ
uid_base = 2000

abbrev pub homes_root : Bytes
homes_root = bytes "/workspace/homes"

-- The counter of one workspace's row, and its members by user.
pub record Rows : Type 0 where
  pub next_uid : ℕ
  pub members : Dict String Member

-- memberIdentity
pub record MemberIdentity : Type 0 where
  pub uid : ℕ
  pub username : Bytes
  pub home : Bytes

unfoldable pub ensure_on : Option Member → String → Rows → Rows
ensure_on none user r = record r {
  members = put user (record { role = role_user; uid = none }) r.members;
}
ensure_on (some m) user r = r

-- EnsureMember
unfoldable pub ensure_member : String → Rows → Rows
ensure_member user r = ensure_on (lookup user r.members) user r

unfoldable pub add_on : Option Member → String → String → Rows → Rows
add_on none user role r = record r {
  members = put user (record { role = role; uid = none }) r.members;
}
add_on (some m) user role r = record r { members = put user (record m { role = role }) r.members }

-- AddMember, which keeps a uid.
unfoldable pub add_member : String → String → Rows → Rows
add_member user role r = add_on (lookup user r.members) user role r

-- RemoveMember
unfoldable pub remove_member : String → Rows → Rows
remove_member user r = record r { members = without user r.members }

-- Where a transaction of resolveIdentity is: the statement that comes next, or the row it ended with.
pub data Stage : Type 0 where
  ensuring reading taking rereading : String → Stage
  claiming : String → ℕ → Stage
  done : String → Option Member → Stage

unfoldable pub read_uid : String → Member → Option ℕ → Stage
read_uid user m none = taking user
read_uid user m (some n) = done user (some m)

-- What is done after a row was read.
unfoldable pub read_on : String → Option Member → Stage
read_on user none = done user none
read_on user (some m) = read_uid user m m.uid

unfoldable pub claim_uid : String → ℕ → Member → Option ℕ → Rows → Stage × Rows
claim_uid user n m none r =
    let claimed : Member = record m { uid = some n } in
    (done user (some claimed), record r { members = put user claimed r.members })
claim_uid user n m (some old) r = (rereading user, r)

-- SetMemberUID: only a row without a uid is written.
unfoldable pub claim_on : String → ℕ → Option Member → Rows → Stage × Rows
claim_on user n none r = (rereading user, r)
claim_on user n (some m) r = claim_uid user n m m.uid r

-- The next statement of the transaction.
unfoldable pub advance : Stage → Rows → Stage × Rows
advance (ensuring user) r = (reading user, ensure_member user r)
advance (reading user) r = (read_on user (lookup user r.members), r)
advance (taking user) r = (claiming user r.next_uid, record r { next_uid = r.next_uid + 1 })
advance (claiming user n) r = claim_on user n (lookup user r.members) r
advance (rereading user) r = (done user (lookup user r.members), r)
advance (done user row) r = (done user row, r)

-- unixName
unfoldable pub unix_name : ℕ → Bytes
unix_name uid = bytes "lem" ++ itoa (pos uid)

unfoldable pub identity_on : Option ℕ → Option MemberIdentity
identity_on none = none
identity_on (some uid) =
    if ltb uid uid_base
    then none
    else some (record {
      uid = uid;
      username = unix_name uid;
      home = homes_root ++ (b'/' ∷ unix_name uid);
    })

-- The identity that is made of the row a transaction ended with.
unfoldable pub identity_of : Stage → Option MemberIdentity
identity_of (done user (some m)) = identity_on m.uid
identity_of (done user none) = none
identity_of p = none

unfoldable pub advances : ℕ → Stage → Rows → Stage × Rows
advances zero p r = (p, r)
advances (suc n) p r = advances n (advance p r).0 (advance p r).1

-- resolveIdentity with no step of others in between: five statements are the most that it makes.
unfoldable pub resolve_identity : String → Rows → Option MemberIdentity × Rows
resolve_identity user r =
    (identity_of (advances 5 (ensuring user) r).0, (advances 5 (ensuring user) r).1)

-- The body of a handler behind requireWorkspaceOwner.
unfoldable pub behind :
    {A : Type 0} → (WsScope → Rows → Gate A × Rows) → Gate WsScope → Rows → Gate A × Rows
behind f (granted a) r = f a r
behind f not_found r = (not_found, r)
behind f forbidden r = (forbidden, r)
behind f conflict r = (conflict, r)
behind f bad_request r = (bad_request, r)
behind f failed r = (failed, r)

-- The role that a request asks for; `none` is a request that is no JSON, and "" is the default.
unfoldable pub role_asked : Option String → Option String
role_asked none = none
role_asked (some role) =
    if eqb role ""
    then some role_user
    else if eqb role role_owner || eqb role role_user
    then some role
    else none

unfoldable pub put_on : Option String → Option String → String → WsScope → Rows → Gate String × Rows
put_on none target user a r = (bad_request, r)
put_on (some role) none user a r = (not_found, r)
put_on (some role) (some _) user a r = (granted role, add_member user role r)

-- handlePutWorkspaceMember. `target` is the role of the user in the organisation.
unfoldable pub put_workspace_member :
    Gate WsScope → Option String → Option String → String → Rows → Gate String × Rows
put_workspace_member g asked target user = behind (put_on (role_asked asked) target user) g

unfoldable pub delete_on : String → WsScope → Rows → Gate String × Rows
delete_on user a r =
    if eqb user a.ws.owner_user_id then (conflict, r) else (granted user, remove_member user r)

-- handleDeleteWorkspaceMember
unfoldable pub delete_workspace_member : Gate WsScope → String → Rows → Gate String × Rows
delete_workspace_member g user = behind (delete_on user) g

-- A workspace with its transactions, by number, and for each uid the member for whom it was taken.
pub record System : Type 0 where
  pub rows : Rows
  pub stages : ℕ → Option Stage
  pub numbers : ℕ → Option String

pub data Op : Type 0 where
  begin : ℕ → String → Op
  go_on : ℕ → Op
  put_op : Gate WsScope → Option String → Option String → String → Op
  delete_op : Gate WsScope → String → Op

unfoldable pub set_at {ℓ} : {A : Type ℓ} → ℕ → A → (ℕ → Option A) → ℕ → Option A
set_at k x f j = if j == k then some x else f j

unfoldable pub noted : Stage → Rows → (ℕ → Option String) → ℕ → Option String
noted (taking user) r f = set_at r.next_uid user f
noted p r f = f

unfoldable pub go_on_at : ℕ → Option Stage → System → System
go_on_at k none s = s
go_on_at k (some p) s = record {
  rows = (advance p s.rows).1;
  stages = set_at k (advance p s.rows).0 s.stages;
  numbers = noted p s.rows s.numbers;
}

unfoldable pub step : Op → System → System
step (begin k user) s = record s { stages = set_at k (ensuring user) s.stages }
step (go_on k) s = go_on_at k (s.stages k) s
step (put_op g asked target user) s = record s {
  rows = (put_workspace_member g asked target user s.rows).1;
}
step (delete_op g user) s = record s { rows = (delete_workspace_member g user s.rows).1 }

unfoldable pub run : List Op → System → System
run [] s = s
run (o ∷ ops) s = run ops (step o s)

-- A workspace as it is made, with no member's uid given.
abbrev pub new_system : System
new_system = record {
  rows = record { next_uid = uid_base; members = [] };
  stages = λ _. none;
  numbers = λ _. none;
}
