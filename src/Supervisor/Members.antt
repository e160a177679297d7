-- ===== src/Supervisor/Members.antt =====
-- internal/supervisor/identity.go, sessionuid.go, supervisor.go: who a session runs as. os.Geteuid, the
-- lookup of the shared group and the outcome of provisionHome are arguments; `attempts` records the
-- uids that provisionHome was called for. The mutex makes put, get and markProvisioned each one step,
-- and identityFor is taken as one.
pub mod Unprivileged
pub mod Once
use Prim.Native.String.{String}
use lemul.Prelude.{
  ℕ, zero, suc, List, [], ◌∷◌, ◌++◌, Option, none, some, Bool, true, false, ◌||◌, ◌==◌, not,
  if◌then◌else◌,
}
use lemul.Prelude.Text.{Bytes}
use lemul.Prelude.Dict.{string_key, Dict, eqb, lookup, put}
use lemul.Supervisor.Environ.{Identity}

-- syscall.Credential, of what is set in it.
pub record Credential : Type 0 where
  pub uid : ℕ
  pub gid : ℕ
  pub groups : List ℕ

-- The supplementary groups, from lookupGID(sharedGroup): no such group, root's, or another.
unfoldable pub groups_of : Option ℕ → List ℕ
groups_of none = []
groups_of (some zero) = []
groups_of (some (suc g)) = suc g ∷ []

unfoldable pub credential_for : ℕ → ℕ → Option ℕ → Credential
credential_for uid gid shared = record {
  uid = uid;
  gid = if gid == 0 then uid else gid;
  groups = groups_of shared;
}

unfoldable pub session_credential : ℕ → ℕ → ℕ → Option ℕ → Option Credential
session_credential euid uid gid shared =
    if uid == 0 then none else if euid == 0 then some (credential_for uid gid shared) else none

-- (identity).credential
unfoldable pub credential : ℕ → Option ℕ → Identity → Option Credential
credential euid shared who = session_credential euid who.uid who.uid shared

pub record Identities : Type 0 where
  pub m : Dict String Identity
  pub provisioned : List ℕ
  pub attempts : List ℕ

unfoldable pub new_identities : Identities
new_identities = record { m = []; provisioned = []; attempts = [] }

unfoldable pub contains : ℕ → List ℕ → Bool
contains u [] = false
contains u (v ∷ vs) = v == u || contains u vs

unfoldable pub mark_provisioned : ℕ → Identities → Bool × Identities
mark_provisioned uid s =
    if contains uid s.provisioned
    then (false, s)
    else (true, record s { provisioned = uid ∷ s.provisioned })

-- tunnel.SessionIdentity
pub record Request : Type 0 where
  pub session_id : String
  pub uid : ℕ
  pub username : Bytes
  pub home : Bytes

pub data Reply : Type 0 where
  bad_message incomplete_identity : Reply
  accepted : String → Reply

unfoldable pub empty : Bytes → Bool
empty [] = true
empty (c ∷ s) = false

-- handleSessionIdentity, where `claude_dir` is filepath.Join with ".claude"; `none` is a message that
-- does not decode.
unfoldable pub handle_session_identity :
    (Bytes → Bytes) → Option Request → Identities → Reply × Identities
unfolding empty
handle_session_identity claude_dir none s = (bad_message, s)
handle_session_identity claude_dir (some r) s =
    if eqb r.session_id "" || (r.uid == 0 || empty r.home) then (incomplete_identity, s) else (
      accepted r.session_id,
      record s {
        m =
            put r.session_id
              (record {
                uid = r.uid;
                username = r.username;
                home = r.home;
                config_dir = claude_dir r.home;
              })
              s.m;
      },
    )

-- What the supervisor runs as: os.Geteuid, and its options.
pub record Setting : Type 0 where
  pub euid : ℕ
  pub session_uid : ℕ
  pub config_dir : Bytes

-- The identity without a uid.
unfoldable pub own_identity : Bytes → Identity
own_identity dir = record { uid = 0; username = []; home = []; config_dir = dir }

pub data Found : Type 0 where
  no_identity provisioning_failed : Found
  found : Identity → Found

-- After markProvisioned, which says whether a home is still to be made, and whether making it works.
unfoldable pub provision_on : Identity → Bool → Bool × Identities → Found × Identities
provision_on who works (false, s) = (found who, s)
provision_on who works (true, s) =
    (if works then found who else provisioning_failed, record s { attempts = who.uid ∷ s.attempts })

unfoldable pub known_on : Setting → Bool → Option Identity → Identities → Found × Identities
known_on o works none s =
    (if o.session_uid == 0 then found (own_identity o.config_dir) else no_identity, s)
known_on o works (some who) s = provision_on who works (mark_provisioned who.uid s)

unfoldable pub identity_for : Setting → Bool → String → Identities → Found × Identities
identity_for o works id s =
    if not (o.euid == 0)
    then (found (own_identity o.config_dir), s)
    else known_on o works (lookup id s.m) s

-- What changes the identities.
pub data Op : Type 0 where
  identity_op : Option Request → Op
  start_op : String → Bool → Op

unfoldable pub step : (Bytes → Bytes) → Setting → Op → Identities → Identities
step claude_dir o (identity_op r) s = (handle_session_identity claude_dir r s).1
step claude_dir o (start_op id works) s = (identity_for o works id s).1

unfoldable pub run : (Bytes → Bytes) → Setting → List Op → Identities → Identities
run claude_dir o [] s = s
run claude_dir o (op ∷ ops) s = run claude_dir o ops (step claude_dir o op s)
