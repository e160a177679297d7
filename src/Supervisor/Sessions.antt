-- ===== src/Supervisor/Sessions.antt =====
-- internal/supervisor/supervisor.go: the commands that reach a supervisor, and the sessions it starts.
-- A handler is taken as one step. What is outside is an argument: the outcome of provisionHome, the
-- user database, net.Listen, filepath.Glob and Base, the session that newSession forked, and what
-- Attach of it says. `started` records every process that was forked, with what it was given, and
-- `removed` the transcripts that were asked to be removed, by directory and session.
pub mod Safe
use Prim.Native.String.{String}
use lemul.Prelude.{
  ℕ, List, [], ◌∷◌, ◌++◌, Option, none, some, Bool, true, false, not, if◌then◌else◌,
}
use lemul.Prelude.Text.{Bytes, bytes}
use lemul.Prelude.Int.{ℤ}
use lemul.Prelude.Dict.{string_key, eqb}
use lemul.Pty.Manager
use lemul.Pty.Manager.{Manager, get, may_create, insert, reap, stop}
use lemul.Gateway.{Broker, open_proxy, close}
use lemul.Supervisor.Args.{session_args, transcript_exists}
use lemul.Supervisor.Environ.{
  Identity, Opened, no_broker, open_failed, opened, child_env, session_env,
}
use lemul.Supervisor.Activity.{Tracker, forget}
use lemul.Supervisor.Members.{
  Credential, credential, Identities, new_identities, Request, Reply, handle_session_identity,
  Setting, Found, no_identity, provisioning_failed, found, identity_for,
}

-- Options and the process's surroundings, which do not change.
pub record Options : Type 0 where
  pub setting : Setting
  pub default_cmd : List Bytes
  pub term : Bytes
  pub environ : List Bytes
  pub shared_group : Option ℕ
  pub base : Bytes → Bytes
  pub claude_dir : Bytes → Bytes
  pub proxy_url : ℕ → Bytes
  pub default_dir : Bytes

-- What one start meets outside.
pub record Outside : Type 0 where
  pub home_works : Bool
  pub user : Bytes × Bytes
  pub listen : Option ℕ
  pub transcript : Bytes → Bytes → Bool
  pub forked : Option ℕ
  pub now : ℕ

-- A process that was forked for a session.
pub record Started : Type 0 where
  pub id : String
  pub who : Identity
  pub args : List Bytes
  pub env : List Bytes
  pub credential : Option Credential

-- Supervisor
pub record Supervisor : Type 0 where
  pub manager : Manager
  pub ids : Identities
  pub activity : Tracker
  pub broker : Option Broker
  pub started : List Started
  pub removed : List (Bytes × String)
  pub exits : List (String × ℤ)

unfoldable pub new_supervisor : Manager → Option Broker → Supervisor
new_supervisor m b = record {
  manager = m;
  ids = new_identities;
  activity = [];
  broker = b;
  started = [];
  removed = [];
  exits = [];
}

pub data Created : Type 0 where
  no_session_identity home_failed proxy_failed session_exists start_failed : Created
  created : Created

term_or : Bytes → Bytes → Bytes
term_or [] d = d
term_or (c ∷ t) d = c ∷ t

-- broker.Open, where there is a broker.
unfoldable pub open_broker : Options → Outside → String → Option Broker → Opened × Option Broker
open_broker o out id none = (no_broker, none)
open_broker o out id (some b) = opened_on (open_proxy id out.listen out.now b)
  where
    opened_on : Option ℕ × Broker → Opened × Option Broker
    opened_on (none, b') = (open_failed, some b')
    opened_on (some l, b') = (opened (o.proxy_url l), some b')

-- mgr.Create: the second half, with the session that was forked, which is ended again where another of
-- the name has come to be.
unfoldable pub fork_on : Option ℕ → Started → Supervisor → Created × Supervisor
fork_on none st s = (start_failed, s)
fork_on (some sess) st s =
    let (fresh, m) = insert st.id sess s.manager in
    let s' : Supervisor = record s { manager = m; started = s.started ++ st ∷ [] } in
    if fresh then (created, s') else (session_exists, s')

unfoldable pub create_on : Outside → Started → Supervisor → Created × Supervisor
create_on out st s =
    if may_create st.id s.manager then fork_on out.forked st s else (session_exists, s)

unfoldable pub env_on : Outside → Started → Option (List Bytes) → Supervisor → Created × Supervisor
env_on out st none s = (proxy_failed, s)
env_on out st (some env) s = create_on out (record st { env = env }) s

-- What a session of `who` is started with, but for its environment.
unfoldable pub prepared : Options → Outside → String → Identity → Started
prepared o out id who = record {
  id = id;
  who = who;
  args =
      session_args o.base (transcript_exists out.transcript o.default_dir who.config_dir (bytes id))
        o.default_cmd (bytes id);
  env = [];
  credential = credential o.setting.euid o.shared_group who;
}

unfoldable pub found_on :
    Options → Outside → String → Bytes → Found → Supervisor → Created × Supervisor
found_on o out id term no_identity s = (no_session_identity, s)
found_on o out id term provisioning_failed s = (home_failed, s)
found_on o out id term (found who) s =
    let (proxy, b) = open_broker o out id s.broker in
    let s' : Supervisor = record s { broker = b } in
    env_on out (prepared o out id who) (session_env proxy (child_env o.environ term who out.user))
      s'

-- createSession
unfoldable pub create_session :
    Options → Outside → String → Bytes → Supervisor → Created × Supervisor
unfolding term_or
create_session o out id term s =
    let (who, ids) = identity_for o.setting out.home_works id s.ids in
    let s' : Supervisor = record s { ids = ids } in found_on o out id (term_or term o.term) who s'

-- What a command is answered with.
pub data Answer : Type 0 where
  bad_message missing_session no_such_session unknown_verb only_attach not_created : Answer
  attach_failed transcript_kept : Answer
  done : Answer
  inspected : Answer
  identity_reply : Reply → Answer
  session_info : String → Answer
  attached : String → Bool → Answer

-- The fields of tunnel.StartSession and of tunnel.Attach that are used here.
pub record StartSession : Type 0 where
  pub session_id : String
  pub term : Bytes

pub record Attach : Type 0 where
  pub session_id : String
  pub create : Bool
  pub term : Bytes

unfoldable pub start_answer : String → Created × Supervisor → Answer × Supervisor
start_answer id (created, s) = (session_info id, s)
start_answer id (_, s) = (not_created, s)

unfoldable pub start_on :
    Options → Outside → StartSession → Option ℕ → Supervisor → Answer × Supervisor
unfolding start_answer
start_on o out r (some sess) s = (session_info r.session_id, s)
start_on o out r none s = start_answer r.session_id (create_session o out r.session_id r.term s)

unfoldable pub handle_start_session :
    Options → Outside → Option StartSession → Supervisor → Answer × Supervisor
unfolding start_on
handle_start_session o out none s = (bad_message, s)
handle_start_session o out (some r) s =
    if eqb r.session_id ""
    then (missing_session, s)
    else start_on o out r (get r.session_id s.manager) s

unfoldable pub attach_answer : Bool → String → Bool → Supervisor → Answer × Supervisor
attach_answer ok id fresh s = (if ok then attached id fresh else attach_failed, s)

unfoldable pub attach_created : Bool → String → Created × Supervisor → Answer × Supervisor
unfolding attach_answer
attach_created ok id (created, s) = attach_answer ok id true s
attach_created ok id (_, s) = (not_created, s)

unfoldable pub attach_on :
    Options → Outside → Bool → Attach → Option ℕ → Supervisor → Answer × Supervisor
unfolding attach_answer attach_created
attach_on o out ok r (some sess) s = attach_answer ok r.session_id false s
attach_on o out ok r none s =
    if not r.create
    then (no_such_session, s)
    else attach_created ok r.session_id (create_session o out r.session_id r.term s)

-- handleAttach, up to the attachment; `ok` is whether the session lets it attach.
unfoldable pub handle_attach :
    Options → Outside → Bool → Option Attach → Supervisor → Answer × Supervisor
unfolding attach_on
handle_attach o out ok none s = (bad_message, s)
handle_attach o out ok (some r) s =
    if eqb r.session_id ""
    then (missing_session, s)
    else attach_on o out ok r (get r.session_id s.manager) s

unfoldable pub handle_stop_session : Option (String × Bool) → Supervisor → Answer × Supervisor
handle_stop_session none s = (bad_message, s)
handle_stop_session (some (id, force)) s =
    let (ok, m) = stop id force s.manager in
    (if ok then done else no_such_session, record s { manager = m })

-- handleDeleteSession: a session that is there is ended, and waited for; then its transcript goes.
-- `removes` is the outcome of removeTranscript, which looks for it in the options' directory.
unfoldable pub handle_delete_session :
    Options → Bool → Option String → Supervisor → Answer × Supervisor
handle_delete_session o removes none s = (bad_message, s)
handle_delete_session o removes (some id) s = (
  if removes then done else transcript_kept,
  record s {
    manager = (stop id true s.manager).1;
    removed = s.removed ++ (o.setting.config_dir, id) ∷ [];
  },
)

unfoldable pub close_on : String → Option Broker → Option Broker
close_on id none = none
close_on id (some b) = some (close id b)

-- The end of a session's process: reap, and what onSessionExit does.
unfoldable pub session_exit : String → ℤ → Supervisor → Supervisor
unfolding close_on
session_exit id code s = record s {
  manager = reap id code s.manager;
  broker = close_on id s.broker;
  activity = forget id s.activity;
  exits = s.exits ++ (id, code) ∷ [];
}

-- The first message of a stream, by its type; `none` in one is a body that does not decode. The four
-- that only look at the task are one.
pub data Message : Type 0 where
  unreadable : Message
  attach : Bool → Option Attach → Message
  session_identity : Option Request → Message
  start_session : Option StartSession → Message
  stop_session : Option (String × Bool) → Message
  delete_session : Bool → Option String → Message
  inspect : Message
  other : Message

unfoldable pub identified : Reply × Identities → Supervisor → Answer × Supervisor
identified (r, ids) s = (identity_reply r, record s { ids = ids })

-- OnStream, of the control tunnel.
unfoldable pub on_stream : Options → Outside → Message → Supervisor → Answer × Supervisor
unfolding identified
on_stream o out unreadable s = (bad_message, s)
on_stream o out (attach ok r) s = handle_attach o out ok r s
on_stream o out (session_identity r) s = identified (handle_session_identity o.claude_dir r s.ids) s
on_stream o out (start_session r) s = handle_start_session o out r s
on_stream o out (stop_session r) s = handle_stop_session r s
on_stream o out (delete_session removes r) s = handle_delete_session o removes r s
on_stream o out inspect s = (inspected, s)
on_stream o out other s = (unknown_verb, s)

-- serveAttachOnly, of the data tunnel.
unfoldable pub serve_attach_only : Options → Outside → Message → Supervisor → Answer × Supervisor
serve_attach_only o out unreadable s = (bad_message, s)
serve_attach_only o out (attach ok r) s = handle_attach o out ok r s
serve_attach_only o out _ s = (only_attach, s)

-- What changes a supervisor: a stream of either tunnel, or the end of a process.
pub data Op : Type 0 where
  control : Outside → Message → Op
  data_stream : Outside → Message → Op
  exited : String → ℤ → Op

unfoldable pub step : Options → Op → Supervisor → Supervisor
step o (control out msg) s = (on_stream o out msg s).1
step o (data_stream out msg) s = (serve_attach_only o out msg s).1
step o (exited id code) s = session_exit id code s

unfoldable pub run : Options → List Op → Supervisor → Supervisor
run o [] s = s
run o (op ∷ ops) s = run o ops (step o op s)
