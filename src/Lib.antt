-- ===== src/Lib.antt =====
-- A verification of lemul, which runs Claude Code sessions in cloud workspaces: the control plane
-- (internal/mgmtapi) decides which workspace has a task, the agents dial in and are kept in a registry
-- (internal/registry), their connections carry framed messages (internal/tunnel), and inside a task
-- each session is a process on a PTY whose output goes to every client that is attached
-- (internal/ptysession).
--
-- Which file models what:
--   Tunnel/Frame    internal/tunnel/frame.go: WriteFrame and ReadFrame, over lists of bytes.
--   Strconv         the strconv.Atoi and Itoa that internal/ptysession/modes.go calls, by their
--                   documented behaviour.
--   Pty/Ring        internal/ptysession/ring.go: push, its eviction loop, snapshot.
--   Pty/Modes       internal/ptysession/modes.go: Feed, byte by byte, commit, Prelude, AtBoundary.
--   Pty/Attachment  internal/ptysession/attachment.go: the queue of one client.
--   Pty/Session     internal/ptysession/session.go: newSession, a round of readLoop, finish, Attach,
--                   Detach, Resize, nudge, write. It holds a ring, a tracker and its attachments.
--   Pty/Manager     internal/ptysession/manager.go: the sessions of a task, by id.
--   Registry        internal/registry/registry.go: the tunnels by organisation and workspace, and those
--                   who wait for one.
--   Creds           internal/creds/creds.go: the encodings of the MAC's input and of an attach credential's
--                   claims; Creds/Sign the credentials of a workspace, a runner and an attach, and their
--                   checks, over HMAC and base64 as an interface (`Crypto`).
--   Statekey        internal/statekey/statekey.go: Load and LoadOrCreate, over one file.
--   Gateway         internal/gateway/proxy.go: the broker's proxies, which requests it allows and the
--                   headers of those it forwards. Gateway/Path is Go's path.Clean, with which it
--                   settles the path.
--   Supervisor/Environ, /Args, /Members
--                   internal/supervisor/supervisor.go, claudeargs.go, identity.go, sessionuid.go: the
--                   environment, the arguments and the user of a session.
--   Supervisor/Activity, /Processes
--                   internal/supervisor/activity.go, procfs.go: the idle clocks, the lines of /proc, whose
--                   a process is, and the redaction of command lines.
--   Supervisor/Files
--                   internal/supervisor/fsjail.go, supervisor.go: the explorer's jail and its pages.
--   Supervisor/Sessions
--                   internal/supervisor/supervisor.go: the commands of both tunnels, createSession and
--                   onSessionExit, on the parts above and on Pty/Manager and Gateway.
--   Relay/Nonces    internal/relay/relay.go: the single use of an attach credential.
--   Mgmt/Rows       the rows and the reports that internal/mgmtapi decides on.
--   Mgmt/Activity   internal/mgmtapi/activity.go: the store of reports and their freshness.
--   Mgmt/Admission  internal/mgmtapi/admission.go: admits, admitSession, idleTimeout.
--   Mgmt/Task       internal/mgmtapi/workspacecrud.go and state.go: stopTask, preserveDisk.record and
--                   the writes of a row. It sends through the registry's runners.
--   Mgmt/Placement  internal/mgmtapi/placement.go and api.go: ensureWorkspace, notePlacementFailure and
--                   startPlacement up to its goroutine.
--   Mgmt/Access     internal/mgmtapi/principal.go and workspaces.go: the gates of an organisation, a
--                   workspace and a session, and what a caller is behind them.
--   Mgmt/Uids       internal/mgmtapi/sessionidentity.go and members.go: the uids of a workspace's
--                   members, statement by statement, and the verbs on members.
--   Mgmt/Reaper     internal/mgmtapi/reaper.go: sweep and all it calls, on the parts above.
--   Lem/Detach      cmd/lem/detach.go: the detach key in what a terminal sends.
--   Prelude         what they share; Prelude/Dict is Go's map, Prelude/Int its signed integers.
--
-- State is passed explicitly. Where the code holds a mutex, an operation is one step, and a history is a
-- list of operations (`Op` of Pty/Session and of Registry, the passes of Mgmt/Reaper), in any order. A
-- select on a channel is two operations, its start and its end. A pointer that is compared is a number.
-- A failure is a value. Bytes, sizes and times are natural numbers; times are those of one clock.
-- Numbers that the code reads from elsewhere and may be negative are integers, and the one product of
-- them wraps at 64 bits, as does the counter of the registry.
--
-- Every loop is a recursion on a list or on a number that falls, but for that of cmd/lem/detach.go,
-- whose fuel is the length of the chunk: each of its rounds passes a byte at least, and that of
-- decodeAttach, whose fuel is eight, since a payload of more than seven fields is refused. Outside of the
-- model, and its parameters: what a call of the PTY, of the database or of an agent returns (`started` of
-- new_session, `Answers` of Mgmt/Task, `PlaceAnswers` of Mgmt/Placement), and what internal/creds reads
-- in a token.
--
-- Not modelled: the rest of the relay, the sampling of memory and disk and the making of homes in the
-- supervisor, the runner and its drivers, most of the HTTP endpoints behind their gates, a roll-back of
-- a transaction, authentication, and the rest of the command line client; the connection libraries,
-- PostgreSQL, Terraform and the web console are not code of this model. A query of
-- internal/store/celldb is modelled where it is used, by what it does to the rows.
pub mod Prelude
pub mod Tunnel
pub mod Strconv
pub mod Pty
pub mod Registry
pub mod Relay
pub mod Creds
pub mod Statekey
pub mod Lem
pub mod Gateway
pub mod Supervisor
pub mod Mgmt
