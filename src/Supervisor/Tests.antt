-- ===== src/Supervisor/Tests.antt =====
-- internal/supervisor on small inputs, and the theorems at them.
use Prim.Native.String.{String}
use lemul.Prelude.{
  ℕ, zero, suc, ◌≡◌, ◌≢◌, ◌<◌, ◌≤◌, ◌↔◌, refl, List, [], ◌∷◌, none, some, All, true, false, ◌*◌,
  ◌^◌, if◌then◌else◌, get_elem?, arith,
}
use lemul.Prelude.Text.{Bytes, bytes, equal}
use lemul.Prelude.Int.{ℤ, pos}
use lemul.Prelude.Dict.{string_key, Dict, lookup}
use lemul.Pty.Manager.{Manager, new_manager}
use lemul.Mgmt.Rows.{SessionActivity}
use lemul.Mgmt.Reaper.{classify, session_idle}
use lemul.Supervisor.Processes.{ProcInfo, int_key, attribute}
use lemul.Supervisor.Processes.Redact.{redact_secrets, split, is_secret}
use lemul.Supervisor.Processes.Redact.Complete.{IsRedacted, hidden_flags, redact_secrets-IsRedacted}
use lemul.Supervisor.Processes.Owner.{Chain, attribute_iff}
use lemul.Supervisor.Activity.{Tracker, Seen, session_activity, tool_running, running_on}
use lemul.Supervisor.Activity.Tools.{
  Event, observed, forgotten, last_tool, session_activity-not_idle,
}
use lemul.Supervisor.Members.{Setting, Op, identity_op, start_op, run, new_identities}
use lemul.Supervisor.Members.Once.{times, run-times}
use lemul.Supervisor.Files.{Disk, directory, Request, DirListing, DirEntry, listed}
use lemul.Supervisor.Members
use lemul.Supervisor.Files
use lemul.Supervisor.Sessions

redact_secrets-IsRedacted_example :
    IsRedacted (split 32 (redact_secrets (bytes "lemul -token s3cret -key=abc -key")))
    × All (λ f. is_secret f ≡ true) hidden_flags
redact_secrets-IsRedacted_example =
    redact_secrets-IsRedacted (bytes "lemul -token s3cret -key=abc -key")

abbrev shell : ProcInfo
shell = record {
  pid = pos 7;
  ppid = pos 1;
  name = bytes "bash";
  state = bytes "S";
  rss_pages = pos 0;
  user_ticks = pos 0;
  system_ticks = pos 0;
  start_ticks = pos 0;
  session_id = "";
}

abbrev child : ProcInfo
child = record shell { pid = pos 9; ppid = pos 7 }

abbrev all : Dict ℤ ProcInfo
all = (pos 9, child) ∷ (pos 7, shell) ∷ []

abbrev owner : Dict ℤ String
owner = (pos 7, "s1") ∷ []

attribute_iff_example : (attribute all owner 64 (some child) ≡ "s1") ↔ (
    (k : ℕ) × (q : ProcInfo) × (k < 64)
    × Chain all owner k child q
    × (lookup q.pid owner ≡ some "s1"))
attribute_iff_example = attribute_iff all owner 64 child "s1" (λ e. cc e)

-- Twenty-one zeros behind the state.
unfoldable zeros : ℕ → List Bytes
zeros zero = []
zeros (suc n) = bytes "0" ∷ zeros n

abbrev events : List Event
events =
    observed "s1" false 3 5 ∷ observed "s2" true 4 6 ∷ observed "s1" true 3 7 ∷ forgotten "s2" ∷ []

abbrev nothing : Tracker
nothing = []

last_tool-run : last_tool "s1" none events ≡ some 7
unfolding last_tool
last_tool-run = refl

abbrev seen : Seen
seen = record { id = "s1"; pid = pos 7; started_at = 0; last_output = 0; attachers = 0 }

session_activity-not_idle_example :
    (r : SessionActivity) × (get_elem?
        (session_activity none (λ id. none) (5000 * 10 ^ 9) (seen ∷ []) []).0
        0
      ≡ some r)
    × (r.session_id ≡ "s1")
    × (classify r 600 ≢ session_idle)
unfolding tool_running running_on
session_activity-not_idle_example =
    session_activity-not_idle none (λ id. none) (5000 * 10 ^ 9) 600 0 (seen ∷ []) [] seen refl refl
      (omega arith)

abbrev setting : Setting
setting = record { euid = 0; session_uid = 1000; config_dir = [] }

abbrev ann : Members.Request
ann = record { session_id = "s1"; uid = 1001; username = bytes "ann"; home = bytes "/home/ann" }

run-times_example :
    times 1001
      (run
        (λ h. h)
        setting
        (identity_op (some ann) ∷ start_op "s1" false ∷ start_op "s1" true ∷ [])
        new_identities).attempts
    ≤ 1
run-times_example =
    run-times (λ h. h) setting
      (identity_op (some ann) ∷ start_op "s1" false ∷ start_op "s1" true ∷ []) 1001

-- A disk with one directory of two files, one of which is gone.
abbrev file : DirEntry
file = record {
  name = bytes "a";
  is_dir = false;
  size = pos 1;
  mode = 0;
  mod_time = 0;
  is_symlink = false;
}

abbrev disk : Disk
disk = record {
  eval_symlinks = λ p. some p;
  joined = λ root rel. root;
  rel = λ root p. none;
  open_dir = λ p. directory (bytes "a" ∷ bytes "b" ∷ []);
  lstat = λ dir name. if equal name (bytes "a") then some file else none;
}

abbrev shown_page : DirListing
shown_page = record { path = bytes "/"; entries = file ∷ []; total = 2; truncated = true }

abbrev first_page : Files.Request
first_page = record { path = []; offset = pos 0; limit = pos 0 }

abbrev options : Sessions.Options
options = record {
  setting = setting;
  default_cmd = bytes "claude" ∷ [];
  term = bytes "xterm";
  environ = bytes "LEMUL_TOKEN=t" ∷ bytes "HOME=/root" ∷ bytes "PATH=/bin" ∷ [];
  shared_group = some 50;
  base = λ p. p;
  claude_dir = λ h. h;
  proxy_url = λ l. [];
  default_dir = [];
}

abbrev outside : Sessions.Outside
outside = record {
  home_works = true;
  user = ([], []);
  listen = none;
  transcript = λ d id. false;
  forked = some 1;
  now = 0;
}

abbrev manager : Manager
manager = new_manager (record { ring_bytes = pos 0; nudge_delay = pos 0; has_on_exit = true })

abbrev commands : List Sessions.Op
commands =
    Sessions.control outside (Sessions.session_identity (some ann))
    ∷ Sessions.data_stream outside
        (Sessions.attach true (some (record { session_id = "s1"; create = true; term = [] })))
    ∷ []
