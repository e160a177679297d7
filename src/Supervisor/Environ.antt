-- ===== src/Supervisor/Environ.antt =====
-- internal/supervisor/supervisor.go: the environment of a session (sessionEnv, childEnv, sessionHome).
-- os.Environ, user.LookupId and the broker's Open are calls out of this file: their results are
-- arguments.
pub mod Clean
use lemul.Prelude.{
  ℕ, List, [], ◌∷◌, ◌++◌, Option, none, some, Bool, true, false, ◌||◌, ◌==◌, if◌then◌else◌,
}
use lemul.Prelude.Text.{Bytes, bytes, has_prefix}

pub record Identity : Type 0 where
  pub uid : ℕ
  pub username : Bytes
  pub home : Bytes
  pub config_dir : Bytes

-- strippedFromChild
unfoldable pub stripped_from_child : List Bytes
stripped_from_child =
    bytes "LEMUL_GATEWAY_KEY="
    ∷ bytes "LEMUL_TOKEN="
    ∷ bytes "ANTHROPIC_BASE_URL="
    ∷ bytes "ANTHROPIC_AUTH_TOKEN="
    ∷ bytes "ANTHROPIC_API_KEY="
    ∷ []

-- `drops`, for a uid.
unfoldable pub drops_for : ℕ → List Bytes
drops_for uid =
    if uid == 0
    then stripped_from_child
    else stripped_from_child
      ++ (bytes "HOME=" ∷ bytes "USER=" ∷ bytes "LOGNAME=" ∷ bytes "CLAUDE_CONFIG_DIR=" ∷ [])

-- The inner loop over `drops`.
unfoldable pub is_dropped : List Bytes → Bytes → Bool
is_dropped [] e = false
is_dropped (d ∷ ds) e = has_prefix e d || is_dropped ds e

-- The outer loop over os.Environ().
unfoldable pub kept : List Bytes → List Bytes → List Bytes
kept drops [] = []
kept drops (e ∷ es) =
    let rest = kept drops es in
    if has_prefix e (bytes "TERM=") || has_prefix e (bytes "COLORTERM=") || is_dropped drops e
    then rest
    else e ∷ rest

unfoldable pub or_text : Bytes → Bytes → Bytes
or_text [] d = d
or_text (c ∷ s) d = c ∷ s

-- sessionHome, with the decimal text of the uid and the user that LookupId found: a home and a name.
unfoldable pub session_home : Bytes → Option (Bytes × Bytes) → Bytes × Bytes
session_home number none = (bytes "/tmp", number)
session_home number (some (home, name)) = (or_text home (bytes "/tmp"), or_text name number)

unfoldable pub config_entry : Bytes → List Bytes
config_entry [] = []
config_entry (c ∷ s) = (bytes "CLAUDE_CONFIG_DIR=" ++ c ∷ s) ∷ []

-- What is appended for a session of its own uid; `looked_up` is sessionHome's result.
unfoldable pub identity_entries : Identity → Bytes × Bytes → List Bytes
identity_entries who looked_up =
    let name = or_text who.username looked_up.1 in
    (bytes "HOME=" ++ or_text who.home looked_up.0)
    ∷ (bytes "USER=" ++ name)
    ∷ (bytes "LOGNAME=" ++ name)
    ∷ config_entry who.config_dir

unfoldable pub child_env : List Bytes → Bytes → Identity → Bytes × Bytes → List Bytes
child_env environ term who looked_up =
    kept (drops_for who.uid) environ
    ++ ((bytes "TERM=" ++ term)
        ∷ bytes "COLORTERM=truecolor"
        ∷ (if who.uid == 0 then [] else identity_entries who looked_up))

-- What broker.Open gives a session: no broker, an error, or the proxy's base URL.
pub data Opened : Type 0 where
  no_broker open_failed : Opened
  opened : Bytes → Opened

-- gateway.PlaceholderToken
unfoldable pub placeholder_token : Bytes
placeholder_token = bytes "sk-lemul-loopback-not-a-secret"

unfoldable pub proxy_entries : Opened → List Bytes
proxy_entries (opened url) =
    (bytes "ANTHROPIC_BASE_URL=" ++ url) ∷ (bytes "ANTHROPIC_AUTH_TOKEN=" ++ placeholder_token) ∷ []
proxy_entries _ = []

unfoldable pub session_env : Opened → List Bytes → Option (List Bytes)
session_env open_failed env = none
session_env no_broker env = some env
session_env (opened url) env = some (env ++ proxy_entries (opened url))
