-- ===== src/Supervisor/Sessions/Safe.antt =====
-- internal/supervisor: what every process of a session is started with.
use Prim.Native.String.{String}
use lemul.Prelude.{◌≡◌, ◌⊎◌, [], ◌∷◌, ◌++◌, some, All}
use lemul.Prelude.Text.{Bytes, bytes}
use lemul.Prelude.Dict.{string_key}
use lemul.Pty.Manager.{Manager}
use lemul.Supervisor.Environ.Clean.{entries}
use lemul.Supervisor.Members.{Credential, credential}
use lemul.Supervisor.Members.Unprivileged.{IsMember, Kept, IsUnprivileged}
use lemul.Supervisor.Sessions.{Started, Supervisor}

abbrev auth_token : Bytes
auth_token = bytes "ANTHROPIC_AUTH_TOKEN="

-- A process that runs as a member, in the member's home, without the supervisor's token, the gateway's
-- key or a model credential; an auth token is the text that stands for one.
pub record IsSafe (st : Started) : Type 0 where
  pub member : IsMember st.who
  pub runs_as : (c : Credential) × (st.credential ≡ some c) × IsUnprivileged st.who.uid c
  pub no_token : entries (bytes "LEMUL_TOKEN=") st.env ≡ []
  pub no_gateway_key : entries (bytes "LEMUL_GATEWAY_KEY=") st.env ≡ []
  pub no_api_key : entries (bytes "ANTHROPIC_API_KEY=") st.env ≡ []
  pub placeholder :
      (entries auth_token st.env ≡ [])
      ⊎ (entries auth_token st.env
          ≡ bytes "ANTHROPIC_AUTH_TOKEN=sk-lemul-loopback-not-a-secret" ∷ [])
  pub own_home : entries (bytes "HOME=") st.env ≡ (bytes "HOME=" ++ st.who.home) ∷ []

abbrev pub Good : Supervisor → Type 0
Good s = Kept s.ids × All IsSafe s.started
