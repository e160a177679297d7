-- ===== src/Creds/Sign.antt =====
-- internal/creds/creds.go: the credentials of a workspace, a runner and one attach, and their checks.
-- HMAC-SHA256 and base64.RawURLEncoding are not code of this repository: they are the fields of
-- `Crypto`, with the documented behaviour that the package relies on. A signer is its key. The clock is
-- read in nanoseconds since the epoch; of an expiry only the Unix seconds are used. hmac.Equal is equality of bytes.
pub mod Derived
pub mod Attach
use lemul.Prelude.{
  ℕ, zero, suc, ◌+◌, ◌*◌, ◌/◌, ◌^◌, ◌<◌, ◌≡◌, ◌≢◌, List, [], ◌∷◌, ◌++◌, Option, none, some, Bool,
  true, false, ◌&&◌, All, ltb, ◌==◌, if◌then◌else◌, length,
}
use lemul.Prelude.Text.{Bytes, cut, equal}
use lemul.Prelude.Int.{ℤ, pos, negsuc}
use lemul.Strconv.{itoa}
use lemul.Creds.{
  Result, ok, err, malformed, signature, expired, mac_input, AttachClaims, encode_attach,
  decode_attach, domain_workspace, domain_runner, domain_attach,
}

abbrev pub IsByte : ℕ → Type 0
IsByte b = b < 256

pub record Crypto : Type 0 where
  -- of a key and a message
  pub hmac : Bytes → Bytes → Bytes
  pub encode : Bytes → Bytes
  pub decode : Bytes → Option Bytes
  pub hmac-bytes : (key m : Bytes) → All IsByte (hmac key m)
  pub hmac-length : (key m : Bytes) → length (hmac key m) ≡ 32
  pub decode-encode : (b : Bytes) → All IsByte b → decode (encode b) ≡ some b
  pub encode-no_dot : (b : Bytes) → All (λ c. c ≢ b'.') (encode b)
  pub encode-nil : encode [] ≡ []

-- Whether the time `now` is after an expiry in Unix seconds.
unfoldable pub after : ℕ → ℤ → Bool
after now (pos s) = ltb (s * 10 ^ 9) now
after now (negsuc s) = true

-- AttachTTL, in nanoseconds
abbrev pub attach_ttl : ℕ
attach_ttl = 60 * 10 ^ 9

unfoldable pub ttl_or_default : ℤ → ℕ
ttl_or_default (pos zero) = attach_ttl
ttl_or_default (pos (suc n)) = suc n
ttl_or_default (negsuc n) = attach_ttl

-- What the caller of AttachToken names.
pub record Target : Type 0 where
  pub session_id : Bytes
  pub tenant_id : Bytes
  pub workspace_name : Bytes
  pub org_slug : Bytes
  pub mode : Bytes

-- The claims of a token minted at `now`, with the text of its nonce.
unfoldable pub minted : Target → ℤ → ℕ → Bytes → AttachClaims
minted t ttl now nonce = record {
  session_id = t.session_id;
  tenant_id = t.tenant_id;
  workspace_name = t.workspace_name;
  org_slug = t.org_slug;
  mode = t.mode;
  expires_at = pos ((now + ttl_or_default ttl) / 10 ^ 9);
  nonce = nonce;
}

module _ (crypto : Crypto) where
  -- (*Signer).mac
  unfoldable pub mac : Bytes → Bytes → List Bytes → Bytes
  mac key domain fields = crypto.hmac key (mac_input domain fields)

  unfoldable pub workspace_token : Bytes → Bytes → Bytes → ℕ → Bytes
  workspace_token key tenant workspace generation =
      crypto.encode (mac key domain_workspace (tenant ∷ workspace ∷ itoa (pos generation) ∷ []))

  unfoldable pub verify_workspace : Bytes → Bytes → Bytes → ℕ → Bytes → Bool
  verify_workspace key tenant workspace generation [] = false
  verify_workspace key tenant workspace generation (b ∷ tok) =
      equal (workspace_token key tenant workspace generation) (b ∷ tok)

  unfoldable pub runner_token : Bytes → Bytes → Bytes
  runner_token key tenant = crypto.encode (mac key domain_runner (tenant ∷ []))

  unfoldable pub verify_runner : Bytes → Bytes → Bytes → Bool
  verify_runner key tenant [] = false
  verify_runner key tenant (b ∷ tok) = equal (runner_token key tenant) (b ∷ tok)

  -- The payload, its dot and its signature.
  unfoldable pub signed : Bytes → Bytes → Bytes
  signed key payload =
      crypto.encode payload ++ (b'.' ∷ crypto.encode (mac key domain_attach (payload ∷ [])))

  -- AttachToken, with what rand.Read gave; `none` is its error.
  unfoldable pub attach_token : Bytes → Target → ℤ → Option Bytes → ℕ → Option Bytes
  attach_token key t ttl none now = none
  attach_token key t ttl (some n) now =
      some (signed key (encode_attach (minted t ttl now (crypto.encode n))))

  unfoldable pub expiry_on : ℕ → Result AttachClaims → Result AttachClaims
  expiry_on now (err e) = err e
  expiry_on now (ok c) = if after now c.expires_at then err expired else ok c

  unfoldable pub signed_on : Bytes → ℕ → Option Bytes → Option Bytes → Result AttachClaims
  signed_on key now none sig = err malformed
  signed_on key now (some payload) none = err malformed
  signed_on key now (some payload) (some sig) =
      if equal (mac key domain_attach (payload ∷ [])) sig
      then expiry_on now (decode_attach payload)
      else err signature

  unfoldable pub parts_on : Bytes → ℕ → Option (Bytes × Bytes) → Result AttachClaims
  parts_on key now none = err malformed
  parts_on key now (some (raw_payload, raw_mac)) =
      signed_on key now (crypto.decode raw_payload) (crypto.decode raw_mac)

  -- VerifyAttach at the time `now`.
  unfoldable pub verify_attach : Bytes → Bytes → ℕ → Result AttachClaims
  verify_attach key tok now = parts_on key now (cut b'.' tok)
