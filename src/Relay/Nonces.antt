-- ===== src/Relay/Nonces.antt =====
-- internal/relay/relay.go: the single use of an attach credential. What internal/creds makes of a
-- token, its claims if it is well formed and signed, is an argument, and of the claims only the nonce
-- and the expiry are used here. VerifyAttach reads the clock before usedAttachNonces.use does, so there
-- are two times.
pub mod SingleUse
use Prim.Native.String.{String}
use lemul.Prelude.{ℕ, List, [], ◌∷◌, Option, none, some, Bool, true, false, ltb, if◌then◌else◌}
use lemul.Prelude.Dict.{string_key, Dict, lookup, put}

pub record AttachClaims : Type 0 where
  pub nonce : String
  pub expires_at : ℕ

-- usedAttachNonces
abbrev pub Seen : Type 0
Seen = Dict String ℕ

-- The sweep of the entries whose time is past.
unfoldable pub swept : ℕ → Seen → Seen
swept now [] = []
swept now ((k, exp) ∷ d) = let rest = swept now d in if ltb exp now then rest else (k, exp) ∷ rest

use_on : String → ℕ → Option ℕ → Seen → Bool × Seen
use_on nonce expires (some _) d = (false, d)
use_on nonce expires none d = (true, put nonce expires d)

-- usedAttachNonces.use, at the time `now`.
unfoldable pub use_nonce : String → ℕ → ℕ → Seen → Bool × Seen
unfolding use_on
use_nonce nonce expires now d = let d' = swept now d in use_on nonce expires (lookup nonce d') d'

-- The expiry check at the end of VerifyAttach, at the time `now`.
unfoldable pub verify_attach : Option AttachClaims → ℕ → Option AttachClaims
verify_attach none now = none
verify_attach (some c) now = if ltb c.expires_at now then none else some c

redeem_on : Option AttachClaims → ℕ → Seen → Bool × Seen
redeem_on none now d = (false, d)
redeem_on (some c) now d = use_nonce c.nonce c.expires_at now d

-- redeemAttach: whether the token is accepted.
unfoldable pub redeem_attach : Option AttachClaims → ℕ → ℕ → Seen → Bool × Seen
unfolding redeem_on
redeem_attach token checked used d = redeem_on (verify_attach token checked) used d
