-- ===== src/Relay/Tests.antt =====
-- Runs of internal/relay on small inputs, and its theorems at them.
use lemul.Prelude.{ℕ, ◌≡◌, ◌≤◌, refl, List, [], ◌∷◌, some, arith}
use lemul.Prelude.Dict.{string_key, lookup, without, put}
use lemul.Relay.Nonces.{AttachClaims, swept, use_nonce, verify_attach, redeem_attach}
use lemul.Relay.Nonces.SingleUse.{Attempt, IsTimely, accepted, redeem_attach-once}

abbrev claims : AttachClaims
claims = record { nonce = "n1"; expires_at = 60 }

abbrev attempt_at : ℕ → ℕ → Attempt
attempt_at checked used = record { token = some claims; checked = checked; used = used }

-- The token is replayed in time, and again after it has expired.
abbrev replays : List Attempt
replays = attempt_at 5 5 ∷ attempt_at 30 31 ∷ attempt_at 70 70 ∷ []

replays-accepted : accepted "n1" replays [] ≡ 1
unfolding accepted redeem_attach verify_attach use_nonce swept lookup put without
replays-accepted = refl

-- A replay that is checked at the last moment and recorded after it is accepted as well.
abbrev late_replay : List Attempt
late_replay = attempt_at 5 5 ∷ attempt_at 60 61 ∷ []

late_replay-accepted : accepted "n1" late_replay [] ≡ 2
unfolding accepted redeem_attach verify_attach use_nonce swept lookup put without
late_replay-accepted = refl

timely :
    (checked used : ℕ) → (checked ≤ 60 → used ≤ 60) → IsTimely "n1" 60 (attempt_at checked used)
timely checked used h q c e = (ground arith, h)

redeem_attach-once_example : accepted "n1" replays [] ≤ 1
redeem_attach-once_example =
    redeem_attach-once "n1" 60 replays [] (omega arith, (omega arith, (omega arith, tt)))
      (
        timely 5 5 (λ h. omega arith),
        (timely 30 31 (λ h. omega arith), (timely 70 70 (λ h. omega arith), tt)),
      )
