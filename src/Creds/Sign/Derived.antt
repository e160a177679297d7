-- ===== src/Creds/Sign/Derived.antt =====
-- internal/creds/creds.go: whose credential a workspace's and a runner's credential is.
use lemul.Prelude.{
  ℕ, ◌^◌, ◌<◌, ◌≡◌, ◌≢◌, ◌↔◌, refl, sym, ap, ◌∙◌, [], ◌∷◌, some, true, length, arith,
}
use lemul.Prelude.Text.{Bytes, equal_iff}
use lemul.Prelude.Int.{pos}
use lemul.Strconv.{digits_value, itoa}
use lemul.Strconv.RoundTrip.{digits_value-digits, digits-All}
use lemul.Creds.{mac_input, domain_workspace, domain_runner}
use lemul.Creds.Wire.{Fits}
use lemul.Creds.Mac.{mac_input-injective}
use lemul.Creds.Sign.{Crypto, mac, workspace_token, verify_workspace, runner_token, verify_runner}

-- FormatUint tells two 64-bit numbers apart.
pub itoa-injective : (m n : ℕ) → m < 2 ^ 64 → n < 2 ^ 64 → itoa (pos m) ≡ itoa (pos n) → m ≡ n
unfolding itoa digits_value
itoa-injective m n hm hn e =
    let a = digits_value-digits 20 m [] (omega arith) (omega arith) in
    let b = digits_value-digits 20 n [] (omega arith) (omega arith) in
    let c : some m ≡ some n = sym a ∙ (ap (digits_value 0) e ∙ b) in cc c

pub itoa-Fits : (n : ℕ) → n < 2 ^ 64 → Fits (itoa (pos n))
unfolding itoa
itoa-Fits n h = omega (arith, (digits-All 20 n [] (omega arith) tt (omega arith)).2)

module _ (crypto : Crypto) where
  -- The key does not make one code of these two messages, unless they are one message.
  abbrev pub Apart : Bytes → Bytes → Bytes → Type 0
  Apart key m m' = crypto.hmac key m ≡ crypto.hmac key m' → m ≡ m'

  pub encode-injective :
      (key m m' : Bytes)
      → Apart key m m'
      → crypto.encode (crypto.hmac key m) ≡ crypto.encode (crypto.hmac key m')
      → m ≡ m'
  encode-injective key m m' apart e =
      let a = crypto.decode-encode (crypto.hmac key m) (crypto.hmac-bytes key m) in
      let b = crypto.decode-encode (crypto.hmac key m') (crypto.hmac-bytes key m') in
      let c : some (crypto.hmac key m) ≡ some (crypto.hmac key m') =
        sym a ∙ (ap crypto.decode e ∙ b) in
      apart (cc c)

  encode-nonempty : (key m : Bytes) → crypto.encode (crypto.hmac key m) ≢ []
  encode-nonempty key m e =
      let a = crypto.decode-encode (crypto.hmac key m) (crypto.hmac-bytes key m) in
      let b = crypto.decode-encode [] tt in
      let same : some (crypto.hmac key m) ≡ some [] =
        sym a ∙ (ap crypto.decode (e ∙ sym crypto.encode-nil) ∙ b) in
      let empty : length (crypto.hmac key m) ≡ 0 = go (crypto.hmac key m) same in
      omega (arith, empty, crypto.hmac-length key m)
    where
      go : (b : Bytes) → some b ≡ some [] → length b ≡ 0
      go b e = cc e

  verify_workspace_iff :
      (key tenant workspace : Bytes) (generation : ℕ) (tok : Bytes)
      → tok ≢ []
      → (verify_workspace crypto key tenant workspace generation tok ≡ true)
        ↔ (workspace_token crypto key tenant workspace generation ≡ tok)
  unfolding verify_workspace
  verify_workspace_iff key tenant workspace generation [] ne = absurd (ne refl)
  verify_workspace_iff key tenant workspace generation (b ∷ tok) ne = equal_iff _ (b ∷ tok)

  verify_runner_iff :
      (key tenant tok : Bytes)
      → tok ≢ []
      → (verify_runner crypto key tenant tok ≡ true) ↔ (runner_token crypto key tenant ≡ tok)
  unfolding verify_runner
  verify_runner_iff key tenant [] ne = absurd (ne refl)
  verify_runner_iff key tenant (b ∷ tok) ne = equal_iff _ (b ∷ tok)

  -- What the code of a workspace's credential is made of, and that of a runner's.
  abbrev pub workspace_message : Bytes → Bytes → ℕ → Bytes
  workspace_message tenant workspace generation =
      mac_input domain_workspace (tenant ∷ workspace ∷ itoa (pos generation) ∷ [])

  abbrev pub runner_message : Bytes → Bytes
  runner_message tenant = mac_input domain_runner (tenant ∷ [])

  workspace_message-injective :
      (t n t' n' : Bytes) (g g' : ℕ)
      → Fits t
      → Fits n
      → Fits t'
      → Fits n'
      → g < 2 ^ 64
      → g' < 2 ^ 64
      → workspace_message t' n' g' ≡ workspace_message t n g
      → (t' ≡ t) × (n' ≡ n) × (g' ≡ g)
  workspace_message-injective t n t' n' g g' ft fn ft' fn' fg fg' e =
      let same =
        (mac_input-injective domain_workspace domain_workspace _ _ (omega arith) (omega arith)
          (ft', (fn', (itoa-Fits g' fg', tt))) (ft, (fn, (itoa-Fits g fg, tt))) e).1 in
      (cc same, cc same, itoa-injective g' g fg' fg (cc same))

  -- The credential of one workspace's generation verifies as the credential of a workspace's
  -- generation exactly if the organisation, the name and the generation are the same, provided that
  -- HMAC does not make one code of the two messages.
  pub verify_workspace-workspace_token :
      (key t n t' n' : Bytes) (g g' : ℕ)
      → Fits t
      → Fits n
      → Fits t'
      → Fits n'
      → g < 2 ^ 64
      → g' < 2 ^ 64
      → Apart key (workspace_message t' n' g') (workspace_message t n g)
      → (verify_workspace crypto key t' n' g' (workspace_token crypto key t n g) ≡ true)
        ↔ ((t' ≡ t) × (n' ≡ n) × (g' ≡ g))
  unfolding workspace_token mac
  verify_workspace-workspace_token key t n t' n' g g' ft fn ft' fn' fg fg' apart =
      let checks =
        verify_workspace_iff key t' n' g' (workspace_token crypto key t n g)
          (encode-nonempty key _) in
      (
        (λ v.
            workspace_message-injective t n t' n' g g' ft fn ft' fn' fg fg'
              (encode-injective key _ _ apart (checks.0 v))),
        (λ s. checks.1 (rw (s.0, s.1, s.2) refl)),
      )

  -- A runner's credential never verifies as a workspace's, nor a workspace's as a runner's, and a
  -- runner's verifies only for its own organisation, provided that HMAC does not make one code of the
  -- messages.
  verify_runner-runner_token :
      (key t t' n : Bytes) (g : ℕ)
      → Fits t
      → Fits t'
      → Fits n
      → g < 2 ^ 64
      → Apart key (runner_message t') (runner_message t)
      → Apart key (workspace_message t' n g) (runner_message t)
      → Apart key (runner_message t) (workspace_message t' n g)
      → ((verify_runner crypto key t' (runner_token crypto key t) ≡ true) ↔ (t' ≡ t))
        × (verify_workspace crypto key t' n g (runner_token crypto key t) ≢ true)
        × (verify_runner crypto key t (workspace_token crypto key t' n g) ≢ true)
  unfolding runner_token workspace_token mac
  verify_runner-runner_token key t t' n g ft ft' fn fg same one other =
      let runner = verify_runner_iff key t' (runner_token crypto key t) (encode-nonempty key _) in
      let only : runner_message t' ≡ runner_message t → t' ∷ [] ≡ t ∷ [] = λ e.
        (mac_input-injective domain_runner domain_runner (t' ∷ []) (t ∷ []) (omega arith)
          (omega arith) (ft', tt) (ft, tt) e).1 in
      (
        (
          (λ v. cc (only (encode-injective key _ _ same (runner.0 v)))),
          (λ e. runner.1 (rw e refl)),
        ),
        (λ v. separate t' n t g ft' fn fg ft (
            encode-injective key _ _ one
              ((verify_workspace_iff key t' n g _ (encode-nonempty key _)).0 v))),
        (λ v. separate t' n t g ft' fn fg ft (
            sym (
              encode-injective key _ _ other
                ((verify_runner_iff key t _ (encode-nonempty key _)).0 v)))),
      )
    where
      separate :
          (t n u : Bytes) (g : ℕ)
          → Fits t
          → Fits n
          → g < 2 ^ 64
          → Fits u
          → workspace_message t n g ≢ runner_message u
      separate t n u g ft fn fg fu e =
          let d =
            (mac_input-injective domain_workspace domain_runner _ _ (omega arith) (omega arith)
              (ft, (fn, (itoa-Fits g fg, tt))) (fu, tt) e).0 in
          cc d
