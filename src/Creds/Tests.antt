-- ===== src/Creds/Tests.antt =====
-- Credentials of internal/creds on small inputs, with a checksum in HMAC's place, and the theorems at
-- them.
use lemul.Prelude.{
  ℕ, zero, suc, ◌+◌, ◌-◌, ◌*◌, ◌/◌, ◌%◌, ◌^◌, ◌<◌, ◌≡◌, ◌≢◌, ◌↔◌, refl, ap, [], ◌∷◌, ◌++◌, Option,
  some, none, All, true, if◌then◌else◌, ltb, arith,
}
use lemul.Prelude.Int.{pos}
use lemul.Strconv.{atoi, atoi_positive, unsigned, digits_value, digits, itoa}
use lemul.Prelude.Text.{Bytes, cut_on, cut}
use lemul.Creds.{
  ok, err, malformed, expired, short_key, new_signer, AttachClaims, encode_fields, encode_attach,
  field_on, slice_at, decode_field, decode_round, decode_fields, claims_of, decode_attach,
  out_of_fuel, put_uint64, mac_fields, mac_input, domain_attach,
}
use lemul.Creds.Wire.{decode_fields-ends, IsEncodable}
use lemul.Creds.Mac.{mac_input-injective}
use lemul.Creds.Sign.{
  IsByte, Crypto, Target, attach_token, verify_attach, verify_workspace, workspace_token,
}
use lemul.Creds.Sign.Derived.{verify_workspace-workspace_token}
use lemul.Creds.Sign.Attach.{default_zero, asked_claims, verify_attach-attach_token}

-- A checksum of thirty-two bytes, and two letters for each byte.
unfoldable checksum : Bytes → ℕ
checksum [] = 7
checksum (b ∷ s) = (b + 31 * checksum s) % 251

unfoldable repeat : ℕ → ℕ → Bytes
repeat zero b = []
repeat (suc n) b = b ∷ repeat n b

unfoldable letters : Bytes → Bytes
letters [] = []
letters (b ∷ s) = (b'A' + b / 16) ∷ (b'A' + b % 16) ∷ letters s

unfoldable bytes : Bytes → Option Bytes
bytes [] = some []
bytes (a ∷ []) = none
bytes (a ∷ b ∷ s) = elim (bytes s) [
  | none ↦ none
  | some r ↦ some ((16 * (a - b'A') + (b - b'A')) ∷ r)
]

repeat-bytes : (n b : ℕ) → b < 256 → All IsByte (repeat n b)
unfolding repeat
repeat-bytes zero b h = tt
repeat-bytes (suc n) b h = (h, repeat-bytes n b h)

checksum-byte : (s : Bytes) → checksum s < 256
unfolding checksum
checksum-byte [] = omega arith
checksum-byte (b ∷ s) = omega arith

bytes-letters : (b : Bytes) → All IsByte b → bytes (letters b) ≡ some b
unfolding bytes letters
bytes-letters [] h = refl
bytes-letters (b ∷ s) h = ground (arith, bytes-letters s h.1)

letters-no_dot : (b : Bytes) → All (λ c. c ≢ b'.') (letters b)
unfolding letters
letters-no_dot [] = tt
letters-no_dot (b ∷ s) = (omega arith, (omega arith, letters-no_dot s))

unfoldable toy : Crypto
unfolding repeat letters bytes
toy = record {
  hmac = λ key m. repeat 32 (checksum (key ++ m));
  encode = letters;
  decode = bytes;
  hmac-bytes = λ key m. repeat-bytes 32 _ (checksum-byte (key ++ m));
  hmac-length = λ key m. refl;
  decode-encode = bytes-letters;
  encode-no_dot = letters-no_dot;
  encode-nil = refl;
}

abbrev key : Bytes
key = b'k' ∷ b'e' ∷ b'y' ∷ []

new_signer_short : new_signer key ≡ err (short_key 3)
unfolding new_signer
new_signer_short = refl

-- A session id with a colon and a digit in it.
abbrev target : Target
target = record {
  session_id = b'1' ∷ b':' ∷ [];
  tenant_id = b't' ∷ [];
  workspace_name = b'w' ∷ [];
  org_slug = [];
  mode = b'r' ∷ b'w' ∷ [];
}

abbrev claims : AttachClaims
unfolding letters
claims = asked_claims target 65 (letters (17 ∷ []))

first : Bytes → ℕ
first [] = 0
first (b ∷ s) = b

-- Two texts.
abbrev acme : Bytes
acme = b't' ∷ []

abbrev umbrella : Bytes
umbrella = b'u' ∷ []

abbrev new_generation : ℕ
new_generation = 4

abbrev api : Bytes
api = b'w' ∷ []

claims-IsEncodable : IsEncodable claims
unfolding letters
claims-IsEncodable = record {
  session = omega arith;
  tenant = omega arith;
  workspace = omega arith;
  org = omega arith;
  attach_mode = omega arith;
  expiry = refl;
  single_use = omega arith;
}

decode_attach_short : decode_attach (b'2' ∷ b':' ∷ b'a' ∷ []) ≡ err malformed
unfolding decode_attach claims_of decode_fields decode_round decode_field field_on slice_at cut
    cut_on atoi atoi_positive unsigned digits_value
decode_attach_short = refl

decode_fields-ends_example :
    (decode_fields 8 (b'0' ∷ b':' ∷ []) [] ≢ out_of_fuel)
    × (decode_fields 100 (b'0' ∷ b':' ∷ []) [] ≡ decode_fields 8 (b'0' ∷ b':' ∷ []) [])
decode_fields-ends_example = decode_fields-ends 100 (b'0' ∷ b':' ∷ []) (omega arith)

mac_input-injective_example :
    (domain_attach ≡ domain_attach) × (target.mode ∷ [] ≡ (b'r' ∷ b'w' ∷ []) ∷ [])
mac_input-injective_example =
    mac_input-injective domain_attach domain_attach (target.mode ∷ []) ((b'r' ∷ b'w' ∷ []) ∷ [])
      (omega arith) (omega arith) (omega arith, tt) (omega arith, tt) refl

verify_workspace-workspace_token_example :
    (verify_workspace toy key acme api new_generation (workspace_token toy key acme api 3) ≡ true)
    ↔ ((acme ≡ acme) × (api ≡ api) × (new_generation ≡ 3))
unfolding toy first checksum repeat mac_input mac_fields put_uint64 itoa digits
verify_workspace-workspace_token_example =
    verify_workspace-workspace_token toy key acme api acme api 3 new_generation (omega arith)
      (omega arith) (omega arith) (omega arith) (omega arith) (omega arith)
      (λ e. absurd (omega (arith, ap first e)))

verify_attach-attach_token_example :
    (tok : Bytes) × (attach_token toy key target (pos 0) (some (17 ∷ [])) (5 * 10 ^ 9) ≡ some tok)
    × (verify_attach toy key tok (70 * 10 ^ 9)
        ≡ (if ltb (65 * 10 ^ 9) (70 * 10 ^ 9) then err expired else ok claims))
unfolding toy letters encode_attach encode_fields itoa digits
verify_attach-attach_token_example =
    verify_attach-attach_token toy key target (pos 0) (60 * 10 ^ 9) (17 ∷ []) (5 * 10 ^ 9)
      (70 * 10 ^ 9) default_zero claims-IsEncodable (omega arith)
