-- ===== src/Creds.antt =====
-- internal/creds/creds.go: the credentials that are derived from the signing key. A text is the list of
-- its bytes. This file has the encodings; Creds/Sign has the signer.
pub mod Wire
pub mod Mac
pub mod Sign
mod Tests
use lemul.Prelude.{
  ℕ, zero, suc, ◌+◌, ◌*◌, ◌/◌, ◌%◌, ◌^◌, ◌≡◌, ◌≢◌, List, [], ◌∷◌, ◌++◌, Option, none, some, Bool,
  true, false, All, ltb, leb, ◌==◌, if◌then◌else◌, length, take, drop, concat, map,
}
use lemul.Prelude.Text.{Bytes, cut}
use lemul.Prelude.Int.{ℤ, pos, negsuc, ltb_ℤ}
use lemul.Strconv.{atoi, itoa}

-- MinKeyBytes
abbrev pub min_key_bytes : ℕ
min_key_bytes = 32

-- ErrMalformed, ErrSignature, ErrExpired, and NewSigner's refusal of a short key.
pub data Error : Type 0 where
  malformed : Error
  signature : Error
  expired : Error
  short_key : ℕ → Error

pub data Result {ℓ} (A : Type ℓ) : Type ℓ where
  ok : A → Result A
  err : Error → Result A

-- NewSigner, with the signer as its key.
unfoldable pub new_signer : Bytes → Result Bytes
new_signer key = if ltb (length key) min_key_bytes then err (short_key (length key)) else ok key

-- domainWorkspace, domainAttach, domainRunner
abbrev pub domain_workspace : Bytes
domain_workspace =
    b'l' ∷ b'e' ∷ b'm' ∷ b'u' ∷ b'l' ∷ b'-' ∷ b'w' ∷ b'o' ∷ b'r' ∷ b'k' ∷ b's' ∷ b'p' ∷ b'a' ∷ b'c'
    ∷ b'e' ∷ b'-' ∷ b'v' ∷ b'1' ∷ []

abbrev pub domain_attach : Bytes
domain_attach =
    b'l' ∷ b'e' ∷ b'm' ∷ b'u' ∷ b'l' ∷ b'-' ∷ b'a' ∷ b't' ∷ b't' ∷ b'a' ∷ b'c' ∷ b'h' ∷ b'-' ∷ b'v'
    ∷ b'1' ∷ []

abbrev pub domain_runner : Bytes
domain_runner =
    b'l' ∷ b'e' ∷ b'm' ∷ b'u' ∷ b'l' ∷ b'-' ∷ b'r' ∷ b'u' ∷ b'n' ∷ b'n' ∷ b'e' ∷ b'r' ∷ b'-' ∷ b'v'
    ∷ b'1' ∷ []

-- binary.BigEndian.PutUint64 of a length, eight bytes.
unfoldable pub put_uint64 : ℕ → Bytes
put_uint64 n =
    (n / 2 ^ 56 % 256)
    ∷ (n / 2 ^ 48 % 256)
    ∷ (n / 2 ^ 40 % 256)
    ∷ (n / 2 ^ 32 % 256)
    ∷ (n / 2 ^ 24 % 256)
    ∷ (n / 2 ^ 16 % 256)
    ∷ (n / 2 ^ 8 % 256)
    ∷ (n % 256)
    ∷ []

unfoldable pub mac_fields : List Bytes → Bytes
mac_fields [] = []
mac_fields (f ∷ fs) = put_uint64 (length f) ++ (f ++ mac_fields fs)

-- Every byte that `mac` writes to the hash.
unfoldable pub mac_input : Bytes → List Bytes → Bytes
mac_input domain fields = domain ++ (0 ∷ mac_fields fields)

pub record AttachClaims : Type 0 where
  pub session_id : Bytes
  pub tenant_id : Bytes
  pub workspace_name : Bytes
  pub org_slug : Bytes
  pub mode : Bytes
  pub expires_at : ℤ
  pub nonce : Bytes

-- attachFields
abbrev pub attach_fields : ℕ
attach_fields = 7

-- The body of encodeAttach's loop.
unfoldable pub encode_fields : List Bytes → Bytes
encode_fields [] = []
encode_fields (f ∷ fs) = itoa (pos (length f)) ++ (b':' ∷ (f ++ encode_fields fs))

unfoldable pub encode_attach : AttachClaims → Bytes
encode_attach c = encode_fields (
    c.session_id
    ∷ c.tenant_id
    ∷ c.workspace_name
    ∷ c.org_slug
    ∷ c.mode
    ∷ itoa c.expires_at
    ∷ c.nonce
    ∷ [])

-- rest[:n] and rest[n:], where 0 ≤ n ≤ len(rest).
unfoldable pub slice_at : Option ℤ → Bytes → Option (Bytes × Bytes)
slice_at none rest = none
slice_at (some (negsuc n)) rest = none
slice_at (some (pos n)) rest = if ltb (length rest) n then none else some (take n rest, drop n rest)

unfoldable pub field_on : Option (Bytes × Bytes) → Option (Bytes × Bytes)
field_on none = none
field_on (some (len_str, rest)) = slice_at (atoi len_str) rest

-- One round of decodeAttach's loop: the field, and what is left of the payload.
unfoldable pub decode_field : Bytes → Option (Bytes × Bytes)
decode_field s = field_on (cut b':' s)

-- What the loop ends with.
pub data Fields : Type 0 where
  fields : List Bytes → Fields
  invalid : Fields
  out_of_fuel : Fields

-- The body of the loop after decode_field, with the rest of the loop as `more`.
unfoldable pub decode_round :
    (Bytes → List Bytes → Fields) → List Bytes → Option (Bytes × Bytes) → Fields
decode_round more read none = invalid
decode_round more read (some (f, rest)) =
    if ltb attach_fields (length (read ++ f ∷ [])) then invalid else more rest (read ++ f ∷ [])

-- The loop, for at most `fuel` rounds, after the fields `read`.
unfoldable pub decode_fields : ℕ → Bytes → List Bytes → Fields
decode_fields fuel [] read = fields read
decode_fields zero (c ∷ s) read = out_of_fuel
decode_fields (suc fuel) (c ∷ s) read =
    decode_round (λ rest r. decode_fields fuel rest r) read (decode_field (c ∷ s))

unfoldable pub claims_of : Fields → Result AttachClaims
claims_of (fields (session ∷ tenant ∷ workspace ∷ org ∷ m ∷ exp ∷ n ∷ [])) = elim (atoi exp) [
  | none ↦ err malformed
  | some z ↦ ok record {
    session_id = session;
    tenant_id = tenant;
    workspace_name = workspace;
    org_slug = org;
    mode = m;
    expires_at = z;
    nonce = n;
  }
]
claims_of _ = err malformed

-- More than attachFields fields end the loop, so that eight rounds are enough.
unfoldable pub decode_attach : Bytes → Result AttachClaims
decode_attach s = claims_of (decode_fields 8 s [])
