-- ===== src/Supervisor/Processes/Redact.antt =====
-- internal/supervisor/procfs.go: redactSecrets, on the command lines that leave the task.
mod Fields
pub mod Complete
use lemul.Prelude.{
  ℕ, ◌≡◌, ◌≢◌, refl, sym, ap, ◌∙◌, List, [], ◌∷◌, ◌++◌, Option, none, some, Bool, true, false, ◌||◌,
  ◌&&◌, ◌==◌, if◌then◌else◌, All, inl, inr, Bool-cases, Option-cases, arith,
}
use lemul.Prelude.Text.{Bytes, bytes, cut, equal, equal_iff}

-- secretFlags, each with one dash and with two.
unfoldable pub secret_flags : List Bytes
secret_flags =
    bytes "-token"
    ∷ bytes "--token"
    ∷ bytes "-gateway-key"
    ∷ bytes "--gateway-key"
    ∷ bytes "-key"
    ∷ bytes "--key"
    ∷ bytes "-secret"
    ∷ bytes "--secret"
    ∷ bytes "-password"
    ∷ bytes "--password"
    ∷ bytes "-api-key"
    ∷ bytes "--api-key"
    ∷ bytes "-credential"
    ∷ bytes "--credential"
    ∷ []

unfoldable pub is_member : List Bytes → Bytes → Bool
is_member [] k = false
is_member (f ∷ fs) k = equal f k || is_member fs k

abbrev pub is_secret : Bytes → Bool
is_secret k = is_member secret_flags k

unfoldable pub redacted : Bytes
redacted = bytes "<redacted>"

-- A field by itself: `k=v` for a secret `k` keeps its `k`.
unfoldable pub assigned_on : Option (Bytes × Bytes) → Option Bytes
assigned_on none = none
assigned_on (some (k, v)) = if is_secret k then some (k ++ b'=' ∷ redacted) else none

-- What becomes of the field, given what becomes of the later ones if the next is kept, or replaced.
unfoldable pub field_on : Option Bytes → Bool → Bytes → List Bytes → List Bytes → List Bytes
field_on (some g) secret f kept replaced = g ∷ kept
field_on none secret f kept replaced = if secret then f ∷ replaced else f ∷ kept

-- The loop. The Boolean says that the field was overwritten by the round before it.
unfoldable pub redact_fields : Bool → List Bytes → List Bytes
redact_fields over [] = []
redact_fields true (f ∷ fs) = redacted ∷ redact_fields false fs
redact_fields false (f ∷ fs) =
    let kept = redact_fields false fs in
    let replaced = redact_fields true fs in
    field_on (assigned_on (cut b'=' f)) (is_secret f) f kept replaced

unfoldable pub prepend : ℕ → List Bytes → List Bytes
prepend c [] = (c ∷ []) ∷ []
prepend c (w ∷ ws) = (c ∷ w) ∷ ws

-- strings.Split at one byte.
unfoldable pub split : ℕ → Bytes → List Bytes
split b [] = [] ∷ []
split b (c ∷ s) = let rest = split b s in if c == b then [] ∷ rest else prepend c rest

-- strings.Join with one byte.
unfoldable pub join : ℕ → List Bytes → Bytes
join b [] = []
join b (w ∷ []) = w
join b (w ∷ v ∷ ws) = w ++ (b ∷ join b (v ∷ ws))

unfoldable pub redact_secrets : Bytes → Bytes
redact_secrets [] = []
redact_secrets (c ∷ s) = join 32 (redact_fields false (split 32 (c ∷ s)))
