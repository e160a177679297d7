-- ===== src/Statekey/Tests.antt =====
-- internal/statekey on small inputs, and the theorem at them.
use lemul.Prelude.{ℕ, zero, suc, ◌≤◌, ◌≡◌, refl, sym, ap, [], ◌∷◌, Option, some, length}
use lemul.Prelude.Text.{Bytes}
use lemul.Creds.{min_key_bytes}
use lemul.Statekey.{
  absent, content, Write, written, ok, err, load, missing_file, read_on, generate, write_on,
  create_on, find_on, load_or_create,
}
use lemul.Statekey.Durable.{load-load_or_create}

key_of : ℕ → Bytes
key_of zero = []
key_of (suc n) = b'k' ∷ key_of n

abbrev dir : Bytes
dir = b'd' ∷ []

load-missing : load [] dir absent ≡ err missing_file
unfolding load read_on
load-missing = refl

load-load_or_create_example :
    (min_key_bytes ≤ length (key_of 32))
    × (load [] dir (content (key_of 32)) ≡ ok (key_of 32))
    × ((random' : Option Bytes) (w' : Write)
        → load_or_create [] dir random' w' (content (key_of 32))
          ≡ (ok (key_of 32), content (key_of 32)))
unfolding load_or_create find_on create_on generate write_on key_of
load-load_or_create_example =
    load-load_or_create [] dir (some (key_of 32)) written absent (content (key_of 32)) (key_of 32)
      (λ k e. long k e) (λ e. cc e) refl
  where
    long : (k : Bytes) → some (key_of 32) ≡ some k → length k ≡ min_key_bytes
    long k e = let same : key_of 32 ≡ k = cc e in ap length (sym same)
