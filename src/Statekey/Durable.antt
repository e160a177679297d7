-- ===== src/Statekey/Durable.antt =====
-- internal/statekey/statekey.go: the key outlives the process, and both services have the same one.
use lemul.Prelude.{
  ◌≤◌, ◌≡◌, ◌≢◌, refl, sym, ap, ◌∙◌, [], ◌∷◌, Option, none, some, ltb, length, inl, inr, Bool-cases,
  arith,
}
use lemul.Prelude.Text.{Bytes}
use lemul.Creds.{min_key_bytes}
use lemul.Statekey.{
  File, absent, unreadable, content, Write, mkdir_failed, write_failed, written, Error, short_flag,
  short_file, ok, check, read_on, load, generate, write_on, create_on, find_on, load_or_create,
}

check-ok :
    (e : Error) (v key : Bytes) → check e v ≡ ok key → (v ≡ key) × (min_key_bytes ≤ length key)
unfolding check
check-ok e v key h = elim (Bool-cases (ltb (length v) min_key_bytes)) [
  | inl t ↦ absurd (ground (arith, h, t))
  | inr t ↦
      let same : ok v ≡ ok key = ground (arith, h, t) in
      let here : v ≡ key = cc same in
      let le : min_key_bytes ≤ length v = ground arith in (here, omega (arith, ap length here, le))
]

check-again : (e : Error) (key : Bytes) → min_key_bytes ≤ length key → check e key ≡ ok key
unfolding check
check-again e key h = ground arith

-- What a start with a state directory and no explicit key leaves behind.
find_on-ok :
    (file file' : File) (random : Option Bytes) (w : Write) (key : Bytes)
    → ((k : Bytes) → random ≡ some k → length k ≡ min_key_bytes)
    → find_on file random w ≡ (ok key, file')
    → (file' ≡ content key) × (min_key_bytes ≤ length key)
unfolding find_on create_on generate write_on
find_on-ok (content v) file' random w key r e =
    let (same, long) = check-ok short_file v key (ap (λ q. q.0) e) in
    (sym (ap (λ q. q.1) e) ∙ ap content same, long)
find_on-ok unreadable file' random w key r e = cc e
find_on-ok absent file' none w key r e = cc e
find_on-ok absent file' (some k) mkdir_failed key r e = cc e
find_on-ok absent file' (some k) (write_failed left) key r e = cc e
find_on-ok absent file' (some k) written key r e =
    let long = r k refl in let same : k ≡ key = cc e in (cc e, omega (arith, long, ap length same))

-- Once the control plane has started with a key and a state directory, the relay loads the same key
-- with the same arguments, and every later start of the control plane finds the same key again and
-- leaves the file alone, whatever the random source then gives. The key has at least thirty-two bytes.
-- What rand.Read gives is taken to be as many bytes as were asked for.
pub load-load_or_create :
    (explicit dir : Bytes) (random : Option Bytes) (w : Write) (file file' : File) (key : Bytes)
    → ((k : Bytes) → random ≡ some k → length k ≡ min_key_bytes)
    → dir ≢ []
    → load_or_create explicit dir random w file ≡ (ok key, file')
    → (min_key_bytes ≤ length key)
      × (load explicit dir file' ≡ ok key)
      × ((random' : Option Bytes) (w' : Write)
          → load_or_create explicit dir random' w' file' ≡ (ok key, file'))
unfolding load_or_create load find_on read_on
load-load_or_create (c ∷ v) dir random w file file' key r ne e =
    let checked : check short_flag (c ∷ v) ≡ ok key = ap (λ q. q.0) e in
    (
      (check-ok short_flag (c ∷ v) key checked).1,
      checked,
      λ random' w'. ap (λ q. (q, file')) checked,
    )
load-load_or_create [] [] random w file file' key r ne e = absurd (ne refl)
load-load_or_create [] (c ∷ dir) random w file file' key r ne e =
    let (here, long) = find_on-ok file file' random w key r e in
    let again = check-again short_file key long in
    (long, rw here again, λ random' w'. rw (here, again) refl)
