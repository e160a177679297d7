-- ===== src/Tunnel/Frame/RoundTrip.antt =====
-- Reading back what WriteFrame wrote, in both directions, and frames that were cut short.
use lemul.Prelude.{
  ℕ, zero, suc, ◌/◌, ◌%◌, ◌^◌, ◌≤◌, ◌<◌, ◌≡◌, refl, ap, sym, ◌∙◌, List, [], ◌∷◌, ◌++◌, none, some,
  arith, length, All, Option-cases, inl, inr, ◌≢◌,
}
use lemul.Tunnel.Frame.{
  max_frame, Result, ok, err, eof, unexpected_eof, put_uint32, uint32, write_frame, take_exact,
  read_full, read_payload, read_frame,
}

uint32-put_uint32 :
    (n : ℕ)
    → n ≤ max_frame
    → uint32 (n / 2 ^ 24 % 256) (n / 2 ^ 16 % 256) (n / 2 ^ 8 % 256) (n % 256) ≡ n
unfolding uint32
uint32-put_uint32 n h = omega arith

take_exact-append : (p r : List ℕ) → take_exact (length p) (p ++ r) ≡ some (p, r)
unfolding take_exact
take_exact-append [] r = refl
take_exact-append (b ∷ p) r = rw (take_exact-append p r)

read_payload-append :
    (typ : ℕ) (p r : List ℕ)
    → length p ≤ max_frame
    → read_payload typ (length p) (p ++ r) ≡ ok (typ, p, r)
unfolding read_payload read_full
read_payload-append typ [] r h = refl
read_payload-append typ (b ∷ p) r h = ground (arith, take_exact-append (b ∷ p) r)

-- A frame of at most `max_frame` bytes is written, and reading the stream returns its type and
-- its payload and leaves exactly what follows.
pub read_frame-write_frame :
    (typ : ℕ) (payload rest : List ℕ)
    → length payload ≤ max_frame
    → (w : List ℕ) × (write_frame typ payload ≡ ok w)
      × (read_frame (w ++ rest) ≡ ok (typ, payload, rest))
unfolding write_frame read_frame put_uint32
read_frame-write_frame typ payload rest h = (
  typ ∷ (put_uint32 (length payload) ++ payload),
  ground arith,
  rw (uint32-put_uint32 (length payload) h) (read_payload-append typ payload rest h),
)

take_exact-split :
    (n : ℕ) (s : List ℕ) {p r : List ℕ}
    → take_exact n s ≡ some (p, r)
    → (s ≡ p ++ r) × (length p ≡ n)
unfolding take_exact
take_exact-split zero s h = ground arith
take_exact-split (suc n) [] h = cc
take_exact-split (suc n) (b ∷ s) {p} {r} h = elim (Option-cases (take_exact n s)) [
  | inl e ↦ absurd (ground arith)
  | inr (q, e) ↦ ground (arith, take_exact-split n s {p = q.0} {r = q.1} e)
]

read_full-split :
    (n : ℕ) (s : List ℕ) {p r : List ℕ} → read_full n s ≡ ok (p, r) → (s ≡ p ++ r) × (length p ≡ n)
unfolding read_full
read_full-split n [] h = ground arith
read_full-split n (b ∷ s) {p} {r} h = take_exact-split n (b ∷ s) (ground arith)

read_payload-split :
    (typ n : ℕ) (s : List ℕ) {t : ℕ} {p r : List ℕ}
    → read_payload typ n s ≡ ok (t, p, r)
    → (t ≡ typ) × (s ≡ p ++ r) × (length p ≡ n) × (n ≤ max_frame)
unfolding read_payload
read_payload-split typ n s {t} {p} {r} h = ground (arith, read_full-split n s {p = p} {r = r})

put_uint32-uint32 :
    (a b c d : ℕ)
    → a < 256
    → b < 256
    → c < 256
    → d < 256
    → put_uint32 (uint32 a b c d) ≡ a ∷ b ∷ c ∷ d ∷ []
unfolding put_uint32 uint32
put_uint32-uint32 a b c d ha hb hc hd = ground arith

-- What ReadFrame accepts from a stream of bytes is exactly what WriteFrame would have written for
-- its result: the payload is within `max_frame`, and writing it back gives the bytes consumed.
pub write_frame-read_frame :
    (s : List ℕ) (typ : ℕ) (payload rest : List ℕ)
    → All (λ b. b < 256) s
    → read_frame s ≡ ok (typ, payload, rest)
    → (w : List ℕ) × (write_frame typ payload ≡ ok w) × (s ≡ w ++ rest)
unfolding write_frame read_frame
write_frame-read_frame (t ∷ a ∷ b ∷ c ∷ d ∷ s) typ payload rest h e =
    let f = read_payload-split t (uint32 a b c d) s e in
    (
      typ ∷ (put_uint32 (length payload) ++ payload),
      ground (arith, f),
      rw (f.2, put_uint32-uint32 a b c d h.1.0 h.1.1.0 h.1.1.1.0 h.1.1.1.1.0) (cc (f.0, f.1)),
    )
write_frame-read_frame [] typ payload rest h e = cc
write_frame-read_frame _ typ payload rest h e = cc

-- The two errors by which ReadFrame says that the stream ended too early.
pub data IsShort {ℓ} {A : Type ℓ} : Result A → Type ℓ where
  at_start : IsShort (err eof)
  inside : IsShort (err unexpected_eof)

take_exact-short : (p q : List ℕ) (n : ℕ) → n ≡ length (p ++ q) → q ≢ [] → take_exact n p ≡ none
unfolding take_exact
take_exact-short [] [] n e ne = absurd (ne refl)
take_exact-short [] (x ∷ q) n e ne = rw e
take_exact-short (b ∷ p) q n e ne = rw (e, take_exact-short p q (length (p ++ q)) refl ne)

read_payload-IsShort :
    (typ n : ℕ) (p q : List ℕ)
    → n ≡ length (p ++ q)
    → n ≤ max_frame
    → q ≢ []
    → IsShort (read_payload typ n p)
unfolding read_payload read_full
read_payload-IsShort typ n [] [] e le ne = absurd (ne refl)
read_payload-IsShort typ n [] (x ∷ q) e le ne =
    let r : read_payload typ n [] ≡ err eof = ground arith in rw r at_start
read_payload-IsShort typ n (b ∷ p) q e le ne =
    let r : read_payload typ n (b ∷ p) ≡ err unexpected_eof =
      ground (arith, take_exact-short (b ∷ p) q n e ne) in
    rw r inside

-- What a successful write has put on the stream, by parts.
write_frame-parts :
    (typ : ℕ) (payload : List ℕ) {a b c d e : ℕ} {r : List ℕ}
    → write_frame typ payload ≡ ok (a ∷ b ∷ c ∷ d ∷ e ∷ r)
    → (length payload ≤ max_frame) × (uint32 b c d e ≡ length payload) × (r ≡ payload)
unfolding write_frame put_uint32
write_frame-parts typ payload h =
    let le : length payload ≤ max_frame = ground arith in
    (le, ground (arith, uint32-put_uint32 (length payload) le), ground arith)

-- Of a frame that was cut short, at any byte, ReadFrame makes no frame: it reports the end of the
-- stream.
read_frame-IsShort :
    (typ : ℕ) (payload s t : List ℕ)
    → write_frame typ payload ≡ ok (s ++ t)
    → t ≢ []
    → IsShort (read_frame s)
unfolding write_frame read_frame put_uint32
read_frame-IsShort typ payload [] t e ne = at_start
read_frame-IsShort typ payload (a ∷ b ∷ c ∷ d ∷ e ∷ s) t w ne =
    let parts = write_frame-parts typ payload w in
    read_payload-IsShort a (uint32 b c d e) s t (parts.1 ∙ ap length (sym parts.2))
      (omega (arith, parts)) ne
read_frame-IsShort typ payload (_ ∷ _) t e ne = inside
