-- ===== src/Tunnel/Frame.antt =====
-- internal/tunnel/frame.go: WriteFrame and ReadFrame, the framing inside one stream.
-- A writer is the list of bytes written so far; a reader is the list of bytes still to come, and its
-- end is the stream's end (io.EOF). A byte is a number, and a payload's bytes are passed untouched.
-- A failing transport is not modelled here: a write to the list cannot fail.
pub mod RoundTrip
mod Tests
use lemul.Prelude.{
  ℕ, zero, suc, ◌+◌, ◌*◌, ◌/◌, ◌%◌, ◌^◌, List, [], ◌∷◌, ◌++◌, Option, none, some, ltb, ◌==◌,
  if◌then◌else◌, length,
}

-- FrameData and FrameControl.
abbrev pub frame_data : ℕ
frame_data = 0x00

abbrev pub frame_control : ℕ
frame_control = 0x01

-- maxFrame
abbrev pub max_frame : ℕ
max_frame = 2 ^ 20

-- The errors, one constructor for each `return` that makes one.
pub data Error : Type 0 where
  eof : Error
  unexpected_eof : Error
  frame_too_large : ℕ → Error

pub data Result {ℓ} (A : Type ℓ) : Type ℓ where
  ok : A → Result A
  err : Error → Result A

-- binary.BigEndian.PutUint32 and Uint32. The conversion uint32(n) is the wrap by 2 ^ 32.
unfoldable pub put_uint32 : ℕ → List ℕ
put_uint32 n = (n / 2 ^ 24 % 256) ∷ (n / 2 ^ 16 % 256) ∷ (n / 2 ^ 8 % 256) ∷ (n % 256) ∷ []

unfoldable pub uint32 : ℕ → ℕ → ℕ → ℕ → ℕ
uint32 a b c d = a * 2 ^ 24 + b * 2 ^ 16 + c * 2 ^ 8 + d

-- What WriteFrame appends to the stream. The header is written first, and an empty payload ends it.
unfoldable pub write_frame : ℕ → List ℕ → Result (List ℕ)
write_frame typ payload =
    if ltb max_frame (length payload)
    then err (frame_too_large (length payload))
    else ok (typ ∷ (put_uint32 (length payload) ++ payload))

-- io.ReadFull of `n` bytes: the bytes and what is left, or the two ends that it tells apart.
unfoldable pub take_exact : ℕ → List ℕ → Option (List ℕ × List ℕ)
take_exact zero r = some ([], r)
take_exact (suc n) [] = none
take_exact (suc n) (b ∷ r) = elim (take_exact n r) [
  | none ↦ none
  | some (p, rest) ↦ some (b ∷ p, rest)
]

unfoldable pub read_full : ℕ → List ℕ → Result (List ℕ × List ℕ)
unfolding take_exact
read_full n [] = if n == 0 then ok ([], []) else err eof
read_full n (b ∷ r) = elim (take_exact n (b ∷ r)) [ none ↦ err unexpected_eof | some q ↦ ok q ]

-- The payload half of ReadFrame, once the header has given the type and the length.
unfoldable pub read_payload : ℕ → ℕ → List ℕ → Result (ℕ × List ℕ × List ℕ)
read_payload typ n r =
    if ltb max_frame n
    then err (frame_too_large n)
    else if n == 0
    then ok (typ, [], r)
    else elim (read_full n r) [ err e ↦ err e | ok (payload, rest) ↦ ok (typ, payload, rest) ]

-- ReadFrame: five bytes of header, then the payload. The result ends with what is left unread.
unfoldable pub read_frame : List ℕ → Result (ℕ × List ℕ × List ℕ)
read_frame [] = err eof
read_frame (typ ∷ a ∷ b ∷ c ∷ d ∷ r) = read_payload typ (uint32 a b c d) r
read_frame (_ ∷ _) = err unexpected_eof
