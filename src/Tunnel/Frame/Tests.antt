-- ===== src/Tunnel/Frame/Tests.antt =====
-- Frames of internal/tunnel on small inputs, and the theorems at them.
use lemul.Prelude.{ℕ, ◌≡◌, refl, List, [], ◌∷◌, ◌++◌, arith}
use lemul.Tunnel.Frame.{
  frame_data, frame_control, ok, put_uint32, uint32, write_frame, take_exact, read_full,
  read_payload, read_frame,
}
use lemul.Tunnel.Frame.RoundTrip.{read_frame-write_frame, write_frame-read_frame}

abbrev hello : List ℕ
hello = b'h' ∷ b'i' ∷ []

abbrev hello_frame : List ℕ
hello_frame = 0 ∷ 0 ∷ 0 ∷ 0 ∷ 2 ∷ b'h' ∷ b'i' ∷ []

hello_written : write_frame frame_data hello ≡ ok hello_frame
unfolding write_frame put_uint32
hello_written = refl

read_frame-write_frame_example :
    (w : List ℕ) × (write_frame frame_control hello ≡ ok w)
    × (read_frame (w ++ 7 ∷ []) ≡ ok (frame_control, hello, 7 ∷ []))
read_frame-write_frame_example = read_frame-write_frame frame_control hello (7 ∷ []) (omega arith)

write_frame-read_frame_example :
    (w : List ℕ) × (write_frame 0 hello ≡ ok w) × (hello_frame ++ 7 ∷ [] ≡ w ++ 7 ∷ [])
unfolding read_frame read_payload read_full take_exact uint32
write_frame-read_frame_example =
    write_frame-read_frame (hello_frame ++ 7 ∷ []) 0 hello (7 ∷ []) (omega arith) refl
