-- ===== src/Pty/Ring.antt =====
-- internal/ptysession/ring.go: the bounded buffer of recent PTY output, kept in whole chunks.
pub mod Window
use lemul.Prelude.{
  ℕ, zero, suc, ◌+◌, ◌-◌, ◌*◌, List, [], ◌∷◌, ◌++◌, Bool, true, false, ltb, if◌then◌else◌, length,
}
use lemul.Prelude.Int.{ℤ, pos, negsuc}

pub record Chunk : Type 0 where
  pub b : List ℕ
  pub clean_start : Bool

pub record Ring : Type 0 where
  pub chunks : List Chunk
  pub bytes : ℕ
  pub limit : ℕ

-- defaultRingBytes
abbrev pub default_ring_bytes : ℕ
default_ring_bytes = 256 * 1024

-- `limit <= 0` takes the default
unfoldable pub ring_limit : ℤ → ℕ
ring_limit (pos zero) = default_ring_bytes
ring_limit (pos (suc n)) = suc n
ring_limit (negsuc n) = default_ring_bytes

-- newRing
unfoldable pub new_ring : ℤ → Ring
unfolding ring_limit
new_ring limit = record { chunks = []; bytes = 0; limit = ring_limit limit }

-- The eviction loop of push. `bytes` never falls below a stored chunk's length (`IsRing`), so the
-- subtraction is exact.
unfoldable pub evict : ℕ → ℕ → List Chunk → List Chunk × ℕ
evict limit bytes [] = ([], bytes)
evict limit bytes (c ∷ cs) =
    let rest = evict limit (bytes - length c.b) cs in
    if ltb limit bytes then rest else (c ∷ cs, bytes)

-- push
unfoldable pub push : List ℕ → Bool → Ring → Ring
push b clean_start r =
    let (cs, n) =
      evict r.limit (r.bytes + length b)
        (r.chunks ++ record { b = b; clean_start = clean_start } ∷ []) in
    record r { chunks = cs; bytes = n }

-- The chunks from the first one with a clean start on; empty if there is none.
unfoldable pub from_clean : List Chunk → List Chunk
from_clean [] = []
from_clean (c ∷ cs) = if c.clean_start then c ∷ cs else from_clean cs

unfoldable pub contents : List Chunk → List ℕ
contents [] = []
contents (c ∷ cs) = c.b ++ contents cs

-- snapshot. Go's nil and its empty slice are the empty list: the callers only ask for the length.
unfoldable pub snapshot : Ring → List ℕ
unfolding from_clean contents
snapshot r = contents (from_clean r.chunks)
