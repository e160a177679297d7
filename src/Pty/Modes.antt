-- ===== src/Pty/Modes.antt =====
-- internal/ptysession/modes.go: ModeTracker, the scanner of the terminal modes in PTY output.
-- A byte is a number. The map `dec` is an association list with one entry for each key; the program
-- never depends on the map's order, since Prelude sorts the keys.
use lemul.Prelude.{
  ℕ, zero, suc, ◌+◌, List, [], ◌∷◌, ◌++◌, Option, none, some, Bool, true, false, ◌&&◌, ◌||◌, not,
  leb, ltb, ◌==◌, if◌then◌else◌, length,
}
use lemul.Prelude.Int.{ℤ, pos, ltb_ℤ, eqb_ℤ}
use lemul.Strconv.{atoi, itoa}
pub mod Fields
pub mod Invariant
pub mod Replay
pub mod RoundTrip

-- stGround, stEsc, stCSI
pub data TrackState : Type 0 where
  ground_state esc_state csi_state : TrackState

pub record ModeTracker : Type 0 where
  pub state : TrackState
  pub partial : List ℕ
  pub dec : List (ℤ × Bool)
  pub kitty : List ℕ
  pub mod_other : List ℕ

abbrev pub max_tracked_modes : ℕ
max_tracked_modes = 64

abbrev pub max_partial : ℕ
max_partial = 64

-- transientModes
abbrev pub transient : ℤ → Bool
transient n = eqb_ℤ n (pos 2026)

-- NewModeTracker
abbrev pub new : ModeTracker
new = record { state = ground_state; partial = []; dec = []; kitty = []; mod_other = [] }

abbrev pub is_ground : TrackState → Bool
is_ground ground_state = true
is_ground _ = false

-- AtBoundary
unfoldable pub at_boundary : ModeTracker → Bool
at_boundary m = is_ground m.state

-- m.dec[n]
unfoldable pub lookup : ℤ → List (ℤ × Bool) → Option Bool
lookup n [] = none
lookup n ((k, v) ∷ d) = if eqb_ℤ k n then some v else lookup n d

-- m.dec[n] = v
unfoldable pub insert : ℤ → Bool → List (ℤ × Bool) → List (ℤ × Bool)
insert n v [] = (n, v) ∷ []
insert n v ((k, w) ∷ d) = if eqb_ℤ k n then (k, v) ∷ d else (k, w) ∷ insert n v d

-- bytes.Split
unfoldable pub cons_head : ℕ → List (List ℕ) → List (List ℕ)
cons_head b [] = (b ∷ []) ∷ []
cons_head b (f ∷ fs) = (b ∷ f) ∷ fs

unfoldable pub split : ℕ → List ℕ → List (List ℕ)
unfolding cons_head
split sep [] = [] ∷ []
split sep (b ∷ s) = let rest = split sep s in if b == sep then [] ∷ rest else cons_head b rest

abbrev pub is_some : Option Bool → Bool
is_some none = false
is_some (some _) = true

-- One round of commit's loop: the write of a mode, unless the map is full and the mode is new.
unfoldable pub set_mode : Bool → ℤ → List (ℤ × Bool) → List (ℤ × Bool)
set_mode v n d =
    if not (is_some (lookup n d)) && leb max_tracked_modes (length d) then d else insert n v d

-- A field that is no number is skipped.
unfoldable pub set_field : Bool → List ℕ → List (ℤ × Bool) → List (ℤ × Bool)
set_field v f d = elim (atoi f) [ none ↦ d | some n ↦ set_mode v n d ]

unfoldable pub set_fields : Bool → List (List ℕ) → List (ℤ × Bool) → List (ℤ × Bool)
set_fields v [] d = d
set_fields v (f ∷ fs) d = set_fields v fs (set_field v f d)

-- seq[2 : len(seq)-1]
unfoldable pub drop_last : List ℕ → List ℕ
drop_last [] = []
drop_last (b ∷ []) = []
drop_last (b ∷ c ∷ s) = b ∷ drop_last (c ∷ s)

unfoldable pub params_of : List ℕ → List ℕ
params_of (_ ∷ _ ∷ s) = drop_last s
params_of _ = []

-- The switch of commit over the first parameter byte.
unfoldable pub commit_params : ℕ → List ℕ → List ℕ → ModeTracker → ModeTracker
commit_params final seq [] m = m
commit_params final seq (c ∷ ps) m =
    if c == b'?'
    then if final == b'h' || final == b'l'
      then record m { dec = set_fields (final == b'h') (split b';' ps) m.dec }
      else m
    else if c == b'>' || c == b'=' || c == b'<'
    then if final == b'u'
      then record m { kitty = seq }
      else if final == b'm' && c == b'>'
      then record m { mod_other = seq }
      else m
    else m

-- commit, on the sequence that `partial` holds.
unfoldable pub commit : ℕ → ModeTracker → ModeTracker
commit final m =
    if ltb (length m.partial) 3 then m else commit_params final m.partial (params_of m.partial) m

abbrev pub is_final : ℕ → Bool
is_final b = leb 0x40 b && leb b 0x7e

-- m.state = stGround; m.partial = m.partial[:0]
abbrev pub reset : ModeTracker → ModeTracker
reset m = record m { state = ground_state; partial = [] }

-- One byte of Feed, by the state before it.
unfoldable pub feed_byte_in : TrackState → ℕ → ModeTracker → ModeTracker
feed_byte_in ground_state b m =
    if b == 0x1b then record m { state = esc_state; partial = b ∷ [] } else m
feed_byte_in esc_state b m =
    if b == b'[' then record m { state = csi_state; partial = m.partial ++ b ∷ [] } else reset m
feed_byte_in csi_state b m =
    let held = record m { partial = m.partial ++ b ∷ [] } in
    if is_final b
    then reset (commit b held)
    else if ltb max_partial (length held.partial)
    then reset held
    else held

unfoldable pub feed_byte : ModeTracker → ℕ → ModeTracker
feed_byte m b = feed_byte_in m.state b m

-- Feed
unfoldable pub feed : ModeTracker → List ℕ → ModeTracker
feed m [] = m
feed m (b ∷ p) = feed (feed_byte m b) p

-- The keys of the map that are replayed, and sort.Ints.
unfoldable pub replayed : List (ℤ × Bool) → List ℤ
replayed [] = []
replayed ((k, v) ∷ d) = let rest = replayed d in if transient k then rest else k ∷ rest

unfoldable pub insert_sorted : ℤ → List ℤ → List ℤ
insert_sorted n [] = n ∷ []
insert_sorted n (k ∷ ks) = if ltb_ℤ k n then k ∷ insert_sorted n ks else n ∷ k ∷ ks

unfoldable pub sort_ints : List ℤ → List ℤ
unfolding insert_sorted
sort_ints [] = []
sort_ints (n ∷ ns) = insert_sorted n (sort_ints ns)

-- A map read of an absent key is Go's zero value.
abbrev pub or_false : Option Bool → Bool
or_false none = false
or_false (some v) = v

-- 'h' for a mode that is set, 'l' for one that is reset.
abbrev pub final_of : Bool → ℕ
final_of true = b'h'
final_of false = b'l'

-- One round of Prelude's loop.
unfoldable pub render : ℤ → Bool → List ℕ
render n v = 0x1b ∷ b'[' ∷ b'?' ∷ (itoa n ++ final_of v ∷ [])

unfoldable pub render_all : List ℤ → List (ℤ × Bool) → List ℕ
render_all [] d = []
render_all (n ∷ ns) d = render n (or_false (lookup n d)) ++ render_all ns d

-- Prelude
unfoldable pub prelude : ModeTracker → List ℕ
prelude m = render_all (sort_ints (replayed m.dec)) m.dec ++ (m.mod_other ++ m.kitty)
