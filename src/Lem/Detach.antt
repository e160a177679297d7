-- ===== src/Lem/Detach.antt =====
-- cmd/lem/detach.go: the key that detaches, in a chunk of what the terminal sends. The loop runs on
-- fuel: every round consumes a byte at least, so the length of the chunk is enough.
pub mod Sequences
pub mod Keys
use lemul.Prelude.{
  ℕ, zero, suc, ◌+◌, ◌/◌, ◌%◌, List, [], ◌∷◌, ◌++◌, Option, none, some, Bool, true, false, ◌&&◌,
  leb, ◌==◌, if◌then◌else◌, length, map,
}
use lemul.Prelude.Int.{ℤ, pos, negsuc, eqb_ℤ}
use lemul.Strconv.{atoi}

abbrev pub detach_byte : ℕ
detach_byte = 0x1d

abbrev pub bracket_key : ℤ
bracket_key = pos 93

-- hasCtrl: bit 2 of the modifiers less one.
unfoldable pub has_ctrl : ℤ → Bool
has_ctrl (pos (suc m)) = m / 4 % 2 == 1
has_ctrl _ = false

unfoldable pub before_colon : List ℕ → List ℕ
before_colon [] = []
before_colon (c ∷ p) = let rest = before_colon p in if c == b':' then [] else c ∷ rest

push_head : ℕ → List (List ℕ) → List (List ℕ)
push_head c [] = (c ∷ []) ∷ []
push_head c (f ∷ fs) = (c ∷ f) ∷ fs

-- The fields between the semicolons.
unfoldable pub fields : List ℕ → List (List ℕ)
unfolding push_head
fields [] = [] ∷ []
fields (c ∷ p) = let rest = fields p in if c == b';' then [] ∷ rest else push_head c rest

-- A field's number, and -1 where Atoi fails.
number_or : Option ℤ → ℤ
number_or none = negsuc 0
number_or (some n) = n

-- splitParams
unfoldable pub split_params : List ℕ → List ℤ
unfolding number_or
split_params params = map (λ f. number_or (atoi (before_colon f))) (fields params)

-- isDetachSeq, on the parameters' numbers.
unfoldable pub is_detach_u : List ℤ → Bool
is_detach_u (key ∷ mods ∷ rest) = eqb_ℤ key bracket_key && has_ctrl mods
is_detach_u _ = false

unfoldable pub is_detach_tilde : List ℤ → Bool
is_detach_tilde (code ∷ mods ∷ key ∷ rest) =
    eqb_ℤ code (pos 27) && eqb_ℤ key bracket_key && has_ctrl mods
is_detach_tilde _ = false

unfoldable pub is_detach_seq : List ℕ → ℕ → Bool
is_detach_seq params final =
    if final == b'u'
    then is_detach_u (split_params params)
    else if final == b'~'
    then is_detach_tilde (split_params params)
    else false

-- parseCSI: the parameters, the final byte and what follows it; none if the sequence is cut short.
push_param : ℕ → Option (List ℕ × ℕ × List ℕ) → Option (List ℕ × ℕ × List ℕ)
push_param c none = none
push_param c (some (params, final, rest)) = some (c ∷ params, final, rest)

unfoldable pub parse_csi : List ℕ → Option (List ℕ × ℕ × List ℕ)
unfolding push_param
parse_csi [] = none
parse_csi (c ∷ p) =
    let rest = parse_csi p in
    if leb 0x40 c && leb c 0x7e then some ([], c, p) else push_param c rest

-- One round of detachIndex: the key is here, there is nothing to match, or so many bytes are passed.
pub data Look : Type 0 where
  found stop : Look
  skip : ℕ → List ℕ → Look

look_csi : Option (List ℕ × ℕ × List ℕ) → Look
look_csi none = stop
look_csi (some (params, final, rest)) =
    if is_detach_seq params final then found else skip (3 + length params) rest

look_esc : List ℕ → Look
look_esc [] = skip 1 []
look_esc (c ∷ p) = if c == b'[' then look_csi (parse_csi p) else skip 1 (c ∷ p)

unfoldable pub look : List ℕ → Look
unfolding look_csi look_esc
look [] = stop
look (c ∷ p) = if c == detach_byte then found else if c == 0x1b then look_esc p else skip 1 p

unfoldable pub detach_from : ℕ → ℕ → List ℕ → Option ℕ
detach_from zero i p = none
detach_from (suc n) i p = elim (look p) [
  | found ↦ some i
  | stop ↦ none
  | skip k rest ↦ detach_from n (i + k) rest
]

-- detachIndex, where none is -1.
unfoldable pub detach_index : List ℕ → Option ℕ
detach_index p = detach_from (length p) 0 p
