-- ===== src/Lem/Tests.antt =====
-- Detach keys in small chunks, and the theorem at one.
use lemul.Prelude.{ℕ, ◌≡◌, refl, List, [], ◌∷◌, none}
use lemul.Strconv.{atoi, atoi_positive, unsigned, digits_value}
use lemul.Lem.Detach.{
  has_ctrl, before_colon, fields, split_params, is_detach_tilde, is_detach_seq, parse_csi, look,
  detach_from, detach_index,
}
use lemul.Lem.Detach.Keys.{csi}

-- CSI 93;5:1u, as the kitty protocol sends Ctrl-].
abbrev kitty_params : List ℕ
kitty_params = b'9' ∷ b'3' ∷ b';' ∷ b'5' ∷ b':' ∷ b'1' ∷ []

abbrev kitty_key : List ℕ
kitty_key = csi kitty_params b'u'

-- A letter and an arrow key.
abbrev typed : List ℕ
typed = b'l' ∷ csi [] b'A'

-- Shift with another key, in modifyOtherKeys: nothing is found.
unmodified_none :
    detach_index (csi (b'2' ∷ b'7' ∷ b';' ∷ b'2' ∷ b';' ∷ b'9' ∷ b'3' ∷ []) b'~') ≡ none
unfolding detach_index detach_from look parse_csi is_detach_seq is_detach_tilde split_params fields
    before_colon has_ctrl atoi atoi_positive unsigned digits_value
unmodified_none = refl
