-- ===== src/Registry/Pick.antt =====
-- Whose tunnels the registry hands out.
use lemul.Prelude.{◌≡◌, List, [], ◌∷◌, ◌++◌, All}
use lemul.Prelude.Dict.{string_key}
use lemul.Registry.{Tunnel, WsKey, ws_key, key}

abbrev AtKey : WsKey → Tunnel → Type 0
AtKey k t = key t ≡ k

snoc-All :
    (P : Tunnel → Type 0) (ts : List Tunnel) (t : Tunnel) → All P ts → P t → All P (ts ++ t ∷ [])
snoc-All P [] t h p = (p, tt)
snoc-All P (x ∷ ts) t h p = (h.0, snoc-All P ts t h.1 p)
