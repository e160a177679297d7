-- ===== src/Mgmt/Activity.antt =====
-- internal/mgmtapi/activity.go: the latest report of each workspace task.
use Prim.Native.String.{String}
use lemul.Prelude.{ℕ, ◌+◌, ◌*◌, Option, Bool, leb}
use lemul.Prelude.Dict
use lemul.Prelude.Dict.{Dict, lookup, without}
use lemul.Mgmt.Rows.{WsRef, ref_key, Headroom, ActivityReport}

-- The store's map; its mutex makes each operation a step.
abbrev pub ActivityStore : Type 0
ActivityStore = Dict WsRef ActivityReport

-- put, where `name` is the report's workspace.
unfoldable pub put : String → String → Headroom → ℕ → ActivityStore → ActivityStore
put tenant_id name h now a =
    Dict.put (record { tenant_id = tenant_id; name = name })
      (record { headroom = h; received_at = now }) a

unfoldable pub get : WsRef → ActivityStore → Option ActivityReport
get k a = lookup k a

unfoldable pub forget : WsRef → ActivityStore → ActivityStore
forget k a = without k a

-- fresh: now.Sub(r.ReceivedAt) <= 3*interval, where the difference may be negative.
unfoldable pub fresh : ActivityReport → ℕ → ℕ → Bool
fresh r now interval = leb now (r.received_at + 3 * interval)
