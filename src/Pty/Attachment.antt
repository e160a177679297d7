-- ===== src/Pty/Attachment.antt =====
-- internal/ptysession/attachment.go: one client's view of a session, a bounded queue of output.
-- The mutex makes each method one step; `next` says by a value of its own that it would wait.
pub mod Stream
use lemul.Prelude.{
  ℕ, zero, suc, ◌+◌, ◌-◌, ◌*◌, List, [], ◌∷◌, ◌++◌, Bool, true, false, ltb, ◌==◌, if◌then◌else◌,
  length,
}
use lemul.Prelude.Int.{ℤ, pos, negsuc}

pub data CloseReason : Type 0 where
  reason_none reason_session_ended reason_detached reason_overflow : CloseReason

-- The field `sess` is the session that holds the attachment.
pub record Attachment : Type 0 where
  pub read_only : Bool
  pub q : List (List ℕ)
  pub queued : ℕ
  pub limit : ℕ
  pub closed : Bool
  pub reason : CloseReason

-- defaultQueueBytes
abbrev pub default_queue_bytes : ℕ
default_queue_bytes = 4 * 1024 * 1024

-- `limit <= 0` takes the default
unfoldable pub queue_limit : ℤ → ℕ
queue_limit (pos zero) = default_queue_bytes
queue_limit (pos (suc n)) = suc n
queue_limit (negsuc n) = default_queue_bytes

-- newAttachment
unfoldable pub new_attachment : Bool → ℤ → Attachment
unfolding queue_limit
new_attachment read_only limit = record {
  read_only = read_only;
  q = [];
  queued = 0;
  limit = queue_limit limit;
  closed = false;
  reason = reason_none;
}

-- push
unfoldable pub push : List ℕ → Attachment → Attachment
push p a =
    if length p == 0
    then a
    else if a.closed
    then a
    else if ltb a.limit (a.queued + length p)
    then record a { closed = true; reason = reason_overflow; q = []; queued = 0 }
    else record a { q = a.q ++ p ∷ []; queued = a.queued + length p }

-- What Next returns, and `waits` where it blocks on the condition variable.
pub data NextResult : Type 0 where
  waits : NextResult
  output : List ℕ → NextResult
  ended : CloseReason → NextResult

unfoldable pub next_of : List (List ℕ) → Attachment → NextResult × Attachment
next_of [] a = if a.closed then (ended a.reason, a) else (waits, a)
next_of (p ∷ ps) a = (output p, record a { q = ps; queued = a.queued - length p })

-- Next. `queued` is the size of the queue (`IsLink`), so the subtraction is exact.
unfoldable pub next : Attachment → NextResult × Attachment
next a = next_of a.q a

-- close
unfoldable pub close : CloseReason → Attachment → Attachment
close reason a = if a.closed then a else record a { closed = true; reason = reason }
