-- ===== src/Logs/Batches.antt =====
-- internal/logs/tailer.go: the loop of a tail, which collects lines and ships them in batches. An event is
-- what the `select` chooses; the lines come from the two scanners in some order.
pub mod Laws
use gameserver_daemon.Common.{
  ℕ, String, Bool, true, false, List, [], ◌∷◌, ◌++◌, length, leb, if◌then◌else◌,
}

-- log_shipper.go
pub record LogEntry : Type 0 where
  pub ts : ℕ
  pub stream : String
  pub line : String

abbrev pub batch_size : ℕ
batch_size = 100

-- A line, the flush timer, the end of both streams, the end of the context.
pub data Event : Type 0 where
  received : LogEntry → Event
  tick closed cancelled : Event

-- `shipped` are the batches that have been handed to the shipper, the first one first. A batch that the
-- shipper refuses is dropped all the same.
pub record Tail : Type 0 where
  pub batch : List LogEntry
  pub shipped : List (List LogEntry)
  pub finished : Bool

abbrev pub new_tail : Tail
new_tail = record { batch = []; shipped = []; finished = false }

-- Ship a batch and begin anew.
abbrev pub ship : List LogEntry → Tail → Tail
ship batch t = record t { batch = []; shipped = t.shipped ++ batch ∷ [] }

-- `if len(batch) > 0`
abbrev pub ship_some : List LogEntry → Tail → Tail
ship_some [] t = t
ship_some (x ∷ xs) t = ship (x ∷ xs) t

unfoldable pub flush : Tail → Tail
flush t = ship_some t.batch t

abbrev pub ship_full : List LogEntry → Tail → Tail
ship_full batch t =
    if leb batch_size (length batch) then ship batch t else record t { batch = batch }

unfoldable pub collect : LogEntry → Tail → Tail
collect e t = ship_full (t.batch ++ e ∷ []) t

-- One turn of the loop.
unfoldable pub turn : Event → Tail → Tail
unfolding flush collect
turn (received e) t = collect e t
turn tick t = flush t
turn closed t = record (flush t) { finished = true }
turn cancelled t = record (flush t) { finished = true }

-- The loop, which returns at the end of the streams or of the context.
unfoldable pub turns : List Event → Tail → Tail
unfolding turn
turns [] t = t
turns (e ∷ es) t = if t.finished then t else turns es (turn e t)
