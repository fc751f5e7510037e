-- ===== src/Gateway/Meter.antt =====
-- gateway/meter.go: usage rows are queued, batched and stored, and those that are lost are counted.
-- The flushing goroutine and the callers of `Record` and `Close` interleave: each part of them that
-- runs in one piece is an event, and a run is a list of events in any order. The answers of the sink
-- to the attempts of one flush are an argument of the event that flushes.
pub mod Sizes
pub mod Counts
pub mod Touched
mod Tests
use api_gatewahy.Base.{
  ℕ, ℤ, pos, suc, zero, ◌+◌, ◌*◌, Bool, true, false, not, ◌&&◌, ◌||◌, Option, none, some, List, [],
  ◌∷◌, ◌++◌, Text, format_int, length, ltb, leb, ◌==◌, le_ℤ, pos_part, if◌then◌else◌,
}
use api_gatewahy.ApiAccess.Usage.{Usage}

-- `queue` is the channel `in`, `stored` what InsertUsage took, `touched` the calls of TouchKeys.
pub record UsageMeter : Type 0 where
  pub batch : ℕ
  pub queue : List Usage
  pub pending : List Usage
  pub closed : Bool
  pub draining : Bool  -- in the loop of the case of `done`
  pub stopped : Bool
  pub dropped : ℕ
  pub stored : List Usage
  pub touched : List (List (ℕ × ℕ))

abbrev pub default_batch : ℕ
default_batch = 100

-- NewUsageMeter
unfoldable pub new_meter : ℤ → UsageMeter
new_meter batch = record {
  batch = if le_ℤ batch (pos 0) then default_batch else pos_part batch;
  queue = [];
  pending = [];
  closed = false;
  draining = false;
  stopped = false;
  dropped = 0;
  stored = [];
  touched = [];
}

-- Record, which never blocks: a full channel drops the row.
unfoldable pub record_usage : Usage → UsageMeter → UsageMeter
record_usage u m =
    if m.closed || leb (4 * m.batch) (length m.queue)
    then record m { dropped = m.dropped + 1 }
    else record m { queue = m.queue ++ (u ∷ []) }

-- The loop of flush: `left` attempts from the attempt `i` on, until one succeeds.
unfoldable pub attempts : (ℕ → Bool) → ℕ → ℕ → Bool
attempts answers i zero = false
attempts answers i (suc left) =
    let rest = attempts answers (i + 1) left in if answers i then true else rest

-- seen[k], the zero time on a missing key
unfoldable pub seen_at : ℕ → List (ℕ × ℕ) → ℕ
seen_at k [] = 0
seen_at k ((j, t) ∷ seen) = if j == k then t else seen_at k seen

-- seen[k] = t
unfoldable pub see_at : ℕ → ℕ → List (ℕ × ℕ) → List (ℕ × ℕ)
see_at k t [] = (k, t) ∷ []
see_at k t ((j, s) ∷ seen) =
    let rest = see_at k t seen in if j == k then (k, t) ∷ seen else (j, s) ∷ rest

-- The loop over the rows that were stored.
unfoldable pub last_seen : List (ℕ × ℕ) → List Usage → List (ℕ × ℕ)
unfolding seen_at see_at
last_seen seen [] = seen
last_seen seen (u ∷ us) =
    last_seen (if ltb (seen_at u.key_id seen) u.ts then see_at u.key_id u.ts seen else seen) us

-- flush: an error of TouchKeys is only logged.
unfoldable pub flush : (ℕ → Bool) → List Usage → UsageMeter → UsageMeter
unfolding attempts last_seen
flush answers rows m =
    if attempts answers 0 3
    then record m { stored = m.stored ++ rows; touched = m.touched ++ (last_seen [] rows ∷ []) }
    else record m { dropped = m.dropped + length rows }

-- `if len(pending) >= batch`, after a row was received.
unfoldable pub receive_row : (ℕ → Bool) → UsageMeter → List Usage → UsageMeter
unfolding flush
receive_row answers m [] = m
receive_row answers m (u ∷ us) =
    let pending = m.pending ++ (u ∷ []) in
    if leb m.batch (length pending)
    then flush answers pending (record m { queue = us; pending = [] })
    else record m { queue = us; pending = pending }

abbrev no_rows : List Usage → Bool
no_rows [] = true
no_rows (u ∷ us) = false

unfoldable pub flush_some : (ℕ → Bool) → List Usage → UsageMeter → UsageMeter
unfolding flush
flush_some answers rows m = if no_rows rows then m else flush answers rows m

pub data Event : Type 0 where
  records : Usage → Event
  receives ticks drains : (ℕ → Bool) → Event
  sees_done closes : Event

-- A turn of the loop of the case of `done`: a row is appended with no look at the batch, and an empty
-- channel ends it.
unfoldable pub drain_row : (ℕ → Bool) → UsageMeter → List Usage → UsageMeter
unfolding flush_some
drain_row answers m [] =
    flush_some answers m.pending (record m { pending = []; draining = false; stopped = true })
drain_row answers m (u ∷ us) = record m { queue = us; pending = m.pending ++ (u ∷ []) }

-- `run` is in its outer select.
abbrev pub selects : UsageMeter → Bool
selects m = not m.stopped && not m.draining

-- One event: the three cases of `run`'s select, a turn of its last loop, and the calls of Record and
-- Close. A case that is not ready leaves the meter as it is.
unfoldable pub step : UsageMeter → Event → UsageMeter
unfolding record_usage receive_row flush_some drain_row
step m (records u) = record_usage u m
step m (receives answers) = if selects m then receive_row answers m m.queue else m
step m (ticks answers) =
    if selects m then flush_some answers m.pending (record m { pending = [] }) else m
step m sees_done = if selects m && m.closed then record m { draining = true } else m
step m (drains answers) = if m.draining then drain_row answers m m.queue else m
step m closes = record m { closed = true }

unfoldable pub run : UsageMeter → List Event → UsageMeter
run m [] = m
run m (e ∷ es) = run (step m e) es
