-- ===== src/Gateway/Meter/Counts.antt =====
-- The meter of gateway/meter.go counts every row once.
use api_gatewahy.Base.{
  ℕ, ℤ, ◌+◌, ◌≡◌, refl, ap, Bool, true, false, List, [], ◌∷◌, ◌++◌, length, length-append, arith,
}
use api_gatewahy.ApiAccess.Usage.{Usage}
use api_gatewahy.Gateway.Meter.{
  UsageMeter, new_meter, record_usage, flush, receive_row, flush_some, Event, records, receives,
  ticks, drains, closes, step, run, drain_row, sees_done,
}
use api_gatewahy.Gateway.Meter.Sizes.{run-IsWithin, new_meter-IsWithin}

-- The rows that the meter holds, has stored, or has counted as lost.
abbrev pub accounted : UsageMeter → ℕ
accounted m = length m.queue + (length m.pending + (length m.stored + m.dropped))

-- The calls of Record in a run.
abbrev pub recorded : List Event → ℕ
recorded [] = 0
recorded (records u ∷ es) = 1 + recorded es
recorded (receives a ∷ es) = recorded es
recorded (ticks a ∷ es) = recorded es
recorded (drains a ∷ es) = recorded es
recorded (sees_done ∷ es) = recorded es
recorded (closes ∷ es) = recorded es

accounted-flush :
    (a : ℕ → Bool) (rows : List Usage) (m : UsageMeter)
    → accounted (flush a rows m) ≡ accounted m + length rows
unfolding flush
accounted-flush a rows m = ground (arith, length-append m.stored rows)

accounted-receive_row :
    (a : ℕ → Bool) (m : UsageMeter) (q : List Usage)
    → m.queue ≡ q
    → accounted (receive_row a m q) ≡ accounted m
unfolding receive_row
accounted-receive_row a m [] e = refl
accounted-receive_row a m (u ∷ us) e = ground (
  arith,
  e,
  ap (λ (xs : List Usage). length xs) e,
  length-append m.pending (u ∷ []),
  accounted-flush a (m.pending ++ (u ∷ [])) (record m { queue = us; pending = [] }),
)

accounted-flush_some :
    (a : ℕ → Bool) (rows : List Usage) (m : UsageMeter)
    → accounted (flush_some a rows m) ≡ accounted m + length rows
unfolding flush_some
accounted-flush_some a [] m = omega arith
accounted-flush_some a (u ∷ us) m = accounted-flush a (u ∷ us) m

accounted-drain_row :
    (a : ℕ → Bool) (m : UsageMeter) (q : List Usage)
    → m.queue ≡ q
    → accounted (drain_row a m q) ≡ accounted m
unfolding drain_row
accounted-drain_row a m [] e = ground (
  arith,
  accounted-flush_some a m.pending (record m { pending = []; draining = false; stopped = true }),
)
accounted-drain_row a m (u ∷ us) e =
    ground (arith, ap (λ (xs : List Usage). length xs) e, length-append m.pending (u ∷ []))

accounted-step :
    (m : UsageMeter) (e : Event) → accounted (step m e) ≡ accounted m + recorded (e ∷ [])
unfolding step record_usage
accounted-step m (records u) = ground (arith, length-append m.queue (u ∷ []))
accounted-step m (receives a) = ground (arith, accounted-receive_row a m m.queue refl)
accounted-step m (ticks a) =
    ground (arith, accounted-flush_some a m.pending (record m { pending = [] }))
accounted-step m sees_done = ground arith
accounted-step m (drains a) = ground (arith, accounted-drain_row a m m.queue refl)
accounted-step m closes = omega arith

recorded-cons : (e : Event) (es : List Event) → recorded (e ∷ es) ≡ recorded (e ∷ []) + recorded es
recorded-cons (records u) es = omega arith
recorded-cons (receives a) es = omega arith
recorded-cons (ticks a) es = omega arith
recorded-cons (drains a) es = omega arith
recorded-cons sees_done es = omega arith
recorded-cons closes es = omega arith

-- However the events of a run interleave, each recorded row is queued, pending, stored, or counted as
-- dropped, exactly once.
pub accounted-run :
    (m : UsageMeter) (es : List Event) → accounted (run m es) ≡ accounted m + recorded es
unfolding run
accounted-run m [] = omega arith
accounted-run m (e ∷ es) =
    omega (arith, accounted-run (step m e) es, accounted-step m e, recorded-cons e es)

-- Once the goroutine of a new meter has returned, every row that was recorded before or after is
-- stored or counted as dropped: Close loses none.
pub run-stopped :
    (batch : ℤ) (es : List Event)
    → (run (new_meter batch) es).stopped ≡ true
    → length (run (new_meter batch) es).stored + (run (new_meter batch) es).dropped ≡ recorded es
unfolding new_meter
run-stopped batch es h =
    let w = run-IsWithin (new_meter batch) es (new_meter-IsWithin batch) in
    let c = accounted-run (new_meter batch) es in omega (arith, c, w.stopped_empty h)
