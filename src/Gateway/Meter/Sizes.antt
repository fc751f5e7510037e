-- ===== src/Gateway/Meter/Sizes.antt =====
-- The channel and the batch of the meter of gateway/meter.go hold what their sizes allow.
use api_gatewahy.Base.{
  ℕ, ℤ, ◌+◌, ◌*◌, ◌≤◌, ◌<◌, ◌≡◌, refl, ap, Bool, true, false, List, [], ◌∷◌, ◌++◌, length,
  length-append, arith, Bool-cases, suc, leb, inl, inr,
}
use api_gatewahy.ApiAccess.Usage.{Usage}
use api_gatewahy.Gateway.Meter.{
  UsageMeter, new_meter, record_usage, flush, receive_row, flush_some, Event, records, receives,
  ticks, drains, closes, step, run, drain_row, sees_done, selects,
}

-- The channel and the batch stay within their sizes, and what the last loop appends within those of
-- both; a stopped meter is closed and holds nothing.
pub record IsWithin (m : UsageMeter) : Type 0 where
  pub batch_some : 1 ≤ m.batch
  pub queue_fits : length m.queue ≤ 4 * m.batch
  pub pending_fits : m.draining ≡ false → length m.pending < m.batch
  pub drained_fits : length m.queue + length m.pending < 5 * m.batch
  pub draining_closed : m.draining ≡ true → m.closed ≡ true
  pub stopped_closed : m.stopped ≡ true → m.closed ≡ true
  pub stopped_empty : m.stopped ≡ true → (length m.queue ≡ 0) × (length m.pending ≡ 0)

pub new_meter-IsWithin : (batch : ℤ) → IsWithin (new_meter batch)
unfolding new_meter
new_meter-IsWithin batch = record {
  batch_some = ground arith;
  queue_fits = omega arith;
  pending_fits = λ e. ground arith;
  drained_fits = ground arith;
  draining_closed = λ e. ground arith;
  stopped_closed = λ e. ground arith;
  stopped_empty = λ e. ground arith;
}

-- A flush touches neither the channel nor the batch.
abbrev SameRows : UsageMeter → UsageMeter → Type 0
SameRows m n =
    (n.batch ≡ m.batch)
    × (n.queue ≡ m.queue)
    × (n.pending ≡ m.pending)
    × (n.closed ≡ m.closed)
    × (n.draining ≡ m.draining)
    × (n.stopped ≡ m.stopped)

flush-SameRows : (a : ℕ → Bool) (rows : List Usage) (m : UsageMeter) → SameRows m (flush a rows m)
unfolding flush
flush-SameRows a rows m = ground arith

flush_some-SameRows :
    (a : ℕ → Bool) (rows : List Usage) (m : UsageMeter) → SameRows m (flush_some a rows m)
unfolding flush_some
flush_some-SameRows a rows m = ground (arith, flush-SameRows a rows m)

SameRows-IsWithin : (m n : UsageMeter) → SameRows m n → IsWithin m → IsWithin n
SameRows-IsWithin m n (b, q, p, c, d, s) w = record {
  batch_some = ground (arith, w.batch_some);
  queue_fits = ground (arith, w.queue_fits);
  pending_fits = λ e. ground (arith, w.pending_fits);
  drained_fits = ground (arith, w.drained_fits);
  draining_closed = λ e. ground (arith, w.draining_closed);
  stopped_closed = λ e. ground (arith, w.stopped_closed);
  stopped_empty = λ e. ground (arith, w.stopped_empty);
}

-- A meter in its outer select with fewer rows on hand than a batch is within its sizes.
selects-IsWithin :
    (m : UsageMeter)
    → 1 ≤ m.batch
    → length m.queue ≤ 4 * m.batch
    → length m.pending < m.batch
    → selects m ≡ true
    → IsWithin m
selects-IsWithin m b q p s = record {
  batch_some = b;
  queue_fits = q;
  pending_fits = λ e. p;
  drained_fits = omega (arith, b, q, p);
  draining_closed = λ e. ground (arith, s);
  stopped_closed = λ e. ground (arith, s);
  stopped_empty = λ e. ground (arith, s);
}

receive_row-IsWithin :
    (a : ℕ → Bool) (m : UsageMeter) (q : List Usage)
    → m.queue ≡ q
    → selects m ≡ true
    → IsWithin m
    → IsWithin (receive_row a m q)
unfolding receive_row
receive_row-IsWithin a m [] e s w = w
receive_row-IsWithin a m (u ∷ us) e s w =
    let pending = m.pending ++ (u ∷ []) in
    let empty : UsageMeter = record m { queue = us; pending = [] } in
    let l : length m.queue ≡ suc (length us) = ap (λ (xs : List Usage). length xs) e in
    elim (Bool-cases (leb m.batch (length pending))) [
      | inl y ↦ simp y (
          SameRows-IsWithin empty (flush a pending empty) (flush-SameRows a pending empty) (
            selects-IsWithin empty w.batch_some (omega (arith, w.queue_fits, l))
              (omega (arith, w.batch_some)) s))
      | inr n ↦ simp n (
          selects-IsWithin (record m { queue = us; pending = pending }) w.batch_some
            (omega (arith, w.queue_fits, l)) (ground (arith, n)) s)
    ]

drain_row-IsWithin :
    (a : ℕ → Bool) (m : UsageMeter) (q : List Usage)
    → m.queue ≡ q
    → m.draining ≡ true
    → IsWithin m
    → IsWithin (drain_row a m q)
unfolding drain_row
drain_row-IsWithin a m [] e d w =
    let done : UsageMeter = record m { pending = []; draining = false; stopped = true } in
    SameRows-IsWithin done (flush_some a m.pending done) (flush_some-SameRows a m.pending done)
      (record {
        batch_some = w.batch_some;
        queue_fits = w.queue_fits;
        pending_fits = λ x. omega (arith, w.batch_some);
        drained_fits = omega (arith, w.drained_fits);
        draining_closed = λ x. ground arith;
        stopped_closed = λ x. w.draining_closed d;
        stopped_empty = λ x. (ap (λ (xs : List Usage). length xs) e, refl);
      })
drain_row-IsWithin a m (u ∷ us) e d w =
    let l : length m.queue ≡ suc (length us) = ap (λ (xs : List Usage). length xs) e in
    record {
      batch_some = w.batch_some;
      queue_fits = omega (arith, w.queue_fits, l);
      pending_fits = λ x. ground (arith, d, x);
      drained_fits = omega (arith, w.drained_fits, l, length-append m.pending (u ∷ []));
      draining_closed = w.draining_closed;
      stopped_closed = w.stopped_closed;
      stopped_empty = λ x. ground (arith, w.stopped_empty x, l);
    }

pub step-IsWithin : (m : UsageMeter) (e : Event) → IsWithin m → IsWithin (step m e)
unfolding step record_usage
step-IsWithin m (records u) w = record {
  batch_some = ground (arith, w.batch_some);
  queue_fits = ground (arith, w.queue_fits, length-append m.queue (u ∷ []));
  pending_fits = ground (arith, w.pending_fits);
  drained_fits = ground (
    arith,
    w.queue_fits,
    w.drained_fits,
    w.pending_fits,
    w.draining_closed,
    length-append m.queue (u ∷ []),
  );
  draining_closed = ground (arith, w.draining_closed);
  stopped_closed = ground (arith, w.stopped_closed);
  stopped_empty = λ x. ground (arith, w.stopped_closed, w.stopped_empty);
}
step-IsWithin m (receives a) w = elim (Bool-cases (selects m)) [
  | inl y ↦ simp y (receive_row-IsWithin a m m.queue refl y w)
  | inr n ↦ simp n w
]
step-IsWithin m (ticks a) w = elim (Bool-cases (selects m)) [
  | inl y ↦
      let ticked : UsageMeter = record m { pending = [] } in
      simp y (
        SameRows-IsWithin ticked (flush_some a m.pending ticked)
          (flush_some-SameRows a m.pending ticked)
          (selects-IsWithin ticked w.batch_some w.queue_fits (omega (arith, w.batch_some)) y))
  | inr n ↦ simp n w
]
step-IsWithin m sees_done w = record {
  batch_some = ground (arith, w.batch_some);
  queue_fits = ground (arith, w.queue_fits);
  pending_fits = λ x. ground (arith, w.pending_fits);
  drained_fits = ground (arith, w.drained_fits);
  draining_closed = λ x. ground (arith, w.draining_closed);
  stopped_closed = λ x. ground (arith, w.stopped_closed);
  stopped_empty = λ x. ground (arith, w.stopped_empty);
}
step-IsWithin m (drains a) w = elim (Bool-cases m.draining) [
  | inl y ↦ simp y (drain_row-IsWithin a m m.queue refl y w)
  | inr n ↦ simp n w
]
step-IsWithin m closes w = record {
  batch_some = w.batch_some;
  queue_fits = w.queue_fits;
  pending_fits = w.pending_fits;
  drained_fits = w.drained_fits;
  draining_closed = λ x. refl;
  stopped_closed = λ x. refl;
  stopped_empty = w.stopped_empty;
}

-- In every run of a meter that is within its sizes the channel holds at most four batches; less than
-- a batch is pending while `run` selects, and the queued and pending rows together, which the loop
-- after Close appends without a look at the batch, are fewer than five batches.
pub run-IsWithin : (m : UsageMeter) (es : List Event) → IsWithin m → IsWithin (run m es)
unfolding run
run-IsWithin m [] w = w
run-IsWithin m (e ∷ es) w = run-IsWithin (step m e) es (step-IsWithin m e w)
