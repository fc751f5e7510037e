-- ===== src/ApiAccess/Events.antt =====
-- apiaccess/events.go: the table stripe_events, keyed by event id. `now` is the database's clock.
use api_gatewahy.Base.{
  ℕ, ◌+◌, ◌≡◌, refl, Bool, true, false, not, ◌&&◌, ◌||◌, Option, none, some, List, [], ◌∷◌, Text,
  eqb_refl, eqb_iff, lookup, insert_key, lookup-insert_key, erase, lookup-erase, ltb, arith,
  if◌then◌else◌,
}

pub record EventRow : Type 0 where
  pub typ : Text
  pub received_at : ℕ
  pub processed_at : Option ℕ

abbrev pub Events : Type 0
Events = List (Text × EventRow)

abbrev pub event_reclaim_after : ℕ
event_reclaim_after = 300_000_000_000

abbrev is_unprocessed : Option ℕ → Bool
is_unprocessed none = true
is_unprocessed (some t) = false

-- The insert, and its update of a row that is there: whether a row was written.
unfoldable begin_row : Text → Text → ℕ → Option EventRow → Events → Bool × Events
begin_row id typ now none rows =
    (true, insert_key id (record { typ = typ; received_at = now; processed_at = none }) rows)
begin_row id typ now (some e) rows =
    if is_unprocessed e.processed_at && ltb (e.received_at + event_reclaim_after) now
    then (true, insert_key id (record e { received_at = now }) rows)
    else (false, rows)

-- BeginStripeEvent
unfoldable pub begin_event : Text → Text → ℕ → Events → Bool × Events
unfolding begin_row
begin_event id typ now rows = begin_row id typ now (lookup id rows) rows

unfoldable finish_row : Text → ℕ → Option EventRow → Events → Events
finish_row id now none rows = rows
finish_row id now (some e) rows = insert_key id (record e { processed_at = some now }) rows

-- FinishStripeEvent
unfoldable pub finish_event : Text → ℕ → Events → Events
unfolding finish_row
finish_event id now rows = finish_row id now (lookup id rows) rows

-- DeleteStripeEvent
unfoldable pub delete_event : Text → Events → Events
delete_event id rows = erase id rows

-- PruneStripeEvents
unfoldable pub prune_events : ℕ → Events → Events × ℕ
prune_events before [] = ([], 0)
prune_events before ((id, e) ∷ rows) =
    let (kept, n) = prune_events before rows in
    if ltb e.received_at before then (kept, n + 1) else ((id, e) ∷ kept, n)

-- An event that this claim or an earlier one holds: processed, or claimed in the last five minutes.
abbrev pub is_held : ℕ → Option EventRow → Bool
is_held now none = false
is_held now (some e) =
    not (is_unprocessed e.processed_at) || not (ltb (e.received_at + event_reclaim_after) now)

-- A claim succeeds exactly when the event is not held, and it is held afterwards at once.
pub begin_event_lem :
    (id typ : Text) (now : ℕ) (rows : Events)
    → ((begin_event id typ now rows).0 ≡ not (is_held now (lookup id rows)))
      × (is_held now (lookup id (begin_event id typ now rows).1) ≡ true)
unfolding begin_event
begin_event_lem id typ now rows = go (lookup id rows) refl
  where
    go :
        (o : Option EventRow)
        → lookup id rows ≡ o
        → ((begin_row id typ now o rows).0 ≡ not (is_held now o))
          × (is_held now (lookup id (begin_row id typ now o rows).1) ≡ true)
    go none e = (
      refl,
      ground (
        arith,
        lookup-insert_key id id (record { typ = typ; received_at = now; processed_at = none }) rows,
        eqb_refl id,
      ),
    )
    go (some v) e =
        ground
          (arith, e, lookup-insert_key id id (record v { received_at = now }) rows, eqb_refl id)

-- A finished event stays held for good, by any clock.
pub finish_event_held :
    (id : Text) (now later : ℕ) (rows : Events) (v : EventRow)
    → lookup id rows ≡ some v
    → is_held later (lookup id (finish_event id now rows)) ≡ true
unfolding finish_event
finish_event_held id now later rows v e =
    ground
      (arith, e, lookup-insert_key id id (record v { processed_at = some now }) rows, eqb_refl id)

-- A deleted claim is held by no one.
pub delete_event_free :
    (id : Text) (now : ℕ) (rows : Events) → is_held now (lookup id (delete_event id rows)) ≡ false
unfolding delete_event
delete_event_free id now rows = ground (arith, lookup-erase id id rows, eqb_refl id)

-- After a claim, the event has a row.
pub begin_event_present :
    (id typ : Text) (now : ℕ) (rows : Events)
    → (v : EventRow) × (lookup id (begin_event id typ now rows).1 ≡ some v)
begin_event_present id typ now rows =
    present (lookup id (begin_event id typ now rows).1) (begin_event_lem id typ now rows).1
  where
    present : (o : Option EventRow) → is_held now o ≡ true → (v : EventRow) × (o ≡ some v)
    present none h = ground arith
    present (some v) h = (v, refl)

abbrev pub is_finished : Option EventRow → Bool
is_finished none = false
is_finished (some e) = not (is_unprocessed e.processed_at)

-- A finished event is held, by any clock.
pub is_finished_held : (now : ℕ) (o : Option EventRow) → is_finished o ≡ true → is_held now o ≡ true
is_finished_held now none h = ground arith
is_finished_held now (some e) h = ground arith

-- A claim of any event leaves a finished one finished.
pub begin_event_finished :
    (id other typ : Text) (now : ℕ) (rows : Events)
    → is_finished (lookup id rows) ≡ true
    → is_finished (lookup id (begin_event other typ now rows).1) ≡ true
unfolding begin_event
begin_event_finished id other typ now rows h = go (lookup other rows) refl
  where
    go :
        (o : Option EventRow)
        → lookup other rows ≡ o
        → is_finished (lookup id (begin_row other typ now o rows).1) ≡ true
    go none e = ground (
      arith,
      h,
      e,
      eqb_iff other id,
      lookup-insert_key other id (record { typ = typ; received_at = now; processed_at = none })
          rows,
    )
    go (some v) e = ground (
      arith,
      h,
      e,
      eqb_iff other id,
      lookup-insert_key other id (record v { received_at = now }) rows,
    )

-- The end of any event leaves a finished one finished.
pub finish_event_finished :
    (id other : Text) (now : ℕ) (rows : Events)
    → is_finished (lookup id rows) ≡ true
    → is_finished (lookup id (finish_event other now rows)) ≡ true
unfolding finish_event
finish_event_finished id other now rows h = go (lookup other rows) refl
  where
    go :
        (o : Option EventRow)
        → lookup other rows ≡ o
        → is_finished (lookup id (finish_row other now o rows)) ≡ true
    go none e = h
    go (some v) e = ground (
      arith,
      h,
      e,
      eqb_iff other id,
      lookup-insert_key other id (record v { processed_at = some now }) rows,
    )

-- The end of a claimed event finishes it.
pub finish_event_lem :
    (id : Text) (now : ℕ) (rows : Events) (v : EventRow)
    → lookup id rows ≡ some v
    → is_finished (lookup id (finish_event id now rows)) ≡ true
unfolding finish_event
finish_event_lem id now rows v e =
    ground
      (arith, e, lookup-insert_key id id (record v { processed_at = some now }) rows, eqb_refl id)
