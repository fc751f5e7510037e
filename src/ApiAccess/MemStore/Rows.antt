-- ===== src/ApiAccess/MemStore/Rows.antt =====
-- The operations on entitlements of apiaccess/apiaccesstest/memstore.go. `nil_games` tells whether the
-- slice e.Games is nil, which a list does not tell apart from an empty slice.
use api_gatewahy.Base.{
  ℕ, ◌+◌, Bool, true, false, not, ◌&&◌, ◌||◌, Option, none, some, List, [], ◌∷◌, ◌++◌, Text, codes,
  eqb, is_empty, filter, find_first, update_first, sort_by, leb_text, map, Result, ok, err, ltb,
  ◌==◌, if◌then◌else◌,
}
use api_gatewahy.ApiAccess.Entitlement.{
  Entitlement, EntitlementStatus, unset, active, ended, Source, stripe, manual, trial,
  is_active_stripe_plan,
}
use api_gatewahy.ApiAccess.Canonical.{EntitlementError, canonical_entitlement}
use api_gatewahy.ApiAccess.Key.{Account}
use api_gatewahy.ApiAccess.MemStore.{
  StoreError, not_found, unique_violation, foreign_key, null_games, ref_required,
  stripe_entitlement, invalid_row, MemStore, pg_time, pg_time_ptr, Operation, entered,
}
use api_gatewahy.ApiAccess.MemStore.Accounts.{account_of}
use api_gatewahy.ApiAccess.Usage.{StripeRef}

abbrev or_active : EntitlementStatus → EntitlementStatus
or_active unset = active
or_active active = active
or_active ended = ended

-- The row of `canonical` after CanonicalEntitlement, whose times the columns round.
unfoldable pub with_defaults : ℕ → Entitlement → Entitlement
unfolding pg_time pg_time_ptr
with_defaults clock e = record e {
  status = or_active e.status;
  valid_from = pg_time (if e.valid_from == 0 then clock else e.valid_from);
  valid_until = pg_time_ptr e.valid_until;
}

abbrev defaulted : ℕ → Result EntitlementError Entitlement → Result StoreError Entitlement
defaulted clock (err f) = err (invalid_row f)
defaulted clock (ok e) = ok (with_defaults clock e)

-- canonical
unfoldable pub canonical : ℕ → Entitlement → Result StoreError Entitlement
unfolding with_defaults
canonical clock e = defaulted clock (canonical_entitlement e)

abbrev pub account_known : Option Account → Option StoreError
account_known none = some foreign_key
account_known (some a) = none

-- checkColumns
unfoldable pub check_columns : Bool → Entitlement → MemStore → Option StoreError
unfolding account_of
check_columns nil_games e m =
    if nil_games then some null_games else account_known (account_of e.account_id m)

abbrev pub has_ref : Text → Entitlement → Bool
has_ref ref e = eqb e.external_ref ref

-- entByRef
unfoldable pub ent_by_ref : Text → MemStore → Option Entitlement
ent_by_ref ref m = if is_empty ref then none else find_first (has_ref ref) m.ents

-- copyEntitlement, of a row whose time the columns have rounded or not
unfoldable pub copy_entitlement : Entitlement → Entitlement
unfolding pg_time_ptr
copy_entitlement e = record e { valid_until = pg_time_ptr e.valid_until }

abbrev pub numbered_row : ℕ → ℕ → Entitlement → Entitlement
numbered_row clock id e = record e { id = id; created_at = pg_time clock }

-- insertEntitlement
unfoldable pub insert_entitlement : ℕ → Entitlement → MemStore → Entitlement × MemStore
unfolding copy_entitlement
insert_entitlement clock e m =
    let row = numbered_row clock (m.ent_seq + 1) e in
    (copy_entitlement row, record m { ents = m.ents ++ (row ∷ []); ent_seq = m.ent_seq + 1 })

abbrev pub succeeded : {A : Type 0} → A × MemStore → Result StoreError A × MemStore
succeeded (a, m) = (ok a, m)

unfoldable pub columns_then :
    (Entitlement → Operation Entitlement) → Entitlement → Option StoreError → Operation Entitlement
columns_then body e (some f) m = (err f, m)
columns_then body e none m = body e m

-- prepare, and then `body` on the row that it returns; its errors leave the store.
unfoldable pub prepared_then :
    Bool
    → (Entitlement → Operation Entitlement)
    → Result StoreError Entitlement
    → Operation Entitlement
unfolding check_columns columns_then
prepared_then nil_games body (err f) m = (err f, m)
prepared_then nil_games body (ok e) m = columns_then body e (check_columns nil_games e m) m

unfoldable pub add_unless : ℕ → Entitlement → Option Entitlement → Operation Entitlement
unfolding insert_entitlement
add_unless clock e (some have) m = (err unique_violation, m)
add_unless clock e none m = succeeded (insert_entitlement clock e m)

unfoldable pub add_prepared : ℕ → Entitlement → Operation Entitlement
unfolding add_unless ent_by_ref
add_prepared clock e m = add_unless clock e (ent_by_ref e.external_ref m) m

-- AddEntitlement
unfoldable pub add_entitlement : ℕ → Bool → Entitlement → Operation Entitlement
unfolding entered canonical prepared_then add_prepared
add_entitlement clock nil_games e =
    entered (codes "AddEntitlement") 0
      (prepared_then nil_games (add_prepared clock) (canonical clock e))

-- The columns that the conflict clause writes; id, valid_from, external_ref and created_at stay.
abbrev pub overwritten : Entitlement → Entitlement → Entitlement
overwritten e have = record have {
  account_id = e.account_id;
  source = e.source;
  games = e.games;
  store_scope = e.store_scope;
  modes = e.modes;
  addons = e.addons;
  status = e.status;
  valid_until = e.valid_until;
  note = e.note;
  lookback_days = e.lookback_days;
}

unfoldable pub upsert_row : ℕ → Entitlement → Option Entitlement → Operation Entitlement
unfolding insert_entitlement copy_entitlement
upsert_row clock e none m = succeeded (insert_entitlement clock e m)
upsert_row clock e (some have) m = (
  ok (copy_entitlement (overwritten e have)),
  record m { ents = update_first (has_ref e.external_ref) (overwritten e) m.ents },
)

unfoldable pub upsert_prepared : ℕ → Entitlement → Operation Entitlement
unfolding upsert_row ent_by_ref
upsert_prepared clock e m = upsert_row clock e (ent_by_ref e.external_ref m) m

unfoldable pub upsert_with_ref : ℕ → Bool → Entitlement → Operation Entitlement
unfolding canonical prepared_then upsert_prepared
upsert_with_ref clock nil_games e m =
    if is_empty e.external_ref
    then (err ref_required, m)
    else prepared_then nil_games (upsert_prepared clock) (canonical clock e) m

-- UpsertStripeEntitlement
unfoldable pub upsert_stripe_entitlement : ℕ → Bool → Entitlement → Operation Entitlement
unfolding entered upsert_with_ref
upsert_stripe_entitlement clock nil_games e =
    entered (codes "UpsertStripeEntitlement") 0 (upsert_with_ref clock nil_games e)

abbrev pub is_stripe : Source → Bool
is_stripe stripe = true
is_stripe manual = false
is_stripe trial = false

abbrev pub is_ended : EntitlementStatus → Bool
is_ended ended = true
is_ended unset = false
is_ended active = false

abbrev leb_ref : StripeRef → StripeRef → Bool
leb_ref a b =
    ltb a.account_id b.account_id || (a.account_id == b.account_id && leb_text a.sub_id b.sub_id)

-- ListActiveStripeRefs
unfoldable pub list_active_stripe_refs : Operation (List StripeRef)
unfolding entered
list_active_stripe_refs = entered (codes "ListActiveStripeRefs") 0 (λ m. (
  ok (
      sort_by leb_ref (
        map (λ e. record { account_id = e.account_id; sub_id = e.external_ref })
          (filter (λ e. is_active_stripe_plan e && not (is_empty e.external_ref)) m.ents))),
  m,
))

abbrev pub endable : ℕ → ℕ → Entitlement → Bool
endable id account_id e = e.id == id && (account_id == 0 || e.account_id == account_id)

unfoldable pub ended_at : ℕ → Entitlement → Entitlement
unfolding pg_time
ended_at at e = record e { status = ended; valid_until = some (pg_time at) }

-- The body of the loop, for the first row that its `continue` does not pass over.
unfoldable pub end_row : ℕ → ℕ → ℕ → Option Entitlement → Operation Entitlement
unfolding ended_at copy_entitlement
end_row id account_id at none m = (err not_found, m)
end_row id account_id at (some e) m =
    if is_stripe e.source
    then (err stripe_entitlement, m)
    else if is_ended e.status
    then (err not_found, m)
    else (
      ok (copy_entitlement (ended_at at e)),
      record m { ents = update_first (endable id account_id) (ended_at at) m.ents },
    )

-- EndEntitlement
unfoldable pub end_entitlement : ℕ → ℕ → ℕ → Operation Entitlement
unfolding entered end_row
end_entitlement id account_id at =
    entered (codes "EndEntitlement") id
      (λ m. end_row id account_id at (find_first (endable id account_id) m.ents) m)

-- ListEntitlements
unfoldable pub list_entitlements : ℕ → Operation (List Entitlement)
unfolding entered copy_entitlement
list_entitlements account_id =
    entered (codes "ListEntitlements") account_id
      (λ m. (ok (map copy_entitlement (filter (λ e. e.account_id == account_id) m.ents)), m))
