-- ===== src/Billing/Reconcile/Row.antt =====
-- The row that `apply` of billing/reconcile.go writes.
use api_gatewahy.Base.{
  ℕ, ◌+◌, ◌≡◌, ◌≢◌, refl, ap, ◌∙◌, Bool, true, false, not, ◌||◌, ℤ, Option, none, some, List, [],
  ◌∷◌, ◌++◌, Text, ltb, Result, ok, err, ◌⊎◌, inl, inr, arith, Bool-cases,
}
use api_gatewahy.ApiAccess.Entitlement.{Entitlement, EntitlementStatus, stripe, active_at}
use api_gatewahy.Billing.Plan.{Plan}
use api_gatewahy.Billing.Plan.Normal.{PlanError, normalize}
use api_gatewahy.Billing.Plan.Metadata.{MetadataError, plan_from_metadata}
use api_gatewahy.Billing.Resolve.{ResolvedPlan, ResolveError, resolve}
use api_gatewahy.Billing.Subscription.{
  Subscription, SubscriptionStatus, sub_active, sub_trialing, sub_past_due, sub_other, map_status,
  item_mismatch,
}
use api_gatewahy.Billing.Reconcile.{
  Account, ReconcileError, Effect, alert_failed, alert_mismatch, alert_stores, alert_duplicates,
  alert_check_failed, upsert, notify, Reconciler, Outcome, StoreError, is_ended, no_stores,
  unresolved, invalid_plan, no_plan, failed, find_account, stripe_entitlement, row_status, settled,
  with_metadata, with_scope, mismatch_alert, with_plan, with_account, apply,
}

-- The rows that the effects write.
abbrev pub rows : List Effect → List Entitlement
rows [] = []
rows (upsert e ∷ es) = e ∷ rows es
rows (_ ∷ es) = rows es

-- Whether a subscription in this status gives access at the time `t`.
abbrev pub entitled : SubscriptionStatus → ℕ → ℕ → ℕ → Bool
entitled sub_active start grace t = true
entitled sub_trialing start grace t = true
entitled sub_past_due start grace t = ltb t (start + grace)
entitled (sub_other s) start grace t = false

-- The row of a subscription gives access while it is active or in trial, in the grace after an unpaid
-- period's start while it is past due, and never in any other status.
pub active_at-map_status :
    (r : Reconciler) (a : Account) (sub : Subscription) (p : Plan) (scope : Text)
    (modes : List Text) (status : SubscriptionStatus) (start end grace now t : ℕ)
    → active_at (stripe_entitlement r a sub p scope modes (map_status status start end grace now)) t
      ≡ entitled status start grace t
unfolding active_at stripe_entitlement map_status
active_at-map_status r a sub p scope modes sub_active start end grace now t = ground arith
active_at-map_status r a sub p scope modes sub_trialing start end grace now t = ground arith
active_at-map_status r a sub p scope modes sub_past_due start end grace now t = ground arith
active_at-map_status r a sub p scope modes (sub_other s) start end grace now t = ground arith

-- The rows of an outcome: exactly one, of this subscription, where it has no error, and else none.
abbrev pub WritesRow : Text → Outcome → Type 0
WritesRow id o =
    (o.error ≡ none)
    × ((e : Entitlement) × (rows o.effects ≡ e ∷ []) × (e.external_ref ≡ id) × (e.source ≡ stripe))

abbrev pub WritesNone : Outcome → Type 0
WritesNone o = (o.error ≢ none) × (rows o.effects ≡ [])

pub rows-append : (es fs : List Effect) → rows (es ++ fs) ≡ rows es ++ rows fs
rows-append [] fs = refl
rows-append (alert_failed i e ∷ es) fs = rows-append es fs
rows-append (alert_mismatch i g w ∷ es) fs = rows-append es fs
rows-append (alert_stores i e ∷ es) fs = rows-append es fs
rows-append (alert_duplicates n is ∷ es) fs = rows-append es fs
rows-append (alert_check_failed ∷ es) fs = rows-append es fs
rows-append (upsert e ∷ es) fs = ap (λ (xs : List Entitlement). e ∷ xs) (rows-append es fs)
rows-append (notify ∷ es) fs = rows-append es fs

rows-failed :
    (before : List Effect) (sub : Subscription) (e : ReconcileError) (pass : Bool)
    → rows before ≡ []
    → WritesNone (failed before sub e pass)
rows-failed before sub e true h = (ground arith, h)
rows-failed before sub e false h = (
  ground arith,
  rows-append before (alert_failed sub.id e ∷ []) ∙ ap (λ (xs : List Entitlement). xs ++ []) h,
)

-- What one outcome of a subscription is: its one row, or none and an error.
abbrev pub Settles : Text → Outcome → Type 0
Settles id o = WritesRow id o ⊎ WritesNone o

settled-Settles :
    (x : Option StoreError) (before : List Effect) (e : Entitlement) (pass : Bool)
    → rows before ≡ []
    → e.source ≡ stripe
    → Settles e.external_ref (settled x before e pass)
unfolding settled
settled-Settles (some x) before e pass h s = inr (ground arith, h)
settled-Settles none before e true h s =
    inl
      (refl, (e, rows-append before _ ∙ ap (λ (xs : List Entitlement). xs ++ (e ∷ [])) h, refl, s))
settled-Settles none before e false h s =
    inl
      (refl, (e, rows-append before _ ∙ ap (λ (xs : List Entitlement). xs ++ (e ∷ [])) h, refl, s))

with_scope-Settles :
    (r : Reconciler) (before : List Effect) (a : Account) (sub : Subscription) (p : Plan)
    (st : EntitlementStatus × Option ℕ) (pass : Bool) (res : Result ResolveError ResolvedPlan)
    → rows before ≡ []
    → Settles sub.id (with_scope r before a sub p st pass res)
unfolding with_scope stripe_entitlement
with_scope-Settles r before a sub p (status, until) pass (ok resolved) h =
    settled-Settles (r.upsert_error _) before _ pass h refl
with_scope-Settles r before a sub p (status, until) pass (err x) h =
    elim (Bool-cases (not (is_ended status) || no_stores p.stores)) [
      | inl y ↦ rw y (inr (rows-failed before sub (unresolved x) pass h))
      | inr n ↦ rw n (
          settled-Settles (r.upsert_error _) (before ++ (alert_stores sub.id x ∷ [])) _ pass
            (rows-append before _ ∙ ap (λ (xs : List Entitlement). xs ++ []) h) refl)
    ]

pub rows-mismatch_alert :
    (id : Text) (m : Option (List (Text × ℕ) × List (Text × ℕ))) → rows (mismatch_alert id m) ≡ []
rows-mismatch_alert id none = refl
rows-mismatch_alert id (some (got, want)) = refl

with_plan-Settles :
    (r : Reconciler) (sub : Subscription) (pass : Bool) (now : ℕ) (a : Account)
    (p : Result PlanError Plan)
    → Settles sub.id (with_plan r sub pass now a p)
unfolding with_plan
with_plan-Settles r sub pass now a (err e) = inr (rows-failed [] sub (invalid_plan e) pass refl)
with_plan-Settles r sub pass now a (ok p) =
    with_scope-Settles r (mismatch_alert sub.id (item_mismatch r.catalog p sub)) a sub p
      (row_status r sub now) pass (resolve r.catalog p r.stores)
      (rows-mismatch_alert sub.id (item_mismatch r.catalog p sub))

with_account-Settles :
    (r : Reconciler) (sub : Subscription) (pass : Bool) (now : ℕ) (p : Plan)
    (a : Result ReconcileError Account)
    → Settles sub.id (with_account r sub pass now p a)
unfolding with_account
with_account-Settles r sub pass now p (err e) = inr (rows-failed [] sub e pass refl)
with_account-Settles r sub pass now p (ok a) =
    with_plan-Settles r sub pass now a (normalize r.catalog p)

with_metadata-Settles :
    (r : Reconciler) (sub : Subscription) (pass : Bool) (now : ℕ)
    (m : Result MetadataError (Plan × ℤ))
    → Settles sub.id (with_metadata r sub pass now m)
unfolding with_metadata
with_metadata-Settles r sub pass now (err e) = inr (rows-failed [] sub no_plan pass refl)
with_metadata-Settles r sub pass now (ok (p, id)) =
    with_account-Settles r sub pass now p (find_account r id sub)

-- Applying a subscription writes exactly one row, a Stripe row of that subscription, and returns no
-- error, or it returns an error and writes no row.
pub apply-Settles :
    (r : Reconciler) (sub : Subscription) (pass : Bool) (now : ℕ)
    → Settles sub.id (apply r sub pass now)
unfolding apply
apply-Settles r sub pass now =
    with_metadata-Settles r sub pass now (plan_from_metadata sub.metadata)
