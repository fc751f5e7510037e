-- ===== src/Billing/Reconcile/Pass/Counts.antt =====
-- What a pass of billing/reconcile.go counts.
use api_gatewahy.Base.{
  ℕ, ◌+◌, ◌≤◌, ◌≡◌, refl, true, Option, none, some, List, [], ◌∷◌, ◌++◌, Text, length,
  length-append, arith,
}
use api_gatewahy.Billing.Subscription.{Subscription}
use api_gatewahy.Billing.Reconcile.Pass.{
  PassResult, record_outcome, refetch, sub_ids, unlisted, reconcile_all, pass_listed, pass_unlisted,
  finish_pass, check_duplicates, no_result,
}
use api_gatewahy.Billing.Reconcile.{Reconciler, ReconcileError, StripeRef, Effect, fetch_and_apply}

-- What holds of a result at each moment of a pass: each failure is kept.
abbrev pub IsCounted : PassResult → Type 0
IsCounted res = (length res.failures ≡ res.failed) × (res.failed ≤ res.checked)

record_outcome-IsCounted :
    (res : PassResult) (e : Option ReconcileError)
    → IsCounted res
    → IsCounted (record_outcome res e)
unfolding record_outcome
record_outcome-IsCounted res none (f, c) = (f, omega (arith, c))
record_outcome-IsCounted res (some e) (f, c) =
    (omega (arith, length-append res.failures (e ∷ []), f), omega (arith, c))

record_outcome-checked :
    (res : PassResult) (e : Option ReconcileError)
    → (record_outcome res e).checked ≡ res.checked + 1
unfolding record_outcome
record_outcome-checked res none = refl
record_outcome-checked res (some e) = refl

refetch-IsCounted :
    (r : Reconciler) (clock : ℕ → ℕ) (res : PassResult) (before : List Effect) (ids : List Text)
    → IsCounted res
    → IsCounted (refetch r clock res before ids).0
      × ((refetch r clock res before ids).0.checked ≡ res.checked + length ids)
unfolding refetch
refetch-IsCounted r clock res before [] h = (h, ground arith)
refetch-IsCounted r clock res before (id ∷ ids) h =
    let o = fetch_and_apply r id true (clock res.checked) in
    let (c, n) =
      refetch-IsCounted r clock (record_outcome res o.error) (before ++ o.effects) ids
        (record_outcome-IsCounted res o.error h) in
    (c, omega (arith, n, record_outcome-checked res o.error))

check_duplicates-IsCounted :
    (res : PassResult) (before : List Effect) (o : Option (List StripeRef))
    → IsCounted res
    → IsCounted (check_duplicates res before o).result
      × ((check_duplicates res before o).result.checked ≡ res.checked)
unfolding check_duplicates
check_duplicates-IsCounted res before none h = (h, refl)
check_duplicates-IsCounted res before (some refs) h = (h, refl)

pass_unlisted-IsCounted :
    (r : Reconciler) (clock : ℕ → ℕ) (listed : List Text) (s : PassResult × List Effect)
    (o : Option (List StripeRef))
    → IsCounted s.0
    → IsCounted (pass_unlisted r clock listed s o).result
unfolding pass_unlisted finish_pass
pass_unlisted-IsCounted r clock listed (res, before) none h = h
pass_unlisted-IsCounted r clock listed (res, before) (some refs) h =
    let (c, n) = refetch-IsCounted r clock res before (unlisted listed refs) h in
    (check_duplicates-IsCounted _ _ _ c).0

pass_listed-IsCounted :
    (r : Reconciler) (clock : ℕ → ℕ) (o : Option (List Subscription))
    → IsCounted (pass_listed r clock o).result
unfolding pass_listed
pass_listed-IsCounted r clock none = (refl, omega arith)
pass_listed-IsCounted r clock (some subs) =
    let (c, n) = refetch-IsCounted r clock no_result [] (sub_ids subs) (refl, omega arith) in
    pass_unlisted-IsCounted r clock (sub_ids subs) (refetch r clock no_result [] (sub_ids subs))
      (r.list_active_refs (refetch r clock no_result [] (sub_ids subs)).1) c

-- However a pass ends, each failure that it counts is one of its errors, and it counts no more
-- failures than subscriptions.
pub reconcile_all-IsCounted :
    (r : Reconciler) (clock : ℕ → ℕ) → IsCounted (reconcile_all r clock).result
unfolding reconcile_all
reconcile_all-IsCounted r clock = pass_listed-IsCounted r clock r.list_subscriptions
