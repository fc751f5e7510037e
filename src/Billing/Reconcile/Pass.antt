-- ===== src/Billing/Reconcile/Pass.antt =====
-- `Reconciler.All` and `alertDuplicates` of billing/reconcile.go: a pass over all subscriptions.
pub mod Counts
pub mod Fetched
use api_gatewahy.Base.{
  ℕ, suc, ◌+◌, Bool, true, false, not, ◌&&◌, Option, none, some, List, [], ◌∷◌, ◌++◌, Text,
  contains, sort, length, ltb, leb, ◌==◌, if◌then◌else◌,
}
use api_gatewahy.ApiAccess.Usage.{StripeRef}
use api_gatewahy.Billing.Subscription.{Subscription}
use api_gatewahy.Billing.Reconcile.{
  Reconciler, ReconcileError, Effect, alert_duplicates, alert_check_failed, notify, Outcome,
  fetch_and_apply,
}

-- Result; `failures` is the field Errors.
pub record PassResult : Type 0 where
  pub checked : ℕ
  pub failed : ℕ
  pub failures : List ReconcileError
  pub duplicates : ℕ

pub data PassError : Type 0 where
  list_failed refs_failed : PassError

pub record PassOutcome : Type 0 where
  pub error : Option PassError
  pub result : PassResult
  pub effects : List Effect

-- record
unfoldable pub record_outcome : PassResult → Option ReconcileError → PassResult
record_outcome res none = record res { checked = res.checked + 1 }
record_outcome res (some e) = record res {
  checked = res.checked + 1;
  failed = res.failed + 1;
  failures = res.failures ++ (e ∷ []);
}

-- The two loops of All, over the ids that they refetch; the clock is read at each.
unfoldable pub refetch :
    Reconciler → (ℕ → ℕ) → PassResult → List Effect → List Text → PassResult × List Effect
unfolding record_outcome
refetch r clock res before [] = (res, before)
refetch r clock res before (id ∷ ids) =
    let o = fetch_and_apply r id true (clock res.checked) in
    refetch r clock (record_outcome res o.error) (before ++ o.effects) ids

unfoldable pub sub_ids : List Subscription → List Text
sub_ids [] = []
sub_ids (sub ∷ subs) = sub.id ∷ sub_ids subs

-- The active rows that Stripe did not list.
unfoldable pub unlisted : List Text → List StripeRef → List Text
unlisted seen [] = []
unlisted seen (ref ∷ refs) =
    let rest = unlisted seen refs in if contains seen ref.sub_id then rest else ref.sub_id ∷ rest

-- The accounts of the references, each once and in order.
unfoldable pub insert_account : ℕ → List ℕ → List ℕ
insert_account a [] = a ∷ []
insert_account a (b ∷ bs) =
    let rest = insert_account a bs in
    if ltb a b then a ∷ b ∷ bs else if a == b then b ∷ bs else b ∷ rest

unfoldable pub accounts_of : List StripeRef → List ℕ
unfolding insert_account
accounts_of [] = []
accounts_of (ref ∷ refs) = insert_account ref.account_id (accounts_of refs)

unfoldable pub subs_of : ℕ → List StripeRef → List Text
subs_of a [] = []
subs_of a (ref ∷ refs) =
    let rest = subs_of a refs in if ref.account_id == a then ref.sub_id ∷ rest else rest

unfoldable pub duplicate_alerts : List StripeRef → List ℕ → List Effect
unfolding subs_of
duplicate_alerts refs [] = []
duplicate_alerts refs (a ∷ rest_accounts) =
    let rest = duplicate_alerts refs rest_accounts in
    if ltb 1 (length (subs_of a refs))
    then alert_duplicates a (sort (subs_of a refs)) ∷ rest
    else rest

-- alertDuplicates: one alert for each account that it counts
unfoldable pub alerts_of : List StripeRef → List Effect
unfolding accounts_of duplicate_alerts
alerts_of refs = duplicate_alerts refs (accounts_of refs)

-- The check for duplicates, on the rows listed again.
unfoldable pub check_duplicates : PassResult → List Effect → Option (List StripeRef) → PassOutcome
unfolding alerts_of
check_duplicates res before none = record {
  error = none;
  result = res;
  effects = before ++ (alert_check_failed ∷ []);
}
check_duplicates res before (some refs) = record {
  error = none;
  result = record res { duplicates = length (alerts_of refs) };
  effects = before ++ alerts_of refs;
}

unfoldable pub finish_pass : Reconciler → PassResult × List Effect → PassOutcome
unfolding check_duplicates
finish_pass r (res, before) =
    let after = before ++ (if ltb 0 res.checked then notify ∷ [] else []) in
    check_duplicates res after (r.list_active_refs after)

abbrev pub no_result : PassResult
no_result = record { checked = 0; failed = 0; failures = []; duplicates = 0 }

unfoldable pub pass_unlisted :
    Reconciler
    → (ℕ → ℕ)
    → List Text
    → PassResult × List Effect
    → Option (List StripeRef)
    → PassOutcome
unfolding unlisted refetch finish_pass
pass_unlisted r clock listed (res, before) none = record {
  error = some refs_failed;
  result = res;
  effects = before;
}
pass_unlisted r clock listed (res, before) (some refs) =
    finish_pass r (refetch r clock res before (unlisted listed refs))

unfoldable pub pass_listed : Reconciler → (ℕ → ℕ) → Option (List Subscription) → PassOutcome
unfolding pass_unlisted sub_ids
pass_listed r clock none = record { error = some list_failed; result = no_result; effects = [] }
pass_listed r clock (some subs) =
    let (res, before) = refetch r clock no_result [] (sub_ids subs) in
    pass_unlisted r clock (sub_ids subs) (res, before) (r.list_active_refs before)

-- All
unfoldable pub reconcile_all : Reconciler → (ℕ → ℕ) → PassOutcome
unfolding pass_listed
reconcile_all r clock = pass_listed r clock r.list_subscriptions
