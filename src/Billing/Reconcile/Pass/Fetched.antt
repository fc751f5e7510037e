-- ===== src/Billing/Reconcile/Pass/Fetched.antt =====
-- Which subscriptions a pass of billing/reconcile.go fetches and applies.
use api_gatewahy.Base.{
  ℕ, ◌+◌, ◌≡◌, Bool, true, false, ◌||◌, some, List, [], ◌∷◌, ◌++◌, Text, eqb, contains, length,
}
use api_gatewahy.ApiAccess.Usage.{StripeRef}
use api_gatewahy.Billing.Subscription.{Subscription}
use api_gatewahy.Billing.Reconcile.Pass.{PassOutcome, sub_ids}
use api_gatewahy.Billing.Reconcile.{Reconciler, Effect, fetch_and_apply}

-- What fetching and applying each of the ids, from the `n`-th of the pass on, does to the store and
-- to the alerts.
abbrev pub applied : Reconciler → (ℕ → ℕ) → ℕ → List Text → List Effect
applied r clock n [] = []
applied r clock n (id ∷ ids) =
    (fetch_and_apply r id true (clock n)).effects ++ applied r clock (n + 1) ids

abbrev pub is_listed : Text → List Subscription → Bool
is_listed id [] = false
is_listed id (sub ∷ subs) = eqb sub.id id || is_listed id subs

abbrev pub is_active_ref : Text → List StripeRef → Bool
is_active_ref id [] = false
is_active_ref id (ref ∷ refs) = eqb ref.sub_id id || is_active_ref id refs

-- What a pass that ends without an error has done: `ids` are those that it refetched, and `after` is
-- what followed them.
pub record Fetched (r : Reconciler) (clock : ℕ → ℕ) (out : PassOutcome) : Type 0 where
  pub subs : List Subscription
  pub refs : List StripeRef
  pub ids : List Text
  pub after : List Effect
  pub listed : r.list_subscriptions ≡ some subs
  pub active : r.list_active_refs (applied r clock 0 (sub_ids subs)) ≡ some refs
  pub chosen : (id : Text) → contains ids id ≡ (is_listed id subs || is_active_ref id refs)
  pub counted : out.result.checked ≡ length ids
  pub done : out.effects ≡ applied r clock 0 ids ++ after
