-- ===== src/Billing/Reconcile/Ended.antt =====
-- Access ends: `apply` of billing/reconcile.go writes the row of an ended subscription although the
-- store lists cannot be read.
use api_gatewahy.Base.{
  ℕ, ◌≡◌, subst, refl, sym, ap, ◌∙◌, Bool, true, false, not, ℤ, Option, none, some, List, [], ◌∷◌,
  ◌++◌, Text, eqb, Result, ok, err, inl, inr, arith, Bool-cases,
}
use api_gatewahy.ApiAccess.Entitlement.{Entitlement, ended}
use api_gatewahy.Billing.Plan.{Package, Catalog, Plan, scope_explicit}
use api_gatewahy.Billing.Plan.Normal.{is_nil, normalize}
use api_gatewahy.Billing.Plan.Normal.Laws.{normalize-Normalized}
use api_gatewahy.Billing.Plan.Metadata.{plan_from_metadata}
use api_gatewahy.Billing.Resolve.{
  StoreLister, ResolvedPlan, ResolveError, resolved, resolve, resolve_package,
}
use api_gatewahy.Billing.Subscription.{Subscription, item_mismatch}
use api_gatewahy.Billing.Reconcile.{
  Account, Effect, alert_stores, Reconciler, Outcome, no_stores, find_account, stripe_entitlement,
  row_status, settled, with_metadata, with_scope, mismatch_alert, with_plan, with_account, apply,
}
use api_gatewahy.Billing.Reconcile.Row.{rows, rows-append, rows-mismatch_alert}

resolve_package-preset :
    (cat : Catalog) (q : Plan) (lister : Option StoreLister) (pkg : Package)
    → eqb pkg.store_scope scope_explicit ≡ false
    → (x : ResolvedPlan) × (resolve_package cat q lister (some pkg) ≡ ok x)
unfolding resolve_package
resolve_package-preset cat q lister pkg e = (resolved cat q pkg pkg.store_scope [] [], rw e refl)

preset-no_stores :
    (pkg : Package) (stores : List Text)
    → is_nil stores ≡ not (eqb pkg.store_scope scope_explicit)
    → no_stores stores ≡ true
    → eqb pkg.store_scope scope_explicit ≡ false
preset-no_stores pkg [] e h = ground arith
preset-no_stores pkg (s ∷ ss) e h = ground arith

-- Only an explicit package needs the store lists: without a store, Resolve does not fail.
resolve-no_stores :
    (cat : Catalog)
    → ((k : Text) (pkg : Package)
        → cat.find_package k ≡ some pkg
        → cat.find_package pkg.key ≡ some pkg)
    → (p q : Plan) (lister : Option StoreLister) → normalize cat p ≡ ok q
    → no_stores q.stores ≡ true
    → (x : ResolvedPlan) × (resolve cat q lister ≡ ok x)
unfolding resolve resolve_package
resolve-no_stores cat own p q lister h s =
    let n = normalize-Normalized cat p h in
    let e = ap cat.find_package n.package_is ∙ own p.package_key n.pkg n.found in
    let (x, f) =
      resolve_package-preset cat q lister n.pkg (preset-no_stores n.pkg q.stores n.stores_iff s) in
    (x, ap (resolve_package cat q lister) e ∙ f)

-- The one row that is written is that of an ended subscription of the account.
abbrev pub EndsAccess : Account → Subscription → Outcome → Type 0
EndsAccess a sub o =
    (o.error ≡ none)
    × ((e : Entitlement) × (rows o.effects ≡ e ∷ [])
        × (e.external_ref ≡ sub.id)
        × (e.account_id ≡ a.id)
        × (e.status ≡ ended))

settled-EndsAccess :
    (before : List Effect) (a : Account) (sub : Subscription) (e : Entitlement) (pass : Bool)
    → rows before ≡ []
    → e.external_ref ≡ sub.id
    → e.account_id ≡ a.id
    → e.status ≡ ended
    → EndsAccess a sub (settled none before e pass)
unfolding settled
settled-EndsAccess before a sub e true h x y z =
    (refl, (e, rows-append before _ ∙ ap (λ (xs : List Entitlement). xs ++ (e ∷ [])) h, x, y, z))
settled-EndsAccess before a sub e false h x y z =
    (refl, (e, rows-append before _ ∙ ap (λ (xs : List Entitlement). xs ++ (e ∷ [])) h, x, y, z))

with_scope-EndsAccess :
    (r : Reconciler) (before : List Effect) (a : Account) (sub : Subscription) (p : Plan)
    (until : Option ℕ) (pass : Bool) (res : Result ResolveError ResolvedPlan)
    → ((e : Entitlement) → r.upsert_error e ≡ none)
    → rows before ≡ []
    → (no_stores p.stores ≡ true → (x : ResolvedPlan) × (res ≡ ok x))
    → EndsAccess a sub (with_scope r before a sub p (ended, until) pass res)
unfolding with_scope stripe_entitlement
with_scope-EndsAccess r before a sub p until pass (ok resolved) u h f =
    rw (u _) (settled-EndsAccess before a sub _ pass h refl refl refl)
with_scope-EndsAccess r before a sub p until pass (err x) u h f =
    elim (Bool-cases (no_stores p.stores)) [
      | inl y ↦ let (z, e) = f y in ground arith
      | inr n ↦
          rw (n, u _)
            (settled-EndsAccess (before ++ (alert_stores sub.id x ∷ [])) a sub _ pass
              (rows-append before _ ∙ ap (λ (xs : List Entitlement). xs ++ []) h) refl refl refl)
    ]

with_plan-EndsAccess :
    (r : Reconciler) (sub : Subscription) (pass : Bool) (now : ℕ) (a : Account) (p : Plan)
    (until : Option ℕ)
    → ((e : Entitlement) → r.upsert_error e ≡ none)
    → (no_stores p.stores ≡ true → (x : ResolvedPlan) × (resolve r.catalog p r.stores ≡ ok x))
    → row_status r sub now ≡ (ended, until)
    → EndsAccess a sub (with_plan r sub pass now a (ok p))
unfolding with_plan
with_plan-EndsAccess r sub pass now a p until u f st =
    subst
      (λ x. EndsAccess a sub (
        with_scope r (mismatch_alert sub.id (item_mismatch r.catalog p sub)) a sub p x pass
          (resolve r.catalog p r.stores)))
      (sym st)
      (with_scope-EndsAccess r (mismatch_alert sub.id (item_mismatch r.catalog p sub)) a sub p until
        pass (resolve r.catalog p r.stores) u
        (rows-mismatch_alert sub.id (item_mismatch r.catalog p sub)) f)

-- Where the status of a subscription ends its row, and its metadata, account and plan are read, applying it
-- returns no error and writes the account's ended row, whatever the store lists answer: in a catalog
-- that finds each package under its own key, and with a database that takes the row.
pub apply-EndsAccess :
    (r : Reconciler) (sub : Subscription) (pass : Bool) (now : ℕ)
    → ((k : Text) (pkg : Package)
        → r.catalog.find_package k ≡ some pkg
        → r.catalog.find_package pkg.key ≡ some pkg)
    → ((e : Entitlement) → r.upsert_error e ≡ none)
    → {p q : Plan} {account_id : ℤ} {a : Account} {until : Option ℕ}
    → plan_from_metadata sub.metadata ≡ ok (p, account_id)
    → find_account r account_id sub ≡ ok a
    → normalize r.catalog p ≡ ok q
    → row_status r sub now ≡ (ended, until)
    → EndsAccess a sub (apply r sub pass now)
unfolding apply with_metadata with_account
apply-EndsAccess r sub pass now own u {p = p} {q = q} {account_id = i} {a = a} {until = until} m f n
      st =
    subst (λ x. EndsAccess a sub (with_metadata r sub pass now x)) (sym m)
      (subst (λ x. EndsAccess a sub (with_account r sub pass now p x)) (sym f)
        (subst (λ x. EndsAccess a sub (with_plan r sub pass now a x)) (sym n)
          (with_plan-EndsAccess r sub pass now a q until u
            (resolve-no_stores r.catalog own p q r.stores n) st)))
