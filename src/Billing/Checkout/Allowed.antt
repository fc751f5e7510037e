-- ===== src/Billing/Checkout/Allowed.antt =====
-- Which checkouts of billing/checkout.go reach Stripe, and what they send.
use api_gatewahy.Base.{
  ◌≡◌, refl, sym, ap, subst, ◌∙◌, true, false, not, Option, none, some, List, eqb, is_empty, Result,
  ok, err, arith, Bool-cases, inl, inr, ◌⊎◌, if◌then◌else◌,
}
use api_gatewahy.ApiAccess.Entitlement.{Entitlement, has_active_stripe_plan}
use api_gatewahy.ApiAccess.Usage.{Invite}
use api_gatewahy.Billing.Plan.{Plan}
use api_gatewahy.Billing.Plan.Normal.{PlanError, validate, is_public}
use api_gatewahy.Billing.Resolve.{ResolveError, ResolvedPlan, resolve}
use api_gatewahy.Billing.Checkout.{
  Checkout, CheckoutRequest, CheckoutError, Session, StripeCall, World, already, equal, failure_of,
  pay, released, with_invite, with_resolved, with_plan, with_entitlements, create,
  is_active_account, wrong_interval,
}
use api_gatewahy.Billing.Checkout.Charges.{Opens, pay-Opens}

module _ {S E : Type 0} (c : Checkout S E) (req : CheckoutRequest) where
  abbrev Answer : Type 0
  Answer = Result (CheckoutError E) Session × World S

  -- An interval that is not public was paid for with an invite of that interval, which the store gave.
  abbrev pub Invited : Plan → S → Type 0
  Invited plan s =
      is_public (c.catalog.find_interval plan.interval) ≡ false
      → (i : Invite) × ((c.store.consume_invite req.invite req.account.email c.now s).0 ≡ ok i)
        × (eqb i.interval_key plan.interval ≡ true)

  -- The branch of the interval, which is that of the payment where it succeeds.
  abbrev branch : Plan → Invite → S → World S → Answer
  branch plan i n w =
      if not (eqb i.interval_key plan.interval)
      then (err (wrong_interval i.interval_key plan.interval), record w { store = n })
      else pay c req plan (record w { store = n })

  branch-Opens :
      (plan : Plan) (i : Invite) (n : S) (w : World S) (s : Session)
      → (branch plan i n w).0 ≡ ok s
      → Opens c req plan (record w { store = n }) (branch plan i n w).1.calls
        × (eqb i.interval_key plan.interval ≡ true)
  branch-Opens plan i n w s = elim (Bool-cases (eqb i.interval_key plan.interval)) [
    | inl y ↦ simp y (λ h. (pay-Opens c req plan (record w { store = n }) s h, refl))
    | inr f ↦ simp f (λ h. ground (arith, h))
  ]

  released_ok : (o : Answer) (s : Session) → (released c req o).0 ≡ ok s → released c req o ≡ o
  unfolding released
  released_ok (ok t, w) s h = refl
  released_ok (err e, w) s h = ground arith

  with_invite-Opens :
      (plan : Plan) (x : Result E Invite × S) (w : World S) (s : Session)
      → (with_invite c req plan x w).0 ≡ ok s
      → Opens c req plan (record w { store = x.1 }) (with_invite c req plan x w).1.calls
        × ((i : Invite) × (x.0 ≡ ok i) × (eqb i.interval_key plan.interval ≡ true))
  unfolding with_invite
  with_invite-Opens plan (err e, n) w s h = ground arith
  with_invite-Opens plan (ok i, n) w s h =
      let q = released_ok (branch plan i n w) s h in
      let (o, e) = branch-Opens plan i n w s (ap (λ x. x.0) (sym q) ∙ h) in
      (subst (λ x. Opens c req plan (record w { store = n }) x.1.calls) (sym q) o, (i, refl, e))

  -- The store of the calls that bill, after the invite of an interval that is not public was spent.
  abbrev pub spent_store : Plan → S → S
  spent_store plan n =
      if is_public (c.catalog.find_interval plan.interval)
      then n
      else (c.store.consume_invite req.invite req.account.email c.now n).1

  -- The plan was resolved with the request, or it is now.
  abbrev pub Resolves : Plan → Type 0
  Resolves plan =
      ((r : ResolvedPlan) × (req.resolved ≡ some r) × (equal r.plan plan ≡ true))
      ⊎ ((r : ResolvedPlan) × (resolve c.catalog plan c.stores ≡ ok r))

  -- What a checkout that reached Stripe shows, after its entitlements were listed into the store `n`;
  -- `first` are the calls to Stripe before it.
  pub record Paid (n : S) (first calls : List StripeCall) : Type 0 where
    pub plan : Plan
    pub accepted : validate c.catalog req.plan c.games (not (is_empty req.invite)) ≡ ok plan
    pub invited : Invited plan n
    pub resolved_plan : Resolves plan
    pub opens : Opens c req plan (record { store = spent_store plan n; calls = first }) calls

  already-Resolves :
      (plan : Plan) (o : Option ResolvedPlan)
      → req.resolved ≡ o
      → already o plan ≡ true
      → Resolves plan
  already-Resolves plan none q h = ground (arith, h)
  already-Resolves plan (some r) q h = inl (r, q, h)

  failure_of-Resolves :
      (plan : Plan) (x : Result ResolveError ResolvedPlan)
      → resolve c.catalog plan c.stores ≡ x
      → failure_of x ≡ none
      → Resolves plan
  failure_of-Resolves plan (ok r) q h = inr (r, q)
  failure_of-Resolves plan (err e) q h = ground (arith, h)

  refusal-Resolves :
      (plan : Plan)
      → (if already req.resolved plan then none else failure_of (resolve c.catalog plan c.stores))
        ≡ none
      → Resolves plan
  refusal-Resolves plan = elim (Bool-cases (already req.resolved plan)) [
    | inl y ↦ simp y (λ h. already-Resolves plan req.resolved refl y)
    | inr n ↦ simp n (λ h. failure_of-Resolves plan (resolve c.catalog plan c.stores) refl h)
  ]

  with_resolved-Opens :
      (plan : Plan) (o : Option ResolveError) (w : World S) (s : Session)
      → (with_resolved c req plan o w).0 ≡ ok s
      → (o ≡ none)
        × Invited plan w.store
        × Opens c req plan
            (record { store = spent_store plan w.store; calls = w.calls })
            (with_resolved c req plan o w).1.calls
  unfolding with_resolved
  with_resolved-Opens plan (some e) w s = λ h. ground (arith, h)
  with_resolved-Opens plan none w s =
      elim (Bool-cases (is_public (c.catalog.find_interval plan.interval))) [
        | inl y ↦ simp y (λ h. (refl, λ n. ground (arith, n), pay-Opens c req plan w s h))
        | inr f ↦ simp f (λ h.
            let (o, i) =
              with_invite-Opens plan
                (c.store.consume_invite req.invite req.account.email c.now w.store) w s h in
            (refl, λ n. i, o))
      ]

  with_plan-Paid :
      (r : Result PlanError Plan) (w : World S) (s : Session)
      → validate c.catalog req.plan c.games (not (is_empty req.invite)) ≡ r
      → (with_plan c req r w).0 ≡ ok s
      → Paid w.store w.calls (with_plan c req r w).1.calls
  unfolding with_plan
  with_plan-Paid (err e) w s q h = ground arith
  with_plan-Paid (ok plan) w s q h =
      let (n, i, o) = with_resolved-Opens plan _ w s h in
      record {
        plan = plan;
        accepted = q;
        invited = i;
        resolved_plan = refusal-Resolves plan n;
        opens = o;
      }

  with_entitlements-Paid :
      (x : Result E (List Entitlement) × S) (w : World S) (s : Session)
      → (with_entitlements c req x w).0 ≡ ok s
      → ((ents : List Entitlement) × (x.0 ≡ ok ents) × (has_active_stripe_plan ents ≡ false))
        × Paid x.1 w.calls (with_entitlements c req x w).1.calls
  unfolding with_entitlements
  with_entitlements-Paid (err e, n) w s = λ h. ground (arith, h)
  with_entitlements-Paid (ok ents, n) w s = elim (Bool-cases (has_active_stripe_plan ents)) [
    | inl y ↦ simp y (λ h. ground (arith, h))
    | inr f ↦ simp f (λ h. ((ents, refl, f), with_plan-Paid _ (record w { store = n }) s refl h))
  ]

  -- A checkout gives a session only to an active account that has no live Stripe plan, for a plan that
  -- Validate accepts and that resolves, then or with the request, and on an interval that is not public
  -- only with an invite of that interval that the store let it spend. The last call to Stripe then bills
  -- the plan's line items, at the price ids that Stripe listed, to the customer that the account has or
  -- that was made and stored for it, with the plan's metadata and the account's id; Stripe was asked
  -- before to expire the open sessions of a customer that was not made just now.
  pub create-Paid :
      (w : World S) (s : Session)
      → (create c req w).0 ≡ ok s
      → let listed = c.store.list_entitlements req.account.id w.store in
        (is_active_account req.account.status ≡ true)
        × ((ents : List Entitlement) × (listed.0 ≡ ok ents) × (has_active_stripe_plan ents ≡ false))
        × Paid listed.1 w.calls (create c req w).1.calls
  unfolding create
  create-Paid w s = elim (Bool-cases (is_active_account req.account.status)) [
    | inl y ↦ simp y (λ h.
        let (e, p) =
          with_entitlements-Paid (c.store.list_entitlements req.account.id w.store) w s h in
        (refl, e, p))
    | inr f ↦ simp f (λ h. ground (arith, h))
  ]
