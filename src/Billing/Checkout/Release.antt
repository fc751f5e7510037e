-- ===== src/Billing/Checkout/Release.antt =====
-- A checkout of billing/checkout.go that fails gives its invite back.
use api_gatewahy.Base.{
  ℕ, ◌≡◌, refl, sym, ap, subst, ◌∙◌, Bool, true, false, not, Option, none, some, List, Text, eqb,
  is_empty, Result, ok, err, arith, Bool-cases, inl, inr, if◌then◌else◌,
}
use api_gatewahy.ApiAccess.Entitlement.{Entitlement, has_active_stripe_plan}
use api_gatewahy.ApiAccess.Usage.{Invite}
use api_gatewahy.Billing.Plan.{Plan, line_items}
use api_gatewahy.Billing.Plan.Normal.{PlanError, is_public}
use api_gatewahy.Billing.Resolve.{ResolveError}
use api_gatewahy.Billing.ChangePlan.{price_ids}
use api_gatewahy.Billing.Checkout.{
  CheckoutStore, Checkout, CheckoutRequest, CheckoutError, Session, StripeCall, World,
  created_session, open_session, expire_then, with_customer, stored_customer, made_customer,
  ensure_customer, with_items, with_prices, pay, released, with_invite, with_resolved, with_plan,
  with_entitlements, create, is_active_account, priced, wrong_interval,
}

-- What the checkout relies on of the store: `row` is what the store holds of a token, and `IsGood` the
-- stores whose release of an invite works.
pub record InviteLaws {S E : Type 0} (store : CheckoutStore S E) (V : Type 0) : Type 1 where
  pub row : Text → S → V
  pub IsGood : S → Type 0
  pub list_good : (id : ℕ) (s : S) → IsGood s → IsGood (store.list_entitlements id s).1
  pub list_row : (t : Text) (id : ℕ) (s : S) → row t (store.list_entitlements id s).1 ≡ row t s
  pub customer_good :
      (id : ℕ) (c : Text) (s : S) → IsGood s → IsGood (store.set_stripe_customer_id id c s).1
  pub customer_row :
      (t : Text) (id : ℕ) (c : Text) (s : S)
      → row t (store.set_stripe_customer_id id c s).1 ≡ row t s
  pub consume_good :
      (t email : Text) (now : ℕ) (s : S) → IsGood s → IsGood (store.consume_invite t email now s).1
  pub consume_fails :
      (t email : Text) (now : ℕ) (s : S) (e : E)
      → (store.consume_invite t email now s).0 ≡ err e
      → row t (store.consume_invite t email now s).1 ≡ row t s
  pub release_restores :
      (t email : Text) (now : ℕ) (s n : S) (i : Invite)
      → IsGood s
      → IsGood n
      → (store.consume_invite t email now s).0 ≡ ok i
      → row t n ≡ row t (store.consume_invite t email now s).1
      → row t (store.release_invite t n).1 ≡ row t s

module _ {S E V : Type 0} (c : Checkout S E) (laws : InviteLaws c.store V)
    (req : CheckoutRequest) where
  -- A store that is good and holds of the invite what `s` does.
  abbrev Keeps : S → S → Type 0
  Keeps s n = laws.IsGood n × (laws.row req.invite n ≡ laws.row req.invite s)

  -- An outcome that holds `v` of the invite if it is an error.
  abbrev Returns : V → Result (CheckoutError E) Session × World S → Type 0
  Returns v o = (e : CheckoutError E) → o.0 ≡ err e → laws.row req.invite o.1.store ≡ v

  created_session_store :
      (o : Option Session) (w : World S) → (created_session c req o w).1.store ≡ w.store
  created_session_store none w = refl
  created_session_store (some x) w = refl

  open_session_store :
      (plan : Plan) (items : List (Text × ℕ)) (customer : Text) (w : World S)
      → (open_session c req plan items customer w).1.store ≡ w.store
  unfolding open_session
  open_session_store plan items customer w = created_session_store _ _

  expire_then_store :
      (plan : Plan) (items : List (Text × ℕ)) (customer : Text) (o : Option (List Text))
      (w : World S)
      → (expire_then c req plan items customer o w).1.store ≡ w.store
  unfolding expire_then
  expire_then_store plan items customer none w = refl
  expire_then_store plan items customer (some ids) w = open_session_store plan items customer _

  with_customer_store :
      (plan : Plan) (items : List (Text × ℕ)) (x : Result (CheckoutError E) (Text × Bool) × World S)
      → (with_customer c req plan items x).1.store ≡ x.1.store
  unfolding with_customer
  with_customer_store plan items (err e, w) = refl
  with_customer_store plan items (ok (id, true), w) = open_session_store plan items id w
  with_customer_store plan items (ok (id, false), w) = expire_then_store plan items id _ w

  stored_customer_store :
      (made : Text) (calls : List StripeCall) (x : Result E Text × S)
      → (stored_customer c req made calls x).1.store ≡ x.1
  unfolding stored_customer
  stored_customer_store made calls (err e, s) = refl
  stored_customer_store made calls (ok id, s) = refl

  made_customer-Keeps :
      (calls : List StripeCall) (o : Option Text) (s : S) (w : World S)
      → Keeps s w.store
      → Keeps s (made_customer c req calls o w).1.store
  unfolding made_customer
  made_customer-Keeps calls none s w k = k
  made_customer-Keeps calls (some made) s w (g, r) =
      simp
        (stored_customer_store made calls
          (c.store.set_stripe_customer_id req.account.id made w.store))
        (
          laws.customer_good req.account.id made w.store g,
          laws.customer_row req.invite req.account.id made w.store ∙ r,
        )

  ensure_customer-Keeps :
      (s : S) (w : World S) → Keeps s w.store → Keeps s (ensure_customer c req w).1.store
  unfolding ensure_customer
  ensure_customer-Keeps s w k = elim (Bool-cases (is_empty req.account.stripe_customer_id)) [
    | inl y ↦ simp y (made_customer-Keeps _ _ s w k)
    | inr n ↦ simp n k
  ]

  with_items-Keeps :
      (plan : Plan) (r : Result (CheckoutError E) (List (Text × ℕ))) (s : S) (w : World S)
      → Keeps s w.store
      → Keeps s (with_items c req plan r w).1.store
  unfolding with_items
  with_items-Keeps plan (err e) s w k = k
  with_items-Keeps plan (ok items) s w k =
      simp (with_customer_store plan items (ensure_customer c req w)) (ensure_customer-Keeps s w k)

  with_prices-Keeps :
      (plan : Plan) (o : Option (List (Text × Text))) (s : S) (w : World S)
      → Keeps s w.store
      → Keeps s (with_prices c req plan o w).1.store
  unfolding with_prices
  with_prices-Keeps plan none s w k = k
  with_prices-Keeps plan (some ids) s w k =
      with_items-Keeps plan (priced ids (line_items c.catalog plan)) s w k

  pay-Keeps :
      (plan : Plan) (s : S) (w : World S) → Keeps s w.store → Keeps s (pay c req plan w).1.store
  unfolding pay
  pay-Keeps plan s w k = with_prices-Keeps plan (price_ids (c.api.list_prices w.calls)) s w k

  -- The deferred release, of an outcome that still holds the invite as the consume left it.
  released-Returns :
      (now : ℕ) (s : S) (i : Invite) (o : Result (CheckoutError E) Session × World S)
      → laws.IsGood s
      → (c.store.consume_invite req.invite req.account.email now s).0 ≡ ok i
      → Keeps (c.store.consume_invite req.invite req.account.email now s).1 o.1.store
      → Returns (laws.row req.invite s) (released c req o)
  unfolding released
  released-Returns now s i (ok x, w) g h k e q = ground arith
  released-Returns now s i (err x, w) g h (g', r) e q =
      laws.release_restores req.invite req.account.email now s w.store i g g' h r

  paid :
      (plan : Plan) (i : Invite) (w : World S) (s from : S)
      → Keeps from s
      → Keeps from
          (if not (eqb i.interval_key plan.interval)
            then (err (wrong_interval i.interval_key plan.interval), record w { store = s })
            else pay c req plan (record w { store = s })).1.store
  paid plan i w s from k = elim (Bool-cases (eqb i.interval_key plan.interval)) [
    | inl y ↦ simp y (pay-Keeps plan from (record w { store = s }) k)
    | inr n ↦ simp n k
  ]

  with_invite-Returns :
      (plan : Plan) (w : World S) (x : Result E Invite × S)
      → c.store.consume_invite req.invite req.account.email c.now w.store ≡ x
      → laws.IsGood w.store
      → Returns (laws.row req.invite w.store) (with_invite c req plan x w)
  unfolding with_invite
  with_invite-Returns plan w (err f, s) h g e q =
      ap (λ x. laws.row req.invite x.1) (sym h)
      ∙ laws.consume_fails req.invite req.account.email c.now w.store f (ap (λ x. x.0) h)
  with_invite-Returns plan w (ok i, s) h g e q =
      let consumed = c.store.consume_invite req.invite req.account.email c.now w.store in
      let base : Keeps consumed.1 s =
        subst (λ x. Keeps consumed.1 x.1) h
          (laws.consume_good req.invite req.account.email c.now w.store g, refl) in
      released-Returns c.now w.store i _ g (ap (λ x. x.0) h) (paid plan i w s consumed.1 base) e q

  with_resolved-Returns :
      (plan : Plan) (o : Option ResolveError) (w : World S)
      → laws.IsGood w.store
      → Returns (laws.row req.invite w.store) (with_resolved c req plan o w)
  unfolding with_resolved
  with_resolved-Returns plan (some f) w g = λ e q. refl
  with_resolved-Returns plan none w g =
      elim (Bool-cases (is_public (c.catalog.find_interval plan.interval))) [
        | inl y ↦ simp y (λ e q. (pay-Keeps plan w.store w (g, refl)).1)
        | inr n ↦ simp n (with_invite-Returns plan w _ refl g)
      ]

  with_plan-Returns :
      (r : Result PlanError Plan) (w : World S)
      → laws.IsGood w.store
      → Returns (laws.row req.invite w.store) (with_plan c req r w)
  unfolding with_plan
  with_plan-Returns (err f) w g = λ e q. refl
  with_plan-Returns (ok plan) w g = with_resolved-Returns plan _ w g

  with_entitlements-Returns :
      (x : Result E (List Entitlement) × S) (w : World S)
      → Keeps w.store x.1
      → Returns (laws.row req.invite w.store) (with_entitlements c req x w)
  unfolding with_entitlements
  with_entitlements-Returns (err f, s) w (g, r) = λ e q. r
  with_entitlements-Returns (ok ents, s) w (g, r) =
      elim (Bool-cases (has_active_stripe_plan ents)) [
        | inl y ↦ simp y (λ e q. r)
        | inr n ↦ simp n (λ e q. with_plan-Returns _ (record w { store = s }) g e q ∙ r)
      ]

  -- Whichever step of a checkout fails, the account's status, its plan, the invite's interval, a price,
  -- the customer or Stripe, the store holds of the invite what it held before the checkout.
  pub create-Returns :
      (w : World S) → laws.IsGood w.store → Returns (laws.row req.invite w.store) (create c req w)
  unfolding create
  create-Returns w g = elim (Bool-cases (is_active_account req.account.status)) [
    | inl y ↦ simp y (
        with_entitlements-Returns (c.store.list_entitlements req.account.id w.store) w (
          laws.list_good req.account.id w.store g,
          laws.list_row req.invite req.account.id w.store,
        ))
    | inr n ↦ simp n (λ e q. refl)
  ]
