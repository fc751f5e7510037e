-- ===== src/Billing/Checkout/Charges.antt =====
-- The calls to Stripe of `Create` in billing/checkout.go, from the prices to the session.
use api_gatewahy.Base.{
  ℕ, ◌≡◌, refl, ap, ◌∙◌, Bool, true, false, Option, none, some, List, [], ◌∷◌, ◌++◌, Text, is_empty,
  Result, ok, err, arith, Bool-cases, inl, inr, ◌⊎◌, eqb_iff,
}
use api_gatewahy.Billing.Plan.{Plan, line_items}
use api_gatewahy.Billing.ChangePlan.{price_ids}
use api_gatewahy.Billing.Checkout.{
  Checkout, CheckoutRequest, CheckoutError, Session, StripeCall, create_session, create_customer,
  World, stored_customer, made_customer, params, created_session, open_session, expire_then,
  with_customer, ensure_customer, with_items, with_prices, pay, priced, expired,
}

module _ {S E : Type 0} (c : Checkout S E) (req : CheckoutRequest) where
  -- The customer that is billed is the one that the account has, or one that Stripe made for it and
  -- whose id the store holds; `charged` are the calls to Stripe by then.
  abbrev pub Billed : World S → Text → List StripeCall → Type 0
  Billed w customer charged =
      ((is_empty req.account.stripe_customer_id ≡ false)
        × (customer ≡ req.account.stripe_customer_id)
        × (charged ≡ w.calls))
      ⊎ ((is_empty req.account.stripe_customer_id ≡ true)
          × (charged ≡ w.calls ++ (create_customer req.account.email req.account.id ∷ []))
          × ((made : Text) × (c.api.customer_id charged ≡ some made)
              × ((c.store.set_stripe_customer_id req.account.id made w.store).0 ≡ ok customer)))

  -- Stripe is first asked to expire the open sessions of a customer that was not made just now.
  abbrev pub Closed : Text → List StripeCall → List StripeCall → Type 0
  Closed customer charged before =
      ((c.api.customer_id charged ≡ some customer) × (before ≡ charged))
      ⊎ ((sessions : List Text) × (c.api.open_sessions charged customer ≡ some sessions)
          × (before ≡ charged ++ expired sessions))

  -- The last call to Stripe opens a session for the line items at the seeded prices and the metadata of
  -- the plan.
  pub record Opens (plan : Plan) (w : World S) (calls : List StripeCall) : Type 0 where
    pub ids : List (Text × Text)
    pub items : List (Text × ℕ)
    pub customer : Text
    pub charged : List StripeCall
    pub before : List StripeCall
    pub seeded : price_ids (c.api.list_prices w.calls) ≡ some ids
    pub prices : priced {E = E} ids (line_items c.catalog plan) ≡ ok items
    pub billed : Billed w customer charged
    pub closed : Closed customer charged before
    pub last : calls ≡ before ++ (create_session (params c req plan items customer) ∷ [])

  stored_customer-Billed :
      (made : Text) (calls : List StripeCall) (x : Result E Text × S) (id : Text) (created : Bool)
      → (stored_customer c req made calls x).0 ≡ ok (id, created)
      → (x.0 ≡ ok id)
        × ((stored_customer c req made calls x).1.calls ≡ calls)
        × (created ≡ true → made ≡ id)
  unfolding stored_customer
  stored_customer-Billed made calls (err e, s) id created h = ground arith
  stored_customer-Billed made calls (ok stored, s) id created h =
      (ground (arith, h), refl, λ t. ground (arith, h, t, eqb_iff stored made))

  made_customer-Billed :
      (calls : List StripeCall) (o : Option Text) (w : World S) (id : Text) (created : Bool)
      → (made_customer c req calls o w).0 ≡ ok (id, created)
      → ((made_customer c req calls o w).1.calls ≡ calls)
        × ((made : Text) × (o ≡ some made)
            × ((c.store.set_stripe_customer_id req.account.id made w.store).0 ≡ ok id)
            × (created ≡ true → made ≡ id))
  unfolding made_customer
  made_customer-Billed calls none w id created h = ground arith
  made_customer-Billed calls (some made) w id created h =
      let (a, b, d) =
        stored_customer-Billed made calls
          (c.store.set_stripe_customer_id req.account.id made w.store) id created h in
      (b, (made, refl, a, d))

  ensure_customer-Billed :
      (w : World S) (id : Text) (created : Bool)
      → (ensure_customer c req w).0 ≡ ok (id, created)
      → Billed w id (ensure_customer c req w).1.calls
        × (created ≡ true → c.api.customer_id (ensure_customer c req w).1.calls ≡ some id)
  unfolding ensure_customer
  ensure_customer-Billed w id created =
      let calls = w.calls ++ (create_customer req.account.email req.account.id ∷ []) in
      elim (Bool-cases (is_empty req.account.stripe_customer_id)) [
        | inl y ↦ simp y (λ h.
            let (a, (made, b, d, e)) =
              made_customer-Billed calls (c.api.customer_id calls) w id created h in
            (
              inr (refl, a, (made, ap c.api.customer_id a ∙ b, d)),
              λ t. ap c.api.customer_id a ∙ (b ∙ ap some (e t)),
            ))
        | inr n ↦ simp n (λ h. (inl (refl, ground (arith, h), refl), λ t. ground (arith, h, t)))
      ]

  created_session_calls :
      (o : Option Session) (w : World S) → (created_session c req o w).1.calls ≡ w.calls
  created_session_calls none w = refl
  created_session_calls (some x) w = refl

  open_session_calls :
      (plan : Plan) (items : List (Text × ℕ)) (customer : Text) (w : World S)
      → (open_session c req plan items customer w).1.calls
        ≡ w.calls ++ (create_session (params c req plan items customer) ∷ [])
  unfolding open_session
  open_session_calls plan items customer w = created_session_calls _ _

  -- What follows the customer.
  abbrev Ends : Plan → List (Text × ℕ) → Text → Bool → List StripeCall → List StripeCall → Type 0
  Ends plan items customer created charged calls =
      (before : List StripeCall) × (((created ≡ true) × (before ≡ charged))
        ⊎ ((sessions : List Text) × (c.api.open_sessions charged customer ≡ some sessions)
            × (before ≡ charged ++ expired sessions)))
      × (calls ≡ before ++ (create_session (params c req plan items customer) ∷ []))

  expire_then-Ends :
      (plan : Plan) (items : List (Text × ℕ)) (customer : Text) (o : Option (List Text))
      (w : World S) (s : Session)
      → c.api.open_sessions w.calls customer ≡ o
      → (expire_then c req plan items customer o w).0 ≡ ok s
      → Ends plan items customer false w.calls (expire_then c req plan items customer o w).1.calls
  unfolding expire_then
  expire_then-Ends plan items customer none w s q h = ground arith
  expire_then-Ends plan items customer (some sessions) w s q h = (
    w.calls ++ expired sessions,
    inr (sessions, q, refl),
    open_session_calls plan items customer (record w { calls = w.calls ++ expired sessions }),
  )

  with_customer-Ends :
      (plan : Plan) (items : List (Text × ℕ)) (x : Result (CheckoutError E) (Text × Bool) × World S)
      (s : Session)
      → (with_customer c req plan items x).0 ≡ ok s
      → (customer : Text) × (created : Bool) × (x.0 ≡ ok (customer, created))
        × Ends plan items customer created x.1.calls (with_customer c req plan items x).1.calls
  unfolding with_customer
  with_customer-Ends plan items (err e, w) s h = ground arith
  with_customer-Ends plan items (ok (id, true), w) s h =
      (id, true, refl, (w.calls, inl (refl, refl), open_session_calls plan items id w))
  with_customer-Ends plan items (ok (id, false), w) s h =
      (id, false, refl, expire_then-Ends plan items id _ w s refl h)

  with_items-Opens :
      (plan : Plan) (ids : List (Text × Text)) (r : Result (CheckoutError E) (List (Text × ℕ)))
      (w : World S) (s : Session)
      → price_ids (c.api.list_prices w.calls) ≡ some ids
      → priced ids (line_items c.catalog plan) ≡ r
      → (with_items c req plan r w).0 ≡ ok s
      → Opens plan w (with_items c req plan r w).1.calls
  unfolding with_items
  with_items-Opens plan ids (err e) w s p q h = ground arith
  with_items-Opens plan ids (ok items) w s p q h =
      let (customer, created, found, (before, way, last)) =
        with_customer-Ends plan items (ensure_customer c req w) s h in
      let (billed, fresh) = ensure_customer-Billed w customer created found in
      record {
        ids = ids;
        items = items;
        customer = customer;
        charged = (ensure_customer c req w).1.calls;
        before = before;
        seeded = p;
        prices = q;
        billed = billed;
        closed = elim way [ inl (t, e) ↦ inl (fresh t, e) | inr o ↦ inr o ];
        last = last;
      }

  with_prices-Opens :
      (plan : Plan) (o : Option (List (Text × Text))) (w : World S) (s : Session)
      → price_ids (c.api.list_prices w.calls) ≡ o
      → (with_prices c req plan o w).0 ≡ ok s
      → Opens plan w (with_prices c req plan o w).1.calls
  unfolding with_prices
  with_prices-Opens plan none w s p h = ground arith
  with_prices-Opens plan (some ids) w s p h = with_items-Opens plan ids _ w s p refl h

  pub pay-Opens :
      (plan : Plan) (w : World S) (s : Session)
      → (pay c req plan w).0 ≡ ok s
      → Opens plan w (pay c req plan w).1.calls
  unfolding pay
  pay-Opens plan w s h = with_prices-Opens plan _ w s refl h
