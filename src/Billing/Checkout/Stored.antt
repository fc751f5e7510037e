-- ===== src/Billing/Checkout/Stored.antt =====
-- The store of apiaccess/apiaccesstest/memstore.go as that of billing/checkout.go.
use api_gatewahy.Base.{
  ℕ, ◌≡◌, refl, ap, ◌∙◌, not, Option, none, some, Text, eqb, is_empty, any, Bool-cases, inl, inr,
  codes, lookup, ◌&&◌,
}
use api_gatewahy.ApiAccess.Key.{Account}
use api_gatewahy.ApiAccess.Usage.{Invite}
use api_gatewahy.ApiAccess.MemStore.{
  MemStore, StoreError, entered, enter_id, after_entry, Operation,
}
use api_gatewahy.ApiAccess.MemStore.Accounts.{
  account_of, set_customer, set_stripe_customer_id, write_account,
}
use api_gatewahy.ApiAccess.MemStore.Rows.{list_entitlements}
use api_gatewahy.ApiAccess.MemStore.Tokens.{consume_invite, release_invite}
use api_gatewahy.ApiAccess.MemStore.Nonces.{Free}
use api_gatewahy.ApiAccess.MemStore.Invites.{
  invite_of, consume_invite-faults, consume_invite_fails, consume_invite_once,
}
use api_gatewahy.Billing.Checkout.{CheckoutStore}
use api_gatewahy.Billing.Checkout.Release.{InviteLaws}

-- Two stores with the same invites and faults.
abbrev pub SameInvites : MemStore → MemStore → Type 0
SameInvites m n = (n.invites ≡ m.invites) × (n.faults ≡ m.faults)

-- A method whose body keeps the invites keeps them.
entered-SameInvites :
    {A : Type 0} (method : Text) (id : ℕ) (body : Operation A) (m : MemStore)
    → ((n : MemStore) → SameInvites n (body n).1)
    → SameInvites m (entered method id body m).1
unfolding entered enter_id
entered-SameInvites method id body m h = go (enter_id method id m).0
  where
    go : (o : Option StoreError) → SameInvites m (after_entry body (o, (enter_id method id m).1)).1
    go none = h (enter_id method id m).1
    go (some f) = (refl, refl)

pub list_entitlements-SameInvites :
    (id : ℕ) (m : MemStore) → SameInvites m (list_entitlements id m).1
unfolding list_entitlements
list_entitlements-SameInvites id m =
    entered-SameInvites (codes "ListEntitlements") id _ m (λ n. (refl, refl))

set_customer-SameInvites :
    (id : ℕ) (c : Text) (o : Option Account) (m : MemStore)
    → SameInvites m (set_customer id c o m).1
unfolding set_customer write_account
set_customer-SameInvites id c none m = (refl, refl)
set_customer-SameInvites id c (some a) m = elim (Bool-cases (is_empty a.stripe_customer_id)) [
  | inr n ↦ simp n (refl, refl)
  | inl y ↦
      elim (Bool-cases
        (any (λ other. not (is_empty c) && eqb other.stripe_customer_id c) m.accounts)) [
          | inl t ↦ simp (y, t) (refl, refl)
          | inr f ↦ simp (y, f) (refl, refl)
        ]
]

pub set_stripe_customer_id-SameInvites :
    (id : ℕ) (c : Text) (m : MemStore) → SameInvites m (set_stripe_customer_id id c m).1
unfolding set_stripe_customer_id
set_stripe_customer_id-SameInvites id c m =
    entered-SameInvites (codes "SetStripeCustomerID") id _ m
      (λ n. set_customer-SameInvites id c (account_of id n) n)

module _ (hash_key : Text → Text) where
  abbrev pub checkout_store : CheckoutStore MemStore StoreError
  checkout_store = record {
    list_entitlements = list_entitlements;
    consume_invite = consume_invite hash_key;
    release_invite = release_invite hash_key;
    set_stripe_customer_id = set_stripe_customer_id;
  }

  -- The laws that a checkout relies on, for a store without injected faults.
  unfoldable pub invite_laws : InviteLaws checkout_store (Option Invite)
  invite_laws = record {
    row = invite_of hash_key;
    IsGood = Free;
    list_good = λ id s g. ap (λ f. f.fail) (list_entitlements-SameInvites id s).1 ∙ g;
    list_row = λ t id s. ap (lookup (hash_key t)) (list_entitlements-SameInvites id s).0;
    customer_good = λ id c s g. ap (λ f. f.fail) (set_stripe_customer_id-SameInvites id c s).1 ∙ g;
    customer_row =
        λ t id c s. ap (lookup (hash_key t)) (set_stripe_customer_id-SameInvites id c s).0;
    consume_good =
        λ t email now s g. ap (λ f. f.fail) (consume_invite-faults hash_key t email now s) ∙ g;
    consume_fails = λ t email now s e h. consume_invite_fails hash_key t email now s e h;
    release_restores =
        λ t email now s n i g g' h r. (consume_invite_once hash_key t email now i s n g' h r).1;
  }
