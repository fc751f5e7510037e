-- ===== src/Billing.antt =====
-- billing/: catalog plans, Stripe subscriptions, and the entitlement rows that follow them.
pub mod Plan
pub mod Resolve
pub mod Subscription
pub mod Reconcile
pub mod ChangePlan
pub mod Webhook
pub mod Checkout
mod Tests
