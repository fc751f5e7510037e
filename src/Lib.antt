-- ===== src/Lib.antt =====
-- Verification of the MTGBAN API gateway: what it decides, caches, forwards, grants and bills.
--
-- The program has four parts. `apiaccess/` keeps accounts, keys and entitlement rows; `gateway/`
-- decides each API request by them and forwards it, signed, to a game's backend; `billing/` turns
-- catalog plans into Stripe subscriptions and subscriptions into rows; `portal/` is the customers'
-- and admins' site. A request is parsed (Gateway/Route), its key is looked up through a cache
-- (Gateway/Resolver), the rows are joined into an access (Gateway/Access), the handler checks the
-- access (Gateway/Handler) and the proxy rewrites the request and judges the answer (Gateway/Relay).
--
-- Base and its children: Go strings as lists of code points, `strings`, `slices` and `strconv` as far
--   as they are called, maps as association lists, signed integers, `(value, error)` results.
-- ApiAccess/Entitlement, Modes, Scope, Canonical: apiaccess/entitlements.go (the row, ActiveAt,
--   ValidateModes, canonicalStoreScope, CanonicalEntitlement, prepareEntitlement).
-- ApiAccess/Grants: apiaccess/admin_rules.go (ManualGrant, KeyKindFor, SplitList).
-- ApiAccess/Usage: the row types of usage.go, audit.go, demo.go, invites.go and trials.go.
-- ApiAccess/Events: apiaccess/events.go, the table of Stripe events.
-- ApiAccess/MemStore and its children: apiaccess/apiaccesstest/memstore.go, the store in memory that
--   follows the client's SQL: accounts, keys, entitlements, trials, invites, links, events, nonces,
--   usage and audit (Reports, Audit). Run has its calls as data, Sound the constraints of Postgres.
-- ApiAccess/Key: apiaccess/keys.go and accounts.go (the types, GenerateKey, LooksLikeKey).
-- Gateway/Route: gateway/route.go (ParseRoute, BackendPath, NeedsModes).
-- Gateway/Access: gateway/access.go (Resolve, HasMode).
-- Gateway/Resolver: gateway/resolver.go. Resolve is `begin` and then `complete` or `abandon`, since
--   other calls run between the two; storeFetch, staleOrUnavailable, makeRoomLocked, Invalidate.
-- Gateway/Handler: gateway/handler.go (ServeHTTP up to the proxy, bearerKey) and sig.go (mintSig).
-- Gateway/Relay: gateway/handler.go (newProxy: Rewrite, ModifyResponse, and the status that
--   ErrorHandler sends for its errors; privateCacheControl, sigRejected).
-- Gateway/Meter: gateway/meter.go (Record, run, flush, Close as events that interleave; each turn of
--   the loop that empties the channel after Close is one).
-- Gateway/Probe: gateway/probe.go (Check, tick, Run).
-- Config: config/config.go (applyDefaults, Validate, GameNames, CheckoutURLs).
-- Portal/Session: session/session.go (Seal, Open, Encode, Decode, the cookies, CSRF).
-- Portal/Limiter: portal/limiter.go (allow, sweep).
-- Billing/Plan and its children: billing/plan.go (Normalize, Validate, LineItems, Total, Metadata,
--   PlanFromMetadata, planModes, Addons, Describe, Dollars).
-- Billing/Resolve: billing/stores.go (Plan.Resolve, StoreNames).
-- Billing/Subscription: billing/reconcile.go (MapStatus, subPeriodStart, priceLookupKey,
--   itemMismatch) and billing/subscription.go (SubscriptionFor).
-- Billing/Reconcile and Billing/Reconcile/Pass: billing/reconcile.go (apply, findAccount, All,
--   alertDuplicates).
-- Billing/ChangePlan: billing/planchange.go (ChangePlan, prorationBehavior) and priceIDs of stripe.go.
-- Billing/Webhook: billing/webhook.go (ServeHTTP, SubscriptionID) over ApiAccess/Events. A delivery is
--   the steps `begin_delivery` and twice `advance`, since other deliveries run between them.
-- Billing/Checkout: billing/checkout.go (Create, Abandon) and portal.go. Its store is an interface with
--   laws (Billing/Checkout/Release), which ApiAccess/MemStore fills (Billing/Checkout/Stored).
--
-- Numbers are natural numbers unless a sign is read; int64 sums are not wrapped. Times are
-- nanoseconds since Go's zero time, or since 1970 in Portal/Session. The generation of the resolver
-- is taken modulo 2 ^ 64, and what rests on it growing says so. The only fuel is that of a decimal
-- numeral, one round for each unit of the number, which is more than its digits.
--
-- Not under this repository, and parameters here: the rate limiters (`Gate`), the catalog (`Catalog`),
-- Stripe and the database (`Reconciler`, `ChangeEnv`), the hash of a key, the signature of the claims,
-- the signature and JSON of a Stripe event, the answers to a probe and of the usage sink, HMAC, base64
-- and the query encoding of a session, and the parsers of URLs and addresses in a configuration.
-- Not modelled: the parse of client addresses (a request has its address), the sharing of a fetch
-- between calls (each call is given its answer), letter case outside the letters that fold to
-- ASCII, the rates of a configuration, the metering of a request by the handler (the meter itself is),
-- transport errors, SQL but for the table of events, pages, mail and wiring.
pub mod Base
pub mod ApiAccess
pub mod Gateway
pub mod Config
pub mod Portal
pub mod Billing
