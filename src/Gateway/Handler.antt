-- ===== src/Gateway/Handler.antt =====
-- gateway/handler.go and sig.go: the decisions of `ServeHTTP`, from the request to the signature.
-- The limiters and the resolver are an interface over a state that the requests share.
pub mod Authorize
pub mod Serve
use api_gatewahy.Base.{
  ℕ, ℤ, ◌+◌, ◌-◌, ◌/◌, Bool, true, false, not, ◌&&◌, ◌||◌, Option, none, some, List, [], ◌∷◌, ◌++◌,
  Text, codes, eqb, is_empty, trim_space, to_lower, cut, join, lookup, pos, le_ℤ, lt_ℤ, Result, ok,
  err, if◌then◌else◌,
}
use api_gatewahy.ApiAccess.Entitlement.{scope_dev}
use api_gatewahy.ApiAccess.Key.{Key, Account, AccountStatus, Lookup, looks_like_key}
use api_gatewahy.Gateway.Access.{Access, has_mode, resolve}
use api_gatewahy.Gateway.Resolver.{ResolveError, unknown_key, unavailable}
use api_gatewahy.Gateway.Route.{Route, parse_route, needs_modes, backend_path}

-- The parts of the request that the handler reads; the address is that of clientip.FromRequest.
pub record Request : Type 0 where
  pub method : Text
  pub path : Text
  pub authorization : Text
  pub query_key : Text
  pub client_ip : Text

-- bearerKey: a Bearer scheme is authoritative even with an empty token.
scheme_and_token : Text → Option (Text × Text) → Text × Text
scheme_and_token auth none = (auth, [])
scheme_and_token auth (some p) = p

unfoldable pub bearer_key : Request → Text
unfolding scheme_and_token
bearer_key r =
    let (scheme, token) = scheme_and_token r.authorization (cut r.authorization b' ') in
    if not (is_empty r.authorization) && eqb (to_lower scheme) (codes "bearer")
    then trim_space token
    else r.query_key

-- Each body that `writeError` sends, in the order of the handler.
pub data Reason : Type 0 where
  method_not_allowed not_found unknown_game too_many_from_address : Reason
  missing_key malformed_key unknown_api_key lookup_unavailable revoked_key suspended : Reason
  no_game no_store_scope : Reason
  no_mode : Text → Reason
  no_lookback too_many_requests : Reason

pub record Refusal : Type 0 where
  pub status : ℕ
  pub reason : Reason
  pub game : Text
  pub retry_after : Option ℕ

abbrev pub refuse : ℕ → Reason → Text → Refusal
refuse status reason game = record {
  status = status;
  reason = reason;
  game = game;
  retry_after = none;
}

abbrev pub refuse_until : ℕ → ℕ → Reason → Refusal
refuse_until seconds status reason = record {
  status = status;
  reason = reason;
  game = [];
  retry_after = some seconds;
}

-- What `mintSig` has `apisig.Mint` sign: the link, and the claims.
pub record Claims : Type 0 where
  pub link : Text
  pub api : Text
  pub api_mode : Text
  pub user_email : Text
  pub api_lookback : Option ℤ
  pub expires : ℕ

unfoldable pub mint_claims : Text → Text → Text → List Text → ℤ → ℕ → Claims
mint_claims link email scope modes lookback_days expires = record {
  link = link;
  api = scope;
  api_mode = join modes (codes ",");
  user_email = email;
  api_lookback = (if lt_ℤ (pos 0) lookback_days then some lookback_days else none);
  expires = expires;
}

-- The first mode of the route that the plan lacks.
first_lacking : Access → List Text → Option Text
first_lacking a [] = none
first_lacking a (m ∷ ms) = let rest = first_lacking a ms in if has_mode a m then rest else some m

abbrev pub is_history_route : Route → Bool
is_history_route r = eqb r.kind (codes "history")

check_lookback : Route → Access → Result Refusal Access
check_lookback r a =
    if is_history_route r && le_ℤ a.lookback_days (pos 0)
    then err (refuse 403 no_lookback r.game)
    else ok a

check_modes : Route → Access → Option Text → Result Refusal Access
check_modes r a (some m) = err (refuse 403 (no_mode m) r.game)
check_modes r a none = check_lookback r a

check_scope : Route → Access → Result Refusal Access
check_scope r a =
    if eqb a.store_scope scope_dev || (not (is_history_route r) && is_empty a.store_scope)
    then err (refuse 403 no_store_scope r.game)
    else check_modes r a (first_lacking a (needs_modes r))

check_access : Route → Option Access → Result Refusal Access
check_access r none = err (refuse 403 no_game r.game)
check_access r (some a) = check_scope r a

check_status : Route → Lookup → ℕ → AccountStatus → Result Refusal Access
check_status r lk now AccountStatus.suspended = err (refuse 401 suspended [])
check_status r lk now AccountStatus.active = check_access r (resolve lk.entitlements r.game now)

check_revoked : Route → Lookup → ℕ → Option ℕ → Result Refusal Access
check_revoked r lk now (some t) = err (refuse 401 revoked_key [])
check_revoked r lk now none = check_status r lk now lk.account.status

-- From the looked-up key to the access: every check between the resolver and the account's limiter.
unfoldable pub authorize : Route → Lookup → ℕ → Result Refusal Access
unfolding first_lacking check_lookback check_modes check_scope check_access check_status
    check_revoked
authorize r lk now = check_revoked r lk now lk.key.revoked_at

-- What the handler calls that keeps state: the limiter by address, the two limiters by account
-- (`true` for history), and the resolver. `hash_key` is the hash of a plaintext key.
pub record Gate (S : Type 0) : Type 0 where
  pub allow_ip : S → Text → Bool × S
  pub allow_account : Bool → S → ℕ → Bool × S
  pub resolve_key : S → Text → Result ResolveError Lookup × S
  pub hash_key : Text → Text

pub record Options : Type 0 where
  pub upstreams : List (Text × Text)  -- a game's secret, for each configured game
  pub proxied : List (Text × Text)  -- the games that had a proxy made
  pub link : Text
  pub gateway_email : Text
  pub sig_ttl : ℕ

-- What is handed to the proxy of the game.
pub record Forward : Type 0 where
  pub route : Route
  pub secret : Text
  pub claims : Claims
  pub path : Text
  pub client_ip : Text
  pub key_id : ℕ
  pub account_id : ℕ

pub data Response : Type 0 where
  refused : Refusal → Response
  forwarded : Forward → Response

-- time.Time.Unix, at times after 1970.
abbrev pub unix : ℕ → ℕ
unix t = t / 1_000_000_000 - 62_135_596_800

forward : Options → Request → Route → Text → Lookup → ℕ → Access → Forward
forward o r route secret lk now a = record {
  route = route;
  secret = secret;
  claims =
      mint_claims o.link o.gateway_email a.store_scope a.modes a.lookback_days
        (unix (now + o.sig_ttl));
  path = backend_path route;
  client_ip = r.client_ip;
  key_id = lk.key.id;
  account_id = lk.account.id;
}

module _ {S : Type 0} (g : Gate S) (o : Options) (r : Request) (now : ℕ) where
  limited : Route → Text → Lookup → Access → Bool × S → Response × S
  limited route secret lk a (allowed, s) =
      if allowed
      then (forwarded (forward o r route secret lk now a), s)
      else (refused (refuse 429 too_many_requests []), s)

  authorized : Route → Text → Lookup → Result Refusal Access → S → Response × S
  authorized route secret lk (err x) s = (refused x, s)
  authorized route secret lk (ok a) s =
      limited route secret lk a (g.allow_account (is_history_route route) s lk.account.id)

  resolved : Route → Text → Result ResolveError Lookup × S → Response × S
  resolved route secret (err unknown_key, s) = (refused (refuse 401 unknown_api_key []), s)
  resolved route secret (err unavailable, s) = (refused (refuse_until 30 503 lookup_unavailable), s)
  resolved route secret (ok lk, s) = authorized route secret lk (authorize route lk now) s

  keyed : Route → Text → Text → S → Response × S
  keyed route secret plain s =
      if is_empty plain
      then (refused (refuse 401 missing_key []), s)
      else if not (looks_like_key plain)
      then (refused (refuse 401 malformed_key []), s)
      else resolved route secret (g.resolve_key s (g.hash_key plain))

  addressed : Route → Text → Bool × S → Response × S
  addressed route secret (allowed, s) =
      if allowed
      then keyed route secret (bearer_key r) s
      else (refused (refuse_until 1 429 too_many_from_address), s)

  gamed : Route → Option Text → Option Text → S → Response × S
  gamed route (some secret) (some proxy) s = addressed route secret (g.allow_ip s r.client_ip)
  gamed route _ _ s = (refused (refuse 404 unknown_game route.game), s)

  routed : Option Route → S → Response × S
  routed none s = (refused (refuse 404 not_found []), s)
  routed (some route) s =
      gamed route (lookup route.game o.upstreams) (lookup route.game o.proxied) s

  -- ServeHTTP, up to the proxy.
  unfoldable pub serve : S → Response × S
  unfolding forward limited authorized resolved keyed addressed gamed routed
  serve s =
      if not (eqb r.method (codes "GET"))
      then (refused (refuse 405 method_not_allowed []), s)
      else routed (parse_route r.path) s
