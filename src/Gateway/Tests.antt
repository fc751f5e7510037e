-- ===== src/Gateway/Tests.antt =====
-- Requests, rows and answers of gateway/ at which the theorems apply.
use api_gatewahy.Base.{
  filter, ℕ, ◌+◌, ◌*◌, ◌≤◌, contains, ℤ, pos, ◌≡◌, ◌≢◌, ◌↔◌, ◌⊎◌, inl, inr, refl, ◌&&◌, ◌||◌, not,
  Bool, true, false, Option, none, some, List, [], ◌∷◌, ◌++◌, Text, codes, eqb, is_empty,
  has_prefix, contains_text, lookup, split, join, all, any, length, ltb, Result, ok, err, arith,
  if◌then◌else◌,
}
use api_gatewahy.ApiAccess.Entitlement.{Entitlement, Source, EntitlementStatus}
use api_gatewahy.ApiAccess.Key.{AccountStatus, key_live, Lookup, looks_like_key}
use api_gatewahy.Gateway.Route.{
  Route, parse_route, backend_path, needs_modes, dotdot, is_game_name, kind_of, backend_prefix,
}
use api_gatewahy.Gateway.Route.Shape.{
  version_prefix, Parsed, parse_route-Parsed, parse_route_complete,
}
use api_gatewahy.Gateway.Route.Safety.{backend_path-safe}
use api_gatewahy.Gateway.Access.{Access, resolve, grants}
use api_gatewahy.Gateway.Access.Union.{IsUnion, resolve-IsUnion}
use api_gatewahy.Gateway.Resolver.{
  Resolver, ResolveError, CacheEntry, Pending, begin, abandon, complete, invalidate, new_resolver,
  served, fetching, entry_locked, unavailable, second,
}
use api_gatewahy.Gateway.Resolver.Cache.{Covers}
use api_gatewahy.Gateway.Resolver.Answers.{begin-complete}
use api_gatewahy.Gateway.Resolver.Bounds.{IsBounded, new_resolver-IsBounded, complete-IsBounded}
use api_gatewahy.Gateway.Resolver.Interleaving.{System, here, next, answer, drop, no_resurrection}
use api_gatewahy.Gateway.Handler.{
  Request, Options, Gate, Forward, authorize, serve, forwarded, mint_claims, bearer_key,
}
use api_gatewahy.Gateway.Handler.Authorize.{MayRead, authorize_iff}
use api_gatewahy.Gateway.Handler.Serve.{Passed, serve-Passed}
use api_gatewahy.Gateway.Relay.{ProxyParams, rewrite, authorization, private_cache_control}
use api_gatewahy.Gateway.Relay.Laws.{
  rewrite-secrets, private_cache_control-directives, spaced, stays, trimmed,
}

abbrev retail_path : Text
retail_path = codes "/v1/magic/retail.json"

abbrev retail_route : Route
retail_route = record {
  game = codes "magic";
  kind = codes "retail";
  rest = codes "mtgban/retail.json";
}

abbrev retail_row : Entitlement
retail_row = record {
  id = 1;
  account_id = 7;
  source = Source.stripe;
  games = codes "magic" ∷ [];
  store_scope = codes "TCG,CK";
  modes = codes "retail" ∷ [];
  addons = [];
  lookback_days = pos 0;
  status = EntitlementStatus.active;
  valid_from = 0;
  valid_until = none;
  external_ref = codes "sub_1";
  note = [];
  created_at = 0;
}

abbrev retail_access : Access
retail_access = record {
  store_scope = codes "CK,TCG";
  modes = codes "retail" ∷ [];
  lookback_days = pos 0;
}

abbrev the_lookup : Lookup
the_lookup = record {
  key = record {
    id = 3;
    account_id = 7;
    hash = codes "h";
    prefix = codes "aaaaaaaa";
    label = [];
    kind = key_live;
    created_at = 0;
    last_used_at = none;
    revoked_at = none;
  };
  account = record {
    id = 7;
    email = codes "a@b.c";
    status = AccountStatus.active;
    created_at = 0;
    note = [];
    stripe_customer_id = [];
    session_epoch = 0;
  };
  entitlements = retail_row ∷ [];
}

resolve_row : resolve (retail_row ∷ []) (codes "magic") 9 ≡ some retail_access
unfolding resolve grants api_gatewahy.ApiAccess.Entitlement.active_at api_gatewahy.Base.contains eqb
    join api_gatewahy.Base.filter api_gatewahy.ApiAccess.Entitlement.is_history
    api_gatewahy.Base.sort split
resolve_row = refl

resolve-IsUnion_example : IsUnion (retail_row ∷ []) (codes "magic") 9 retail_access
resolve-IsUnion_example = resolve-IsUnion (retail_row ∷ []) (codes "magic") 9 resolve_row

authorize_iff_example :
    (authorize retail_route the_lookup 9 ≡ ok retail_access)
    ↔ MayRead retail_route the_lookup 9 retail_access
authorize_iff_example = authorize_iff retail_route the_lookup 9 retail_access

parse_retail : parse_route retail_path ≡ some retail_route
unfolding parse_route has_prefix split contains_text api_gatewahy.Base.cut is_game_name kind_of eqb
parse_retail = refl

parse_route-Parsed_example : Parsed retail_path retail_route
parse_route-Parsed_example = parse_route-Parsed retail_path parse_retail

backend_path-safe_example :
    (contains_text (backend_path retail_route) dotdot ≡ false)
    × ((has_prefix (backend_path retail_route) (codes "/api/mtgban/") ≡ true)
        ⊎ (has_prefix (backend_path retail_route) (codes "/api/v2/") ≡ true))
backend_path-safe_example = backend_path-safe retail_path parse_retail

abbrev search_path : Text
search_path = codes "/v1/magic/search/x"

abbrev search_route : Route
search_route = record {
  game = codes "magic";
  kind = codes "search";
  rest = codes "mtgban/search/x";
}

parse_search : parse_route search_path ≡ some search_route
unfolding parse_route has_prefix split contains_text api_gatewahy.Base.cut is_game_name kind_of
parse_search = refl

search_free : needs_modes search_route ≡ []
unfolding needs_modes eqb
search_free = refl

parse_route_complete_example :
    parse_route (version_prefix false ++ (codes "magic" ++ (b'/' ∷ codes "retail.json")))
    ≡ some (record {
      game = codes "magic";
      kind = kind_of false (codes "retail.json");
      rest = backend_prefix false ++ codes "retail.json";
    })
unfolding is_game_name kind_of has_prefix eqb contains_text
parse_route_complete_example =
    parse_route_complete false (codes "magic") (codes "retail.json") refl refl refl refl

-- A gate that lets everything through and knows one key; its state counts the calls.
abbrev open_gate : Gate ℕ
open_gate = record {
  allow_ip = λ n ip. (true, n + 1);
  allow_account = λ h n a. (true, n + 1);
  resolve_key = λ n k. (ok the_lookup, n + 1);
  hash_key = λ k. k;
}

abbrev one_game : Options
one_game = record {
  upstreams = (codes "magic", codes "secret") ∷ [];
  proxied = (codes "magic", []) ∷ [];
  link = codes "http://b.c";
  gateway_email = codes "g@b.c";
  sig_ttl = 60;
}

abbrev retail_request : Request
retail_request = record {
  method = codes "GET";
  path = retail_path;
  authorization = codes "Bearer ban_live_aaaaaaaaaaaaaaaaaaaaaaaaaaaaaaaa";
  query_key = [];
  client_ip = codes "1.2.3.4";
}

abbrev retail_forward : Forward
retail_forward = record {
  route = retail_route;
  secret = codes "secret";
  claims =
      mint_claims (codes "http://b.c") (codes "g@b.c") (codes "CK,TCG") (codes "retail" ∷ [])
        (pos 0) 0;
  path = codes "/api/mtgban/retail.json";
  client_ip = codes "1.2.3.4";
  key_id = 3;
  account_id = 7;
}

serve_request : serve open_gate one_game retail_request 9 0 ≡ (forwarded retail_forward, 3)
unfolding serve eqb parse_route has_prefix split contains_text api_gatewahy.Base.cut is_game_name
    kind_of lookup bearer_key api_gatewahy.Base.to_lower api_gatewahy.Base.trim_space looks_like_key
    authorize resolve grants api_gatewahy.ApiAccess.Entitlement.active_at
    api_gatewahy.ApiAccess.Entitlement.is_history api_gatewahy.Base.filter api_gatewahy.Base.sort
    join contains api_gatewahy.Gateway.Access.has_mode mint_claims backend_path needs_modes
serve_request = refl

serve-Passed_example : Passed open_gate one_game retail_request 9 0 retail_forward 3
serve-Passed_example = serve-Passed open_gate one_game retail_request 9 0 serve_request

abbrev asked : Pending
asked = record { hash = codes "h"; gen = 0; grace = 600 }

abbrev warm : Resolver
warm = (complete (new_resolver 60) asked (ok the_lookup) 100 101 []).0

begin-complete_example : begin warm (codes "h") 120 ≡ (
    if ltb 120 (100 + 60)
    then served (ok the_lookup)
    else fetching (record { hash = codes "h"; gen = 0; grace = 600 * second }))
unfolding new_resolver
begin-complete_example = begin-complete (new_resolver 60) asked the_lookup 100 101 120 [] refl

abandon-warm : abandon warm asked 200 ≡ ok the_lookup
unfolding abandon complete new_resolver entry_locked lookup api_gatewahy.Base.insert_key
    api_gatewahy.Gateway.Resolver.make_room eqb api_gatewahy.Gateway.Resolver.result
abandon-warm = refl

Covers-empty : Covers [] []
unfolding contains
Covers-empty = λ j h. ground arith

complete-IsBounded_example :
    IsBounded (complete (new_resolver 60) asked (ok the_lookup) 100 101 []).0
unfolding new_resolver
complete-IsBounded_example =
    complete-IsBounded (new_resolver 60) asked (ok the_lookup) 100 101 [] Covers-empty Covers-empty
      (new_resolver-IsBounded 60)

abbrev waiting_system : System
waiting_system = record { resolver = warm; waiting = asked ∷ [] }

abbrev dropped_resolver : Resolver
dropped_resolver = invalidate warm (codes "h")

-- The overtaken call's answer comes after the invalidation, and then another key is invalidated.
abbrev late_resolver : Resolver
late_resolver = (complete dropped_resolver asked (ok the_lookup) 130 131 []).0

no_resurrection_example : entry_locked (invalidate late_resolver (codes "j")) (codes "h") ≡ none
unfolding new_resolver complete invalidate
no_resurrection_example =
    no_resurrection (codes "h") waiting_system (omega arith) (omega arith, tt)
      (next (next here (answer [] [] asked (ok the_lookup) 130 131 [] refl))
        (drop (codes "j") (omega arith)))

was_cached : begin warm (codes "h") 120 ≡ served (ok the_lookup)
unfolding begin complete new_resolver api_gatewahy.Base.eqb api_gatewahy.Base.lookup
    api_gatewahy.Base.insert_key entry_locked api_gatewahy.Gateway.Resolver.make_room
    api_gatewahy.Gateway.Resolver.result
was_cached = refl

abbrev retail_params : ProxyParams
retail_params = record {
  sig = codes "s";
  path = codes "/api/mtgban/retail.json";
  client_ip = codes "1.2.3.4";
  game = codes "magic";
  kind = codes "retail";
}

abbrev asked_query : List (Text × List Text)
asked_query = (codes "key", codes "ban_live_x" ∷ []) ∷ (codes "set", codes "LEA" ∷ []) ∷ []

abbrev asked_header : List (Text × List Text)
asked_header = (codes "Cookie", codes "c" ∷ []) ∷ []

rewrite-secrets_example :
    ((rewrite [] retail_params asked_query asked_header).path ≡ retail_params.path)
    × (lookup (codes "key") (rewrite [] retail_params asked_query asked_header).query ≡ none)
    × (lookup (codes "sig") (rewrite [] retail_params asked_query asked_header).query
        ≡ some (retail_params.sig ∷ []))
    × (lookup authorization (rewrite [] retail_params asked_query asked_header).header ≡ none)
    × (lookup (codes "Cookie") (rewrite [] retail_params asked_query asked_header).header ≡ none)
rewrite-secrets_example = rewrite-secrets [] retail_params asked_query asked_header

private_cache_control-directives_example :
    split (private_cache_control (codes "public, max-age=60, S-MaxAge=9")) b','
    ≡ codes "private"
      ∷ spaced (filter stays (trimmed (split (codes "public, max-age=60, S-MaxAge=9") b',')))
private_cache_control-directives_example =
    private_cache_control-directives (codes "public, max-age=60, S-MaxAge=9")
