-- ===== src/Gateway/Handler/Serve.antt =====
-- What reaches the proxy, and what a refused request may touch.
use api_gatewahy.Base.{
  ◌≡◌, ◌⊎◌, inl, inr, refl, ap, ℕ, ◌+◌, Bool, true, false, ◌&&◌, Option, none, some, Text, codes,
  eqb, lookup, Result, ok, err, arith, Bool-cases,
}
use mathlib.Core.Path.{subst₂}
use api_gatewahy.ApiAccess.Key.{Lookup, looks_like_key}
use api_gatewahy.Gateway.Access.{Access}
use api_gatewahy.Gateway.Route.{Route, parse_route, backend_path}
use api_gatewahy.Gateway.Resolver.{ResolveError, unknown_key, unavailable}
use api_gatewahy.Gateway.Handler.{
  Gate, Options, Request, Response, Forward, Refusal, forwarded, mint_claims, unix, bearer_key,
  authorize, forward, is_history_route, limited, authorized, resolved, keyed, addressed, gamed,
  routed, serve,
}
use api_gatewahy.Gateway.Handler.Authorize.{MayRead, authorize_iff}

forwarded-eq : {f h : Forward} → forwarded f ≡ forwarded h → f ≡ h
forwarded-eq e = cc

module _ {S : Type 0} (g : Gate S) (o : Options) (r : Request) (now : ℕ) where
  -- Everything that was checked before a request reaches the proxy, and what it carries there.
  pub record Passed (s : S) (f : Forward) (t : S) : Type 0 where
    pub is_get : eqb r.method (codes "GET") ≡ true
    pub route_of : parse_route r.path ≡ some f.route
    pub served_game : lookup f.route.game o.upstreams ≡ some f.secret
    pub proxy : Text
    pub proxied_game : lookup f.route.game o.proxied ≡ some proxy
    pub key_shape : looks_like_key (bearer_key r) ≡ true
    pub lk : Lookup
    pub at_ip : S
    pub ip_allowed : g.allow_ip s r.client_ip ≡ (true, at_ip)
    pub at_key : S
    pub key_found : g.resolve_key at_ip (g.hash_key (bearer_key r)) ≡ (ok lk, at_key)
    pub access : Access
    pub may : MayRead f.route lk now access
    pub account_allowed :
        g.allow_account (is_history_route f.route) at_key lk.account.id ≡ (true, t)
    pub signed :
        f.claims
        ≡ mint_claims o.link o.gateway_email access.store_scope access.modes access.lookback_days
            (unix (now + o.sig_ttl))
    pub backend : f.path ≡ backend_path f.route
    pub metered : (f.key_id ≡ lk.key.id) × (f.account_id ≡ lk.account.id)

  -- The part of `Passed` that stands once the request is at one stage.
  record Start (s : S) (route : Route) (secret : Text) (at_ip : S) : Type 0 where
    is_get : eqb r.method (codes "GET") ≡ true
    route_of : parse_route r.path ≡ some route
    served_game : lookup route.game o.upstreams ≡ some secret
    proxy : Text
    proxied_game : lookup route.game o.proxied ≡ some proxy
    ip_allowed : g.allow_ip s r.client_ip ≡ (true, at_ip)

  limited-Passed :
      (s : S) (route : Route) (secret : Text) (at_ip at_key : S) (lk : Lookup) (a : Access)
      (p : Bool × S) {f : Forward} {t : S}
      → Start s route secret at_ip
      → looks_like_key (bearer_key r) ≡ true
      → g.resolve_key at_ip (g.hash_key (bearer_key r)) ≡ (ok lk, at_key)
      → MayRead route lk now a
      → g.allow_account (is_history_route route) at_key lk.account.id ≡ p
      → limited g o r now route secret lk a p ≡ (forwarded f, t)
      → Passed s f t
  unfolding limited forward
  limited-Passed s route secret at_ip at_key lk a (false, u) st k q m e h = ground arith
  limited-Passed s route secret at_ip at_key lk a (true, u) {f} {t} st k q m e h =
      subst₂ (λ f t. Passed s f t) (forwarded-eq (ap (λ x. x.0) h)) (ap (λ x. x.1) h)
        (record {
          is_get = st.is_get;
          route_of = st.route_of;
          served_game = st.served_game;
          proxy = st.proxy;
          proxied_game = st.proxied_game;
          key_shape = k;
          lk = lk;
          at_ip = at_ip;
          ip_allowed = st.ip_allowed;
          at_key = at_key;
          key_found = q;
          access = a;
          may = m;
          account_allowed = e;
          signed = refl;
          backend = refl;
          metered = (refl, refl);
        })

  authorized-Passed :
      (s : S) (route : Route) (secret : Text) (at_ip at_key : S) (lk : Lookup)
      (x : Result Refusal Access) {f : Forward} {t : S}
      → Start s route secret at_ip
      → looks_like_key (bearer_key r) ≡ true
      → g.resolve_key at_ip (g.hash_key (bearer_key r)) ≡ (ok lk, at_key)
      → authorize route lk now ≡ x
      → authorized g o r now route secret lk x at_key ≡ (forwarded f, t)
      → Passed s f t
  unfolding authorized
  authorized-Passed s route secret at_ip at_key lk (err y) st k q e h = ground arith
  authorized-Passed s route secret at_ip at_key lk (ok a) st k q e h =
      limited-Passed s route secret at_ip at_key lk a
        (g.allow_account (is_history_route route) at_key lk.account.id) st k q
        ((authorize_iff route lk now a).0 e) refl h

  resolved-Passed :
      (s : S) (route : Route) (secret : Text) (at_ip : S) (x : Result ResolveError Lookup × S)
      {f : Forward} {t : S}
      → Start s route secret at_ip
      → looks_like_key (bearer_key r) ≡ true
      → g.resolve_key at_ip (g.hash_key (bearer_key r)) ≡ x
      → resolved g o r now route secret x ≡ (forwarded f, t)
      → Passed s f t
  unfolding resolved
  resolved-Passed s route secret at_ip (err unknown_key, u) st k q h = ground arith
  resolved-Passed s route secret at_ip (err unavailable, u) st k q h = ground arith
  resolved-Passed s route secret at_ip (ok lk, u) st k q h =
      authorized-Passed s route secret at_ip u lk (authorize route lk now) st k q refl h

  keyed-Passed :
      (s : S) (route : Route) (secret : Text) (at_ip : S) {f : Forward} {t : S}
      → Start s route secret at_ip
      → keyed g o r now route secret (bearer_key r) at_ip ≡ (forwarded f, t)
      → Passed s f t
  unfolding keyed
  keyed-Passed s route secret at_ip st h =
      resolved-Passed s route secret at_ip (g.resolve_key at_ip (g.hash_key (bearer_key r))) st
        (ground arith) refl (ground arith)

  gamed-Passed :
      (s : S) (route : Route) (secret proxy : Text) (x : Bool × S) {f : Forward} {t : S}
      → eqb r.method (codes "GET") ≡ true
      → parse_route r.path ≡ some route
      → lookup route.game o.upstreams ≡ some secret
      → lookup route.game o.proxied ≡ some proxy
      → g.allow_ip s r.client_ip ≡ x
      → addressed g o r now route secret x ≡ (forwarded f, t)
      → Passed s f t
  unfolding addressed
  gamed-Passed s route secret proxy (false, u) m e l p i h = ground arith
  gamed-Passed s route secret proxy (true, u) m e l p i h =
      keyed-Passed s route secret u
        (record {
          is_get = m;
          route_of = e;
          served_game = l;
          proxy = proxy;
          proxied_game = p;
          ip_allowed = i;
        })
        h

  routed-Passed :
      (s : S) (route : Route) (x y : Option Text) {f : Forward} {t : S}
      → eqb r.method (codes "GET") ≡ true
      → parse_route r.path ≡ some route
      → lookup route.game o.upstreams ≡ x
      → lookup route.game o.proxied ≡ y
      → gamed g o r now route x y s ≡ (forwarded f, t)
      → Passed s f t
  unfolding gamed
  routed-Passed s route (some secret) (some proxy) m e l p h =
      gamed-Passed s route secret proxy (g.allow_ip s r.client_ip) m e l p refl h
  routed-Passed s route (some secret) none m e l p h = ground arith
  routed-Passed s route none y m e l p h = ground arith

  parsed-Passed :
      (s : S) (x : Option Route) {f : Forward} {t : S}
      → eqb r.method (codes "GET") ≡ true
      → parse_route r.path ≡ x
      → routed g o r now x s ≡ (forwarded f, t)
      → Passed s f t
  unfolding routed
  parsed-Passed s none m e h = ground arith
  parsed-Passed s (some route) m e h =
      routed-Passed s route (lookup route.game o.upstreams) (lookup route.game o.proxied) m e refl
        refl h

  -- A request that reaches the proxy is a GET of a parsed route to a game that has an upstream and a
  -- proxy, came from an address within its limit, with a key that is known and may read the route, on an account within
  -- its limit; and the signature claims that account's access and nothing else.
  pub serve-Passed :
      (s : S) {f : Forward} {t : S} → serve g o r now s ≡ (forwarded f, t) → Passed s f t
  unfolding serve
  serve-Passed s h = parsed-Passed s (parse_route r.path) (ground arith) refl (ground arith)

  abbrev Untouched : S → Response × S → Type 0
  Untouched s x = (x.1 ≡ s) ⊎ (x.1 ≡ (g.allow_ip s r.client_ip).1)

  addressed-Untouched :
      (s : S) (route : Route) (secret : Text) (x : Bool × S)
      → (x.0 && looks_like_key (bearer_key r)) ≡ false
      → (addressed g o r now route secret x).1 ≡ x.1
  unfolding addressed keyed
  addressed-Untouched s route secret (false, u) h = refl
  addressed-Untouched s route secret (true, u) h = ground arith

  gamed-Untouched :
      (s : S) (route : Route) (x y : Option Text)
      → ((g.allow_ip s r.client_ip).0 && looks_like_key (bearer_key r)) ≡ false
      → Untouched s (gamed g o r now route x y s)
  unfolding gamed
  gamed-Untouched s route (some secret) (some p) h =
      inr (addressed-Untouched s route secret (g.allow_ip s r.client_ip) h)
  gamed-Untouched s route (some secret) none h = inl refl
  gamed-Untouched s route none y h = inl refl

  routed-Untouched :
      (s : S) (x : Option Route)
      → ((g.allow_ip s r.client_ip).0 && looks_like_key (bearer_key r)) ≡ false
      → Untouched s (routed g o r now x s)
  unfolding routed
  routed-Untouched s none h = inl refl
  routed-Untouched s (some route) h =
      gamed-Untouched s route (lookup route.game o.upstreams) (lookup route.game o.proxied) h

  -- A request that its address's limiter refuses, or whose key is missing or malformed, reaches
  -- neither the key lookup nor a limiter by account: it leaves the state as it was, or as the
  -- limiter by address left it.
  pub serve-no_lookup :
      (s : S)
      → ((g.allow_ip s r.client_ip).0 && looks_like_key (bearer_key r)) ≡ false
      → ((serve g o r now s).1 ≡ s) ⊎ ((serve g o r now s).1 ≡ (g.allow_ip s r.client_ip).1)
  unfolding serve
  serve-no_lookup s h = elim (Bool-cases (eqb r.method (codes "GET"))) [
    | inl y ↦ rw y (routed-Untouched s (parse_route r.path) h)
    | inr n ↦ rw n (inl refl)
  ]
