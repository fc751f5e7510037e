-- ===== src/Gateway/Route/Safety.antt =====
-- What no accepted path can do: climb out of the backend's prefix, or reach history through v1.
use api_gatewahy.Base.{
  ◌≡◌, ◌≢◌, refl, sym, subst, Bool, true, false, ◌⊎◌, inl, inr, some, [], ◌∷◌, ◌++◌, Text, codes,
  eqb_iff, has_prefix, contains_text, contains_text-append, arith,
}
use api_gatewahy.Gateway.Route.{
  Route, dotdot, kind_of, backend_prefix, backend_path, parse_route, needs_modes, v1_prefix,
  plain_kinds, first_kind,
}
use api_gatewahy.Gateway.Route.Shape.{Parsed, parse_route-Parsed, version_prefix}

backend_path-free :
    (v2 : Bool) (sub : Text)
    → contains_text sub dotdot ≡ false
    → contains_text (codes "/api/" ++ (backend_prefix v2 ++ sub)) dotdot ≡ false
unfolding contains_text
backend_path-free false sub h =
    rw (contains_text-append (codes "/api/mtgban") b'/' sub b'.' (b'.' ∷ []) refl) h
backend_path-free true sub h =
    rw (contains_text-append (codes "/api/v2") b'/' sub b'.' (b'.' ∷ []) refl) h

-- The backend path of an accepted route lies under /api/mtgban/ or /api/v2/ and holds no "..", so
-- it cannot climb out of that prefix.
pub backend_path-safe :
    (path : Text) {r : Route}
    → parse_route path ≡ some r
    → (contains_text (backend_path r) dotdot ≡ false)
      × ((has_prefix (backend_path r) (codes "/api/mtgban/") ≡ true)
          ⊎ (has_prefix (backend_path r) (codes "/api/v2/") ≡ true))
unfolding backend_path has_prefix
backend_path-safe path {r} h =
    let p = parse_route-Parsed path h in
    let sub_free : contains_text p.sub dotdot ≡ false =
      ground (arith, p.no_dotdot, contains_text-append r.game b'/' p.sub b'.' (b'.' ∷ []) refl) in
    (rw p.rest_eq (backend_path-free p.v2 p.sub sub_free), rw p.rest_eq (under p.v2 p.sub))
  where
    under :
        (v2 : Bool) (sub : Text)
        → (has_prefix (codes "/api/" ++ (backend_prefix v2 ++ sub)) (codes "/api/mtgban/") ≡ true)
          ⊎ (has_prefix (codes "/api/" ++ (backend_prefix v2 ++ sub)) (codes "/api/v2/") ≡ true)
    under false sub = inl refl
    under true sub = inr refl

-- The kinds whose routes need no mode.
abbrev pub IsFree : Text → Type 0
IsFree kind = (kind ≡ codes "search") ⊎ (kind ≡ codes "meta")

first_kind-cases :
    (sub : Text)
    → (first_kind sub plain_kinds ≡ [])
      ⊎ (first_kind sub plain_kinds ≡ codes "retail")
      ⊎ (first_kind sub plain_kinds ≡ codes "buylist")
      ⊎ (first_kind sub plain_kinds ≡ codes "all")
      ⊎ (first_kind sub plain_kinds ≡ codes "sealed")
unfolding first_kind
first_kind-cases sub = ground arith

-- Every kind that the parser gives to a v1 or v2 path.
abbrev KnownKind : Bool → Text → Type 0
KnownKind v2 kind =
    (kind ≡ [])
    ⊎ (kind ≡ codes "retail")
    ⊎ (kind ≡ codes "buylist")
    ⊎ (kind ≡ codes "all")
    ⊎ (kind ≡ codes "sealed")
    ⊎ IsFree kind
    ⊎ ((v2 ≡ true) × (kind ≡ codes "history"))
    ⊎ ((v2 ≡ true) × (kind ≡ codes "newspaper"))

kind_of-KnownKind : (v2 : Bool) (sub : Text) → KnownKind v2 (kind_of v2 sub)
unfolding kind_of
kind_of-KnownKind v2 sub = ground (arith, first_kind-cases sub)

route-KnownKind : {path : Text} {r : Route} → (p : Parsed path r) → KnownKind p.v2 r.kind
route-KnownKind p = subst (λ k. KnownKind p.v2 k) (sym p.kind_eq) (kind_of-KnownKind p.v2 p.sub)

-- A route that needs no mode is a search or one of the lists: every route to price data names the
-- modes that the plan must include.
pub paid-needs_modes :
    (path : Text) {r : Route} → parse_route path ≡ some r → needs_modes r ≡ [] → IsFree r.kind
unfolding needs_modes
paid-needs_modes path {r} h e =
    let p = parse_route-Parsed path h in
    ground (
      arith,
      route-KnownKind p,
      p.kind_known,
      eqb_iff r.kind (codes "retail"),
      eqb_iff r.kind (codes "buylist"),
      eqb_iff r.kind (codes "all"),
      eqb_iff r.kind (codes "sealed"),
      eqb_iff r.kind (codes "history"),
      eqb_iff r.kind (codes "newspaper"),
    )

version_of_v1 :
    (v2 : Bool) (rest : Text) → has_prefix (version_prefix v2 ++ rest) v1_prefix ≡ true → v2 ≡ false
unfolding has_prefix
version_of_v1 false rest h = refl
version_of_v1 true rest h = ground arith

-- Price history and the newspaper are reached through v2 alone.
pub v1_no_history :
    (path : Text) {r : Route}
    → parse_route path ≡ some r
    → has_prefix path v1_prefix ≡ true
    → (r.kind ≢ codes "history") × (r.kind ≢ codes "newspaper")
v1_no_history path {r} h v =
    let p = parse_route-Parsed path h in
    let old = version_of_v1 p.v2 (r.game ++ (b'/' ∷ p.sub)) (rw p.path_eq at v) in
    (λ k. ground (arith, old, route-KnownKind p), λ k. ground (arith, old, route-KnownKind p))
