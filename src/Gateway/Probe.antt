-- ===== src/Gateway/Probe.antt =====
-- gateway/probe.go: each game's stores lists and the database are probed, and a change is alerted.
-- What a backend answers to a probe, and whether its body is a stores list, are parameters; so is the
-- ping of the database. An alert is the name and whether it says FAILING or recovered.
pub mod Alerts
mod Tests
use api_gatewahy.Base.{
  ℕ, Bool, true, false, not, ◌&&◌, ◌||◌, Option, none, some, List, [], ◌∷◌, ◌++◌, Text, codes, eqb,
  sort, keys, lookup, insert_key, ◌==◌, pos, if◌then◌else◌,
}
use api_gatewahy.ApiAccess.Entitlement.{scope_base}
use api_gatewahy.Gateway.Route.{Route, parse_route, backend_path}
use api_gatewahy.Gateway.Handler.{Claims, mint_claims}

abbrev pub db_probe_name : Text
db_probe_name = codes "database"

abbrev pub probe_versions : List Text
probe_versions = codes "v1" ∷ codes "v2" ∷ []

-- storesPath
unfoldable pub stores_path : Text → Text → Text
stores_path version game = codes "/" ++ (version ++ (codes "/" ++ (game ++ codes "/stores.json")))

-- probeRoute
unfoldable pub probe_route : Text → Text → Option Route
unfolding stores_path
probe_route version game = parse_route (stores_path version game)

pub data ProbeError : Type 0 where
  no_route request_failed unexpected_body : ProbeError
  bad_status : ℕ → ProbeError
  version_failed : Text → ProbeError → ProbeError
  ping_failed : ProbeError

-- A backend's answer: its status, and whether isStoresList takes its body for the version.
pub record ProbeAnswer : Type 0 where
  pub status : ℕ
  pub is_stores_list : Bool

pub record Prober : Type 0 where
  pub games : List (Text × Text)  -- a game's secret
  pub email : Text
  pub link : Text
  pub fetch : Text → Text → Claims → Option ProbeAnswer
  pub failing : List (Text × Bool)

unfoldable pub judge_answer : Option ProbeAnswer → Option ProbeError
judge_answer none = some request_failed
judge_answer (some a) =
    if not (a.status == 200)
    then some (bad_status a.status)
    else if not a.is_stores_list
    then some unexpected_body
    else none

-- probeVersion, with the signature that expires at `expires`.
unfoldable pub probe_version : Prober → ℕ → Text → Text → Option ProbeError
unfolding probe_route judge_answer
probe_version p expires version game = elim (probe_route version game) [
  | none ↦ some no_route
  | some r ↦ judge_answer (
      p.fetch game (backend_path r)
        (mint_claims p.link p.email scope_base (codes "retail" ∷ []) (pos 0) expires))
]

-- probe: the first version that fails.
unfoldable pub probe_from : Prober → ℕ → Text → List Text → Option ProbeError
unfolding probe_version
probe_from p expires game [] = none
probe_from p expires game (v ∷ vs) =
    let rest = probe_from p expires game vs in
    elim (probe_version p expires v game) [ none ↦ rest | some e ↦ some (version_failed v e) ]

unfoldable pub probe : Prober → ℕ → Text → Option ProbeError
unfolding probe_from
probe p expires game = probe_from p expires game probe_versions

abbrev pub Results : Type 0
Results = List (Text × Option ProbeError)

unfoldable pub check_from : Prober → ℕ → List Text → Results → Results
unfolding probe
check_from p expires [] out = out
check_from p expires (g ∷ gs) out = check_from p expires gs (insert_key g (probe p expires g) out)

-- Check
unfoldable pub check : Prober → ℕ → Results
unfolding check_from
check p expires = check_from p expires (keys p.games) []

abbrev pub is_true : Option Bool → Bool
is_true none = false
is_true (some b) = b

-- p.failing[name], false on a missing name
abbrev pub failing_at : List (Text × Bool) → Text → Bool
failing_at m k = is_true (lookup k m)

abbrev pub is_failed : Option (Option ProbeError) → Bool
is_failed (some (some e)) = true
is_failed (some none) = false
is_failed none = false

abbrev pub change : Bool → Bool → List Bool
change was now = if now && not was then true ∷ [] else if not now && was then false ∷ [] else []

abbrev pub named : Text → List Bool → List (Text × Bool)
named k [] = []
named k (b ∷ bs) = (k, b) ∷ named k bs

-- The loop over the sorted names: what is failing, and the messages.
unfoldable pub tick_names :
    Results
    → List (Text × Bool)
    → List (Text × Bool)
    → List Text
    → List (Text × Bool) × List (Text × Bool)
tick_names results failing messages [] = (failing, messages)
tick_names results failing messages (k ∷ ks) =
    let now = is_failed (lookup k results) in
    tick_names results (insert_key k now failing)
      (messages ++ named k (change (failing_at failing k) now)) ks

-- tick: the prober after it, and the alerts in their order; `ping` is the error of the database.
unfoldable pub tick : Prober → ℕ → Option ProbeError → Prober × List (Text × Bool)
unfolding check tick_names
tick p expires ping =
    let results = insert_key db_probe_name ping (check p expires) in
    let (failing, messages) = tick_names results p.failing [] (sort (keys results)) in
    (record p { failing = failing }, messages)

-- A tick of Run: the expiry of its signatures, the ping, and what the backends answer by then.
pub record TickInput : Type 0 where
  pub expires : ℕ
  pub ping : Option ProbeError
  pub fetch : Text → Text → Claims → Option ProbeAnswer

-- Run, over the ticks that the context lets happen.
unfoldable pub run_ticks : Prober → List TickInput → Prober × List (Text × Bool)
unfolding tick
run_ticks p [] = (p, [])
run_ticks p (i ∷ is) =
    let (q, messages) = tick (record p { fetch = i.fetch }) i.expires i.ping in
    let (r, rest) = run_ticks q is in (r, messages ++ rest)
