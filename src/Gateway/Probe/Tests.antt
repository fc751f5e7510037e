-- ===== src/Gateway/Probe/Tests.antt =====
-- Ticks of the probe of gateway/probe.go: a game's backend goes down and comes back.
use api_gatewahy.Base.{
  ℕ, ◌≡◌, refl, Bool, true, false, Option, none, some, List, [], ◌∷◌, Text, codes,
}
use api_gatewahy.Gateway.Handler.{Claims}
use api_gatewahy.Gateway.Probe.{ProbeAnswer, Prober, TickInput, failing_at, run_ticks}
use api_gatewahy.Gateway.Probe.Alerts.{alternates, alerts_for, state_after, run_ticks-alternates}

abbrev answers : ℕ → Text → Text → Claims → Option ProbeAnswer
answers status game path claims = some (record { status = status; is_stores_list = true })

abbrev mtg_prober : Prober
mtg_prober = record {
  games = (codes "mtg", codes "secret") ∷ [];
  email = codes "gateway@mtgban.com";
  link = codes "http://www.mtgban.com";
  fetch = answers 200;
  failing = [];
}

abbrev down_and_up : List TickInput
down_and_up =
    record { expires = 10; ping = none; fetch = answers 200 }
    ∷ record { expires = 20; ping = none; fetch = answers 502 }
    ∷ record { expires = 30; ping = none; fetch = answers 502 }
    ∷ record { expires = 40; ping = none; fetch = answers 200 }
    ∷ []

tells_twice : alerts_for (codes "mtg") (run_ticks mtg_prober down_and_up).1 ≡ true ∷ false ∷ []
unfolding run_ticks api_gatewahy.Base.sort api_gatewahy.Base.insert_key api_gatewahy.Base.eqb
    api_gatewahy.Base.lookup api_gatewahy.Gateway.Route.parse_route api_gatewahy.Base.has_prefix
    api_gatewahy.Base.split api_gatewahy.Base.contains_text api_gatewahy.Base.cut
    api_gatewahy.Gateway.Route.is_game_name api_gatewahy.Gateway.Route.kind_of
tells_twice = refl

run_ticks-alternates_example :
    (alternates
        (failing_at mtg_prober.failing (codes "mtg"))
        (alerts_for (codes "mtg") (run_ticks mtg_prober down_and_up).1)
      ≡ true)
    × (state_after
          (failing_at mtg_prober.failing (codes "mtg"))
          (alerts_for (codes "mtg") (run_ticks mtg_prober down_and_up).1)
        ≡ failing_at (run_ticks mtg_prober down_and_up).0.failing (codes "mtg"))
run_ticks-alternates_example = run_ticks-alternates mtg_prober down_and_up (codes "mtg")
