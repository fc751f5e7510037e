-- ===== src/Config/Tests.antt =====
-- A configuration of config/config.go with its defaults.
use api_gatewahy.Base.{
  ℕ, pos, ◌≡◌, refl, Bool, true, false, Option, none, some, List, [], ◌∷◌, Text, codes, has_prefix,
}
use api_gatewahy.Config.{Config, apply_defaults, validate_config, checkout_urls}
use api_gatewahy.Config.Valid.{IsValid, validate_config-IsValid}

abbrev is_https : Text → Bool
is_https s = has_prefix s (codes "http")

abbrev any_address : Text → Bool
any_address s = true

abbrev given : Config
given = record {
  port = [];
  instance_name = [];
  link = [];
  client_ip_header = [];
  public_url = codes "https://api.example.com/";
  gateway_email = codes "gateway@example.com";
  has_store = true;
  games =
      (codes "mtg", record { upstream = codes "http://mtg.example.com"; secret = codes "s" }) ∷ [];
  cache_ttl_seconds = pos 0;
  stale_grace_seconds = pos 0;
  lookup_timeout_seconds = pos 0;
  per_key_burst = pos 0;
  per_key_history_burst = pos 0;
  per_ip_burst = pos 0;
  upstream_timeout_seconds = pos 0;
  sig_ttl_seconds = pos 0;
  shutdown_grace_seconds = pos 0;
  usage_retention_days = pos 0;
  audit_retention_days = pos 0;
  stripe = record { grace_days = pos 0; success_path = []; cancel_path = [] };
  pricing_url = [];
  admin_emails = codes " Ops@Example.com " ∷ codes " " ∷ [];
  mail_from = [];
  trial_days = pos 0;
  login_links_per_hour = pos 0;
}

abbrev defaulted : Config
defaulted = apply_defaults true true true given

cleans_emails : defaulted.admin_emails ≡ codes "ops@example.com" ∷ []
unfolding apply_defaults api_gatewahy.Base.filter api_gatewahy.Base.to_lower
    api_gatewahy.Base.trim_space
cleans_emails = refl

joins_urls : (checkout_urls defaulted).0 ≡ codes "https://api.example.com/checkout/success"
unfolding checkout_urls apply_defaults
joins_urls = refl

validate_config-IsValid_example : IsValid is_https any_address defaulted
unfolding validate_config apply_defaults has_prefix api_gatewahy.Base.eqb api_gatewahy.Base.sort
    api_gatewahy.Gateway.Route.is_game_name api_gatewahy.Base.lookup
validate_config-IsValid_example = validate_config-IsValid is_https any_address defaulted refl
