-- ===== src/Config.antt =====
-- config/config.go: the defaults and the validation of the configuration. Whether url.Parse gives a scheme
-- and a host, and whether mail.ParseAddress takes an address, are parameters; the three rates, which are
-- floating-point numbers, and the settings that no check reads are left out.
pub mod Valid
mod Tests
use api_gatewahy.Base.{
  ℕ, ℤ, pos, Bool, true, false, not, ◌&&◌, ◌||◌, Option, none, some, List, [], ◌∷◌, ◌++◌, Text,
  codes, eqb, is_empty, any, filter, map, has_prefix, to_lower, trim_space, sort, keys, lookup,
  lt_ℤ, le_ℤ, eq_ℤ, Result, ok, err, ◌==◌, if◌then◌else◌,
}
use api_gatewahy.Gateway.Route.{is_game_name}

pub record Game : Type 0 where
  pub upstream : Text
  pub secret : Text

pub record StripeConfig : Type 0 where
  pub grace_days : ℤ
  pub success_path : Text
  pub cancel_path : Text

-- `has_store` tells whether apiaccess_config is given.
pub record Config : Type 0 where
  pub port : Text
  pub instance_name : Text
  pub link : Text
  pub client_ip_header : Text
  pub public_url : Text
  pub gateway_email : Text
  pub has_store : Bool
  pub games : List (Text × Game)
  pub cache_ttl_seconds : ℤ
  pub stale_grace_seconds : ℤ
  pub lookup_timeout_seconds : ℤ
  pub per_key_burst : ℤ
  pub per_key_history_burst : ℤ
  pub per_ip_burst : ℤ
  pub upstream_timeout_seconds : ℤ
  pub sig_ttl_seconds : ℤ
  pub shutdown_grace_seconds : ℤ
  pub usage_retention_days : ℤ
  pub audit_retention_days : ℤ
  pub stripe : StripeConfig
  pub pricing_url : Text
  pub admin_emails : List Text
  pub mail_from : Text
  pub trial_days : ℤ
  pub login_links_per_hour : ℤ

abbrev pub or_text : Text → Text → Text
or_text s default = if is_empty s then default else s

-- `if n <= 0 { n = default }`
abbrev pub or_positive : ℤ → ℤ → ℤ
or_positive n default = if le_ℤ n (pos 0) then default else n

-- `if n == 0 { n = default }`
abbrev pub or_nonzero : ℤ → ℤ → ℤ
or_nonzero n default = if eq_ℤ n (pos 0) then default else n

abbrev pub normal_email : Text → Text
normal_email e = to_lower (trim_space e)

-- The method `applyDefaults`
unfoldable pub apply_defaults : Bool → Bool → Bool → Config → Config
apply_defaults default_header default_audit default_grace c = record c {
  client_ip_header = (if default_header then codes "DO-Connecting-IP" else c.client_ip_header);
  port = or_text c.port (codes "8080");
  instance_name = or_text c.instance_name (codes "api-gatewahy");
  link = or_text c.link (codes "http://www.mtgban.com");
  cache_ttl_seconds = or_positive c.cache_ttl_seconds (pos 60);
  stale_grace_seconds = or_positive c.stale_grace_seconds (pos 600);
  lookup_timeout_seconds = or_positive c.lookup_timeout_seconds (pos 5);
  per_key_burst = or_positive c.per_key_burst (pos 5);
  per_key_history_burst = or_positive c.per_key_history_burst (pos 5);
  per_ip_burst = or_positive c.per_ip_burst (pos 100);
  upstream_timeout_seconds = or_positive c.upstream_timeout_seconds (pos 300);
  sig_ttl_seconds = or_positive c.sig_ttl_seconds (pos 300);
  shutdown_grace_seconds = or_positive c.shutdown_grace_seconds (pos 60);
  usage_retention_days = or_positive c.usage_retention_days (pos 395);
  audit_retention_days = (if default_audit then pos 90 else c.audit_retention_days);
  public_url = or_text c.public_url (codes "https://api.mtgban.com");
  stripe = record {
    grace_days = (if default_grace then pos 10 else c.stripe.grace_days);
    success_path = or_text c.stripe.success_path (codes "/checkout/success");
    cancel_path = or_text c.stripe.cancel_path (codes "/checkout/cancel");
  };
  pricing_url = or_text c.pricing_url (codes "https://mtgban.com/api-plans");
  mail_from = or_text c.mail_from (codes "MTGBAN <no-reply@mtgban.com>");
  trial_days = or_nonzero c.trial_days (pos 15);
  login_links_per_hour = or_nonzero c.login_links_per_hour (pos 5);
  admin_emails = filter (λ e. not (is_empty e)) (map normal_email c.admin_emails);
}

pub data ConfigError : Type 0 where
  no_gateway_email no_store bad_public_url bad_pricing_url negative_trial negative_links :
      ConfigError
  bad_sig_ttl negative_audit bad_mail_from negative_grace relative_success relative_cancel :
      ConfigError
  same_paths no_games : ConfigError
  braces reserved : Text → ConfigError
  bad_game_name no_secret bad_upstream : Text → ConfigError

abbrev pub negative : ℤ → Bool
negative n = lt_ℤ n (pos 0)

-- strings.ContainsAny(path, "{}")
abbrev pub has_braces : Text → Bool
has_braces = any (λ c. c == b'{' || c == b'}')

abbrev pub is_reserved : Text → Bool
is_reserved path =
    eqb path (codes "/")
    || eqb path (codes "/healthz")
    || eqb path (codes "/stripe/webhook")
    || has_prefix path (codes "/v1/")
    || has_prefix path (codes "/v2/")

-- The first of the conditions of `Validate` that holds, with its error.
abbrev pub first_of : List (Bool × ConfigError) → Option ConfigError
first_of [] = none
first_of ((b, e) ∷ checks) = if b then some e else first_of checks

abbrev pub has_no_games : List (Text × Game) → Bool
has_no_games [] = true
has_no_games (g ∷ gs) = false

abbrev pub game_or_zero : Option Game → Game
game_or_zero none = record { upstream = []; secret = [] }
game_or_zero (some g) = g

-- `is_absolute` is the test of url.Parse, `is_address` that of mail.ParseAddress.
module _ (is_absolute is_address : Text → Bool) where
  abbrev pub settings_checks : Config → List (Bool × ConfigError)
  settings_checks c =
      (is_empty c.gateway_email, no_gateway_email)
      ∷ (not c.has_store, no_store)
      ∷ (not (is_absolute c.public_url), bad_public_url)
      ∷ (not (is_absolute c.pricing_url), bad_pricing_url)
      ∷ (negative c.trial_days, negative_trial)
      ∷ (negative c.login_links_per_hour, negative_links)
      ∷ (le_ℤ c.sig_ttl_seconds (pos 0), bad_sig_ttl)
      ∷ (negative c.audit_retention_days, negative_audit)
      ∷ (not (is_address c.mail_from), bad_mail_from)
      ∷ (negative c.stripe.grace_days, negative_grace)
      ∷ (not (has_prefix c.stripe.success_path (codes "/")), relative_success)
      ∷ (not (has_prefix c.stripe.cancel_path (codes "/")), relative_cancel)
      ∷ (eqb c.stripe.success_path c.stripe.cancel_path, same_paths)
      ∷ (has_braces c.stripe.success_path, braces (codes "success_path"))
      ∷ (is_reserved c.stripe.success_path, reserved (codes "success_path"))
      ∷ (has_braces c.stripe.cancel_path, braces (codes "cancel_path"))
      ∷ (is_reserved c.stripe.cancel_path, reserved (codes "cancel_path"))
      ∷ (has_no_games c.games, no_games)
      ∷ []

  abbrev pub game_checks : Text → Game → List (Bool × ConfigError)
  game_checks name g =
      (not (is_game_name name), bad_game_name name)
      ∷ (is_empty g.secret, no_secret name)
      ∷ (not (is_absolute g.upstream), bad_upstream name)
      ∷ []

  -- The loop over the sorted names.
  unfoldable pub check_games : List (Text × Game) → List Text → Option ConfigError
  check_games games [] = none
  check_games games (name ∷ names) =
      let rest = check_games games names in
      elim (first_of (game_checks name (game_or_zero (lookup name games)))) [
        | some e ↦ some e
        | none ↦ rest
      ]

  -- The method `Validate`, none where there is no error.
  unfoldable pub validate_config : Config → Option ConfigError
  unfolding check_games
  validate_config c = elim (first_of (settings_checks c)) [
    | some e ↦ some e
    | none ↦ check_games c.games (sort (keys c.games))
  ]

-- The method `GameNames`
unfoldable pub game_names : Config → List Text
game_names c = sort (keys c.games)

-- strings.TrimRight(s, "/")
unfoldable pub trim_slashes : Text → Text
trim_slashes [] = []
trim_slashes (c ∷ s) =
    let rest = trim_slashes s in if is_empty rest && c == b'/' then [] else c ∷ rest

-- The method `CheckoutURLs`
unfoldable pub checkout_urls : Config → Text × Text
unfolding trim_slashes
checkout_urls c =
    let base = trim_slashes c.public_url in
    (base ++ c.stripe.success_path, base ++ c.stripe.cancel_path)
