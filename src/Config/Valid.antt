-- ===== src/Config/Valid.antt =====
-- What a configuration that config/config.go accepts guarantees.
use api_gatewahy.Base.{
  pos, ◌≡◌, refl, subst, Bool, true, false, Option, none, some, List, [], ◌∷◌, Text, eqb, is_empty,
  has_prefix, codes, le_ℤ, ◌||◌, ◌==◌, any, contains, sort, contains-sort, keys, lookup, lt_ℤ,
  arith, Bool-cases, inl, inr, eqb→≡,
}
use api_gatewahy.Gateway.Route.{is_game_name}
use api_gatewahy.Config.{
  Config, Game, ConfigError, first_of, settings_checks, game_checks, check_games, validate_config,
  has_no_games, game_or_zero,
}

abbrev failed : List (Bool × ConfigError) → Bool
failed = any (λ x. x.0)

first_of-failed : (cs : List (Bool × ConfigError)) → first_of cs ≡ none → failed cs ≡ false
first_of-failed [] h = refl
first_of-failed ((b, e) ∷ cs) h = ground (arith, first_of-failed cs)

-- A path that the portal may add to the routes of the gateway.
abbrev pub IsFree : Text → Type 0
IsFree path =
    (has_prefix path (codes "/") ≡ true)
    × (any (λ c. c == b'{' || c == b'}') path ≡ false)
    × (eqb path (codes "/") ≡ false)
    × (eqb path (codes "/healthz") ≡ false)
    × (eqb path (codes "/stripe/webhook") ≡ false)
    × (has_prefix path (codes "/v1/") ≡ false)
    × (has_prefix path (codes "/v2/") ≡ false)

module _ (is_absolute is_address : Text → Bool) where
  -- A game of a valid configuration: its routes can be reached, its requests signed and forwarded.
  abbrev pub IsServable : Text → Game → Type 0
  IsServable name g =
      (is_game_name name ≡ true) × (is_empty g.secret ≡ false) × (is_absolute g.upstream ≡ true)

  game_checks_lem :
      (name : Text) (g : Game)
      → first_of (game_checks is_absolute is_address name g) ≡ none
      → IsServable name g
  game_checks_lem name g h =
      ground (arith, h, first_of-failed (game_checks is_absolute is_address name g) h)

  check_games-IsServable :
      (games : List (Text × Game)) (names : List Text) (name : Text)
      → check_games is_absolute is_address games names ≡ none
      → contains names name ≡ true
      → IsServable name (game_or_zero (lookup name games))
  unfolding check_games contains
  check_games-IsServable games [] name h m = ground arith
  check_games-IsServable games (n ∷ ns) name h m =
      go (first_of (game_checks is_absolute is_address n (game_or_zero (lookup n games))))
        (check_games-IsServable games ns name) refl h
    where
      go :
          (o : Option ConfigError)
          → (check_games is_absolute is_address games ns ≡ none
              → contains ns name ≡ true
              → IsServable name (game_or_zero (lookup name games)))
          → first_of (game_checks is_absolute is_address n (game_or_zero (lookup n games))) ≡ o
          → elim o as (λ x. Option ConfigError) [
            | some e ↦ some e
            | none ↦ check_games is_absolute is_address games ns
          ]
            ≡ none
          → IsServable name (game_or_zero (lookup name games))
      go (some e) rest q r = ground arith
      go none rest q r = elim (Bool-cases (eqb n name)) [
        | inl y ↦
            subst (λ k. IsServable k (game_or_zero (lookup k games))) (eqb→≡ n name y)
              (game_checks_lem n (game_or_zero (lookup n games)) q)
        | inr f ↦ rest r (ground (arith, m, f))
      ]

  pub record IsValid (c : Config) : Type 0 where
    pub has_email : is_empty c.gateway_email ≡ false
    pub sig_lives : lt_ℤ (pos 0) c.sig_ttl_seconds ≡ true
    pub has_database : c.has_store ≡ true
    pub public_absolute : is_absolute c.public_url ≡ true
    pub pricing_absolute : is_absolute c.pricing_url ≡ true
    pub mails_from : is_address c.mail_from ≡ true
    pub trial_some : le_ℤ (pos 0) c.trial_days ≡ true
    pub links_some : le_ℤ (pos 0) c.login_links_per_hour ≡ true
    pub keeps_audit : le_ℤ (pos 0) c.audit_retention_days ≡ true
    pub keeps_grace : le_ℤ (pos 0) c.stripe.grace_days ≡ true
    pub success_free : IsFree c.stripe.success_path
    pub cancel_free : IsFree c.stripe.cancel_path
    pub paths_differ : eqb c.stripe.success_path c.stripe.cancel_path ≡ false
    pub some_game : has_no_games c.games ≡ false
    pub servable :
        (name : Text)
        → contains (keys c.games) name ≡ true
        → IsServable name (game_or_zero (lookup name c.games))

  -- A configuration without an error names at least one game, and each game that it names is of the form
  -- that the router matches, with a secret and an absolute upstream; its signatures have a lifetime, the
  -- retention of the audit log, the grace of Stripe, the trial and the login links per hour are not
  -- negative, the public and the pricing URL are absolute, the mail's sender is an address, and the two
  -- checkout paths differ, begin with a slash, hold no brace, and are neither `/`, `/healthz` nor
  -- `/stripe/webhook` nor below `/v1/` or `/v2/`.
  pub validate_config-IsValid :
      (c : Config) → validate_config is_absolute is_address c ≡ none → IsValid c
  unfolding validate_config
  validate_config-IsValid c h = go (first_of (settings_checks is_absolute is_address c)) refl h
    where
      go :
          (o : Option ConfigError)
          → first_of (settings_checks is_absolute is_address c) ≡ o
          → elim o as (λ x. Option ConfigError) [
            | some e ↦ some e
            | none ↦ check_games is_absolute is_address c.games (sort (keys c.games))
          ]
            ≡ none
          → IsValid c
      go (some e) q r = ground arith
      go none q r =
          let f = first_of-failed (settings_checks is_absolute is_address c) q in
          record {
            has_email = ground (arith, f);
            sig_lives = ground (arith, f);
            has_database = ground (arith, f);
            public_absolute = ground (arith, f);
            pricing_absolute = ground (arith, f);
            mails_from = ground (arith, f);
            trial_some = ground (arith, f);
            links_some = ground (arith, f);
            keeps_audit = ground (arith, f);
            keeps_grace = ground (arith, f);
            success_free = ground (arith, f);
            cancel_free = ground (arith, f);
            paths_differ = ground (arith, f);
            some_game = ground (arith, f);
            servable = λ name m.
                check_games-IsServable c.games (sort (keys c.games)) name r
                  (ground (arith, m, contains-sort (keys c.games) name));
          }
