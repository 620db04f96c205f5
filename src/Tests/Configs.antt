-- ===== src/Tests/Configs.antt =====
-- Configurations and environments at concrete inputs.
use natsx.Base.{true, [], ◌∷◌, ◌++◌, none, some, ◌≡◌, refl, ◌↔◌, All, text_eq, if◌then◌else◌}
use natsx.Base.Text.{Text, codes, trim_space, has_prefix, split, join}
use natsx.Base.Decimal.{atoi}
use natsx.Config.{
  sanitize_part, Config, zero_config, with_defaults, endpoints, validate, validate_filled,
  validate_endpoints, sanitize, sanitize_dsn,
}
use natsx.Config.Validate.{IsValid, validate_iff}
use natsx.Config.Redact.{SamePublic, users, sanitize_hides}
use natsx.Env.{
  Environment, filled_value, lookup_suffixes, lookup_nats_env, env_parse_error, parse_bool,
  load_config_from_env, load_texts, load_parsed, load_timeout, load_drain_timeout,
  load_max_reconnects, load_reconnect_wait, load_enable_jetstream, load_tls, load_tls_insecure,
}
use natsx.Env.Precedence.{FirstFilled, IsBlank, candidates, lookup_nats_env_iff}
use natsx.Env.Failures.{OneOf, parse_errors, config_errors, load_config_from_env-OneOf}
use natsx.Env.Loaded.{HasTexts, HasParsed, load_config_from_env_lem}
use natsx.Errors.{is_nil, ok, fail}
use natsx.Tests.Support.{sample_lib}

loading : Unit {0}
unfolding load_config_from_env load_texts load_parsed load_timeout load_drain_timeout
    load_max_reconnects load_reconnect_wait load_enable_jetstream load_tls load_tls_insecure
    lookup_nats_env lookup_suffixes filled_value with_defaults endpoints validate validate_filled
    validate_endpoints split has_prefix trim_space parse_bool atoi
loading = tt

abbrev with_password : Text → Config
with_password password = record zero_config {
  url = codes "nats://bob:" ++ password ++ codes "@n1:4222";
  password = password;
}

secrets-SamePublic :
    SamePublic sample_lib (with_password (codes "hunter2")) (with_password (codes "s3cret"))
unfolding split has_prefix trim_space
secrets-SamePublic = record {
  name = refl;
  username = refl;
  timeout = refl;
  drain_timeout = refl;
  max_reconnects = refl;
  reconnect_wait = refl;
  enable_jetstream = refl;
  tls = refl;
  tls_insecure = refl;
  token = refl;
  password = refl;
  nkey_seed = refl;
  credentials_file = refl;
  url_given = refl;
  url = (users _ _ refl refl refl refl refl, tt);
  servers = tt;
}

sanitize_hides_example :
    sanitize sample_lib (with_password (codes "hunter2"))
    ≡ sanitize sample_lib (with_password (codes "s3cret"))
sanitize_hides_example =
    sanitize_hides sample_lib (with_password (codes "hunter2")) (with_password (codes "s3cret"))
      secrets-SamePublic

-- An address without the scheme that the parser knows comes back with its password.
unparsed_test : sanitize_dsn sample_lib (codes "bob:hunter2@n1:4222") ≡ codes "bob:hunter2@n1:4222"
unfolding sanitize_dsn sanitize_part split join trim_space has_prefix
unparsed_test = refl

validate_iff_example :
    (is_nil (validate sample_lib (with_password (codes "x"))) ≡ true)
    ↔ IsValid sample_lib (with_defaults (with_password (codes "x")))
validate_iff_example = validate_iff sample_lib (with_password (codes "x"))

-- The canonical name is blank, so the legacy one counts.
abbrev sample_env : Environment
sample_env key =
    if text_eq key (codes "FOUNDATIONX_NATS_NAME")
    then some (codes "  ")
    else if text_eq key (codes "NATS_CLIENT_NAME")
    then some (codes " relay ")
    else none

lookup_nats_env_iff_example :
    ((lookup_nats_env sample_env (codes "NAME" ∷ codes "CLIENT_NAME" ∷ []) ≡ none)
      ↔ All (IsBlank sample_env) (candidates (codes "NAME" ∷ codes "CLIENT_NAME" ∷ [])))
    × ((value key : Text)
        → (lookup_nats_env sample_env (codes "NAME" ∷ codes "CLIENT_NAME" ∷ []) ≡ some (value, key))
          ↔ FirstFilled sample_env value key (candidates (codes "NAME" ∷ codes "CLIENT_NAME" ∷ [])))
lookup_nats_env_iff_example =
    lookup_nats_env_iff sample_env (codes "NAME" ∷ codes "CLIENT_NAME" ∷ [])

abbrev relay : Config
relay = record (with_defaults zero_config) { name = codes "relay" }

load_test : load_config_from_env sample_lib sample_env ≡ ok relay
unfolding loading
load_test = refl

load_config_from_env_lem_example :
    HasTexts sample_lib sample_env (with_defaults zero_config) relay
    × HasParsed sample_lib sample_env (with_defaults zero_config) relay
    × (is_nil (validate sample_lib relay) ≡ true)
load_config_from_env_lem_example = load_config_from_env_lem sample_lib sample_env relay load_test

abbrev late_env : Environment
late_env key = if text_eq key (codes "NATS_TIMEOUT") then some (codes "s3cret") else none

late_test :
    load_config_from_env sample_lib late_env
    ≡ fail (env_parse_error (codes "NATS_TIMEOUT") (codes "duration"))
unfolding loading
late_test = refl

load_config_from_env-OneOf_example :
    OneOf
      (env_parse_error (codes "NATS_TIMEOUT") (codes "duration"))
      (parse_errors ++ config_errors)
load_config_from_env-OneOf_example =
    load_config_from_env-OneOf sample_lib late_env
      (env_parse_error (codes "NATS_TIMEOUT") (codes "duration")) late_test
