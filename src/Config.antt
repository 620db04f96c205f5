-- ===== src/Config.antt =====
-- pkg/natsx/config.go. A duration is its number of nanoseconds; a nil slice is the empty list.
pub mod Validate
pub mod Redact
use natsx.Base.{
  ℕ, ◌*◌, Bool, true, false, ◌&&◌, ◌||◌, not, List, [], ◌∷◌, ◌++◌, Option, none, some, ◌≡◌, refl,
  map, if◌then◌else◌, is_empty, ℤ, pos, is_zero, is_negative,
}
use natsx.Base.Text.{Text, codes, trim_space, split, join}
use natsx.GoLib.{GoLib}
use natsx.Errors.{Error, nil, validation_error}
use natsx.Sanitize.{mask, secret}

pub record Config : Type 0 where
  pub name : Text
  pub url : Text
  pub servers : List Text
  pub token : Text
  pub username : Text
  pub password : Text
  pub nkey_seed : Text
  pub credentials_file : Text
  pub timeout : ℤ
  pub drain_timeout : ℤ
  pub max_reconnects : ℤ
  pub reconnect_wait : ℤ
  pub enable_jetstream : Bool
  pub tls : Bool
  pub tls_insecure : Bool

-- `Config{}`
abbrev pub zero_config : Config
zero_config = record {
  name = [];
  url = [];
  servers = [];
  token = [];
  username = [];
  password = [];
  nkey_seed = [];
  credentials_file = [];
  timeout = pos 0;
  drain_timeout = pos 0;
  max_reconnects = pos 0;
  reconnect_wait = pos 0;
  enable_jetstream = false;
  tls = false;
  tls_insecure = false;
}

-- `*tls.Config`, of which the code sets one field.
pub record TlsConfig : Type 0 where
  pub insecure_skip_verify : Bool

unfoldable pub build_tls_config : Config → Option TlsConfig
build_tls_config c =
    if not c.tls || not c.tls_insecure then none else some (record { insecure_skip_verify = true })

pub record SanitizedConfig : Type 0 where
  pub name : Text
  pub url : Text
  pub servers : List Text
  pub token : Text
  pub username : Text
  pub password : Text
  pub nkey_seed : Text
  pub credentials_file : Text
  pub timeout : Text
  pub drain_timeout : Text
  pub max_reconnects : ℤ
  pub reconnect_wait : Text
  pub enable_jetstream : Bool
  pub tls : Bool
  pub tls_insecure : Bool

abbrev pub second : ℕ
second = 1_000_000_000

-- A value, or the default in place of an empty text or a zero.
abbrev text_or : Text → Text → Text
text_or d value = if is_empty value then d else value

abbrev duration_or : ℤ → ℤ → ℤ
duration_or d value = if is_zero value then d else value

unfoldable pub with_defaults : Config → Config
with_defaults c = record c {
  name = text_or (codes "natsx") c.name;
  url = if is_empty c.url && is_empty c.servers then codes "nats://127.0.0.1:4222" else c.url;
  timeout = duration_or (pos (5 * second)) c.timeout;
  drain_timeout = duration_or (pos (30 * second)) c.drain_timeout;
  reconnect_wait = duration_or (pos second) c.reconnect_wait;
}

unfoldable pub endpoints : Config → List Text
unfolding split
endpoints c =
    if not (is_empty c.servers) then c.servers else if is_empty c.url then [] else split c.url b','

unfoldable pub redact_path : Text → Text
unfolding secret
redact_path path = if is_empty path then [] else secret path

module _ (lib : GoLib) where
  -- The test of one endpoint: `err != nil || parsed.Scheme == "" || parsed.Host == ""`.
  abbrev pub bad_url : Option lib.Url → Bool
  bad_url none = true
  bad_url (some u) = is_empty (lib.scheme u) || is_empty (lib.host u)

  -- The loop over the endpoints.
  unfoldable pub validate_endpoints : List Text → Error
  unfolding validation_error
  validate_endpoints [] = nil
  validate_endpoints (endpoint ∷ rest) =
      let later = validate_endpoints rest in
      if bad_url (lib.parse_url endpoint)
      then validation_error (codes "Config.Validate") (codes "invalid NATS server URL") nil
      else later

  -- `Validate` behind `withDefaults`.
  unfoldable pub validate_filled : Config → Error
  unfolding validation_error
  validate_filled c =
      let op = codes "Config.Validate" in
      if is_empty (trim_space c.name)
      then validation_error op (codes "name is required") nil
      else if is_negative c.timeout
      then validation_error op (codes "timeout must not be negative") nil
      else if is_negative c.drain_timeout
      then validation_error op (codes "drain timeout must not be negative") nil
      else if is_negative c.reconnect_wait
      then validation_error op (codes "reconnect wait must not be negative") nil
      else if c.tls_insecure && not c.tls
      then validation_error op (codes "tls_insecure requires tls to be enabled") nil
      else if is_empty (endpoints c)
      then validation_error op (codes "at least one NATS server URL is required") nil
      else validate_endpoints (endpoints c)

  unfoldable pub validate : Config → Error
  validate c = validate_filled (with_defaults c)

  -- One round of the loop of `sanitizeDSN`, on a part that has been trimmed.
  unfoldable pub sanitize_part : Text → Option lib.Url → Text
  sanitize_part p none = p
  sanitize_part p (some u) =
      if lib.has_user u then lib.url_string (lib.with_user u mask mask) else p

  unfoldable pub sanitize_dsn : Text → Text
  unfolding sanitize_part
  sanitize_dsn raw =
      join (map (λ p. sanitize_part (trim_space p) (lib.parse_url (trim_space p))) (split raw b','))
        b','

  unfoldable pub sanitize_servers : List Text → List Text
  sanitize_servers [] = []
  sanitize_servers (s ∷ rest) = sanitize_dsn s ∷ sanitize_servers rest

  -- `Sanitize` behind `withDefaults`.
  unfoldable pub sanitize_filled : Config → SanitizedConfig
  unfolding secret redact_path
  sanitize_filled c = record {
    name = c.name;
    url = sanitize_dsn c.url;
    servers = sanitize_servers c.servers;
    token = secret c.token;
    username = c.username;
    password = secret c.password;
    nkey_seed = secret c.nkey_seed;
    credentials_file = redact_path c.credentials_file;
    timeout = lib.duration_string c.timeout;
    drain_timeout = lib.duration_string c.drain_timeout;
    max_reconnects = c.max_reconnects;
    reconnect_wait = lib.duration_string c.reconnect_wait;
    enable_jetstream = c.enable_jetstream;
    tls = c.tls;
    tls_insecure = c.tls_insecure;
  }

  unfoldable pub sanitize : Config → SanitizedConfig
  unfolding sanitize_filled with_defaults
  sanitize c = sanitize_filled (with_defaults c)
