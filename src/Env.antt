-- ===== src/Env.antt =====
-- pkg/natsx/env.go. The environment is a function: `os.LookupEnv` gives a text or none.
pub mod Precedence
pub mod Failures
pub mod Sound
pub mod Loaded
use natsx.Base.{
  ℕ, Bool, true, false, ◌&&◌, ◌||◌, not, List, [], ◌∷◌, ◌++◌, Option, none, some, ◌≡◌, refl, any,
  if◌then◌else◌, is_empty, ℤ, text_eq, String,
}
use natsx.Base.Text.{Text, codes, trim_space, split}
use natsx.Base.Decimal.{Number, parsed, failed, atoi}
use natsx.GoLib.{GoLib}
use natsx.Errors.{Error, nil, validation_error, Result, ok, fail, returning}
use natsx.Config.{Config, zero_config, with_defaults, validate}

abbrev pub foundationx_nats_env_prefix : Text
foundationx_nats_env_prefix = codes "FOUNDATIONX_NATS_"

abbrev pub legacy_nats_env_prefix : Text
legacy_nats_env_prefix = codes "NATS_"

abbrev pub Environment : Type 0
Environment = Text → Option Text

-- A value that is found and not blank, with the key it was found under.
unfoldable pub filled_value : Text → Option Text → Option (Text × Text)
filled_value key none = none
filled_value key (some value) =
    if is_empty (trim_space value) then none else some (trim_space value, key)

abbrev pub or_else : Option (Text × Text) → Option (Text × Text) → Option (Text × Text)
or_else none later = later
or_else (some found) later = some found

module _ (env : Environment) where
  -- The inner loop of `lookupNATSEnv`.
  unfoldable pub lookup_suffixes : Text → List Text → Option (Text × Text)
  unfolding filled_value
  lookup_suffixes prefix [] = none
  lookup_suffixes prefix (suffix ∷ rest) =
      let key = prefix ++ suffix in
      let later = lookup_suffixes prefix rest in or_else (filled_value key (env key)) later

  -- The outer loop of `lookupNATSEnv`, over its two prefixes.
  unfoldable pub lookup_nats_env : List Text → Option (Text × Text)
  lookup_nats_env suffixes =
      or_else (lookup_suffixes foundationx_nats_env_prefix suffixes)
        (lookup_suffixes legacy_nats_env_prefix suffixes)

-- The loop of `splitEnvList`.
unfoldable pub keep_filled : List Text → List Text
keep_filled [] = []
keep_filled (part ∷ parts) =
    let rest = keep_filled parts in
    if is_empty (trim_space part) then rest else trim_space part ∷ rest

unfoldable pub split_env_list : Text → List Text
unfolding keep_filled
split_env_list value = keep_filled (split value b',')

unfoldable pub env_parse_error : Text → Text → Error
env_parse_error key kind =
    validation_error (codes "natsx.ConfigFromEnv")
      (codes "invalid " ++ kind ++ codes " for " ++ key) nil

-- `strconv.ParseBool`
unfoldable pub parse_bool : Text → Option Bool
parse_bool value =
    if any (text_eq value)
      (codes "1" ∷ codes "t" ∷ codes "T" ∷ codes "TRUE" ∷ codes "true" ∷ codes "True" ∷ [])
    then some true
    else if any (text_eq value)
        (codes "0" ∷ codes "f" ∷ codes "F" ∷ codes "FALSE" ∷ codes "false" ∷ codes "False" ∷ [])
    then some false
    else none

abbrev pub number_option : Number ℤ → Option ℤ
number_option (parsed n) = some n
number_option (failed _) = none

infixl 5 ◌>>=◌
abbrev pub ◌>>=◌ : Result Config → (Config → Result Config) → Result Config
ok c >>= f = f c
fail e >>= f = fail e

-- `if value, _, ok := lookupNATSEnv(...); ok { cfg.Field = value }`
abbrev pub assign : Option (Text × Text) → (Text → Config → Config) → Config → Config
assign none update c = c
assign (some (value, _)) update c = update value c

-- The same with a parser of the value, whose error is reported under the key.
abbrev pub parsed_or {ℓ} : {A : Type ℓ} → Text → Text → Option A → (A → Config) → Result Config
parsed_or key kind none update = fail (env_parse_error key kind)
parsed_or key kind (some a) update = ok (update a)

abbrev pub assign_parsed {ℓ} :
    {A : Type ℓ}
    → Text
    → (Text → Option A)
    → Option (Text × Text)
    → (A → Config → Config)
    → Config
    → Result Config
assign_parsed kind parse none update c = ok c
assign_parsed kind parse (some (value, key)) update c =
    parsed_or key kind (parse value) (λ a. update a c)

abbrev pub one : String → List Text
one suffix = codes suffix ∷ []

module _ (lib : GoLib) (env : Environment) where
  -- The assignments of texts, in the order of the source.
  unfoldable pub load_texts : Config → Config
  load_texts c0 =
      let found = lookup_nats_env env in
      let c1 =
        assign (found (codes "NAME" ∷ codes "CLIENT_NAME" ∷ [])) (λ v c. record c { name = v })
          c0 in
      let c2 = assign (found (one "URL")) (λ v c. record c { url = v }) c1 in
      let c3 = assign (found (one "SERVERS")) (λ v c. record c { servers = split_env_list v }) c2 in
      let c4 = assign (found (one "TOKEN")) (λ v c. record c { token = v }) c3 in
      let c5 = assign (found (one "USERNAME")) (λ v c. record c { username = v }) c4 in
      let c6 = assign (found (one "PASSWORD")) (λ v c. record c { password = v }) c5 in
      let c7 = assign (found (one "NKEY_SEED")) (λ v c. record c { nkey_seed = v }) c6 in
      assign (found (one "CREDENTIALS_FILE")) (λ v c. record c { credentials_file = v }) c7

  abbrev pub load_duration : String → (ℤ → Config → Config) → Config → Result Config
  load_duration suffix update c =
      assign_parsed (codes "duration") lib.parse_duration (lookup_nats_env env (one suffix)) update
        c

  abbrev pub load_integer : String → (ℤ → Config → Config) → Config → Result Config
  load_integer suffix update c =
      assign_parsed (codes "integer") (λ v. number_option (atoi v))
        (lookup_nats_env env (one suffix)) update c

  abbrev pub load_boolean : String → (Bool → Config → Config) → Config → Result Config
  load_boolean suffix update c =
      assign_parsed (codes "boolean") parse_bool (lookup_nats_env env (one suffix)) update c

  -- The assignments of parsed values, one function for each `if`.
  unfoldable pub load_timeout : Config → Result Config
  load_timeout = load_duration "TIMEOUT" (λ d c. record c { timeout = d })

  unfoldable pub load_drain_timeout : Config → Result Config
  load_drain_timeout = load_duration "DRAIN_TIMEOUT" (λ d c. record c { drain_timeout = d })

  unfoldable pub load_max_reconnects : Config → Result Config
  load_max_reconnects = load_integer "MAX_RECONNECTS" (λ n c. record c { max_reconnects = n })

  unfoldable pub load_reconnect_wait : Config → Result Config
  load_reconnect_wait = load_duration "RECONNECT_WAIT" (λ d c. record c { reconnect_wait = d })

  unfoldable pub load_enable_jetstream : Config → Result Config
  load_enable_jetstream = load_boolean "ENABLE_JETSTREAM" (λ b c. record c { enable_jetstream = b })

  unfoldable pub load_tls : Config → Result Config
  load_tls = load_boolean "TLS" (λ b c. record c { tls = b })

  unfoldable pub load_tls_insecure : Config → Result Config
  load_tls_insecure = load_boolean "TLS_INSECURE" (λ b c. record c { tls_insecure = b })

  -- The same in the order of the source.
  unfoldable pub load_parsed : Config → Result Config
  load_parsed c0 = do
    c1 ← load_timeout c0
    c2 ← load_drain_timeout c1
    c3 ← load_max_reconnects c2
    c4 ← load_reconnect_wait c3
    c5 ← load_enable_jetstream c4
    c6 ← load_tls c5
    load_tls_insecure c6

  unfoldable pub load_config_from_env : Result Config
  load_config_from_env = do
    cfg ← load_parsed (load_texts (with_defaults zero_config))
    returning (validate lib cfg) (ok cfg)

  unfoldable pub config_from_env : Result Config
  unfolding load_config_from_env
  config_from_env = load_config_from_env
