-- ===== src/Env/Failures.antt =====
-- The errors that loading from the environment can return.
use natsx.Base.{
  false, List, [], ◌∷◌, ◌++◌, Option, none, some, ◌≡◌, ◌⊎◌, inl, inr, arith, Option-cases, String,
}
use natsx.Base.Text.{Text, codes}
use natsx.GoLib.{GoLib}
use natsx.Errors.{Error, nil, is_nil, validation_error, Result, ok, fail, returning}
use natsx.Config.{
  Config, zero_config, with_defaults, validate_endpoints, validate_filled, validate, endpoints,
}
use natsx.Env.{
  foundationx_nats_env_prefix, legacy_nats_env_prefix, Environment, lookup_nats_env,
  env_parse_error, ◌>>=◌, assign_parsed, parsed_or, load_texts, load_parsed, load_config_from_env,
  load_timeout, load_drain_timeout, load_max_reconnects, load_reconnect_wait, load_enable_jetstream,
  load_tls, load_tls_insecure,
}
use natsx.Env.Precedence.{lookup_nats_env_iff}

-- `e` is one of the list.
abbrev pub OneOf : Error → List Error → Type 0
OneOf e [] = ⊥
OneOf e (x ∷ xs) = (e ≡ x) ⊎ OneOf e xs

abbrev config_error : String → Error
config_error message = validation_error (codes "Config.Validate") (codes message) nil

abbrev pub config_errors : List Error
config_errors =
    config_error "name is required"
    ∷ config_error "timeout must not be negative"
    ∷ config_error "drain timeout must not be negative"
    ∷ config_error "reconnect wait must not be negative"
    ∷ config_error "tls_insecure requires tls to be enabled"
    ∷ config_error "at least one NATS server URL is required"
    ∷ config_error "invalid NATS server URL"
    ∷ []

abbrev canonical : String → String → Error
canonical kind suffix = env_parse_error (foundationx_nats_env_prefix ++ codes suffix) (codes kind)

abbrev legacy : String → String → Error
legacy kind suffix = env_parse_error (legacy_nats_env_prefix ++ codes suffix) (codes kind)

abbrev pub parse_errors : List Error
parse_errors =
    canonical "duration" "TIMEOUT"
    ∷ legacy "duration" "TIMEOUT"
    ∷ canonical "duration" "DRAIN_TIMEOUT"
    ∷ legacy "duration" "DRAIN_TIMEOUT"
    ∷ canonical "integer" "MAX_RECONNECTS"
    ∷ legacy "integer" "MAX_RECONNECTS"
    ∷ canonical "duration" "RECONNECT_WAIT"
    ∷ legacy "duration" "RECONNECT_WAIT"
    ∷ canonical "boolean" "ENABLE_JETSTREAM"
    ∷ legacy "boolean" "ENABLE_JETSTREAM"
    ∷ canonical "boolean" "TLS"
    ∷ legacy "boolean" "TLS"
    ∷ canonical "boolean" "TLS_INSECURE"
    ∷ legacy "boolean" "TLS_INSECURE"
    ∷ []

OneOf-append_left : (e : Error) (xs ys : List Error) → OneOf e xs → OneOf e (xs ++ ys)
OneOf-append_left e [] ys h = absurd h
OneOf-append_left e (x ∷ xs) ys (inl h) = inl h
OneOf-append_left e (x ∷ xs) ys (inr h) = inr (OneOf-append_left e xs ys h)

OneOf-append_right : (e : Error) (xs ys : List Error) → OneOf e ys → OneOf e (xs ++ ys)
OneOf-append_right e [] ys h = h
OneOf-append_right e (x ∷ xs) ys h = inr (OneOf-append_right e xs ys h)

bind-failure :
    (P : Error → Type 0) (m : Result Config) (f : Config → Result Config)
    → ((e : Error) → m ≡ fail e → P e)
    → ((c : Config) (e : Error) → f c ≡ fail e → P e)
    → (e : Error) → (m >>= f) ≡ fail e
    → P e
bind-failure P (ok c) f hm hf e h = hf c e h
bind-failure P (fail x) f hm hf e h = hm e (cc)

module _ (lib : GoLib) where
  validate_endpoints-OneOf :
      (es : List Text)
      → is_nil (validate_endpoints lib es) ≡ false
      → validate_endpoints lib es ≡ config_error "invalid NATS server URL"
  unfolding validate_endpoints
  validate_endpoints-OneOf [] h = cc
  validate_endpoints-OneOf (e ∷ es) h = ground (arith, validate_endpoints-OneOf es)

  -- An error of `Validate` is one of seven fixed ones.
  pub validate-OneOf :
      (c : Config) → is_nil (validate lib c) ≡ false → OneOf (validate lib c) config_errors
  unfolding validate validate_filled
  validate-OneOf c h = ground (arith, validate_endpoints-OneOf (endpoints (with_defaults c)))

parsed_or_failure {ℓ} :
    {A : Type ℓ} (key kind : Text) (read : Option A) (update : A → Config) (e : Error)
    → parsed_or key kind read update ≡ fail e
    → e ≡ env_parse_error key kind
parsed_or_failure key kind none update e h = cc
parsed_or_failure key kind (some a) update e h = cc

module _ (env : Environment) where
  -- The variable of one suffix that is used is the canonical or the legacy one.
  which_key :
      (suffix v k : Text)
      → lookup_nats_env env (suffix ∷ []) ≡ some (v, k)
      → (k ≡ foundationx_nats_env_prefix ++ suffix) ⊎ (k ≡ legacy_nats_env_prefix ++ suffix)
  which_key suffix v k h = ground (arith, ((lookup_nats_env_iff env (suffix ∷ [])).1 v k).0 h)

  step_failure {ℓ} :
      {A : Type ℓ} (kind suffix : Text) (parse : Text → Option A) (update : A → Config → Config)
      (c : Config) (e : Error)
      → assign_parsed kind parse (lookup_nats_env env (suffix ∷ [])) update c ≡ fail e
      → (e ≡ env_parse_error (foundationx_nats_env_prefix ++ suffix) kind)
        ⊎ (e ≡ env_parse_error (legacy_nats_env_prefix ++ suffix) kind)
  step_failure kind suffix parse update c e h =
      elim (Option-cases (lookup_nats_env env (suffix ∷ []))) [
        | inl absent ↦ absurd (unset (rw absent at h))
        | inr ((v, k), found) ↦
            let same = parsed_or_failure k kind (parse v) _ e (rw found at h) in
            elim (which_key suffix v k found) [
              | inl canonical_key ↦ inl (rw (← canonical_key) same)
              | inr legacy_key ↦ inr (rw (← legacy_key) same)
            ]
      ]
    where
      unset : ok c ≡ fail e → ⊥
      unset p = cc

module _ (lib : GoLib) (env : Environment) where
  abbrev ParseError : Error → Type 0
  ParseError e = OneOf e parse_errors

  timeout_failure : (c : Config) (e : Error) → load_timeout lib env c ≡ fail e → ParseError e
  unfolding load_timeout
  timeout_failure c e h = ground (arith, step_failure env _ (codes "TIMEOUT") _ _ c e h)

  drain_timeout_failure :
      (c : Config) (e : Error) → load_drain_timeout lib env c ≡ fail e → ParseError e
  unfolding load_drain_timeout
  drain_timeout_failure c e h = ground (arith, step_failure env _ (codes "DRAIN_TIMEOUT") _ _ c e h)

  max_reconnects_failure :
      (c : Config) (e : Error) → load_max_reconnects lib env c ≡ fail e → ParseError e
  unfolding load_max_reconnects
  max_reconnects_failure c e h =
      ground (arith, step_failure env _ (codes "MAX_RECONNECTS") _ _ c e h)

  reconnect_wait_failure :
      (c : Config) (e : Error) → load_reconnect_wait lib env c ≡ fail e → ParseError e
  unfolding load_reconnect_wait
  reconnect_wait_failure c e h =
      ground (arith, step_failure env _ (codes "RECONNECT_WAIT") _ _ c e h)

  enable_jetstream_failure :
      (c : Config) (e : Error) → load_enable_jetstream lib env c ≡ fail e → ParseError e
  unfolding load_enable_jetstream
  enable_jetstream_failure c e h =
      ground (arith, step_failure env _ (codes "ENABLE_JETSTREAM") _ _ c e h)

  tls_failure : (c : Config) (e : Error) → load_tls lib env c ≡ fail e → ParseError e
  unfolding load_tls
  tls_failure c e h = ground (arith, step_failure env _ (codes "TLS") _ _ c e h)

  tls_insecure_failure :
      (c : Config) (e : Error) → load_tls_insecure lib env c ≡ fail e → ParseError e
  unfolding load_tls_insecure
  tls_insecure_failure c e h = ground (arith, step_failure env _ (codes "TLS_INSECURE") _ _ c e h)

  load_parsed-OneOf : (c : Config) (e : Error) → load_parsed lib env c ≡ fail e → ParseError e
  unfolding load_parsed
  load_parsed-OneOf c = bind-failure ParseError (load_timeout lib env c) _ (timeout_failure c) λ c1.
      bind-failure ParseError (load_drain_timeout lib env c1) _ (drain_timeout_failure c1) λ c2.
        bind-failure ParseError (load_max_reconnects lib env c2) _ (max_reconnects_failure c2) λ c3.
          bind-failure ParseError (load_reconnect_wait lib env c3) _ (reconnect_wait_failure c3)
            λ c4.
              bind-failure ParseError (load_enable_jetstream lib env c4) _
                (enable_jetstream_failure c4)
                λ c5.
                  bind-failure ParseError (load_tls lib env c5) _ (tls_failure c5)
                    λ c6. tls_insecure_failure c6

  -- Whatever the environment holds, an error of loading is one of 21 fixed ones: 14 for values that
  -- cannot be parsed, which hold the name of a variable and the kind of value, and 7 of the
  -- validation.
  pub load_config_from_env-OneOf :
      (e : Error) → load_config_from_env lib env ≡ fail e → OneOf e (parse_errors ++ config_errors)
  unfolding load_config_from_env
  load_config_from_env-OneOf =
      bind-failure (λ e. OneOf e (parse_errors ++ config_errors))
        (load_parsed lib env (load_texts lib env (with_defaults zero_config))) _
        (λ e h. OneOf-append_left e parse_errors config_errors (load_parsed-OneOf _ e h))
        λ c e h. OneOf-append_right e parse_errors config_errors (invalid c e h)
    where
      invalid :
          (c : Config) (e : Error)
          → returning (validate lib c) (ok c) ≡ fail e
          → OneOf e config_errors
      invalid c e h = ground (arith, validate-OneOf lib c)
