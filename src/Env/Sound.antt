-- ===== src/Env/Sound.antt =====
-- What one setting of pkg/natsx/env.go holds once it is loaded.
use natsx.Base.{Bool, Option, none, some, ◌≡◌, refl, sym, inl, inr, Option-cases, ℤ}
use natsx.Base.Text.{Text}
use natsx.Base.Decimal.{atoi}
use natsx.GoLib.{GoLib}
use natsx.Errors.{Error, Result, ok, fail}
use natsx.Config.{Config}
use natsx.Env.{
  Environment, lookup_nats_env, ◌>>=◌, one, assign, assign_parsed, number_option, parse_bool,
  load_timeout, load_drain_timeout, load_max_reconnects, load_reconnect_wait, load_enable_jetstream,
  load_tls, load_tls_insecure,
}

-- `a` is the default where no variable is found, and otherwise what the value parses to.
abbrev pub Chosen {ℓ} : {A : Type ℓ} → Option (Text × Text) → (Text → Option A) → A → A → Type ℓ
Chosen none parse default a = a ≡ default
Chosen (some (value, _)) parse default a = parse value ≡ some a

module _ {ℓ} {A : Type ℓ} where
  pub assign_sound :
      (found : Option (Text × Text)) (read : Text → A) (update : A → Config → Config) (c : Config)
      (default : A)
      → update default c ≡ c
      → (a : A) × (assign found (λ v. update (read v)) c ≡ update a c)
        × Chosen found (λ v. some (read v)) default a
  assign_sound none read update c default same = (default, sym same, refl)
  assign_sound (some (value, key)) read update c default same = (read value, refl, refl)

  pub assign_parsed_sound :
      (kind : Text) (parse : Text → Option A) (found : Option (Text × Text))
      (update : A → Config → Config) (c : Config) (default : A) {c' : Config}
      → update default c ≡ c
      → assign_parsed kind parse found update c ≡ ok c'
      → (a : A) × (c' ≡ update a c) × Chosen found parse default a
  assign_parsed_sound kind parse none update c default same h = (default, cc, refl)
  assign_parsed_sound kind parse (some (value, key)) update c default same h =
      elim (Option-cases (parse value)) [
        | inl bad ↦ absurd (refused (rw bad at h))
        | inr (a, good) ↦ (a, cc (rw good at h), good)
      ]
    where
      refused : {e : Error} {c'' : Config} → fail e ≡ ok c'' → ⊥
      refused p = cc

pub bind-ok :
    (m : Result Config) (f : Config → Result Config) {c : Config}
    → (m >>= f) ≡ ok c
    → (c' : Config) × (m ≡ ok c') × (f c' ≡ ok c)
bind-ok (ok c') f h = (c', refl, h)
bind-ok (fail e) f h = cc

module _ (lib : GoLib) (env : Environment) where
  pub timeout_sound :
      (c : Config) {c' : Config}
      → load_timeout lib env c ≡ ok c'
      → (a : ℤ) × (c' ≡ record c { timeout = a })
        × Chosen (lookup_nats_env env (one "TIMEOUT")) lib.parse_duration c.timeout a
  unfolding load_timeout
  timeout_sound c h =
      assign_parsed_sound _ lib.parse_duration _ (λ x c. record c { timeout = x }) c c.timeout refl
        h

  pub drain_timeout_sound :
      (c : Config) {c' : Config}
      → load_drain_timeout lib env c ≡ ok c'
      → (a : ℤ) × (c' ≡ record c { drain_timeout = a })
        × Chosen (lookup_nats_env env (one "DRAIN_TIMEOUT")) lib.parse_duration c.drain_timeout a
  unfolding load_drain_timeout
  drain_timeout_sound c h =
      assign_parsed_sound _ lib.parse_duration _ (λ x c. record c { drain_timeout = x }) c
        c.drain_timeout refl h

  pub max_reconnects_sound :
      (c : Config) {c' : Config}
      → load_max_reconnects lib env c ≡ ok c'
      → (a : ℤ) × (c' ≡ record c { max_reconnects = a })
        × Chosen
            (lookup_nats_env env (one "MAX_RECONNECTS"))
            (λ v. number_option (atoi v))
            c.max_reconnects
            a
  unfolding load_max_reconnects
  max_reconnects_sound c h =
      assign_parsed_sound _ (λ v. number_option (atoi v)) _ (λ x c. record c { max_reconnects = x })
        c c.max_reconnects refl h

  pub reconnect_wait_sound :
      (c : Config) {c' : Config}
      → load_reconnect_wait lib env c ≡ ok c'
      → (a : ℤ) × (c' ≡ record c { reconnect_wait = a })
        × Chosen (lookup_nats_env env (one "RECONNECT_WAIT")) lib.parse_duration c.reconnect_wait a
  unfolding load_reconnect_wait
  reconnect_wait_sound c h =
      assign_parsed_sound _ lib.parse_duration _ (λ x c. record c { reconnect_wait = x }) c
        c.reconnect_wait refl h

  pub enable_jetstream_sound :
      (c : Config) {c' : Config}
      → load_enable_jetstream lib env c ≡ ok c'
      → (a : Bool) × (c' ≡ record c { enable_jetstream = a })
        × Chosen (lookup_nats_env env (one "ENABLE_JETSTREAM")) parse_bool c.enable_jetstream a
  unfolding load_enable_jetstream
  enable_jetstream_sound c h =
      assign_parsed_sound _ parse_bool _ (λ x c. record c { enable_jetstream = x }) c
        c.enable_jetstream refl h

  pub tls_sound :
      (c : Config) {c' : Config}
      → load_tls lib env c ≡ ok c'
      → (a : Bool) × (c' ≡ record c { tls = a })
        × Chosen (lookup_nats_env env (one "TLS")) parse_bool c.tls a
  unfolding load_tls
  tls_sound c h = assign_parsed_sound _ parse_bool _ (λ x c. record c { tls = x }) c c.tls refl h

  pub tls_insecure_sound :
      (c : Config) {c' : Config}
      → load_tls_insecure lib env c ≡ ok c'
      → (a : Bool) × (c' ≡ record c { tls_insecure = a })
        × Chosen (lookup_nats_env env (one "TLS_INSECURE")) parse_bool c.tls_insecure a
  unfolding load_tls_insecure
  tls_insecure_sound c h =
      assign_parsed_sound _ parse_bool _ (λ x c. record c { tls_insecure = x }) c c.tls_insecure
        refl h
