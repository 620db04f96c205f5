-- ===== src/Config/Validate.antt =====
-- What `Config.Validate` accepts.
use natsx.Base.{true, false, List, [], ◌∷◌, ◌≡◌, ◌↔◌, arith, All, is_empty, is_negative}
use natsx.Base.Text.{Text, trim_space}
use natsx.GoLib.{GoLib}
use natsx.Errors.{is_nil}
use natsx.Config.{
  Config, with_defaults, endpoints, bad_url, validate_endpoints, validate_filled, validate,
}

-- Filling in the defaults a second time changes nothing.
pub with_defaults_idem : (c : Config) → with_defaults (with_defaults c) ≡ with_defaults c
unfolding with_defaults
with_defaults_idem c = ground arith

module _ (lib : GoLib) where
  -- A configuration that a client can be opened with.
  pub record IsValid (c : Config) : Type 0 where
    pub named : is_empty (trim_space c.name) ≡ false
    pub timeout_sign : is_negative c.timeout ≡ false
    pub drain_sign : is_negative c.drain_timeout ≡ false
    pub wait_sign : is_negative c.reconnect_wait ≡ false
    pub tls_first : c.tls_insecure ≡ true → c.tls ≡ true
    pub reachable : is_empty (endpoints c) ≡ false
    pub parsed : All (λ endpoint. bad_url lib (lib.parse_url endpoint) ≡ false) (endpoints c)

  validate_endpoints_iff :
      (es : List Text)
      → (is_nil (validate_endpoints lib es) ≡ true)
        ↔ All (λ endpoint. bad_url lib (lib.parse_url endpoint) ≡ false) es
  unfolding validate_endpoints
  validate_endpoints_iff [] = ground arith
  validate_endpoints_iff (e ∷ es) = ground (arith, validate_endpoints_iff es)

  validate_filled_iff : (c : Config) → (is_nil (validate_filled lib c) ≡ true) ↔ IsValid c
  unfolding validate_filled
  validate_filled_iff c = ground (arith, validate_endpoints_iff (endpoints c))

  -- `Validate` accepts exactly the configurations that are valid once the defaults are filled in:
  -- a name that is not blank, no negative duration, `TLSInsecure` only with `TLS`, and at least one
  -- endpoint, each a URL with a scheme and a host.
  pub validate_iff : (c : Config) → (is_nil (validate lib c) ≡ true) ↔ IsValid (with_defaults c)
  unfolding validate
  validate_iff c = validate_filled_iff (with_defaults c)
