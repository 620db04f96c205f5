-- ===== src/Env/Precedence.antt =====
-- Which variable decides a setting.
use natsx.Base.{
  List, [], ◌∷◌, ◌++◌, map, Option, none, some, ◌≡◌, refl, ◌⊎◌, inl, inr, ◌↔◌, arith, All,
  Option-cases,
}
use natsx.Base.Text.{Text}
use natsx.Env.{
  foundationx_nats_env_prefix, legacy_nats_env_prefix, Environment, filled_value, or_else,
  lookup_suffixes, lookup_nats_env,
}

-- A variable that is absent, or holds white space alone.
abbrev pub IsBlank : Environment → Text → Type 0
IsBlank env key = filled_value key (env key) ≡ none

-- Of some variables, the first that is not blank is `key`, and its trimmed value is `value`.
abbrev pub FirstFilled : Environment → Text → Text → List Text → Type 0
FirstFilled env value key [] = ⊥
FirstFilled env value key (other ∷ keys) =
    ((other ≡ key) × (filled_value key (env key) ≡ some (value, key)))
    ⊎ (IsBlank env other × FirstFilled env value key keys)

-- The variables of some suffixes, in the order in which they count: first all under the canonical
-- prefix, then all under the legacy one.
abbrev pub candidates : List Text → List Text
candidates suffixes =
    map (λ s. foundationx_nats_env_prefix ++ s) suffixes
    ++ map (λ s. legacy_nats_env_prefix ++ s) suffixes

-- The first variable of a list that is not blank.
first_filled : Environment → List Text → Option (Text × Text)
first_filled env [] = none
first_filled env (key ∷ keys) = or_else (filled_value key (env key)) (first_filled env keys)

module _ (env : Environment) where
  filled_value_key :
      (key : Text) {value found : Text}
      → filled_value key (env key) ≡ some (value, found)
      → found ≡ key
  unfolding filled_value
  filled_value_key key h = ground arith

  lookup_suffixes-first_filled :
      (prefix : Text) (suffixes : List Text)
      → lookup_suffixes env prefix suffixes ≡ first_filled env (map (λ s. prefix ++ s) suffixes)
  unfolding lookup_suffixes first_filled
  lookup_suffixes-first_filled prefix [] = refl
  lookup_suffixes-first_filled prefix (s ∷ ss) = rw (lookup_suffixes-first_filled prefix ss)

  first_filled-append :
      (xs ys : List Text)
      → first_filled env (xs ++ ys) ≡ or_else (first_filled env xs) (first_filled env ys)
  unfolding first_filled
  first_filled-append [] ys = refl
  first_filled-append (x ∷ xs) ys = ground (arith, first_filled-append xs ys)

  lookup_nats_env-first_filled :
      (suffixes : List Text) → lookup_nats_env env suffixes ≡ first_filled env (candidates suffixes)
  unfolding lookup_nats_env
  lookup_nats_env-first_filled suffixes = rw (
    lookup_suffixes-first_filled foundationx_nats_env_prefix suffixes,
    lookup_suffixes-first_filled legacy_nats_env_prefix suffixes,
    first_filled-append (map (λ s. foundationx_nats_env_prefix ++ s) suffixes)
        (map (λ s. legacy_nats_env_prefix ++ s) suffixes),
  )

  first_filled-none : (keys : List Text) → (first_filled env keys ≡ none) ↔ All (IsBlank env) keys
  unfolding first_filled
  first_filled-none [] = ground arith
  first_filled-none (k ∷ ks) = ground (arith, first_filled-none ks)

  first_filled-some :
      (keys : List Text) (value key : Text)
      → (first_filled env keys ≡ some (value, key)) ↔ FirstFilled env value key keys
  unfolding first_filled
  first_filled-some [] value key = ground arith
  first_filled-some (k ∷ ks) value key = elim (Option-cases (filled_value k (env k))) [
    | inl blank ↦ ground (arith, first_filled-some ks value key)
    | inr ((v, j), filled) ↦ ground (arith, filled_value_key k filled)
  ]

  -- `lookupNATSEnv` finds nothing exactly when every variable of the suffixes is blank, under both
  -- prefixes, and otherwise the first in order that is not blank, with its trimmed value: the
  -- canonical variables all come before the legacy ones.
  pub lookup_nats_env_iff :
      (suffixes : List Text)
      → ((lookup_nats_env env suffixes ≡ none) ↔ All (IsBlank env) (candidates suffixes))
        × ((value key : Text)
            → (lookup_nats_env env suffixes ≡ some (value, key))
              ↔ FirstFilled env value key (candidates suffixes))
  lookup_nats_env_iff suffixes = rw (lookup_nats_env-first_filled suffixes) (
    first_filled-none (candidates suffixes),
    λ value key. first_filled-some (candidates suffixes) value key,
  )
