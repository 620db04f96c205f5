-- ===== src/Config/Redact.antt =====
-- What `Config.Sanitize` hides.
use natsx.Base.{
  true, ◌&&◌, List, [], ◌∷◌, some, ◌≡◌, refl, ap, inl, inr, arith, is_empty, map, Bool-cases,
}
use natsx.Base.Text.{Text, trim_space, split, join}
use natsx.GoLib.{GoLib}
use natsx.Sanitize.{mask, secret}
use natsx.Config.{
  Config, with_defaults, redact_path, sanitize_part, sanitize_dsn, sanitize_servers, sanitize,
}

-- Secrets that are both empty or both not.
secret_hides : (s t : Text) → is_empty s ≡ is_empty t → secret s ≡ secret t
unfolding secret
secret_hides s t h = rw h

redact_path_hides : (s t : Text) → is_empty s ≡ is_empty t → redact_path s ≡ redact_path t
unfolding redact_path
redact_path_hides s t h = rw h

module _ (lib : GoLib) where
  -- Two addresses that are the same, or that parse to URLs which differ in their users alone.
  pub data SamePart (p q : Text) : Type 0 where
    same : trim_space p ≡ trim_space q → SamePart p q
    users :
        (u v : lib.Url)
        → lib.parse_url (trim_space p) ≡ some u
        → lib.parse_url (trim_space q) ≡ some v
        → lib.has_user u ≡ true
        → lib.has_user v ≡ true
        → lib.without_user u ≡ lib.without_user v
        → SamePart p q

  abbrev pub SameParts : List Text → List Text → Type 0
  SameParts [] [] = Unit
  SameParts [] (_ ∷ _) = ⊥
  SameParts (_ ∷ _) [] = ⊥
  SameParts (p ∷ ps) (q ∷ qs) = SamePart p q × SameParts ps qs

  -- The same for lists of addresses behind commas.
  abbrev pub SameDsn : Text → Text → Type 0
  SameDsn s t = SameParts (split s b',') (split t b',')

  abbrev pub SameServers : List Text → List Text → Type 0
  SameServers [] [] = Unit
  SameServers [] (_ ∷ _) = ⊥
  SameServers (_ ∷ _) [] = ⊥
  SameServers (s ∷ ss) (t ∷ ts) = SameDsn s t × SameServers ss ts

  -- Two configurations that agree but for the tokens, passwords, seeds and credential paths, which are
  -- both empty or both not, and the addresses, which `SamePart` compares.
  pub record SamePublic (c d : Config) : Type 0 where
    pub name : c.name ≡ d.name
    pub username : c.username ≡ d.username
    pub timeout : c.timeout ≡ d.timeout
    pub drain_timeout : c.drain_timeout ≡ d.drain_timeout
    pub max_reconnects : c.max_reconnects ≡ d.max_reconnects
    pub reconnect_wait : c.reconnect_wait ≡ d.reconnect_wait
    pub enable_jetstream : c.enable_jetstream ≡ d.enable_jetstream
    pub tls : c.tls ≡ d.tls
    pub tls_insecure : c.tls_insecure ≡ d.tls_insecure
    pub token : is_empty c.token ≡ is_empty d.token
    pub password : is_empty c.password ≡ is_empty d.password
    pub nkey_seed : is_empty c.nkey_seed ≡ is_empty d.nkey_seed
    pub credentials_file : is_empty c.credentials_file ≡ is_empty d.credentials_file
    pub url_given : is_empty c.url ≡ is_empty d.url
    pub url : SameDsn c.url d.url
    pub servers : SameServers c.servers d.servers

  part_hides :
      (p q : Text)
      → SamePart p q
      → sanitize_part lib (trim_space p) (lib.parse_url (trim_space p))
        ≡ sanitize_part lib (trim_space q) (lib.parse_url (trim_space q))
  unfolding sanitize_part
  part_hides p q (same e) = rw e
  part_hides p q (users u v pu pv hu hv e) =
      rw (pu, pv, hu, hv, ← lib.with_user_lem u mask mask, ← lib.with_user_lem v mask mask, e)

  parts_hide :
      (ps qs : List Text)
      → SameParts ps qs
      → map (λ p. sanitize_part lib (trim_space p) (lib.parse_url (trim_space p))) ps
        ≡ map (λ p. sanitize_part lib (trim_space p) (lib.parse_url (trim_space p))) qs
  parts_hide [] [] _ = refl
  parts_hide [] (q ∷ qs) h = absurd h
  parts_hide (p ∷ ps) [] h = absurd h
  parts_hide (p ∷ ps) (q ∷ qs) (h, hs) = rw (part_hides p q h, parts_hide ps qs hs)

  pub sanitize_dsn_hides : (s t : Text) → SameDsn s t → sanitize_dsn lib s ≡ sanitize_dsn lib t
  unfolding sanitize_dsn
  sanitize_dsn_hides s t h = ap (λ ps. join ps b',') (parts_hide (split s b',') (split t b',') h)

  servers_hide :
      (ss ts : List Text) → SameServers ss ts → sanitize_servers lib ss ≡ sanitize_servers lib ts
  unfolding sanitize_servers
  servers_hide [] [] _ = refl
  servers_hide [] (t ∷ ts) h = absurd h
  servers_hide (s ∷ ss) [] h = absurd h
  servers_hide (s ∷ ss) (t ∷ ts) (h, hs) = rw (sanitize_dsn_hides s t h, servers_hide ss ts hs)

  same_count : (ss ts : List Text) → SameServers ss ts → is_empty ss ≡ is_empty ts
  same_count [] [] _ = refl
  same_count [] (t ∷ ts) h = absurd h
  same_count (s ∷ ss) [] h = absurd h
  same_count (s ∷ ss) (t ∷ ts) h = refl

  url_hides :
      (c d : Config)
      → SamePublic c d
      → sanitize_dsn lib (with_defaults c).url ≡ sanitize_dsn lib (with_defaults d).url
  unfolding with_defaults
  url_hides c d h =
      rw (h.url_given, same_count c.servers d.servers h.servers)
        (elim (Bool-cases (is_empty d.url && is_empty d.servers)) [
          | inl fill ↦ rw fill
          | inr keep ↦ rw keep (sanitize_dsn_hides c.url d.url h.url)
        ])

  -- Two configurations are sanitized alike if they agree in their other fields and are alike in
  -- these: the tokens, passwords, seeds and credential paths are both empty or both not; a URL is
  -- given in both or in neither; and their addresses are pairwise the same but for white space, or
  -- parse to URLs that both have a user and differ in nothing else. So of these secrets the result
  -- shows at most whether they are empty, and of a user that there is one; of an address that does
  -- not parse nothing is said.
  pub sanitize_hides : (c d : Config) → SamePublic c d → sanitize lib c ≡ sanitize lib d
  unfolding sanitize
  sanitize_hides c d h = ground (
    arith,
    url_hides c d h,
    servers_hide c.servers d.servers h.servers,
    secret_hides c.token d.token h.token,
    secret_hides c.password d.password h.password,
    secret_hides c.nkey_seed d.nkey_seed h.nkey_seed,
    redact_path_hides c.credentials_file d.credentials_file h.credentials_file,
  )
