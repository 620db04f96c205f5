-- ===== src/Env/Loaded.antt =====
-- What a loaded configuration holds, field by field.
use natsx.Base.{Bool, true, [], ◌∷◌, some, ◌≡◌, refl, arith, ℤ}
use natsx.Base.Text.{codes}
use natsx.Base.Decimal.{atoi}
use natsx.GoLib.{GoLib}
use natsx.Errors.{is_nil, ok, returning}
use natsx.Config.{Config, zero_config, with_defaults, validate}
use natsx.Env.{
  Environment, lookup_nats_env, one, split_env_list, number_option, parse_bool, load_texts,
  load_parsed, load_config_from_env, load_timeout, load_drain_timeout, load_max_reconnects,
  load_reconnect_wait, load_enable_jetstream, load_tls,
}
use natsx.Env.Sound.{
  Chosen, assign_sound, bind-ok, timeout_sound, drain_timeout_sound, max_reconnects_sound,
  reconnect_wait_sound, enable_jetstream_sound, tls_sound, tls_insecure_sound,
}

module _ (lib : GoLib) (env : Environment) where
  -- Each text setting of `c` over the settings of `c0`.
  pub record HasTexts (c0 c : Config) : Type 0 where
    pub name :
        Chosen (lookup_nats_env env (codes "NAME" ∷ codes "CLIENT_NAME" ∷ [])) some c0.name c.name
    pub url : Chosen (lookup_nats_env env (one "URL")) some c0.url c.url
    pub servers :
        Chosen
          (lookup_nats_env env (one "SERVERS"))
          (λ v. some (split_env_list v))
          c0.servers
          c.servers
    pub token : Chosen (lookup_nats_env env (one "TOKEN")) some c0.token c.token
    pub username : Chosen (lookup_nats_env env (one "USERNAME")) some c0.username c.username
    pub password : Chosen (lookup_nats_env env (one "PASSWORD")) some c0.password c.password
    pub nkey_seed : Chosen (lookup_nats_env env (one "NKEY_SEED")) some c0.nkey_seed c.nkey_seed
    pub credentials_file :
        Chosen
          (lookup_nats_env env (one "CREDENTIALS_FILE"))
          some
          c0.credentials_file
          c.credentials_file

  -- Each parsed setting of `c` over the settings of `c0`.
  pub record HasParsed (c0 c : Config) : Type 0 where
    pub timeout :
        Chosen (lookup_nats_env env (one "TIMEOUT")) lib.parse_duration c0.timeout c.timeout
    pub drain_timeout :
        Chosen
          (lookup_nats_env env (one "DRAIN_TIMEOUT"))
          lib.parse_duration
          c0.drain_timeout
          c.drain_timeout
    pub max_reconnects :
        Chosen
          (lookup_nats_env env (one "MAX_RECONNECTS"))
          (λ v. number_option (atoi v))
          c0.max_reconnects
          c.max_reconnects
    pub reconnect_wait :
        Chosen
          (lookup_nats_env env (one "RECONNECT_WAIT"))
          lib.parse_duration
          c0.reconnect_wait
          c.reconnect_wait
    pub enable_jetstream :
        Chosen
          (lookup_nats_env env (one "ENABLE_JETSTREAM"))
          parse_bool
          c0.enable_jetstream
          c.enable_jetstream
    pub tls : Chosen (lookup_nats_env env (one "TLS")) parse_bool c0.tls c.tls
    pub tls_insecure :
        Chosen (lookup_nats_env env (one "TLS_INSECURE")) parse_bool c0.tls_insecure c.tls_insecure

  -- The settings that are parsed are the same.
  record SameParsed (c0 c : Config) : Type 0 where
    timeout : c.timeout ≡ c0.timeout
    drain_timeout : c.drain_timeout ≡ c0.drain_timeout
    max_reconnects : c.max_reconnects ≡ c0.max_reconnects
    reconnect_wait : c.reconnect_wait ≡ c0.reconnect_wait
    enable_jetstream : c.enable_jetstream ≡ c0.enable_jetstream
    tls : c.tls ≡ c0.tls
    tls_insecure : c.tls_insecure ≡ c0.tls_insecure

  load_texts-HasTexts :
      (c : Config) → HasTexts c (load_texts lib env c) × SameParsed c (load_texts lib env c)
  unfolding load_texts
  load_texts-HasTexts c0 =
      let (a0, e0, h0) =
        assign_sound (lookup_nats_env env (codes "NAME" ∷ codes "CLIENT_NAME" ∷ [])) (λ v. v)
          (λ a c. record c { name = a }) c0 c0.name refl in
      let c1 : Config = record c0 { name = a0 } in
      let (a1, e1, h1) =
        assign_sound (lookup_nats_env env (one "URL")) (λ v. v) (λ a c. record c { url = a }) c1
          c1.url refl in
      let c2 : Config = record c1 { url = a1 } in
      let (a2, e2, h2) =
        assign_sound (lookup_nats_env env (one "SERVERS")) split_env_list
          (λ a c. record c { servers = a }) c2 c2.servers refl in
      let c3 : Config = record c2 { servers = a2 } in
      let (a3, e3, h3) =
        assign_sound (lookup_nats_env env (one "TOKEN")) (λ v. v) (λ a c. record c { token = a }) c3
          c3.token refl in
      let c4 : Config = record c3 { token = a3 } in
      let (a4, e4, h4) =
        assign_sound (lookup_nats_env env (one "USERNAME")) (λ v. v)
          (λ a c. record c { username = a }) c4 c4.username refl in
      let c5 : Config = record c4 { username = a4 } in
      let (a5, e5, h5) =
        assign_sound (lookup_nats_env env (one "PASSWORD")) (λ v. v)
          (λ a c. record c { password = a }) c5 c5.password refl in
      let c6 : Config = record c5 { password = a5 } in
      let (a6, e6, h6) =
        assign_sound (lookup_nats_env env (one "NKEY_SEED")) (λ v. v)
          (λ a c. record c { nkey_seed = a }) c6 c6.nkey_seed refl in
      let c7 : Config = record c6 { nkey_seed = a6 } in
      let (a7, e7, h7) =
        assign_sound (lookup_nats_env env (one "CREDENTIALS_FILE")) (λ v. v)
          (λ a c. record c { credentials_file = a }) c7 c7.credentials_file refl in
      let c8 : Config = record c7 { credentials_file = a7 } in
      rw (e0, e1, e2, e3, e4, e5, e6, e7)
        (
          record {
            name = h0;
            url = h1;
            servers = h2;
            token = h3;
            username = h4;
            password = h5;
            nkey_seed = h6;
            credentials_file = h7;
          },
          record {
            timeout = refl;
            drain_timeout = refl;
            max_reconnects = refl;
            reconnect_wait = refl;
            enable_jetstream = refl;
            tls = refl;
            tls_insecure = refl;
          },
        )

  -- The seven steps together.
  join_steps :
      (c0 c1 c2 c3 c4 c5 c6 c : Config) {a0 a1 a2 a3 : ℤ} {a4 a5 a6 : Bool}
      → c1 ≡ record c0 { timeout = a0 }
      → Chosen (lookup_nats_env env (one "TIMEOUT")) lib.parse_duration c0.timeout a0
      → c2 ≡ record c1 { drain_timeout = a1 }
      → Chosen (lookup_nats_env env (one "DRAIN_TIMEOUT")) lib.parse_duration c1.drain_timeout a1
      → c3 ≡ record c2 { max_reconnects = a2 }
      → Chosen
          (lookup_nats_env env (one "MAX_RECONNECTS"))
          (λ v. number_option (atoi v))
          c2.max_reconnects
          a2
      → c4 ≡ record c3 { reconnect_wait = a3 }
      → Chosen (lookup_nats_env env (one "RECONNECT_WAIT")) lib.parse_duration c3.reconnect_wait a3
      → c5 ≡ record c4 { enable_jetstream = a4 }
      → Chosen (lookup_nats_env env (one "ENABLE_JETSTREAM")) parse_bool c4.enable_jetstream a4
      → c6 ≡ record c5 { tls = a5 }
      → Chosen (lookup_nats_env env (one "TLS")) parse_bool c5.tls a5
      → c ≡ record c6 { tls_insecure = a6 }
      → Chosen (lookup_nats_env env (one "TLS_INSECURE")) parse_bool c6.tls_insecure a6
      → HasParsed c0 c
        × (c ≡ record c0 {
          timeout = c.timeout;
          drain_timeout = c.drain_timeout;
          max_reconnects = c.max_reconnects;
          reconnect_wait = c.reconnect_wait;
          enable_jetstream = c.enable_jetstream;
          tls = c.tls;
          tls_insecure = c.tls_insecure;
        })
  join_steps c0 c1 c2 c3 c4 c5 c6 c e0 h0 e1 h1 e2 h2 e3 h3 e4 h4 e5 h5 e6 h6 =
      let k1 = rw (e0) at h1 in
      let k2 = rw (e1, e0) at h2 in
      let k3 = rw (e2, e1, e0) at h3 in
      let k4 = rw (e3, e2, e1, e0) at h4 in
      let k5 = rw (e4, e3, e2, e1, e0) at h5 in
      let k6 = rw (e5, e4, e3, e2, e1, e0) at h6 in
      rw (e6, e5, e4, e3, e2, e1, e0)
        (
          record {
            timeout = h0;
            drain_timeout = k1;
            max_reconnects = k2;
            reconnect_wait = k3;
            enable_jetstream = k4;
            tls = k5;
            tls_insecure = k6;
          },
          refl,
        )

  load_parsed-HasParsed :
      (c0 c : Config)
      → load_parsed lib env c0 ≡ ok c
      → HasParsed c0 c
        × (c ≡ record c0 {
          timeout = c.timeout;
          drain_timeout = c.drain_timeout;
          max_reconnects = c.max_reconnects;
          reconnect_wait = c.reconnect_wait;
          enable_jetstream = c.enable_jetstream;
          tls = c.tls;
          tls_insecure = c.tls_insecure;
        })
  unfolding load_parsed
  load_parsed-HasParsed c0 c g0 =
      let (c1, r0, g1) = bind-ok (load_timeout lib env c0) _ g0 in
      let (_, e0, h0) = timeout_sound lib env c0 r0 in
      let (c2, r1, g2) = bind-ok (load_drain_timeout lib env c1) _ g1 in
      let (_, e1, h1) = drain_timeout_sound lib env c1 r1 in
      let (c3, r2, g3) = bind-ok (load_max_reconnects lib env c2) _ g2 in
      let (_, e2, h2) = max_reconnects_sound lib env c2 r2 in
      let (c4, r3, g4) = bind-ok (load_reconnect_wait lib env c3) _ g3 in
      let (_, e3, h3) = reconnect_wait_sound lib env c3 r3 in
      let (c5, r4, g5) = bind-ok (load_enable_jetstream lib env c4) _ g4 in
      let (_, e4, h4) = enable_jetstream_sound lib env c4 r4 in
      let (c6, r5, g6) = bind-ok (load_tls lib env c5) _ g5 in
      let (_, e5, h5) = tls_sound lib env c5 r5 in
      let (_, e6, h6) = tls_insecure_sound lib env c6 g6 in
      join_steps c0 c1 c2 c3 c4 c5 c6 c e0 h0 e1 h1 e2 h2 e3 h3 e4 h4 e5 h5 e6 h6

  checked_lem :
      (c' c : Config)
      → returning (validate lib c') (ok c') ≡ ok c
      → (is_nil (validate lib c') ≡ true) × (c' ≡ c)
  checked_lem c' c h = ground arith

  join_loaded :
      (c0 texts c : Config)
      → HasTexts c0 texts
      → SameParsed c0 texts
      → HasParsed texts c
      → c ≡ record texts {
        timeout = c.timeout;
        drain_timeout = c.drain_timeout;
        max_reconnects = c.max_reconnects;
        reconnect_wait = c.reconnect_wait;
        enable_jetstream = c.enable_jetstream;
        tls = c.tls;
        tls_insecure = c.tls_insecure;
      }
      → HasTexts c0 c × HasParsed c0 c
  join_loaded c0 texts c t s p e = (
    rw e (record {
      name = t.name;
      url = t.url;
      servers = t.servers;
      token = t.token;
      username = t.username;
      password = t.password;
      nkey_seed = t.nkey_seed;
      credentials_file = t.credentials_file;
    }),
    record {
      timeout = rw s.timeout at p.timeout;
      drain_timeout = rw s.drain_timeout at p.drain_timeout;
      max_reconnects = rw s.max_reconnects at p.max_reconnects;
      reconnect_wait = rw s.reconnect_wait at p.reconnect_wait;
      enable_jetstream = rw s.enable_jetstream at p.enable_jetstream;
      tls = rw s.tls at p.tls;
      tls_insecure = rw s.tls_insecure at p.tls_insecure;
    },
  )

  -- A configuration that loads is valid, and each of its settings is what the variable that counts
  -- for it holds, or the default where there is none: the defaults are those of `withDefaults` on
  -- the empty configuration.
  pub load_config_from_env_lem :
      (c : Config)
      → load_config_from_env lib env ≡ ok c
      → HasTexts (with_defaults zero_config) c
        × HasParsed (with_defaults zero_config) c
        × (is_nil (validate lib c) ≡ true)
  unfolding load_config_from_env
  load_config_from_env_lem c h =
      let c0 = with_defaults zero_config in
      let (texts, same) = load_texts-HasTexts c0 in
      let (c', loaded, checked) = bind-ok (load_parsed lib env (load_texts lib env c0)) _ h in
      let (parsed, frame) = load_parsed-HasParsed (load_texts lib env c0) c' loaded in
      let (all_texts, all_parsed) =
        join_loaded c0 (load_texts lib env c0) c' texts same parsed frame in
      let (valid, e) = checked_lem c' c checked in rw (← e) (all_texts, all_parsed, valid)
