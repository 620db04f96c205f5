-- ===== src/Client/Open.antt =====
-- Opening a client.
use natsx.Base.{
  true, false, List, [], ◌∷◌, ◌++◌, append_assoc, Option, none, some, ◌≡◌, refl, ◌⊎◌, arith,
  if◌then◌else◌, is_empty, is_empty-eq-true,
}
use natsx.Base.Text.{Text, codes, join}
use natsx.Base.Text.Laws.{join-split}
use natsx.Config.{Config, with_defaults, validate, endpoints}
use natsx.Errors.{Error, is_nil, ok, fail}
use natsx.GoLib.{GoLib}
use natsx.Metrics.{
  State, recorded, record_metric, error_metric, inc_counter, metric_client_created_total,
}
use natsx.Nats.Conn.{NatsApi, ClosesConn}
use natsx.Client.{
  Client, Options, ClientOption, default_options, apply_options, strings_join_from, strings_join,
  connect_options, open_client, connect_client, new,
}

strings_join_from-join :
    (ps : List Text) (p out : Text) → strings_join_from (out ++ p) ps ≡ out ++ join (p ∷ ps) b','
unfolding strings_join_from join
strings_join_from-join [] p out = refl
strings_join_from-join (q ∷ ps) p out =
    rw (strings_join_from-join ps q (out ++ p ++ b',' ∷ [])) (simp append_assoc)

module _ (lib : GoLib) (api : NatsApi) where
  -- What `New` has recorded, and the client that it returns, or what it has left behind.
  pub record Opened (o : Options) (cfg : Config) (s : State api.World) (c : Client)
      (s' : State api.World) : Type 0 where
    pub valid : is_nil (validate lib c.cfg) ≡ true
    pub filled : c.cfg ≡ with_defaults cfg
    pub metrics : c.metrics ≡ some o.metrics
    pub connected : c.has_conn ≡ true
    pub streams : c.has_js ≡ c.cfg.enable_jetstream
    pub counted :
        s'.log
        ≡ s.log
          ++ recorded o.metrics
              (inc_counter metric_client_created_total ((codes "name", c.cfg.name) ∷ []))

  -- A client that `New` returns has the configuration with its defaults, which is valid, the last
  -- metrics that were given, a connection, and JetStream exactly if it is enabled; and the client is
  -- counted once.
  pub new-Opened :
      (ctx : Option api.Context) (cfg : Config) (opts : List ClientOption) (s : State api.World)
      {c : Client} {s' : State api.World}
      → new lib api ctx cfg opts s ≡ (ok c, s')
      → Opened (apply_options opts default_options) cfg s c s'
  unfolding new connect_client open_client record_metric
  new-Opened none cfg opts s h = cc
  new-Opened (some ctx) cfg opts s h = ground arith

  -- If nats.go closes a connection as it documents, then a failure of `New` is recorded once, and no
  -- connection is left open behind it: either the world is as it was, or `Connect` itself has
  -- failed, or the connection has been closed.
  pub new-failure :
      ClosesConn api
      → (ctx : Option api.Context) (cfg : Config) (opts : List ClientOption) (s : State api.World)
        {err : Error} {s' : State api.World}
      → new lib api ctx cfg opts s ≡ (fail err, s')
      → let o = apply_options opts default_options in
        let target = strings_join (endpoints (with_defaults cfg)) in
        let dial = api.connect target (connect_options o (with_defaults cfg)) s.world in
        (s'.log ≡ s.log ++ recorded o.metrics (error_metric (codes "new") err))
        × ((s'.world ≡ s.world)
            ⊎ ((is_nil dial.0 ≡ false) × (s'.world ≡ dial.1))
            ⊎ (api.is_closed s'.world ≡ true))
  unfolding new connect_client open_client record_metric
  new-failure laws none cfg opts s h = ground arith
  new-failure laws (some ctx) cfg opts s h =
      let o = apply_options opts default_options in
      let filled = with_defaults cfg in
      let dial = api.connect (strings_join (endpoints filled)) (connect_options o filled) s.world in
      ground (arith, laws.close-is_closed (api.jetstream dial.1).1)

join-nil : join [] b',' ≡ []
unfolding join
join-nil = refl

strings_join-join : (ps : List Text) → strings_join ps ≡ join ps b','
unfolding strings_join
strings_join-join [] = unfold join in refl
strings_join-join (p ∷ ps) = strings_join_from-join ps p []

-- The address that `New` connects to is that of the URL itself, or the servers joined by commas.
pub strings_join-endpoints :
    (c : Config)
    → strings_join (endpoints c) ≡ (if is_empty c.servers then c.url else join c.servers b',')
unfolding endpoints
strings_join-endpoints c =
    rw (strings_join-join _)
      (ground (arith, join-split b',' c.url, join-nil, is_empty-eq-true c.url))
