-- ===== src/JetStream/Configs/Overlay.antt =====
-- The two matches against an independent description: laying the settings that are requested over
-- the existing configuration changes nothing.
use natsx.Base.{
  map, sym, refl, ◌∙◌, Bool, true, false, List, [], ◌∷◌, some, ◌≡◌, ◌↔◌, ap, arith, if◌then◌else◌,
  is_empty, ◌==◌, is_zero, All,
}
use natsx.Base.Eq.{Eq, nat_Eq, int_Eq, bool_Eq, text_Eq, option_Eq, list_Eq}
use natsx.JetStream.Configs.{
  Shapes, is_none, set_differs, none_of, StreamConfig, ConsumerConfig, stream_config_matches,
  consumer_config_matches,
}

set_differs_iff {ℓ} :
    {A : Type ℓ} (e : Eq A) (unset : Bool) (a b : A)
    → (set_differs e unset a b ≡ false) ↔ ((if unset then b else a) ≡ b)
set_differs_iff e true a b = ground arith
set_differs_iff e false a b = ground (arith, e.beq_iff a b)

infixr 3 ◌⊗◌
abbrev ◌⊗◌ {ℓ κ} : {A : Type ℓ} {B : Type κ} → A → B → A × B
a ⊗ b = (a, b)

-- A setting of a configuration: how its values are compared, when it is left unset, and its value. One
-- that is never left unset is always compared.
record Setting (C : Type 0) : Type 1 where
  Value : Type 0
  eq : Eq Value
  unset : C → Bool
  value : C → Value

abbrev setting : {A C : Type 0} → Eq A → (C → Bool) → (C → A) → Setting C
setting eq unset value = record { Value = _; eq = eq; unset = unset; value = value }

module _ {C : Type 0} where
  abbrev test : C → C → Setting C → Bool
  test r e t = set_differs t.eq (t.unset r) (t.value r) (t.value e)

  -- Laying the one configuration over the other does not change the setting.
  abbrev Holds : C → C → Setting C → Type 0
  Holds r e t = (if t.unset r then t.value e else t.value r) ≡ t.value e

  -- The configuration has the setting that laying the one over the other gives.
  abbrev Lays : C → C → C → Setting C → Type 0
  Lays o r e t = t.value o ≡ (if t.unset r then t.value e else t.value r)

  no_tests-Holds :
      (r e : C) (ts : List (Setting C)) → (none_of (map (test r e) ts) ≡ true) ↔ All (Holds r e) ts
  unfolding none_of
  no_tests-Holds r e [] = ground arith
  no_tests-Holds r e (t ∷ ts) =
      ground
        (arith, set_differs_iff t.eq (t.unset r) (t.value r) (t.value e), no_tests-Holds r e ts)

  Holds-Lays :
      (o r e : C) (ts : List (Setting C)) → o ≡ e → All (Lays o r e) ts → All (Holds r e) ts
  Holds-Lays o r e [] p lays = tt
  Holds-Lays o r e (t ∷ ts) p lays =
      (sym (lays.0) ∙ ap (λ c. t.value c) p, Holds-Lays o r e ts p (lays.1))

module _ (s : Shapes) where
  -- A configuration with the requested settings in place of the existing ones; a setting that may be
  -- left unset keeps its value where it is.
  abbrev pub overlay_stream : StreamConfig s → StreamConfig s → StreamConfig s
  overlay_stream r e = record {
    name = r.name;
    description = if is_empty r.description then e.description else r.description;
    subjects = if is_empty r.subjects then e.subjects else r.subjects;
    retention = r.retention;
    max_consumers = if is_zero r.max_consumers then e.max_consumers else r.max_consumers;
    max_msgs = if is_zero r.max_msgs then e.max_msgs else r.max_msgs;
    max_bytes = if is_zero r.max_bytes then e.max_bytes else r.max_bytes;
    discard = r.discard;
    discard_new_per_subject = r.discard_new_per_subject;
    max_age = if is_zero r.max_age then e.max_age else r.max_age;
    max_msgs_per_subject =
        if is_zero r.max_msgs_per_subject then e.max_msgs_per_subject else r.max_msgs_per_subject;
    max_msg_size = if is_zero r.max_msg_size then e.max_msg_size else r.max_msg_size;
    storage = r.storage;
    replicas = if is_zero r.replicas then e.replicas else r.replicas;
    no_ack = r.no_ack;
    duplicates = if is_zero r.duplicates then e.duplicates else r.duplicates;
    placement = if is_none r.placement then e.placement else r.placement;
    mirror = if is_none r.mirror then e.mirror else r.mirror;
    sources = if is_empty r.sources then e.sources else r.sources;
    sealed = r.sealed;
    deny_delete = r.deny_delete;
    deny_purge = r.deny_purge;
    allow_rollup = r.allow_rollup;
    compression = r.compression;
    first_seq = if r.first_seq == 0 then e.first_seq else r.first_seq;
    subject_transform =
        if is_none r.subject_transform then e.subject_transform else r.subject_transform;
    republish = if is_none r.republish then e.republish else r.republish;
    allow_direct = r.allow_direct;
    mirror_direct = r.mirror_direct;
    consumer_limits =
        if s.consumer_limits_eq.beq r.consumer_limits s.no_limits
        then e.consumer_limits
        else r.consumer_limits;
    metadata = if s.no_metadata r.metadata then e.metadata else r.metadata;
    allow_msg_ttl = r.allow_msg_ttl;
    subject_delete_marker_ttl =
        if is_zero r.subject_delete_marker_ttl
        then e.subject_delete_marker_ttl
        else r.subject_delete_marker_ttl;
  }

  abbrev stream_settings : List (Setting (StreamConfig s))
  stream_settings =
      setting text_Eq (λ c. false) (λ c. c.name)
      ∷ setting text_Eq (λ c. is_empty c.description) (λ c. c.description)
      ∷ setting (list_Eq text_Eq) (λ c. is_empty c.subjects) (λ c. c.subjects)
      ∷ setting nat_Eq (λ c. false) (λ c. c.retention)
      ∷ setting int_Eq (λ c. is_zero c.max_consumers) (λ c. c.max_consumers)
      ∷ setting int_Eq (λ c. is_zero c.max_msgs) (λ c. c.max_msgs)
      ∷ setting int_Eq (λ c. is_zero c.max_bytes) (λ c. c.max_bytes)
      ∷ setting nat_Eq (λ c. false) (λ c. c.discard)
      ∷ setting bool_Eq (λ c. false) (λ c. c.discard_new_per_subject)
      ∷ setting int_Eq (λ c. is_zero c.max_age) (λ c. c.max_age)
      ∷ setting int_Eq (λ c. is_zero c.max_msgs_per_subject) (λ c. c.max_msgs_per_subject)
      ∷ setting int_Eq (λ c. is_zero c.max_msg_size) (λ c. c.max_msg_size)
      ∷ setting nat_Eq (λ c. false) (λ c. c.storage)
      ∷ setting int_Eq (λ c. is_zero c.replicas) (λ c. c.replicas)
      ∷ setting bool_Eq (λ c. false) (λ c. c.no_ack)
      ∷ setting int_Eq (λ c. is_zero c.duplicates) (λ c. c.duplicates)
      ∷ setting (option_Eq s.placement_eq) (λ c. is_none c.placement) (λ c. c.placement)
      ∷ setting (option_Eq s.stream_source_eq) (λ c. is_none c.mirror) (λ c. c.mirror)
      ∷ setting (list_Eq s.stream_source_eq) (λ c. is_empty c.sources) (λ c. c.sources)
      ∷ setting bool_Eq (λ c. false) (λ c. c.sealed)
      ∷ setting bool_Eq (λ c. false) (λ c. c.deny_delete)
      ∷ setting bool_Eq (λ c. false) (λ c. c.deny_purge)
      ∷ setting bool_Eq (λ c. false) (λ c. c.allow_rollup)
      ∷ setting nat_Eq (λ c. false) (λ c. c.compression)
      ∷ setting nat_Eq (λ c. c.first_seq == 0) (λ c. c.first_seq)
      ∷ setting (option_Eq s.subject_transform_eq) (λ c. is_none c.subject_transform)
          (λ c. c.subject_transform)
      ∷ setting (option_Eq s.republish_eq) (λ c. is_none c.republish) (λ c. c.republish)
      ∷ setting bool_Eq (λ c. false) (λ c. c.allow_direct)
      ∷ setting bool_Eq (λ c. false) (λ c. c.mirror_direct)
      ∷ setting s.consumer_limits_eq (λ c. s.consumer_limits_eq.beq c.consumer_limits s.no_limits)
          (λ c. c.consumer_limits)
      ∷ setting s.metadata_eq (λ c. s.no_metadata c.metadata) (λ c. c.metadata)
      ∷ setting bool_Eq (λ c. false) (λ c. c.allow_msg_ttl)
      ∷ setting int_Eq (λ c. is_zero c.subject_delete_marker_ttl) (λ c. c.subject_delete_marker_ttl)
      ∷ []

  -- What the overlay holds for each setting.
  overlay_stream-Lays : (r e : StreamConfig s) → All (Lays (overlay_stream r e) r e) stream_settings
  overlay_stream-Lays r e =
      refl ⊗ refl ⊗ refl ⊗ refl ⊗ refl ⊗ refl ⊗ refl ⊗ refl ⊗ refl ⊗ refl ⊗ refl ⊗ refl ⊗ refl
      ⊗ refl ⊗ refl ⊗ refl ⊗ refl ⊗ refl ⊗ refl ⊗ refl ⊗ refl ⊗ refl ⊗ refl ⊗ refl ⊗ refl ⊗ refl
      ⊗ refl ⊗ refl ⊗ refl ⊗ refl ⊗ refl ⊗ refl ⊗ refl ⊗ tt

  stream_path : (r e : StreamConfig s) → All (Holds r e) stream_settings → overlay_stream r e ≡ e
  stream_path r e a = λ i. record {
    name = a.0 i;
    description = a.1.0 i;
    subjects = a.1.1.0 i;
    retention = a.1.1.1.0 i;
    max_consumers = a.1.1.1.1.0 i;
    max_msgs = a.1.1.1.1.1.0 i;
    max_bytes = a.1.1.1.1.1.1.0 i;
    discard = a.1.1.1.1.1.1.1.0 i;
    discard_new_per_subject = a.1.1.1.1.1.1.1.1.0 i;
    max_age = a.1.1.1.1.1.1.1.1.1.0 i;
    max_msgs_per_subject = a.1.1.1.1.1.1.1.1.1.1.0 i;
    max_msg_size = a.1.1.1.1.1.1.1.1.1.1.1.0 i;
    storage = a.1.1.1.1.1.1.1.1.1.1.1.1.0 i;
    replicas = a.1.1.1.1.1.1.1.1.1.1.1.1.1.0 i;
    no_ack = a.1.1.1.1.1.1.1.1.1.1.1.1.1.1.0 i;
    duplicates = a.1.1.1.1.1.1.1.1.1.1.1.1.1.1.1.0 i;
    placement = a.1.1.1.1.1.1.1.1.1.1.1.1.1.1.1.1.0 i;
    mirror = a.1.1.1.1.1.1.1.1.1.1.1.1.1.1.1.1.1.0 i;
    sources = a.1.1.1.1.1.1.1.1.1.1.1.1.1.1.1.1.1.1.0 i;
    sealed = a.1.1.1.1.1.1.1.1.1.1.1.1.1.1.1.1.1.1.1.0 i;
    deny_delete = a.1.1.1.1.1.1.1.1.1.1.1.1.1.1.1.1.1.1.1.1.0 i;
    deny_purge = a.1.1.1.1.1.1.1.1.1.1.1.1.1.1.1.1.1.1.1.1.1.0 i;
    allow_rollup = a.1.1.1.1.1.1.1.1.1.1.1.1.1.1.1.1.1.1.1.1.1.1.0 i;
    compression = a.1.1.1.1.1.1.1.1.1.1.1.1.1.1.1.1.1.1.1.1.1.1.1.0 i;
    first_seq = a.1.1.1.1.1.1.1.1.1.1.1.1.1.1.1.1.1.1.1.1.1.1.1.1.0 i;
    subject_transform = a.1.1.1.1.1.1.1.1.1.1.1.1.1.1.1.1.1.1.1.1.1.1.1.1.1.0 i;
    republish = a.1.1.1.1.1.1.1.1.1.1.1.1.1.1.1.1.1.1.1.1.1.1.1.1.1.1.0 i;
    allow_direct = a.1.1.1.1.1.1.1.1.1.1.1.1.1.1.1.1.1.1.1.1.1.1.1.1.1.1.1.0 i;
    mirror_direct = a.1.1.1.1.1.1.1.1.1.1.1.1.1.1.1.1.1.1.1.1.1.1.1.1.1.1.1.1.0 i;
    consumer_limits = a.1.1.1.1.1.1.1.1.1.1.1.1.1.1.1.1.1.1.1.1.1.1.1.1.1.1.1.1.1.0 i;
    metadata = a.1.1.1.1.1.1.1.1.1.1.1.1.1.1.1.1.1.1.1.1.1.1.1.1.1.1.1.1.1.1.0 i;
    allow_msg_ttl = a.1.1.1.1.1.1.1.1.1.1.1.1.1.1.1.1.1.1.1.1.1.1.1.1.1.1.1.1.1.1.1.0 i;
    subject_delete_marker_ttl =
        a.1.1.1.1.1.1.1.1.1.1.1.1.1.1.1.1.1.1.1.1.1.1.1.1.1.1.1.1.1.1.1.1.0 i;
  }

  -- A stream configuration matches an existing one exactly when laying it over that changes nothing.
  pub stream_config_matches_iff :
      (r e : StreamConfig s)
      → (stream_config_matches s (some r) (some e) ≡ true) ↔ (overlay_stream r e ≡ e)
  unfolding stream_config_matches
  stream_config_matches_iff r e = (
    λ h. stream_path r e ((no_tests-Holds r e stream_settings).0 h),
    λ p.
        (no_tests-Holds r e stream_settings).1
          (Holds-Lays (overlay_stream r e) r e stream_settings p (overlay_stream-Lays r e)),
  )

  abbrev pub overlay_consumer : ConsumerConfig s → ConsumerConfig s → ConsumerConfig s
  overlay_consumer r e = record {
    durable = if is_empty r.durable then e.durable else r.durable;
    name = if is_empty r.name then e.name else r.name;
    description = if is_empty r.description then e.description else r.description;
    deliver_policy = r.deliver_policy;
    opt_start_seq = if r.opt_start_seq == 0 then e.opt_start_seq else r.opt_start_seq;
    opt_start_time = if is_none r.opt_start_time then e.opt_start_time else r.opt_start_time;
    ack_policy = r.ack_policy;
    ack_wait = if is_zero r.ack_wait then e.ack_wait else r.ack_wait;
    max_deliver = if is_zero r.max_deliver then e.max_deliver else r.max_deliver;
    back_off = if is_empty r.back_off then e.back_off else r.back_off;
    filter_subject = if is_empty r.filter_subject then e.filter_subject else r.filter_subject;
    filter_subjects = if is_empty r.filter_subjects then e.filter_subjects else r.filter_subjects;
    replay_policy = r.replay_policy;
    rate_limit = if r.rate_limit == 0 then e.rate_limit else r.rate_limit;
    sample_frequency =
        if is_empty r.sample_frequency then e.sample_frequency else r.sample_frequency;
    max_waiting = if is_zero r.max_waiting then e.max_waiting else r.max_waiting;
    max_ack_pending = if is_zero r.max_ack_pending then e.max_ack_pending else r.max_ack_pending;
    flow_control = r.flow_control;
    heartbeat = if is_zero r.heartbeat then e.heartbeat else r.heartbeat;
    headers_only = r.headers_only;
    max_request_batch =
        if is_zero r.max_request_batch then e.max_request_batch else r.max_request_batch;
    max_request_expires =
        if is_zero r.max_request_expires then e.max_request_expires else r.max_request_expires;
    max_request_max_bytes =
        if is_zero r.max_request_max_bytes
        then e.max_request_max_bytes
        else r.max_request_max_bytes;
    deliver_subject = if is_empty r.deliver_subject then e.deliver_subject else r.deliver_subject;
    deliver_group = if is_empty r.deliver_group then e.deliver_group else r.deliver_group;
    inactive_threshold =
        if is_zero r.inactive_threshold then e.inactive_threshold else r.inactive_threshold;
    replicas = if is_zero r.replicas then e.replicas else r.replicas;
    memory_storage = r.memory_storage;
    metadata = if s.no_metadata r.metadata then e.metadata else r.metadata;
  }

  abbrev consumer_settings : List (Setting (ConsumerConfig s))
  consumer_settings =
      setting text_Eq (λ c. is_empty c.durable) (λ c. c.durable)
      ∷ setting text_Eq (λ c. is_empty c.name) (λ c. c.name)
      ∷ setting text_Eq (λ c. is_empty c.description) (λ c. c.description)
      ∷ setting nat_Eq (λ c. false) (λ c. c.deliver_policy)
      ∷ setting nat_Eq (λ c. c.opt_start_seq == 0) (λ c. c.opt_start_seq)
      ∷ setting (option_Eq s.time_eq) (λ c. is_none c.opt_start_time) (λ c. c.opt_start_time)
      ∷ setting nat_Eq (λ c. false) (λ c. c.ack_policy)
      ∷ setting int_Eq (λ c. is_zero c.ack_wait) (λ c. c.ack_wait)
      ∷ setting int_Eq (λ c. is_zero c.max_deliver) (λ c. c.max_deliver)
      ∷ setting (list_Eq int_Eq) (λ c. is_empty c.back_off) (λ c. c.back_off)
      ∷ setting text_Eq (λ c. is_empty c.filter_subject) (λ c. c.filter_subject)
      ∷ setting (list_Eq text_Eq) (λ c. is_empty c.filter_subjects) (λ c. c.filter_subjects)
      ∷ setting nat_Eq (λ c. false) (λ c. c.replay_policy)
      ∷ setting nat_Eq (λ c. c.rate_limit == 0) (λ c. c.rate_limit)
      ∷ setting text_Eq (λ c. is_empty c.sample_frequency) (λ c. c.sample_frequency)
      ∷ setting int_Eq (λ c. is_zero c.max_waiting) (λ c. c.max_waiting)
      ∷ setting int_Eq (λ c. is_zero c.max_ack_pending) (λ c. c.max_ack_pending)
      ∷ setting bool_Eq (λ c. false) (λ c. c.flow_control)
      ∷ setting int_Eq (λ c. is_zero c.heartbeat) (λ c. c.heartbeat)
      ∷ setting bool_Eq (λ c. false) (λ c. c.headers_only)
      ∷ setting int_Eq (λ c. is_zero c.max_request_batch) (λ c. c.max_request_batch)
      ∷ setting int_Eq (λ c. is_zero c.max_request_expires) (λ c. c.max_request_expires)
      ∷ setting int_Eq (λ c. is_zero c.max_request_max_bytes) (λ c. c.max_request_max_bytes)
      ∷ setting text_Eq (λ c. is_empty c.deliver_subject) (λ c. c.deliver_subject)
      ∷ setting text_Eq (λ c. is_empty c.deliver_group) (λ c. c.deliver_group)
      ∷ setting int_Eq (λ c. is_zero c.inactive_threshold) (λ c. c.inactive_threshold)
      ∷ setting int_Eq (λ c. is_zero c.replicas) (λ c. c.replicas)
      ∷ setting bool_Eq (λ c. false) (λ c. c.memory_storage)
      ∷ setting s.metadata_eq (λ c. s.no_metadata c.metadata) (λ c. c.metadata)
      ∷ []

  -- What the overlay holds for each setting.
  overlay_consumer-Lays :
      (r e : ConsumerConfig s) → All (Lays (overlay_consumer r e) r e) consumer_settings
  overlay_consumer-Lays r e =
      refl ⊗ refl ⊗ refl ⊗ refl ⊗ refl ⊗ refl ⊗ refl ⊗ refl ⊗ refl ⊗ refl ⊗ refl ⊗ refl ⊗ refl
      ⊗ refl ⊗ refl ⊗ refl ⊗ refl ⊗ refl ⊗ refl ⊗ refl ⊗ refl ⊗ refl ⊗ refl ⊗ refl ⊗ refl ⊗ refl
      ⊗ refl ⊗ refl ⊗ refl ⊗ tt

  consumer_path :
      (r e : ConsumerConfig s) → All (Holds r e) consumer_settings → overlay_consumer r e ≡ e
  consumer_path r e a = λ i. record {
    durable = a.0 i;
    name = a.1.0 i;
    description = a.1.1.0 i;
    deliver_policy = a.1.1.1.0 i;
    opt_start_seq = a.1.1.1.1.0 i;
    opt_start_time = a.1.1.1.1.1.0 i;
    ack_policy = a.1.1.1.1.1.1.0 i;
    ack_wait = a.1.1.1.1.1.1.1.0 i;
    max_deliver = a.1.1.1.1.1.1.1.1.0 i;
    back_off = a.1.1.1.1.1.1.1.1.1.0 i;
    filter_subject = a.1.1.1.1.1.1.1.1.1.1.0 i;
    filter_subjects = a.1.1.1.1.1.1.1.1.1.1.1.0 i;
    replay_policy = a.1.1.1.1.1.1.1.1.1.1.1.1.0 i;
    rate_limit = a.1.1.1.1.1.1.1.1.1.1.1.1.1.0 i;
    sample_frequency = a.1.1.1.1.1.1.1.1.1.1.1.1.1.1.0 i;
    max_waiting = a.1.1.1.1.1.1.1.1.1.1.1.1.1.1.1.0 i;
    max_ack_pending = a.1.1.1.1.1.1.1.1.1.1.1.1.1.1.1.1.0 i;
    flow_control = a.1.1.1.1.1.1.1.1.1.1.1.1.1.1.1.1.1.0 i;
    heartbeat = a.1.1.1.1.1.1.1.1.1.1.1.1.1.1.1.1.1.1.0 i;
    headers_only = a.1.1.1.1.1.1.1.1.1.1.1.1.1.1.1.1.1.1.1.0 i;
    max_request_batch = a.1.1.1.1.1.1.1.1.1.1.1.1.1.1.1.1.1.1.1.1.0 i;
    max_request_expires = a.1.1.1.1.1.1.1.1.1.1.1.1.1.1.1.1.1.1.1.1.1.0 i;
    max_request_max_bytes = a.1.1.1.1.1.1.1.1.1.1.1.1.1.1.1.1.1.1.1.1.1.1.0 i;
    deliver_subject = a.1.1.1.1.1.1.1.1.1.1.1.1.1.1.1.1.1.1.1.1.1.1.1.0 i;
    deliver_group = a.1.1.1.1.1.1.1.1.1.1.1.1.1.1.1.1.1.1.1.1.1.1.1.1.0 i;
    inactive_threshold = a.1.1.1.1.1.1.1.1.1.1.1.1.1.1.1.1.1.1.1.1.1.1.1.1.1.0 i;
    replicas = a.1.1.1.1.1.1.1.1.1.1.1.1.1.1.1.1.1.1.1.1.1.1.1.1.1.1.0 i;
    memory_storage = a.1.1.1.1.1.1.1.1.1.1.1.1.1.1.1.1.1.1.1.1.1.1.1.1.1.1.1.0 i;
    metadata = a.1.1.1.1.1.1.1.1.1.1.1.1.1.1.1.1.1.1.1.1.1.1.1.1.1.1.1.1.0 i;
  }

  -- A consumer configuration matches an existing one exactly when laying it over that changes
  -- nothing.
  pub consumer_config_matches_iff :
      (r e : ConsumerConfig s)
      → (consumer_config_matches s (some r) (some e) ≡ true) ↔ (overlay_consumer r e ≡ e)
  unfolding consumer_config_matches
  consumer_config_matches_iff r e = (
    λ h. consumer_path r e ((no_tests-Holds r e consumer_settings).0 h),
    λ p.
        (no_tests-Holds r e consumer_settings).1
          (Holds-Lays (overlay_consumer r e) r e consumer_settings p (overlay_consumer-Lays r e)),
  )
