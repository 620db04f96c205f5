-- ===== src/JetStream/Configs.antt =====
-- `streamConfigMatches` and `consumerConfigMatches` of pkg/natsx/jetstream.go, with the fields that they
-- read of `nats.StreamConfig` and `nats.ConsumerConfig`. Enumerations are numbers; the structs that
-- nats.go keeps inside are types of the section, with the equality of `reflect.DeepEqual`.
pub mod Overlay
use natsx.Base.{
  ℕ, ℤ, Bool, true, false, ◌&&◌, not, List, [], ◌∷◌, Option, none, some, if◌then◌else◌, is_empty,
  ◌==◌, is_zero,
}
use natsx.Base.Eq.{Eq, nat_Eq, int_Eq, bool_Eq, text_Eq, option_Eq, list_Eq}
use natsx.Base.Text.{Text}

pub record Shapes : Type 1 where
  pub Placement : Type 0
  pub StreamSource : Type 0
  pub SubjectTransform : Type 0
  pub RePublish : Type 0
  pub ConsumerLimits : Type 0
  pub Metadata : Type 0
  pub Time : Type 0
  pub placement_eq : Eq Placement
  pub stream_source_eq : Eq StreamSource
  pub subject_transform_eq : Eq SubjectTransform
  pub republish_eq : Eq RePublish
  pub consumer_limits_eq : Eq ConsumerLimits
  pub metadata_eq : Eq Metadata
  pub time_eq : Eq Time
  -- `nats.StreamConsumerLimits{}`
  pub no_limits : ConsumerLimits
  -- `len(metadata) == 0`
  pub no_metadata : Metadata → Bool

abbrev pub is_none {ℓ} : {A : Type ℓ} → Option A → Bool
is_none none = true
is_none (some _) = false

-- `requested != existing`
abbrev pub differs {ℓ} : {A : Type ℓ} → Eq A → A → A → Bool
differs e requested existing = not (e.beq requested existing)

-- A setting that is given and differs; the first argument says that it is left unset.
abbrev pub set_differs {ℓ} : {A : Type ℓ} → Eq A → Bool → A → A → Bool
set_differs e unset requested existing = not unset && not (e.beq requested existing)

-- A ladder of tests that return false, and true behind them.
unfoldable pub none_of : List Bool → Bool
none_of [] = true
none_of (test ∷ tests) = let rest = none_of tests in if test then false else rest

module _ (s : Shapes) where
  pub record StreamConfig : Type 0 where
    pub name : Text
    pub description : Text
    pub subjects : List Text
    pub retention : ℕ
    pub max_consumers : ℤ
    pub max_msgs : ℤ
    pub max_bytes : ℤ
    pub discard : ℕ
    pub discard_new_per_subject : Bool
    pub max_age : ℤ
    pub max_msgs_per_subject : ℤ
    pub max_msg_size : ℤ
    pub storage : ℕ
    pub replicas : ℤ
    pub no_ack : Bool
    pub duplicates : ℤ
    pub placement : Option s.Placement
    pub mirror : Option s.StreamSource
    pub sources : List s.StreamSource
    pub sealed : Bool
    pub deny_delete : Bool
    pub deny_purge : Bool
    pub allow_rollup : Bool
    pub compression : ℕ
    pub first_seq : ℕ
    pub subject_transform : Option s.SubjectTransform
    pub republish : Option s.RePublish
    pub allow_direct : Bool
    pub mirror_direct : Bool
    pub consumer_limits : s.ConsumerLimits
    pub metadata : s.Metadata
    pub allow_msg_ttl : Bool
    pub subject_delete_marker_ttl : ℤ

  pub record ConsumerConfig : Type 0 where
    pub durable : Text
    pub name : Text
    pub description : Text
    pub deliver_policy : ℕ
    pub opt_start_seq : ℕ
    pub opt_start_time : Option s.Time
    pub ack_policy : ℕ
    pub ack_wait : ℤ
    pub max_deliver : ℤ
    pub back_off : List ℤ
    pub filter_subject : Text
    pub filter_subjects : List Text
    pub replay_policy : ℕ
    pub rate_limit : ℕ
    pub sample_frequency : Text
    pub max_waiting : ℤ
    pub max_ack_pending : ℤ
    pub flow_control : Bool
    pub heartbeat : ℤ
    pub headers_only : Bool
    pub max_request_batch : ℤ
    pub max_request_expires : ℤ
    pub max_request_max_bytes : ℤ
    pub deliver_subject : Text
    pub deliver_group : Text
    pub inactive_threshold : ℤ
    pub replicas : ℤ
    pub memory_storage : Bool
    pub metadata : s.Metadata

  -- The tests of `streamConfigMatches`, in the order of the source.
  abbrev pub stream_tests : StreamConfig → StreamConfig → List Bool
  stream_tests r e =
      differs text_Eq r.name e.name
      ∷ set_differs text_Eq (is_empty r.description) r.description e.description
      ∷ set_differs (list_Eq text_Eq) (is_empty r.subjects) r.subjects e.subjects
      ∷ differs nat_Eq r.retention e.retention
      ∷ set_differs int_Eq (is_zero r.max_consumers) r.max_consumers e.max_consumers
      ∷ set_differs int_Eq (is_zero r.max_msgs) r.max_msgs e.max_msgs
      ∷ set_differs int_Eq (is_zero r.max_bytes) r.max_bytes e.max_bytes
      ∷ differs nat_Eq r.discard e.discard
      ∷ differs bool_Eq r.discard_new_per_subject e.discard_new_per_subject
      ∷ set_differs int_Eq (is_zero r.max_age) r.max_age e.max_age
      ∷ set_differs int_Eq (is_zero r.max_msgs_per_subject) r.max_msgs_per_subject
          e.max_msgs_per_subject
      ∷ set_differs int_Eq (is_zero r.max_msg_size) r.max_msg_size e.max_msg_size
      ∷ differs nat_Eq r.storage e.storage
      ∷ set_differs int_Eq (is_zero r.replicas) r.replicas e.replicas
      ∷ differs bool_Eq r.no_ack e.no_ack
      ∷ set_differs int_Eq (is_zero r.duplicates) r.duplicates e.duplicates
      ∷ set_differs (option_Eq s.placement_eq) (is_none r.placement) r.placement e.placement
      ∷ set_differs (option_Eq s.stream_source_eq) (is_none r.mirror) r.mirror e.mirror
      ∷ set_differs (list_Eq s.stream_source_eq) (is_empty r.sources) r.sources e.sources
      ∷ differs bool_Eq r.sealed e.sealed
      ∷ differs bool_Eq r.deny_delete e.deny_delete
      ∷ differs bool_Eq r.deny_purge e.deny_purge
      ∷ differs bool_Eq r.allow_rollup e.allow_rollup
      ∷ differs nat_Eq r.compression e.compression
      ∷ set_differs nat_Eq (r.first_seq == 0) r.first_seq e.first_seq
      ∷ set_differs (option_Eq s.subject_transform_eq) (is_none r.subject_transform)
          r.subject_transform e.subject_transform
      ∷ set_differs (option_Eq s.republish_eq) (is_none r.republish) r.republish e.republish
      ∷ differs bool_Eq r.allow_direct e.allow_direct
      ∷ differs bool_Eq r.mirror_direct e.mirror_direct
      ∷ set_differs s.consumer_limits_eq (s.consumer_limits_eq.beq r.consumer_limits s.no_limits)
          r.consumer_limits e.consumer_limits
      ∷ set_differs s.metadata_eq (s.no_metadata r.metadata) r.metadata e.metadata
      ∷ differs bool_Eq r.allow_msg_ttl e.allow_msg_ttl
      ∷ set_differs int_Eq (is_zero r.subject_delete_marker_ttl) r.subject_delete_marker_ttl
          e.subject_delete_marker_ttl
      ∷ []

  -- Nil configurations match nothing.
  unfoldable pub stream_config_matches : Option StreamConfig → Option StreamConfig → Bool
  unfolding none_of
  stream_config_matches none existing = false
  stream_config_matches (some r) none = false
  stream_config_matches (some r) (some e) = none_of (stream_tests r e)

  -- The tests of `consumerConfigMatches`, in the order of the source.
  abbrev pub consumer_tests : ConsumerConfig → ConsumerConfig → List Bool
  consumer_tests r e =
      set_differs text_Eq (is_empty r.durable) r.durable e.durable
      ∷ set_differs text_Eq (is_empty r.name) r.name e.name
      ∷ set_differs text_Eq (is_empty r.description) r.description e.description
      ∷ differs nat_Eq r.deliver_policy e.deliver_policy
      ∷ set_differs nat_Eq (r.opt_start_seq == 0) r.opt_start_seq e.opt_start_seq
      ∷ set_differs (option_Eq s.time_eq) (is_none r.opt_start_time) r.opt_start_time
          e.opt_start_time
      ∷ differs nat_Eq r.ack_policy e.ack_policy
      ∷ set_differs int_Eq (is_zero r.ack_wait) r.ack_wait e.ack_wait
      ∷ set_differs int_Eq (is_zero r.max_deliver) r.max_deliver e.max_deliver
      ∷ set_differs (list_Eq int_Eq) (is_empty r.back_off) r.back_off e.back_off
      ∷ set_differs text_Eq (is_empty r.filter_subject) r.filter_subject e.filter_subject
      ∷ set_differs (list_Eq text_Eq) (is_empty r.filter_subjects) r.filter_subjects
          e.filter_subjects
      ∷ differs nat_Eq r.replay_policy e.replay_policy
      ∷ set_differs nat_Eq (r.rate_limit == 0) r.rate_limit e.rate_limit
      ∷ set_differs text_Eq (is_empty r.sample_frequency) r.sample_frequency e.sample_frequency
      ∷ set_differs int_Eq (is_zero r.max_waiting) r.max_waiting e.max_waiting
      ∷ set_differs int_Eq (is_zero r.max_ack_pending) r.max_ack_pending e.max_ack_pending
      ∷ differs bool_Eq r.flow_control e.flow_control
      ∷ set_differs int_Eq (is_zero r.heartbeat) r.heartbeat e.heartbeat
      ∷ differs bool_Eq r.headers_only e.headers_only
      ∷ set_differs int_Eq (is_zero r.max_request_batch) r.max_request_batch e.max_request_batch
      ∷ set_differs int_Eq (is_zero r.max_request_expires) r.max_request_expires
          e.max_request_expires
      ∷ set_differs int_Eq (is_zero r.max_request_max_bytes) r.max_request_max_bytes
          e.max_request_max_bytes
      ∷ set_differs text_Eq (is_empty r.deliver_subject) r.deliver_subject e.deliver_subject
      ∷ set_differs text_Eq (is_empty r.deliver_group) r.deliver_group e.deliver_group
      ∷ set_differs int_Eq (is_zero r.inactive_threshold) r.inactive_threshold e.inactive_threshold
      ∷ set_differs int_Eq (is_zero r.replicas) r.replicas e.replicas
      ∷ differs bool_Eq r.memory_storage e.memory_storage
      ∷ set_differs s.metadata_eq (s.no_metadata r.metadata) r.metadata e.metadata
      ∷ []

  -- Nil configurations match nothing.
  unfoldable pub consumer_config_matches : Option ConsumerConfig → Option ConsumerConfig → Bool
  unfolding none_of
  consumer_config_matches none existing = false
  consumer_config_matches (some r) none = false
  consumer_config_matches (some r) (some e) = none_of (consumer_tests r e)
