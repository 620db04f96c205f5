-- ===== src/Tests/Streams.antt =====
-- A server with streams and consumers of plain configurations.
use natsx.Base.{ℕ, suc, pos, true, false, [], none, some, refl}
use natsx.Base.Eq.{Eq}
use natsx.Base.Text.{codes}
use natsx.Errors.{nil, foreign, stream_name_already_in_use}
use natsx.JetStream.{JetStreamApi, JetStreamClient}
use natsx.JetStream.Configs.{Shapes, StreamConfig, ConsumerConfig}

abbrev pub unit_Eq : Eq (Unit {0})
unit_Eq = record { beq = λ a b. true; beq_iff = λ a b. (λ h. refl, λ h. refl) }

abbrev pub plain : Shapes
plain = record {
  Placement = Unit {0};
  StreamSource = Unit {0};
  SubjectTransform = Unit {0};
  RePublish = Unit {0};
  ConsumerLimits = Unit {0};
  Metadata = Unit {0};
  Time = Unit {0};
  placement_eq = unit_Eq;
  stream_source_eq = unit_Eq;
  subject_transform_eq = unit_Eq;
  republish_eq = unit_Eq;
  consumer_limits_eq = unit_Eq;
  metadata_eq = unit_Eq;
  time_eq = unit_Eq;
  no_limits = tt;
  no_metadata = λ m. true;
}

abbrev pub orders_stream : StreamConfig plain
orders_stream = record {
  name = codes "ORDERS";
  description = [];
  subjects = [];
  retention = 0;
  max_consumers = pos 0;
  max_msgs = pos 0;
  max_bytes = pos 0;
  discard = 0;
  discard_new_per_subject = false;
  max_age = pos 0;
  max_msgs_per_subject = pos 0;
  max_msg_size = pos 0;
  storage = 0;
  replicas = pos 0;
  no_ack = false;
  duplicates = pos 0;
  placement = none;
  mirror = none;
  sources = [];
  sealed = false;
  deny_delete = false;
  deny_purge = false;
  allow_rollup = false;
  compression = 0;
  first_seq = 0;
  subject_transform = none;
  republish = none;
  allow_direct = false;
  mirror_direct = false;
  consumer_limits = tt;
  metadata = tt;
  allow_msg_ttl = false;
  subject_delete_marker_ttl = pos 0;
}

abbrev pub worker : ConsumerConfig plain
worker = record {
  durable = codes "worker";
  name = [];
  description = [];
  deliver_policy = 0;
  opt_start_seq = 0;
  opt_start_time = none;
  ack_policy = 0;
  ack_wait = pos 0;
  max_deliver = pos 0;
  back_off = [];
  filter_subject = [];
  filter_subjects = [];
  replay_policy = 0;
  rate_limit = 0;
  sample_frequency = [];
  max_waiting = pos 0;
  max_ack_pending = pos 0;
  flow_control = false;
  heartbeat = pos 0;
  headers_only = false;
  max_request_batch = pos 0;
  max_request_expires = pos 0;
  max_request_max_bytes = pos 0;
  deliver_subject = [];
  deliver_group = [];
  inactive_threshold = pos 0;
  replicas = pos 0;
  memory_storage = false;
  metadata = tt;
}

-- The world counts the calls that change it.
abbrev pub server : JetStreamApi plain ℕ
server = record {
  StreamInfo = StreamConfig plain;
  ConsumerInfo = ConsumerConfig plain;
  stream_config = λ info. info;
  consumer_config = λ info. info;
  add_stream = λ cfg w.
      (none, foreign stream_name_already_in_use (codes "stream name already in use") nil, w);
  delete_stream = λ name w. (nil, suc w);
  stream_info = λ name w. (some orders_stream, nil, w);
  add_consumer = λ stream cfg w. (some cfg, nil, suc w);
  consumer_info = λ stream name w. (some worker, nil, w);
  publish_msg = λ msg opts w.
      (some (record { stream = codes "ORDERS"; sequence = suc w; duplicate = false }), nil, suc w);
  pull_subscribe = λ subject durable opts w. (nil, suc w);
  consumer_in_use_text = codes "consumer name already in use";
}

abbrev pub js_client : JetStreamClient
js_client = record { client = none; has_js = true }
