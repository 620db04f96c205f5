-- ===== src/Ingest/Fetching.antt =====
-- The pull consumer: what it accepts as a configuration, and what a fetch returns and leaves behind.
use natsx.Base.{
  ℕ, suc, ◌-◌, Bool, ℤ, true, false, List, [], ◌∷◌, ◌≡◌, refl, ◌⊎◌, ◌↔◌, arith, if◌then◌else◌,
  is_empty, is_zero, map,
}
use natsx.Base.Text.{Text, trim_space}
use natsx.Errors.{Error, is_nil, is_error, unwrap, nats_timeout, ok, fail}
use natsx.Ingest.{
  FetchMessage, Pulls, ConsumerConfig, default_max_wait, new_consumer, from_nats_header,
  fetch_message, fetched, fetch,
}
use natsx.Nats.Header.{Header, Msg}

-- A consumer is made of a configuration if and only if no name of it is blank. It keeps the names, and its
-- wait is never zero.
pub new_consumer_iff :
    (cfg c : ConsumerConfig)
    → (new_consumer cfg ≡ ok c) ↔ (
        (is_empty (trim_space cfg.stream) ≡ false)
        × (is_empty (trim_space cfg.subject) ≡ false)
        × (is_empty (trim_space cfg.durable) ≡ false)
        × (c ≡ record cfg {
          max_wait = if is_zero cfg.max_wait then default_max_wait else cfg.max_wait;
        }))
unfolding new_consumer
new_consumer_iff cfg c = ground arith

from_nats_header_id : (h : Header) → from_nats_header h ≡ h
unfolding from_nats_header
from_nats_header_id [] = refl
from_nats_header_id ((key, vs) ∷ h) = ground (arith, from_nats_header_id h)

abbrev pub message_parts : FetchMessage → Text × Header × List ℕ
message_parts m = (m.subject, m.headers, m.payload)

abbrev pub msg_parts : Msg → Text × Header × List ℕ
msg_parts m = (m.subject, m.header, m.payload)

-- Every message is handed on in its place, with its subject, its headers and its payload.
pub map-fetch_message :
    (msgs : List Msg) → map message_parts (map fetch_message msgs) ≡ map msg_parts msgs
unfolding fetch_message
map-fetch_message [] = refl
map-fetch_message (m ∷ msgs) = ground (arith, from_nats_header_id m.header, map-fetch_message msgs)

-- What is relied on of a subscriber, for a count of the subscriptions that are open: one that is given is
-- open and one more, a refusal and a pull leave the count and what is open, and `Close` ends an open
-- one.
pub record Counted {W : Type 0} (sub : Pulls W) : Type 0 where
  pub open_count : W → ℕ
  pub is_open : sub.Handle → W → Bool
  pub subscribed :
      (stream subject durable : Text) (w : W)
      → let (handle, err, v) = sub.pull_subscribe stream subject durable w in
        is_nil err ≡ true → (open_count v ≡ suc (open_count w)) × (is_open handle v ≡ true)
  pub refused :
      (stream subject durable : Text) (w : W)
      → let (_, err, v) = sub.pull_subscribe stream subject durable w in
        is_nil err ≡ false → open_count v ≡ open_count w
  pub pulled :
      (handle : sub.Handle) (max wait : ℤ) (w : W)
      → let v = (sub.fetch handle max wait w).2 in
        (open_count v ≡ open_count w) × (is_open handle v ≡ is_open handle w)
  pub ended :
      (handle : sub.Handle) (w : W)
      → is_open handle w ≡ true
      → open_count (sub.close handle w).1 ≡ open_count w - 1

module _ {W : Type 0} (sub : Pulls W) where
  -- An error of `Fetch` unwraps to the error of the call that failed, and a timeout of the pull is none.
  pub fetch_fails :
      (c : ConsumerConfig) (max : ℤ) (w : W) (err : Error)
      → (fetch sub c max w).0 ≡ fail err
      → let (handle, sub_err, w1) = sub.pull_subscribe c.stream c.subject c.durable w in
        let fetch_err = (sub.fetch handle max c.max_wait w1).1 in
        ((is_nil sub_err ≡ false) × (unwrap err ≡ sub_err))
        ⊎ ((is_nil sub_err ≡ true)
            × (unwrap err ≡ fetch_err)
            × (is_nil fetch_err ≡ false)
            × (is_error err nats_timeout ≡ false))
  unfolding fetch fetched unwrap is_error
  fetch_fails c max w err h = ground (arith, h)
