-- ===== src/Publisher.antt =====
-- Publish and publishMessage of publisher.go: what one call sends, records and returns.
pub mod Stamping
pub mod Published
pub mod Outcomes
use go_messaging_nats.Base.{
  ℕ, String, List, [], ◌∷◌, ◌++◌, Option, none, some, or_default, if◌then◌else◌, ◌==◌, length, map,
  Bool,
}
use go_messaging_nats.Errors.{Handle, Error, Result, ok, err, panic, ◌>>=◌, ◌>>◌}
use go_messaging_nats.Messaging.{Messaging}
use go_messaging_nats.Nats.{Bytes, Context, NatsHeader, HeaderOps, Propagator}
use go_messaging_nats.Naming.{subject_name}
use go_messaging_nats.Headers.{Header, validate_key}
use go_messaging_nats.Metrics.{Sample, Mapper, event_publish_succeed, event_publish_failed}
use go_messaging_nats.Tracing.{
  KeyValue, publish_span_attributes, default_publish_span_name, inject_to_headers,
}
use go_messaging_nats.Connection.{Publisher, PublishFn}

abbrev pub content_type : String
content_type = "application/json"

-- natsgo.Msg, as it is sent.
pub record OutMessage : Type 0 where
  pub subject : String
  pub payload : Bytes
  pub header : NatsHeader

pub data Effect : Type 0 where
  span_started : Handle → Context → String → List KeyValue → Effect
  attributes_set : String → ℕ → Effect
  sent : PublishFn → Context → OutMessage → Effect
  error_recorded status_error : Error → Effect
  status_ok span_ended : Effect
  sampled : Sample → Effect

pub record Outcome : Type 0 where
  pub effects : List Effect
  pub result : Result (Unit {0})

-- The functions of other packages; `send` is the client's answer to a message.
pub record Env : Type 0 where
  pub messaging : Messaging
  pub header_ops : HeaderOps
  pub mapper : Mapper
  pub global_propagator : Propagator
  pub global_tracer : Handle
  pub started : Handle → Context → String → List KeyValue → Context
  pub send : PublishFn → Context → OutMessage → Result (Unit {0})

-- What one call observes: the JSON encoding of its message, the time, a fresh UUID, and how long
-- the client took.
pub record Attempt : Type 0 where
  pub context : Context
  pub json : Result Bytes
  pub now : String
  pub uuid : String
  pub elapsed : ℕ

unfoldable pub set_headers : HeaderOps → NatsHeader → List Header → NatsHeader
set_headers ops nh [] = nh
set_headers ops nh (h ∷ hs) = set_headers ops (ops.set nh h.key h.value) hs

-- The caller's headers, checked one by one.
unfoldable pub add_headers : HeaderOps → NatsHeader → List Header → Result NatsHeader
add_headers ops nh [] = ok nh
add_headers ops nh (h ∷ hs) = do validate_key h; add_headers ops (ops.set nh h.key h.value) hs

unfoldable pub set_default : HeaderOps → String → String → NatsHeader → NatsHeader
set_default ops key value headers =
    if ops.get headers key == "" then ops.set headers key value else headers

module _ (env : Env) where
  unfoldable pub message_id : Attempt → NatsHeader → String
  message_id a headers =
      let existing = env.header_ops.get headers env.messaging.ce_id in
      if existing == "" then a.uuid else existing

  -- The CloudEvents headers: defaults for all but the identifier, which is set last.
  unfoldable pub defaulted : Publisher → String → Attempt → NatsHeader → NatsHeader
  defaulted p routing_key a headers = set_default env.header_ops env.messaging.ce_time a.now (
      set_default env.header_ops env.messaging.ce_data_content_type content_type (
        set_default env.header_ops env.messaging.ce_source p.service_name (
          set_default env.header_ops env.messaging.ce_type routing_key (
            set_default env.header_ops env.messaging.ce_spec_version
              env.messaging.ce_spec_version_value headers))))

  unfoldable pub stamped : Publisher → String → Attempt → NatsHeader → NatsHeader
  stamped p routing_key a headers =
      let filled = defaulted p routing_key a headers in
      env.header_ops.set filled env.messaging.ce_id (message_id a filled)

  unfoldable pub subject_of : Publisher → String → String
  subject_of p routing_key =
      or_default p.subject_fn (subject_name env.messaging) p.stream routing_key

  -- The span's context, in which the message is sent.
  unfoldable pub span_context : Publisher → String → Attempt → Context
  span_context p routing_key a =
      env.started (or_default p.tracer env.global_tracer) a.context
        (or_default p.span_name_fn default_publish_span_name p.stream routing_key)
        (publish_span_attributes p.stream (subject_of p routing_key) p.service_name)

  unfoldable pub out_message : Publisher → String → Attempt → NatsHeader → Bytes → OutMessage
  out_message p routing_key a headers bytes = record {
    subject = subject_of p routing_key;
    payload = bytes;
    header =
        inject_to_headers env.header_ops env.global_propagator (span_context p routing_key a)
          (stamped p routing_key a headers) p.propagator;
  }

  -- What follows the client's answer.
  unfoldable pub reported : Publisher → String → Attempt → Result (Unit {0}) → Outcome
  reported p routing_key a panic = record { effects = span_ended ∷ []; result = panic }
  reported p routing_key a (err e) = record {
    effects =
        error_recorded e
        ∷ status_error e
        ∷ (map sampled (event_publish_failed env.mapper p.stream routing_key a.elapsed)
            ++ span_ended ∷ []);
    result = err e;
  }
  reported p routing_key a (ok _) = record {
    effects =
        status_ok
        ∷ (map sampled (event_publish_succeed env.mapper p.stream routing_key a.elapsed)
            ++ span_ended ∷ []);
    result = ok tt;
  }

  -- A nil publishFn panics when it is called.
  unfoldable pub sending : Publisher → String → Attempt → Option PublishFn → OutMessage → Outcome
  unfolding reported
  sending p routing_key a none msg = record { effects = span_ended ∷ []; result = panic }
  sending p routing_key a (some fn) msg =
      let out = reported p routing_key a (env.send fn (span_context p routing_key a) msg) in
      record {
        effects = sent fn (span_context p routing_key a) msg ∷ out.effects;
        result = out.result;
      }

  -- What follows json.Marshal.
  unfoldable pub encoded : Publisher → String → Attempt → NatsHeader → Result Bytes → Outcome
  unfolding sending out_message
  encoded p routing_key a headers panic = record { effects = span_ended ∷ []; result = panic }
  encoded p routing_key a headers (err e) = record {
    effects = error_recorded e ∷ status_error e ∷ span_ended ∷ [];
    result = err e;
  }
  encoded p routing_key a headers (ok bytes) =
      let out = sending p routing_key a p.publish_fn (out_message p routing_key a headers bytes) in
      record {
        effects =
            attributes_set (message_id a (defaulted p routing_key a headers)) (length bytes)
            ∷ out.effects;
        result = out.result;
      }

  unfoldable pub publish_message : Publisher → String → Attempt → NatsHeader → Outcome
  unfolding encoded
  publish_message p routing_key a headers =
      let out = encoded p routing_key a headers a.json in
      record {
        effects =
            span_started (or_default p.tracer env.global_tracer) a.context
              (or_default p.span_name_fn default_publish_span_name p.stream routing_key)
              (publish_span_attributes p.stream (subject_of p routing_key) p.service_name)
            ∷ out.effects;
        result = out.result;
      }

  unfoldable pub publish : Publisher → String → Attempt → List Header → Outcome
  unfolding publish_message
  publish p routing_key a headers =
      elim (add_headers env.header_ops (set_headers env.header_ops [] p.default_headers) headers) [
        | ok nh ↦ publish_message p routing_key a nh
        | err e ↦ record { effects = []; result = err e }
        | panic ↦ record { effects = []; result = panic }
      ]
