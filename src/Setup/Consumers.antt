-- ===== src/Setup/Consumers.antt =====
-- The setup functions for consumers: setup_consumer.go, and RequestResponseHandler with its
-- wrapper of request_response.go.
use go_messaging_nats.Base.{String, Bool, true, false, List, if◌then◌else◌, ◌==◌}
use go_messaging_nats.Errors.{Error, Result, ok, err, panic, wrap}
use go_messaging_nats.Errors
use go_messaging_nats.Messaging.{
  Messaging, Endpoint, Pattern, event_stream, custom_stream, service_request, service_response,
  Direction, ExchangeKind, topic, direct,
}
use go_messaging_nats.Nats.{Bytes, Context}
use go_messaging_nats.Naming.{default_event_stream_name, stream_name, service_request_subject}
use go_messaging_nats.Config.{ConsumerOptions, new_consumer_config}
use go_messaging_nats.Handler.{
  GoType, EventHandler, ConsumableEvent, new_wrapped_handler, parse_error,
}
use go_messaging_nats.Connection.{Client, RequestResponseFn}
use go_messaging_nats.Connection.Monad.{M, pure, lift, ◌>>=◌, ◌>>◌, get_conn, add_endpoint}
use go_messaging_nats.Connection.Consumers.{
  start_js_consumer, start_core_consumer, start_request_response_consumer,
}

unfoldable pub stream_pattern : String → Pattern
stream_pattern stream = if stream == default_event_stream_name then event_stream else custom_stream

-- The endpoint of a stream consumer; `name` is the NATS name of `stream`.
abbrev pub consumer_endpoint : String → String → String → String → String → Bool → Endpoint
consumer_endpoint stream name consumer_name routing_key message_type ephemeral = record {
  direction = Direction.consume;
  pattern_kind = stream_pattern stream;
  exchange_name = name;
  exchange_kind = topic;
  queue_name = consumer_name;
  routing_key = routing_key;
  message_type = message_type;
  ephemeral = ephemeral;
}

abbrev pub response_endpoint : String → String → String → String → Endpoint
response_endpoint target_service service_name routing_key message_type = record {
  direction = Direction.consume;
  pattern_kind = service_response;
  exchange_name = target_service;
  exchange_kind = ExchangeKind.headers;
  queue_name = service_name;
  routing_key = routing_key;
  message_type = message_type;
  ephemeral = false;
}

-- The endpoint of a request consumer.
abbrev pub request_endpoint : String → String → String → Endpoint
request_endpoint service_name routing_key message_type = record {
  direction = Direction.consume;
  pattern_kind = service_request;
  exchange_name = service_name;
  exchange_kind = direct;
  queue_name = service_name;
  routing_key = routing_key;
  message_type = message_type;
  ephemeral = false;
}

module _ (client : Client) (m : Messaging) (error_text : Error → String) where
  -- StreamConsumer and TransientStreamConsumer, which differ in `ephemeral`.
  unfoldable pub consume_stream :
      {T : Type 0}
      → Bool
      → GoType T
      → String
      → String
      → EventHandler T
      → List ConsumerOptions
      → M (Unit {0})
  consume_stream ephemeral t stream routing_key handler opts = do
    c ← get_conn
    cfg ← lift (
        new_consumer_config (stream_name m stream) routing_key ephemeral
          (new_wrapped_handler error_text t handler) c.service_name opts)
    start_js_consumer cfg
    add_endpoint (
        consumer_endpoint stream (stream_name m stream) cfg.consumer_name routing_key t.name
          ephemeral)

  unfoldable pub stream_consumer :
      {T : Type 0}
      → GoType T
      → String
      → String
      → EventHandler T
      → List ConsumerOptions
      → M (Unit {0})
  unfolding consume_stream
  stream_consumer t stream routing_key handler opts =
      consume_stream false t stream routing_key handler opts

  unfoldable pub event_stream_consumer :
      {T : Type 0} → GoType T → String → EventHandler T → List ConsumerOptions → M (Unit {0})
  unfolding stream_consumer
  event_stream_consumer t routing_key handler opts =
      stream_consumer t default_event_stream_name routing_key handler opts

  unfoldable pub transient_stream_consumer :
      {T : Type 0}
      → GoType T
      → String
      → String
      → EventHandler T
      → List ConsumerOptions
      → M (Unit {0})
  unfolding consume_stream
  transient_stream_consumer t stream routing_key handler opts =
      consume_stream true t stream routing_key handler opts

  unfoldable pub transient_event_stream_consumer :
      {T : Type 0} → GoType T → String → EventHandler T → List ConsumerOptions → M (Unit {0})
  unfolding transient_stream_consumer
  transient_event_stream_consumer t routing_key handler opts =
      transient_stream_consumer t default_event_stream_name routing_key handler opts

  -- The options are accepted and not used.
  unfoldable pub service_request_consumer :
      {T : Type 0} → GoType T → String → EventHandler T → List ConsumerOptions → M (Unit {0})
  service_request_consumer t routing_key handler opts = do
    c ← get_conn
    if c.collect_mode
        then pure tt
        else start_core_consumer client (service_request_subject c.service_name routing_key)
            routing_key c.service_name (new_wrapped_handler error_text t handler)
    add_endpoint (request_endpoint c.service_name routing_key t.name)

  unfoldable pub service_response_consumer :
      {T : Type 0}
      → GoType T
      → String
      → String
      → EventHandler T
      → List ConsumerOptions
      → M (Unit {0})
  service_response_consumer t target_service routing_key handler opts = do
    c ← get_conn
    add_endpoint (response_endpoint target_service c.service_name routing_key t.name)

  -- requestResponseWrapper: decode, call the handler, encode its response.
  unfoldable pub request_response_wrapper :
      {T R : Type 0}
      → GoType T
      → (R → Result Bytes)
      → (Context → ConsumableEvent T → Result R)
      → RequestResponseFn
  request_response_wrapper t marshal handler ctx event =
      Errors.◌>>=◌ (parse_error error_text (t.unmarshal event.payload)) λ payload.
        Errors.◌>>=◌
          (handler ctx (record {
            metadata = event.metadata;
            delivery_info = event.delivery_info;
            payload = payload;
          }))
          λ resp. elim (marshal resp) [
            | ok bytes ↦ ok bytes
            | err e ↦ err (wrap "failed to marshal response: " e "")
            | panic ↦ panic
          ]

  unfoldable pub request_response_handler :
      {T R : Type 0}
      → GoType T
      → (R → Result Bytes)
      → String
      → (Context → ConsumableEvent T → Result R)
      → M (Unit {0})
  unfolding request_response_wrapper
  request_response_handler t marshal routing_key handler = do
    c ← get_conn
    if c.collect_mode
        then pure tt
        else start_request_response_consumer client
            (service_request_subject c.service_name routing_key) routing_key c.service_name
            (request_response_wrapper t marshal handler)
    add_endpoint (request_endpoint c.service_name routing_key "")
