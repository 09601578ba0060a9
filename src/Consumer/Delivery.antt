-- ===== src/Consumer/Delivery.antt =====
-- handleMessage, handleDelivery and handleCoreMessage of consumer.go.

use go_messaging_nats.Base.{
  String, List, [], ◌∷◌, ◌++◌, Option, none, some, or_default, if◌then◌else◌, ◌==◌, length,
}
use go_messaging_nats.Base.Text.{after_first}
use go_messaging_nats.Errors.{
  Handle, Result, ok, err, panic, is_error, parse_json, no_message_type_for_route_key,
}
use go_messaging_nats.Messaging.{DeliveryInfo}
use go_messaging_nats.Nats.{Context, Message}
use go_messaging_nats.Metrics.{
  event_received, event_without_handler, event_not_parsable, event_nak, event_ack,
}
use go_messaging_nats.Headers.{from_nats_headers}
use go_messaging_nats.Tracing.{KeyValue, consumer_span_attributes, extract_to_context}
use go_messaging_nats.Handler.{UnmarshalEvent, WrappedHandler}
use go_messaging_nats.Routing.{get}
use go_messaging_nats.Consumer.{
  JsConsumer, Effect, span_started, error_recorded, status_error, status_ok, span_ended, handled,
  acked, naked, termed, responded, panicked, Env, Run, notify_event_handler_succeed,
  notify_event_handler_failed, text_at, samples,
}

-- The routing key of a subject: what follows its first dot.
unfoldable pub routing_key_of : String → String
routing_key_of subject = or_default (after_first b'.' subject) subject

module _ (env : Env) (run : Run) (c : JsConsumer) where
  unfoldable pub get_tracer : Handle
  get_tracer = or_default c.tracer env.global_tracer

  -- The delivery information of a message that came from `source`.
  unfoldable pub delivery_info : String → Message → String → DeliveryInfo
  delivery_info source msg routing_key = record {
    destination = c.name;
    source = source;
    key = routing_key;
    headers = from_nats_headers env.header_ops msg.header run.headers;
  }

  unfoldable pub unmarshal_event : DeliveryInfo → Message → UnmarshalEvent
  unmarshal_event info msg = record {
    metadata = env.messaging.metadata_from_headers info.headers;
    delivery_info = info;
    payload = msg.payload;
  }

  unfoldable pub span_attributes : DeliveryInfo → Message → List KeyValue
  span_attributes info msg =
      consumer_span_attributes info c.service_name (text_at env.messaging.ce_id info.headers)
        (length msg.payload)

  unfoldable pub header_context : Message → Context
  header_context msg =
      extract_to_context env.header_ops env.global_propagator env.background msg.header run.carried
        c.propagator

  -- The context that the handler runs in: the message's, with the span.
  unfoldable pub tracing_context : (DeliveryInfo → String) → DeliveryInfo → Message → Context
  tracing_context span_name info msg =
      env.started get_tracer (header_context msg) (span_name info) (span_attributes info msg)

  -- The span's start, the handler's call, and the effects `after` of its result; the deferred end
  -- of the span comes last, also before a panic leaves the function.
  unfoldable pub traced :
      Option (DeliveryInfo → String)
      → DeliveryInfo
      → Message
      → WrappedHandler
      → (Result (Unit {0}) → List Effect)
      → List Effect
  traced none info msg handler after = panicked ∷ []
  traced (some span_name) info msg handler after =
      span_started get_tracer (header_context msg) (span_name info) (span_attributes info msg)
      ∷ handled (tracing_context span_name info msg) (unmarshal_event info msg)
      ∷ after (handler (tracing_context span_name info msg) (unmarshal_event info msg))

  -- What handleDelivery does with the handler's result.
  unfoldable pub settle : DeliveryInfo → String → Result (Unit {0}) → List Effect
  settle info routing_key panic = span_ended ∷ panicked ∷ []
  settle info routing_key (err e) =
      error_recorded e
      ∷ status_error e
      ∷ (notify_event_handler_failed run.ready c.error_ch info run.elapsed e
          ++ ((if is_error e parse_json
                then samples (event_not_parsable env.mapper c.name routing_key) ++ termed ∷ []
                else if is_error e no_message_type_for_route_key
                then samples (event_without_handler env.mapper c.name routing_key) ++ termed ∷ []
                else samples (event_nak env.mapper c.name routing_key run.elapsed) ++ naked ∷ [])
              ++ span_ended ∷ []))
  settle info routing_key (ok _) =
      status_ok
      ∷ (notify_event_handler_succeed run.ready c.notification_ch info run.elapsed
          ++ (acked
              ∷ (samples (event_ack env.mapper c.name routing_key run.elapsed) ++ span_ended ∷ [])))

  unfoldable pub handle_delivery : WrappedHandler → Message → String → List Effect
  unfolding traced settle delivery_info
  handle_delivery handler msg routing_key =
      traced c.span_name_fn (delivery_info c.stream msg routing_key) msg handler
        (settle (delivery_info c.stream msg routing_key) routing_key)

  unfoldable pub handle_message : Message → List Effect
  unfolding handle_delivery routing_key_of
  handle_message msg =
      samples (event_received env.mapper c.name (routing_key_of msg.subject))
      ++ (elim (get env.messaging run.handlers (routing_key_of msg.subject)) [
        | none ↦
            samples (event_without_handler env.mapper c.name (routing_key_of msg.subject))
            ++ termed ∷ []
        | some handler ↦ handle_delivery handler msg (routing_key_of msg.subject)
      ])

  -- What handleCoreMessage does with the handler's result.
  unfoldable pub reply_failure : DeliveryInfo → Message → String → Result (Unit {0}) → List Effect
  reply_failure info msg routing_key panic = span_ended ∷ panicked ∷ []
  reply_failure info msg routing_key (err e) =
      error_recorded e
      ∷ status_error e
      ∷ (notify_event_handler_failed run.ready c.error_ch info run.elapsed e
          ++ (samples (event_nak env.mapper c.name routing_key run.elapsed)
              ++ ((if msg.reply == ""
                    then []
                    else responded (env.marshal_error (env.error_text e)) ∷ [])
                  ++ span_ended ∷ [])))
  reply_failure info msg routing_key (ok _) =
      status_ok
      ∷ (notify_event_handler_succeed run.ready c.notification_ch info run.elapsed
          ++ (samples (event_ack env.mapper c.name routing_key run.elapsed) ++ span_ended ∷ []))

  unfoldable pub handle_core_message : Message → String → List Effect
  unfolding traced reply_failure delivery_info
  handle_core_message msg routing_key =
      samples (event_received env.mapper c.name routing_key)
      ++ (elim (get env.messaging run.handlers routing_key) [
        | none ↦ samples (event_without_handler env.mapper c.name routing_key)
        | some handler ↦
            traced c.span_name_fn (delivery_info msg.subject msg routing_key) msg handler
              (reply_failure (delivery_info msg.subject msg routing_key) msg routing_key)
      ])
