-- ===== src/Adapter/Allocated.antt =====
-- The publishers that the loop over the intents of cmd/tck-adapter/main.go allocates.

use go_messaging_nats.Base.{
  List, [], ◌∷◌, some, ◌≡◌, sym, ap, ◌∙◌, Option-cases, inl, inr, append-nil, false, true,
}
use go_messaging_nats.Base.GoMap.{lookup}
use go_messaging_nats.Errors.{ok}
use go_messaging_nats.Naming.{default_event_stream_name}
use go_messaging_nats.Config.{add_consumer_name_suffix}
use go_messaging_nats.Setup.Consumers.{
  event_stream_consumer, stream_consumer, transient_event_stream_consumer,
  transient_stream_consumer,
}
use go_messaging_nats.Setup.Publishers.{event_stream_publisher}
use go_messaging_nats.Setup.Topology.{ok-injective}
use go_messaging_nats.Setup.Assigned.{
  stream_publisher-Wires, service_publisher-Wires, consume_stream-Leaves,
  request_response_handler-Leaves, service_response_consumer-Leaves,
}
use go_messaging_nats.Intents.{
  SetupIntent, Kind, event_publish, event_consume_suffixed, event_consume, event_transient,
  stream_publish, stream_consume, stream_transient, request_consume, request_publish,
  response_consume, response_publish, kind_of,
}
use go_messaging_nats.Adapter.{
  Kit, Plan, setup_of, add_setup, add_keys, add_key, add_publisher, add_intent, plan_intents,
  capture_handler, rr_handler,
}
use go_messaging_nats.Adapter.Allocating.{
  HasWirings, HasWirings-Leaves, HasWirings-Wires, HasWirings-key,
}

module _ (kit : Kit) where
  add_intent-HasWirings :
      (i : SetupIntent) (kind : Kind) (intents : List SetupIntent) (plan plan' : Plan)
      → kind_of i ≡ some kind
      → HasWirings kit intents (add_intent kit i kind plan) plan'
      → HasWirings kit (i ∷ intents) plan plan'
  unfolding add_intent add_setup setup_of add_keys add_publisher add_key event_stream_consumer
      stream_consumer transient_event_stream_consumer transient_stream_consumer
      event_stream_publisher
  add_intent-HasWirings i event_publish intents plan plan' e v =
      HasWirings-Wires kit i event_publish intents plan plan' _ e
        (stream_publisher-Wires kit.client kit.messaging default_event_stream_name plan.next) _ v
  add_intent-HasWirings i event_consume_suffixed intents plan plan' e v =
      HasWirings-Leaves kit i intents plan plan' _
        (consume_stream-Leaves kit.client kit.messaging kit.error_text kit.raw false
          default_event_stream_name i.routing_key capture_handler
          (add_consumer_name_suffix i.queue_suffix ∷ []))
        v
  add_intent-HasWirings i event_consume intents plan plan' e v =
      HasWirings-Leaves kit i intents plan plan' _
        (consume_stream-Leaves kit.client kit.messaging kit.error_text kit.raw false
          default_event_stream_name i.routing_key capture_handler [])
        v
  add_intent-HasWirings i event_transient intents plan plan' e v =
      HasWirings-Leaves kit i intents plan plan' _
        (consume_stream-Leaves kit.client kit.messaging kit.error_text kit.raw true
          default_event_stream_name i.routing_key capture_handler [])
        v
  add_intent-HasWirings i stream_publish intents plan plan' e v =
      HasWirings-Wires kit i stream_publish intents plan plan' _ e
        (stream_publisher-Wires kit.client kit.messaging i.exchange plan.next) _ v
  add_intent-HasWirings i stream_consume intents plan plan' e v =
      HasWirings-Leaves kit i intents plan plan' _
        (consume_stream-Leaves kit.client kit.messaging kit.error_text kit.raw false i.exchange
          i.routing_key capture_handler [])
        v
  add_intent-HasWirings i stream_transient intents plan plan' e v =
      HasWirings-Leaves kit i intents plan plan' _
        (consume_stream-Leaves kit.client kit.messaging kit.error_text kit.raw true i.exchange
          i.routing_key capture_handler [])
        v
  add_intent-HasWirings i request_consume intents plan plan' e v =
      HasWirings-Leaves kit i intents plan plan' _
        (request_response_handler-Leaves kit.client kit.messaging kit.error_text kit.raw
          kit.marshal_raw i.routing_key rr_handler)
        v
  add_intent-HasWirings i request_publish intents plan plan' e v =
      HasWirings-Wires kit i request_publish intents plan plan' _ e
        (service_publisher-Wires kit.client kit.messaging i.target_service plan.next) _ v
  add_intent-HasWirings i response_consume intents plan plan' e v =
      HasWirings-Leaves kit i intents plan plan' _
        (service_response_consumer-Leaves kit.client kit.messaging kit.error_text kit.raw
          i.target_service i.routing_key capture_handler [])
        v
  add_intent-HasWirings i response_publish intents plan plan' e v =
      HasWirings-key kit i intents plan plan' _ v

  pub plan_intents-HasWirings :
      (intents : List SetupIntent) (plan plan' : Plan)
      → plan_intents kit plan intents ≡ ok plan'
      → HasWirings kit intents plan plan'
  unfolding plan_intents
  plan_intents-HasWirings [] plan plan' e =
      let same = ok-injective e in
      record {
        wirings = [];
        setups = ap (λ (p : Plan). p.setups) (sym same) ∙ sym (append-nil plan.setups);
        ascending = tt;
        named = λ pk h found. inl (ap (λ (p : Plan). lookup pk p.publishers) same ∙ found);
      }
  plan_intents-HasWirings (i ∷ intents) plan plan' e = elim (Option-cases (kind_of i)) [
    | inl missing ↦ cc (rw (missing, plan_intents) at e)
    | inr (kind, found) ↦ add_intent-HasWirings i kind intents plan plan' found (
        plan_intents-HasWirings intents (add_intent kit i kind plan) plan'
          (rw (found, plan_intents) at e))
  ]
