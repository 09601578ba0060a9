-- ===== src/Connection/Consumers.antt =====
-- startJSConsumer, startPendingJSConsumers and startCoreConsumer of setup_consumer.go, and
-- startRequestResponseConsumer of request_response.go.
use go_messaging_nats.Base.{String, List, [], ◌∷◌, ◌++◌, some}
use go_messaging_nats.Base.Text.{concat}
use go_messaging_nats.Errors.{Handle, panic}
use go_messaging_nats.Messaging.{Messaging}
use go_messaging_nats.Handler.{WrappedHandler}
use go_messaging_nats.Routing.{RoutingKeyHandler, add}
use go_messaging_nats.Consumer.{JsConsumer}
use go_messaging_nats.Config.{ConsumerConfig}
use go_messaging_nats.Tracing.{tracer_from_provider}
use go_messaging_nats.Connection.{
  Connection, Client, RequestResponseFn, create_or_update_consumer, consume, subscribe, Subscriber,
  core, request_response,
}
use go_messaging_nats.Connection.Monad.{
  M, pure, lift, ◌>>=◌, ◌>>◌, get_conn, modify_conn, not_nil, wrap_error, call,
}
use go_messaging_nats.Connection.Stream.{ensure_stream}
use go_messaging_nats.Connection.Groups.{grouped, group_handlers, consumer_settings}

unfoldable pub start_js_consumer : ConsumerConfig → M (Unit {0})
start_js_consumer cfg =
    modify_conn λ c. record c { pending_js_consumers = c.pending_js_consumers ++ cfg ∷ [] }

module _ (client : Client) where
  -- The connection's tracer.
  unfoldable pub tracer : Connection → Handle
  tracer c = tracer_from_provider client.tracer_of client.global_provider c.tracer_provider

  -- A consumer with the connection's settings as they are now.
  unfoldable pub new_consumer : Connection → String → String → RoutingKeyHandler → JsConsumer
  new_consumer c name stream handlers = record {
    name = name;
    stream = stream;
    service_name = c.service_name;
    handlers = handlers;
    notification_ch = c.notification_ch;
    error_ch = c.error_ch;
    span_name_fn = c.span_name_fn;
    tracer = some (tracer c);
    propagator = c.propagator;
  }

  -- One round of the loop over the groups; `g.configs[0]` panics on an empty group.
  unfoldable pub start_group : Messaging → List ConsumerConfig → M (Unit {0})
  start_group m [] = lift panic
  start_group m (first ∷ rest) = do
    stream ←
        wrap_error (concat ("failed to ensure stream " ∷ first.stream ∷ ": " ∷ [])) ""
          (ensure_stream client first.stream)
    c ← get_conn
    cons ←
        wrap_error (concat ("failed to create consumer on stream " ∷ first.stream ∷ ": " ∷ [])) "" (
          call client (
            create_or_update_consumer stream
              (consumer_settings m c.consumer_defaults first (first ∷ rest))))
    ctx ←
        wrap_error (concat ("failed to start consuming on stream " ∷ first.stream ∷ ": " ∷ [])) "" (
          call client (
            consume cons
              (new_consumer c first.consumer_name first.stream (group_handlers [] (first ∷ rest)))))
    modify_conn (λ c. record c { consumers = c.consumers ++ some ctx ∷ [] })

  unfoldable pub start_groups : Messaging → List (List ConsumerConfig) → M (Unit {0})
  start_groups m [] = pure tt
  start_groups m (g ∷ gs) = do start_group m g; start_groups m gs

  unfoldable pub start_pending_js_consumers : Messaging → M (Unit {0})
  start_pending_js_consumers m = do
    c ← get_conn
    start_groups m (grouped c.pending_js_consumers)
    modify_conn (λ c. record c { pending_js_consumers = [] })

  -- A subscription of a consumer with one routing key.
  unfoldable pub subscribe_to : String → Subscriber → M (Unit {0})
  subscribe_to subject subscriber = do
    c ← get_conn
    nc ← not_nil c.nc
    sub ←
        wrap_error (concat ("failed to subscribe to " ∷ subject ∷ ": " ∷ [])) ""
          (call client (subscribe nc subject subscriber))
    modify_conn (λ c. record c { subscriptions = c.subscriptions ++ sub ∷ [] })

  unfoldable pub start_core_consumer : String → String → String → WrappedHandler → M (Unit {0})
  start_core_consumer subject routing_key cons_name handler = do
    c ← get_conn
    subscribe_to subject
        (core (new_consumer c cons_name "" (add [] routing_key handler)) routing_key)

  unfoldable pub start_request_response_consumer :
      String → String → String → RequestResponseFn → M (Unit {0})
  start_request_response_consumer subject routing_key cons_name handler = do
    c ← get_conn
    subscribe_to subject (request_response (new_consumer c cons_name "" []) routing_key handler)
