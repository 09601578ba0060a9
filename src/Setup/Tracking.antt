-- ===== src/Setup/Tracking.antt =====
-- The setup functions of the library open no consume context.
use go_messaging_nats.Base.{some, [], ◌∷◌, ◌++◌, if◌then◌else◌, String, Bool, List, refl}
use go_messaging_nats.Errors.{Handle, Error, Result, ok}
use go_messaging_nats.Messaging.{Messaging, Endpoint, topic, direct, service_request}
use go_messaging_nats.Nats.{Bytes, Context}
use go_messaging_nats.Config.{ConsumerOptions, ConsumerConfig}
use go_messaging_nats.Handler.{GoType, EventHandler, ConsumableEvent}
use go_messaging_nats.Connection.{Client, Subscriber, Publisher, js_publish, core_request}
use go_messaging_nats.Connection.Monad.{lift, add_endpoint}
use go_messaging_nats.Connection.Consumers.{
  start_js_consumer, start_core_consumer, start_request_response_consumer, subscribe_to,
}
use go_messaging_nats.Connection.Tracking.{
  Tracks, bind-Tracks, get_conn-Tracks, modify-Tracks, if-Tracks, not_nil-Tracks, wrap_error-Tracks,
  call-Tracks, ensure_stream-Tracks,
}
use go_messaging_nats.Base.Int.{is_zero}
use go_messaging_nats.Setup.Consumers.{
  stream_pattern, consume_stream, service_request_consumer, service_response_consumer,
  request_response_handler,
}
use go_messaging_nats.Naming.{stream_name, service_request_subject}
use go_messaging_nats.Setup.Publishers.{
  modify_publisher, stream_publisher, wire_stream, setup_publisher, service_publisher,
  publish_endpoint, default_timeout,
}

module _ (client : Client) (m : Messaging) where
  modify_publisher-Tracks :
      (p : Handle) (f : Publisher → Publisher) → Tracks client (modify_publisher p f)
  modify_publisher-Tracks p f = record { keeps = λ s w. w }

  add_endpoint-Tracks : (ep : Endpoint) → Tracks client (add_endpoint ep)
  unfolding add_endpoint
  add_endpoint-Tracks ep = modify-Tracks client _ (λ c. refl)

  lift-Tracks : {A : Type 0} (r : Result A) → Tracks client (lift r)
  lift-Tracks r = record { keeps = λ s w. w }

  start_js_consumer-Tracks : (cfg : ConsumerConfig) → Tracks client (start_js_consumer cfg)
  unfolding start_js_consumer
  start_js_consumer-Tracks cfg = modify-Tracks client _ (λ c. refl)

  subscribe_to-Tracks :
      (subject : String) (subscriber : Subscriber)
      → Tracks client (subscribe_to client subject subscriber)
  unfolding subscribe_to
  subscribe_to-Tracks subject subscriber = bind-Tracks client _ _ (get_conn-Tracks client) (λ c.
      bind-Tracks client _ _ (not_nil-Tracks client c.nc) (λ nc.
        bind-Tracks client _ _ (wrap_error-Tracks client _ "" _ (call-Tracks client _ (λ r. refl)))
          (λ sub. modify-Tracks client _ (λ d. refl))))

  wire_stream-Tracks :
      (name : String) (publisher : Handle) → Tracks client (wire_stream client name publisher)
  unfolding wire_stream
  wire_stream-Tracks name publisher =
      bind-Tracks client _ _ (wrap_error-Tracks client _ "" _ (ensure_stream-Tracks client name))
        (λ _. bind-Tracks client _ _ (get_conn-Tracks client) (λ c.
          modify_publisher-Tracks publisher
            (λ p. record p { publish_fn = some (js_publish c.js) })))

  pub stream_publisher-Tracks :
      (stream : String) (publisher : Handle)
      → Tracks client (stream_publisher client m stream publisher)
  unfolding stream_publisher
  stream_publisher-Tracks stream publisher = bind-Tracks client _ _ (get_conn-Tracks client) (λ c.
      bind-Tracks client _ _
        (if-Tracks client c.collect_mode _ _ (lift-Tracks (ok tt))
          (wire_stream-Tracks (stream_name m stream) publisher))
        (λ _.
          bind-Tracks client _ _
            (modify-Tracks client
              (λ d. record d { pending_streams = d.pending_streams ++ stream_name m stream ∷ [] })
              (λ d. refl))
            (λ _.
              bind-Tracks client _ _
                (add_endpoint-Tracks
                  (publish_endpoint (stream_name m stream) (stream_pattern stream) topic))
                (λ _.
                  modify_publisher-Tracks publisher
                    (setup_publisher client c (stream_name m stream))))))

  pub service_publisher-Tracks :
      (target : String) (publisher : Handle)
      → Tracks client (service_publisher client target publisher)
  unfolding service_publisher
  service_publisher-Tracks target publisher = bind-Tracks client _ _ (get_conn-Tracks client) (λ c.
      bind-Tracks client _ _
        (if-Tracks client c.collect_mode _ _ (lift-Tracks (ok tt)) (
          modify_publisher-Tracks publisher (λ p. record p {
            publish_fn = some (
                core_request c.nc
                  (if is_zero c.request_timeout then default_timeout else c.request_timeout));
          })))
        (λ _.
          bind-Tracks client _ _
            (modify_publisher-Tracks publisher (λ p. record p {
              subject_fn = some (λ _ routing_key. service_request_subject target routing_key);
            }))
            (λ _.
              bind-Tracks client _ _
                (add_endpoint-Tracks (publish_endpoint target service_request direct))
                (λ _. modify_publisher-Tracks publisher (setup_publisher client c target)))))

  module _ (error_text : Error → String) {T : Type 0} (t : GoType T) where
    pub consume_stream-Tracks :
        (ephemeral : Bool) (stream key : String) (handler : EventHandler T)
        (opts : List ConsumerOptions)
        → Tracks client (consume_stream client m error_text ephemeral t stream key handler opts)
    unfolding consume_stream
    consume_stream-Tracks ephemeral stream key handler opts =
        bind-Tracks client _ _ (get_conn-Tracks client) (λ c.
          bind-Tracks client _ _ (lift-Tracks _) (λ cfg.
            bind-Tracks client _ _ (start_js_consumer-Tracks cfg) (λ _. add_endpoint-Tracks _)))

    pub service_request_consumer-Tracks :
        (key : String) (handler : EventHandler T) (opts : List ConsumerOptions)
        → Tracks client (service_request_consumer client m error_text t key handler opts)
    unfolding service_request_consumer start_core_consumer
    service_request_consumer-Tracks key handler opts =
        bind-Tracks client _ _ (get_conn-Tracks client) (λ c.
          bind-Tracks client _ _
            (if-Tracks client c.collect_mode _ _ (lift-Tracks (ok tt))
              (bind-Tracks client _ _ (get_conn-Tracks client) (λ d. subscribe_to-Tracks _ _)))
            (λ _. add_endpoint-Tracks _))

    pub request_response_handler-Tracks :
        {R : Type 0} (marshal : R → Result Bytes) (key : String)
        (handler : Context → ConsumableEvent T → Result R)
        → Tracks client (request_response_handler client m error_text t marshal key handler)
    unfolding request_response_handler start_request_response_consumer
    request_response_handler-Tracks marshal key handler =
        bind-Tracks client _ _ (get_conn-Tracks client) (λ c.
          bind-Tracks client _ _
            (if-Tracks client c.collect_mode _ _ (lift-Tracks (ok tt))
              (bind-Tracks client _ _ (get_conn-Tracks client) (λ d. subscribe_to-Tracks _ _)))
            (λ _. add_endpoint-Tracks _))

    pub service_response_consumer-Tracks :
        (target key : String) (handler : EventHandler T) (opts : List ConsumerOptions)
        → Tracks client (service_response_consumer client m error_text t target key handler opts)
    unfolding service_response_consumer
    service_response_consumer-Tracks target key handler opts =
        bind-Tracks client _ _ (get_conn-Tracks client) (λ c. add_endpoint-Tracks _)
