-- ===== src/Setup/Declares.antt =====
-- What a setup function declares: the endpoints that it adds to the topology, whether the connection
-- collects or connects.
use go_messaging_nats.Base.{String, Bool, true, List, [], ◌∷◌, ◌++◌, ◌≡◌, refl, arith}
use go_messaging_nats.Errors.{Handle, Error, Result, ok}
use go_messaging_nats.Messaging.{Messaging, Endpoint, Topology, topic, direct, service_request}
use go_messaging_nats.Nats.{Bytes, Context}
use go_messaging_nats.Naming.{stream_name}
use go_messaging_nats.Config.{ConsumerOptions, new_consumer_config, ConsumerConfig}
use go_messaging_nats.Handler.{GoType, EventHandler, ConsumableEvent, new_wrapped_handler}
use go_messaging_nats.Connection.{State, Client}
use go_messaging_nats.Connection.Monad.{M, call, add_endpoint}
use go_messaging_nats.Connection.Stream.{ensure_stream}
use go_messaging_nats.Connection.Consumers.{
  start_js_consumer, start_core_consumer, start_request_response_consumer, subscribe_to,
}
use go_messaging_nats.Setup.Consumers.{
  stream_pattern, consume_stream, service_request_consumer, service_response_consumer,
  request_response_handler, request_endpoint, response_endpoint, consumer_endpoint,
}
use go_messaging_nats.Setup.Publishers.{stream_publisher, service_publisher, publish_endpoint}

-- The topology with more endpoints.
abbrev pub extended : Topology → List Endpoint → Topology
extended t es = record t { endpoints = t.endpoints ++ es }

-- `declared` gives the endpoints from the service's name.
pub record Declares (apply : M (Unit {0})) (declared : String → List Endpoint) : Type 0 where
  pub topology :
      (s : State)
      → (apply s).0 ≡ ok tt
      → (apply s).1.conn.topology ≡ extended s.conn.topology (declared s.conn.service_name)
  pub service : (s : State) → (apply s).1.conn.service_name ≡ s.conn.service_name
  pub mode : (s : State) → (apply s).1.conn.collect_mode ≡ s.conn.collect_mode
  pub quiet : (s : State) → s.conn.collect_mode ≡ true → (apply s).1.calls ≡ s.calls

-- The endpoint of a stream consumer, if its options are valid.
abbrev pub declared_consumer :
    Result ConsumerConfig → String → String → String → String → Bool → List Endpoint
declared_consumer (ok cfg) stream name key type_name ephemeral =
    consumer_endpoint stream name cfg.consumer_name key type_name ephemeral ∷ []
declared_consumer _ stream name key type_name ephemeral = []

module _ (client : Client) where
  pub stream_publisher-Declares :
      (m : Messaging) (stream : String) (publisher : Handle)
      → Declares
          (stream_publisher client m stream publisher)
          (λ _. publish_endpoint (stream_name m stream) (stream_pattern stream) topic ∷ [])
  unfolding stream_publisher add_endpoint ensure_stream call
  stream_publisher-Declares m stream publisher = record {
    topology = λ s h. ground arith;
    service = λ s. ground arith;
    mode = λ s. ground arith;
    quiet = λ s h. ground arith;
  }

  pub service_publisher-Declares :
      (target : String) (publisher : Handle)
      → Declares
          (service_publisher client target publisher)
          (λ _. publish_endpoint target service_request direct ∷ [])
  unfolding service_publisher add_endpoint
  service_publisher-Declares target publisher = record {
    topology = λ s h. ground arith;
    service = λ s. ground arith;
    mode = λ s. ground arith;
    quiet = λ s h. ground arith;
  }

  pub service_request_consumer-Declares :
      (m : Messaging) (error_text : Error → String) {T : Type 0} (t : GoType T) (key : String)
      (handler : EventHandler T) (opts : List ConsumerOptions)
      → Declares
          (service_request_consumer client m error_text t key handler opts)
          (λ service. request_endpoint service key t.name ∷ [])
  unfolding service_request_consumer start_core_consumer subscribe_to call add_endpoint
  service_request_consumer-Declares m error_text t key handler opts = record {
    topology = λ s h. ground arith;
    service = λ s. ground arith;
    mode = λ s. ground arith;
    quiet = λ s h. ground arith;
  }

  pub request_response_handler-Declares :
      (m : Messaging) (error_text : Error → String) {T R : Type 0} (t : GoType T)
      (marshal : R → Result Bytes) (key : String) (handler : Context → ConsumableEvent T → Result R)
      → Declares
          (request_response_handler client m error_text t marshal key handler)
          (λ service. request_endpoint service key "" ∷ [])
  unfolding request_response_handler start_request_response_consumer subscribe_to call add_endpoint
  request_response_handler-Declares m error_text t marshal key handler = record {
    topology = λ s h. ground arith;
    service = λ s. ground arith;
    mode = λ s. ground arith;
    quiet = λ s h. ground arith;
  }

  pub service_response_consumer-Declares :
      (m : Messaging) (error_text : Error → String) {T : Type 0} (t : GoType T)
      (target key : String) (handler : EventHandler T) (opts : List ConsumerOptions)
      → Declares
          (service_response_consumer client m error_text t target key handler opts)
          (λ service. response_endpoint target service key t.name ∷ [])
  unfolding service_response_consumer add_endpoint
  service_response_consumer-Declares m error_text t target key handler opts = record {
    topology = λ s h. refl;
    service = λ s. refl;
    mode = λ s. refl;
    quiet = λ s h. refl;
  }

  pub consume_stream-Declares :
      (m : Messaging) (error_text : Error → String) {T : Type 0} (ephemeral : Bool) (t : GoType T)
      (stream key : String) (handler : EventHandler T) (opts : List ConsumerOptions)
      → Declares
          (consume_stream client m error_text ephemeral t stream key handler opts)
          (λ service.
            declared_consumer
              (new_consumer_config
                (stream_name m stream)
                key
                ephemeral
                (new_wrapped_handler error_text t handler)
                service
                opts)
              stream
              (stream_name m stream)
              key
              t.name
              ephemeral)
  unfolding consume_stream start_js_consumer add_endpoint
  consume_stream-Declares m error_text ephemeral t stream key handler opts = record {
    topology = λ s h. ground arith;
    service = λ s. ground arith;
    mode = λ s. ground arith;
    quiet = λ s h. ground arith;
  }
