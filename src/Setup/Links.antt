-- ===== src/Setup/Links.antt =====
-- The setup functions of the library leave the link to the server alone.
use go_messaging_nats.Base.{String, Bool, List, refl, arith}
use go_messaging_nats.Errors.{Handle, Error, Result}
use go_messaging_nats.Messaging.{Messaging}
use go_messaging_nats.Nats.{Bytes, Context}
use go_messaging_nats.Config.{ConsumerOptions}
use go_messaging_nats.Handler.{GoType, EventHandler, ConsumableEvent}
use go_messaging_nats.Connection.{Client}
use go_messaging_nats.Connection.Monad.{call, add_endpoint}
use go_messaging_nats.Connection.Stream.{ensure_stream}
use go_messaging_nats.Connection.Consumers.{
  start_js_consumer, start_core_consumer, start_request_response_consumer, subscribe_to,
}
use go_messaging_nats.Connection.Waiting.{KeepsLink}
use go_messaging_nats.Setup.Consumers.{
  consume_stream, service_request_consumer, service_response_consumer, request_response_handler,
}
use go_messaging_nats.Setup.Publishers.{stream_publisher, service_publisher}

module _ (client : Client) (m : Messaging) where
  pub stream_publisher-KeepsLink :
      (stream : String) (publisher : Handle)
      → KeepsLink (stream_publisher client m stream publisher)
  unfolding stream_publisher add_endpoint ensure_stream call
  stream_publisher-KeepsLink stream publisher = record {
    started = λ s. ground arith;
    nc = λ s. ground arith;
    js = λ s. ground arith;
    consumers = λ s. ground arith;
    mode = λ s. ground arith;
  }

  pub service_publisher-KeepsLink :
      (target : String) (publisher : Handle) → KeepsLink (service_publisher client target publisher)
  unfolding service_publisher add_endpoint
  service_publisher-KeepsLink target publisher = record {
    started = λ s. ground arith;
    nc = λ s. ground arith;
    js = λ s. ground arith;
    consumers = λ s. ground arith;
    mode = λ s. ground arith;
  }

  module _ (error_text : Error → String) {T : Type 0} (t : GoType T) where
    pub consume_stream-KeepsLink :
        (ephemeral : Bool) (stream key : String) (handler : EventHandler T)
        (opts : List ConsumerOptions)
        → KeepsLink (consume_stream client m error_text ephemeral t stream key handler opts)
    unfolding consume_stream start_js_consumer add_endpoint
    consume_stream-KeepsLink ephemeral stream key handler opts = record {
      started = λ s. ground arith;
      nc = λ s. ground arith;
      js = λ s. ground arith;
      consumers = λ s. ground arith;
      mode = λ s. ground arith;
    }

    pub service_request_consumer-KeepsLink :
        (key : String) (handler : EventHandler T) (opts : List ConsumerOptions)
        → KeepsLink (service_request_consumer client m error_text t key handler opts)
    unfolding service_request_consumer start_core_consumer subscribe_to call add_endpoint
    service_request_consumer-KeepsLink key handler opts = record {
      started = λ s. ground arith;
      nc = λ s. ground arith;
      js = λ s. ground arith;
      consumers = λ s. ground arith;
      mode = λ s. ground arith;
    }

    pub request_response_handler-KeepsLink :
        {R : Type 0} (marshal : R → Result Bytes) (key : String)
        (handler : Context → ConsumableEvent T → Result R)
        → KeepsLink (request_response_handler client m error_text t marshal key handler)
    unfolding request_response_handler start_request_response_consumer subscribe_to call
        add_endpoint
    request_response_handler-KeepsLink marshal key handler = record {
      started = λ s. ground arith;
      nc = λ s. ground arith;
      js = λ s. ground arith;
      consumers = λ s. ground arith;
      mode = λ s. ground arith;
    }

    pub service_response_consumer-KeepsLink :
        (target key : String) (handler : EventHandler T) (opts : List ConsumerOptions)
        → KeepsLink (service_response_consumer client m error_text t target key handler opts)
    unfolding service_response_consumer add_endpoint
    service_response_consumer-KeepsLink target key handler opts = record {
      started = λ s. refl;
      nc = λ s. refl;
      js = λ s. refl;
      consumers = λ s. refl;
      mode = λ s. refl;
    }
