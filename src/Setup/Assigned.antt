-- ===== src/Setup/Assigned.antt =====
-- The publishers that the setup functions of the library wire, and those that they leave alone.
use go_messaging_nats.Base.{
  String, Bool, List, Option, none, some, ◌≡◌, refl, ap, ◌∙◌, arith, if◌then◌else◌,
}
use go_messaging_nats.Base.Int.{is_zero}
use go_messaging_nats.Errors.{Handle, Error, Result}
use go_messaging_nats.Messaging.{Messaging}
use go_messaging_nats.Nats.{Bytes, Context}
use go_messaging_nats.Naming.{stream_name, service_request_subject}
use go_messaging_nats.Config.{ConsumerOptions, Duration}
use go_messaging_nats.Handler.{GoType, EventHandler, ConsumableEvent}
use go_messaging_nats.Connection.{Client, Publisher, js_publish, core_request, new_publisher}
use go_messaging_nats.Connection.Monad.{call, add_endpoint}
use go_messaging_nats.Connection.Consumers.{
  start_js_consumer, start_request_response_consumer, subscribe_to,
}
use go_messaging_nats.Setup.Assigning.{Leaves, Wires}
use go_messaging_nats.Setup.Consumers.{
  consume_stream, service_response_consumer, request_response_handler,
}
use go_messaging_nats.Setup.Publishers.{
  stream_publisher, service_publisher, setup_publisher, default_timeout,
}
use go_messaging_nats.Setup.Links.{
  stream_publisher-KeepsLink, service_publisher-KeepsLink, consume_stream-KeepsLink,
  request_response_handler-KeepsLink, service_response_consumer-KeepsLink,
}
use go_messaging_nats.Setup.Wiring.{stream_publisher_lem, service_publisher_lem}

-- A publisher of events to a stream, and one of requests to a service.
pub record PublishesTo (m : Messaging) (stream : String) (p : Publisher) : Type 0 where
  pub js : Option Handle
  pub wired : p.publish_fn ≡ some (js_publish js)
  pub subjects : p.subject_fn ≡ none
  pub named : p.stream ≡ stream_name m stream

pub record Requests (target : String) (p : Publisher) : Type 0 where
  pub nc : Option Handle
  pub timeout : Duration
  pub wired : p.publish_fn ≡ some (core_request nc timeout)
  pub subjects : p.subject_fn ≡ some (λ _ key. service_request_subject target key)

module _ (client : Client) (m : Messaging) where
  pub stream_publisher-Wires :
      (stream : String) (h : Handle)
      → Wires (stream_publisher client m stream h) h (PublishesTo m stream)
  unfolding setup_publisher new_publisher
  stream_publisher-Wires stream h = record {
    own = λ s live blank done.
        let same = ((stream_publisher_lem client h s m stream live).0 done).0 in
        record {
          js = s.conn.js;
          wired = ap (λ (p : Publisher). p.publish_fn) same;
          subjects =
              ap (λ (p : Publisher). p.subject_fn) same
              ∙ ap (λ (p : Publisher). p.subject_fn) blank;
          named = ap (λ (p : Publisher). p.stream) same;
        };
    others = λ s live done. ((stream_publisher_lem client h s m stream live).0 done).1;
    mode = (stream_publisher-KeepsLink client m stream h).mode;
  }

  pub service_publisher-Wires :
      (target : String) (h : Handle) → Wires (service_publisher client target h) h (Requests target)
  unfolding setup_publisher
  service_publisher-Wires target h = record {
    own = λ s live blank done.
        let same = (service_publisher_lem client h s target live).2 in
        record {
          nc = s.conn.nc;
          timeout =
              if is_zero s.conn.request_timeout then default_timeout else s.conn.request_timeout;
          wired = ap (λ (p : Publisher). p.publish_fn) same;
          subjects = ap (λ (p : Publisher). p.subject_fn) same;
        };
    others = λ s live done. (service_publisher_lem client h s target live).3;
    mode = (service_publisher-KeepsLink client m target h).mode;
  }

  module _ (error_text : Error → String) {T : Type 0} (t : GoType T) where
    pub consume_stream-Leaves :
        (ephemeral : Bool) (stream key : String) (handler : EventHandler T)
        (opts : List ConsumerOptions)
        → Leaves (consume_stream client m error_text ephemeral t stream key handler opts)
    unfolding consume_stream start_js_consumer add_endpoint
    consume_stream-Leaves ephemeral stream key handler opts = record {
      publishers = λ s. ground arith;
      mode =
          (consume_stream-KeepsLink client m error_text t ephemeral stream key handler opts).mode;
    }

    pub request_response_handler-Leaves :
        {R : Type 0} (marshal : R → Result Bytes) (key : String)
        (handler : Context → ConsumableEvent T → Result R)
        → Leaves (request_response_handler client m error_text t marshal key handler)
    unfolding request_response_handler start_request_response_consumer subscribe_to call
        add_endpoint
    request_response_handler-Leaves marshal key handler = record {
      publishers = λ s. ground arith;
      mode = (request_response_handler-KeepsLink client m error_text t marshal key handler).mode;
    }

    pub service_response_consumer-Leaves :
        (target key : String) (handler : EventHandler T) (opts : List ConsumerOptions)
        → Leaves (service_response_consumer client m error_text t target key handler opts)
    unfolding service_response_consumer add_endpoint
    service_response_consumer-Leaves target key handler opts = record {
      publishers = λ s. refl;
      mode =
          (service_response_consumer-KeepsLink client m error_text t target key handler opts).mode;
    }
