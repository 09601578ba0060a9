-- ===== src/Setup/Accepting.antt =====
-- The setup functions of the library on a server that accepts every call.
use go_messaging_nats.Base.{
  String, Bool, List, [], is_some, or_default, true, ◌≡◌, refl, ap, ◌∙◌, arith,
}
use go_messaging_nats.Errors.{Handle, Error, Result, ok, err, panic, is_ok}
use go_messaging_nats.Messaging.{Messaging}
use go_messaging_nats.Nats.{Bytes, Context}
use go_messaging_nats.Config.{ConsumerOptions, new_consumer_config}
use go_messaging_nats.Naming.{stream_name, service_request_subject}
use go_messaging_nats.Handler.{GoType, EventHandler, ConsumableEvent, new_wrapped_handler}
use go_messaging_nats.Connection.{
  State, Client, create_or_update_stream, subscribe, core, request_response,
}
use go_messaging_nats.Connection.Monad.{M, call, add_endpoint}
use go_messaging_nats.Connection.Stream.{ensure_stream, stream_settings}
use go_messaging_nats.Routing.{add}
use go_messaging_nats.Connection.Consumers.{
  start_js_consumer, start_core_consumer, start_request_response_consumer, subscribe_to,
  new_consumer,
}
use go_messaging_nats.Connection.Waiting.{KeepsLink}
use go_messaging_nats.Connection.Running.{Ends, IsLinked, Accepts, IsWorking}
use go_messaging_nats.Setup.Consumers.{
  consume_stream, service_request_consumer, service_response_consumer, request_response_handler,
  request_response_wrapper,
}
use go_messaging_nats.Setup.Publishers.{stream_publisher, wire_stream, service_publisher}
use go_messaging_nats.Setup.Links.{
  stream_publisher-KeepsLink, service_publisher-KeepsLink, consume_stream-KeepsLink,
  service_request_consumer-KeepsLink, service_response_consumer-KeepsLink,
  request_response_handler-KeepsLink,
}

ok-Ends : (r : Result (Unit {0})) (t : State) → r ≡ ok tt → IsLinked t.conn → Ends IsLinked r t
ok-Ends (ok a) t e w = w
ok-Ends (err x) t e w = cc
ok-Ends panic t e w = cc

-- It is enough that the function succeeds, if it leaves the link alone.
KeepsLink-Accepts :
    (apply : M (Unit {0}))
    → KeepsLink apply
    → ((s : State) → IsLinked s.conn → (apply s).0 ≡ ok tt)
    → Accepts apply
KeepsLink-Accepts apply k h s w = ok-Ends (apply s).0 (apply s).1 (h s w) (record {
  nc = ap is_some (k.nc s) ∙ w.nc;
  js = ap is_some (k.js s) ∙ w.js;
  mode = k.mode s ∙ w.mode;
})

module _ (client : Client) (m : Messaging) (works : IsWorking client) where
  pub stream_publisher-Accepts :
      (stream : String) (publisher : Handle) → Accepts (stream_publisher client m stream publisher)
  unfolding stream_publisher wire_stream add_endpoint ensure_stream call
  stream_publisher-Accepts stream publisher =
      KeepsLink-Accepts _ (stream_publisher-KeepsLink client m stream publisher) (λ s w. ground (
        arith,
        w.js,
        w.mode,
        works s.calls (
            create_or_update_stream (or_default s.conn.js 0)
              (stream_settings s.conn (stream_name m stream))),
      ))

  pub service_publisher-Accepts :
      (target : String) (publisher : Handle) → Accepts (service_publisher client target publisher)
  unfolding service_publisher add_endpoint
  service_publisher-Accepts target publisher =
      KeepsLink-Accepts _ (service_publisher-KeepsLink client m target publisher)
        (λ s w. ground arith)

  module _ (error_text : Error → String) {T : Type 0} (t : GoType T) where
    -- The options are those of a consumer that can be configured.
    pub consume_stream-Accepts :
        (ephemeral : Bool) (stream key : String) (handler : EventHandler T)
        (opts : List ConsumerOptions)
        → ((service : String)
            → is_ok (
                new_consumer_config
                  (stream_name m stream)
                  key
                  ephemeral
                  (new_wrapped_handler error_text t handler)
                  service
                  opts)
              ≡ true)
        → Accepts (consume_stream client m error_text ephemeral t stream key handler opts)
    unfolding consume_stream start_js_consumer add_endpoint
    consume_stream-Accepts ephemeral stream key handler opts configured =
        KeepsLink-Accepts _
          (consume_stream-KeepsLink client m error_text t ephemeral stream key handler opts)
          (λ s w. ground (arith, configured s.conn.service_name))

    pub service_request_consumer-Accepts :
        (key : String) (handler : EventHandler T) (opts : List ConsumerOptions)
        → Accepts (service_request_consumer client m error_text t key handler opts)
    unfolding service_request_consumer start_core_consumer subscribe_to call add_endpoint
    service_request_consumer-Accepts key handler opts =
        KeepsLink-Accepts _
          (service_request_consumer-KeepsLink client m error_text t key handler opts)
          (λ s w. ground (
            arith,
            w.nc,
            w.mode,
            works s.calls (
                subscribe (or_default s.conn.nc 0) (service_request_subject s.conn.service_name key)
                  (core
                    (new_consumer client s.conn s.conn.service_name ""
                      (add [] key (new_wrapped_handler error_text t handler)))
                    key)),
          ))

    pub request_response_handler-Accepts :
        {R : Type 0} (marshal : R → Result Bytes) (key : String)
        (handler : Context → ConsumableEvent T → Result R)
        → Accepts (request_response_handler client m error_text t marshal key handler)
    unfolding request_response_handler start_request_response_consumer subscribe_to call
        add_endpoint
    request_response_handler-Accepts marshal key handler =
        KeepsLink-Accepts _
          (request_response_handler-KeepsLink client m error_text t marshal key handler)
          (λ s w. ground (
            arith,
            w.nc,
            w.mode,
            works s.calls (
                subscribe (or_default s.conn.nc 0) (service_request_subject s.conn.service_name key)
                  (request_response (new_consumer client s.conn s.conn.service_name "" []) key
                    (request_response_wrapper client m error_text t marshal handler))),
          ))

    pub service_response_consumer-Accepts :
        (target key : String) (handler : EventHandler T) (opts : List ConsumerOptions)
        → Accepts (service_response_consumer client m error_text t target key handler opts)
    unfolding service_response_consumer add_endpoint
    service_response_consumer-Accepts target key handler opts =
        KeepsLink-Accepts _
          (service_response_consumer-KeepsLink client m error_text t target key handler opts)
          (λ s w. refl)
