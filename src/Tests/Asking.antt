-- ===== src/Tests/Asking.antt =====
-- A service that asks another one, and gets its response.
use go_messaging_nats.Base.{[], ◌∷◌, some, ◌≡◌, refl}
use go_messaging_nats.Errors.{Result, ok}
use go_messaging_nats.Nats.{Bytes, Context}
use go_messaging_nats.Naming.{service_request_subject}
use go_messaging_nats.Handler.{ConsumableEvent}
use go_messaging_nats.Connection.{State, RequestResponseFn}
use go_messaging_nats.Connection.Monad.{call, add_endpoint}
use go_messaging_nats.Connection.Consumers.{
  new_consumer, subscribe_to, start_request_response_consumer,
}
use go_messaging_nats.Setup.Consumers.{request_response_handler, request_response_wrapper}
use go_messaging_nats.Publisher.{OutMessage, publish}
use go_messaging_nats.Publisher.Outcomes.{sends}
use go_messaging_nats.Consumer.{JsConsumer}
use go_messaging_nats.Consumer.Delivery.{delivery_info, tracing_context}
use go_messaging_nats.Consumer.Core.{responses}
use go_messaging_nats.Consumer.Requests.{handle_request}
use go_messaging_nats.Exchange.Requests.{
  Subscribes, asked, response_to, request_out, requester, publish-handle_request,
}
use go_messaging_nats.Tests.Fixtures.{messaging, consumer_env, span_name, run}
use go_messaging_nats.Tests.Publishing
use go_messaging_nats.Tests.Publishing.{env, attempt, allowed, differ}
use go_messaging_nats.Tests.Requests.{byte, describe}
use go_messaging_nats.Tests.Starting.{working, fresh, connection}

abbrev answering : State
answering = record fresh { conn = record connection { nc = some 5; span_name_fn = some span_name } }

abbrev encode : Bytes → Result Bytes
encode bytes = ok bytes

abbrev repeats : Context → ConsumableEvent Bytes → Result Bytes
repeats ctx event = ok event.payload

abbrev echoes : RequestResponseFn
echoes = request_response_wrapper working messaging describe byte encode repeats

abbrev answerer : JsConsumer
answerer = new_consumer working answering.conn "orders" "" []

abbrev out : OutMessage
out =
    request_out working messaging describe byte encode repeats env working 1 fresh "Order.Get"
      attempt Publishing.given consumer_env run answering (1 ∷ 2 ∷ [])

handles :
    (request_response_handler working messaging describe byte encode "Order.Get" repeats
      answering).0
    ≡ ok tt
unfolding request_response_handler start_request_response_consumer subscribe_to call add_endpoint
handles = refl

publish-handle_request_example :
    let msg = asked "inbox" out in
    let info = delivery_info consumer_env run answerer msg.subject msg "Order.Get" in
    Subscribes working "Order.Get" echoes answering
      (request_response_handler working messaging describe byte encode "Order.Get" repeats
        answering).1
    × (sends
          (publish env
            (requester working messaging describe byte encode repeats env working 1 fresh
              "Order.Get" attempt Publishing.given consumer_env run answering)
            "Order.Get"
            attempt
            Publishing.given).effects
        ≡ out ∷ [])
    × (out.subject ≡ service_request_subject "orders" "Order.Get")
    × (responses (handle_request consumer_env run answerer echoes msg "Order.Get")
        ≡ response_to consumer_env encode (
            repeats (tracing_context consumer_env run answerer span_name info msg) (record {
              metadata = messaging.metadata_from_headers info.headers;
              delivery_info = info;
              payload = 1 ∷ [];
            })))
publish-handle_request_example =
    publish-handle_request working messaging describe byte encode repeats env working 1 fresh
      "Order.Get" attempt Publishing.given consumer_env run answering (1 ∷ 2 ∷ []) (1 ∷ []) "inbox"
      span_name refl refl handles refl allowed refl refl (differ refl)
