-- ===== src/Tests/Requests.antt =====
-- Requests, typed handlers, messages of the outbox, and the registration of metrics.
use mathlib.Core.List.{Permᴰ}
use native.Mathlib.Decide.{ℕ_discrete}
use go_messaging_nats.Base.{String, List, [], ◌∷◌, ◌++◌, none, some, ◌≡◌, refl, true, All}
use go_messaging_nats.Base.GoMap.{GoMap}
use go_messaging_nats.Errors.{Error, Result, ok, err, sentinel, publisher_not_wired, foreign}
use go_messaging_nats.Nats.{Bytes}
use go_messaging_nats.Nats.Lookups.{map_ops, map_ops-IsHeaderOps}
use go_messaging_nats.Handler.{GoType, EventHandler, new_wrapped_handler}
use go_messaging_nats.Routing.{get}
use go_messaging_nats.Metrics.{
  Collector, Registration, already_registered, refused, collectors, init_metrics, event_nak_counter,
}
use go_messaging_nats.Metrics.Registering.{IsTaken, IsRefusedAt, init_metrics_lem}
use go_messaging_nats.Connection.{PublishFn}
use go_messaging_nats.Consumer.{Run, termed}
use go_messaging_nats.Consumer.Delivery.{delivery_info, handle_message, routing_key_of}
use go_messaging_nats.Consumer.Settlement.{settlements, verdict}
use go_messaging_nats.Consumer.Requests.{
  RequestFn, IsReplied, handle_request, handle_request-IsReplied,
}
use go_messaging_nats.Consumer.Decoding.{handle_message_typed}
use go_messaging_nats.Publisher.{subject_of}
use go_messaging_nats.Outbox.{publish_raw, raw_message}
use go_messaging_nats.Outbox.Copying.{written, publish_raw_lem}
use go_messaging_nats.Tests.Fixtures.{consumer_env, span_name, consumer, run, message_on}
use go_messaging_nats.Tests.Publishing.{env, publisher}

abbrev echo : RequestFn
echo ctx event = ok event.payload

handle_request-IsReplied_example :
    IsReplied consumer_env run consumer span_name
      (delivery_info consumer_env run consumer "orders.request.x"
        (message_on "orders.request.x")
        "Order.Created")
      (message_on "orders.request.x")
      echo
      (handle_request consumer_env run consumer echo
        (message_on "orders.request.x")
        "Order.Created")
handle_request-IsReplied_example =
    handle_request-IsReplied consumer_env run consumer span_name (message_on "orders.request.x")
      "Order.Created" echo refl

-- A type whose values are single bytes.
abbrev pub decode : Bytes → Result Bytes
decode [] = err (foreign 9)
decode (b ∷ bs) = ok (b ∷ [])

abbrev pub byte : GoType Bytes
byte = record { name = "byte"; dynamic = some "uint8"; assert = λ bytes. none; unmarshal = decode }

abbrev pub ignores : EventHandler Bytes
ignores ctx event = ok tt

abbrev pub describe : Error → String
describe e = "bad"

abbrev pub typed_run : Run
typed_run = record {
  handlers = ("Order.Created", new_wrapped_handler describe byte ignores) ∷ [];
  headers = [];
  carried = [];
  elapsed = 12;
  ready = λ ch. true;
}

typed_found :
    get consumer_env.messaging typed_run.handlers (routing_key_of "events.Order.Created")
    ≡ some (new_wrapped_handler describe byte ignores)
unfolding get routing_key_of ℕ_discrete
typed_found = refl

handle_message_typed_example :
    ((e : Error)
      → decode (7 ∷ []) ≡ err e
      → settlements
          (handle_message consumer_env typed_run consumer (message_on "events.Order.Created"))
        ≡ termed ∷ [])
    × ((x : Bytes)
        → decode (7 ∷ []) ≡ ok x
        → settlements
            (handle_message consumer_env typed_run consumer (message_on "events.Order.Created"))
          ≡ verdict (ok tt))
handle_message_typed_example =
    handle_message_typed consumer_env typed_run consumer byte ignores describe span_name
      (message_on "events.Order.Created") refl typed_found refl

abbrev walked : GoMap String
walked = ("b", "2") ∷ ("a", "1") ∷ []

publish_raw_lem_example :
    (publisher.publish_fn ≡ none
      → publish_raw env publisher 0 "Order.Created" (7 ∷ []) walked
        ≡ (none, err (sentinel publisher_not_wired)))
    × ((fn : PublishFn)
        → publisher.publish_fn ≡ some fn
        → publish_raw env publisher 0 "Order.Created" (7 ∷ []) walked ≡ (
          some (record {
            via = fn;
            message = raw_message env publisher "Order.Created" (7 ∷ []) walked;
          }),
          env.send fn 0 (raw_message env publisher "Order.Created" (7 ∷ []) walked),
        ))
    × ((raw_message env publisher "Order.Created" (7 ∷ []) walked).subject
        ≡ subject_of env publisher "Order.Created")
    × ((raw_message env publisher "Order.Created" (7 ∷ []) walked).payload ≡ 7 ∷ [])
    × ((k : String)
        → map_ops.get (raw_message env publisher "Order.Created" (7 ∷ []) walked).header k
          ≡ written (("a", "1") ∷ ("b", "2") ∷ []) k "")
publish_raw_lem_example =
    publish_raw_lem env map_ops-IsHeaderOps publisher 0 "Order.Created" (7 ∷ [])
      (("a", "1") ∷ ("b", "2") ∷ []) walked (refl, (refl, tt)) (Permᴰ.swap refl refl)

abbrev answers : Collector → Registration
answers event_nak_counter = refused (foreign 6)
answers _ = already_registered

init_metrics_lem_example :
    (All (λ c. IsTaken (answers c)) collectors
      → ((init_metrics answers []).tried ≡ collectors) × ((init_metrics answers []).result ≡ ok tt))
    × ((before after : List Collector) (c : Collector) (e : Error)
        → collectors ≡ before ++ c ∷ after
        → IsRefusedAt answers before c e
        → ((init_metrics answers []).tried ≡ before ++ c ∷ [])
          × ((init_metrics answers []).result ≡ err e))
init_metrics_lem_example = init_metrics_lem answers []
