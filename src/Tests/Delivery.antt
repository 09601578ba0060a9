-- ===== src/Tests/Delivery.antt =====
-- Messages that are delivered.
use mathlib.Core.List.{Permᴰ}
use native.Mathlib.Decide.{ℕ_discrete}
use go_messaging_nats.Base.{String, [], ◌∷◌, some, true, ◌≡◌, refl, length, arith, eq_iff}
use go_messaging_nats.Base.GoMap.Order.{IsOrderOf}
use go_messaging_nats.Errors.{ok}
use go_messaging_nats.Naming.{subject_name}
use go_messaging_nats.Routing.{RoutingKeyHandler, get}
use go_messaging_nats.Routing.Matching.{IsOnlyMatch, get_any_match}
use go_messaging_nats.Consumer.Delivery.{
  delivery_info, handle_message, handle_core_message, routing_key_of,
}
use go_messaging_nats.Consumer.Settlement.{
  settlements, IsServedBy, handle_message-IsServedBy, handle_message_settles_once,
}
use go_messaging_nats.Consumer.Dispatch.{handle_message_dispatch}
use go_messaging_nats.Consumer.Counts.{Agrees, count, counts_received, handle_message-Agrees}
use go_messaging_nats.Consumer.Core.{
  IsAnsweredBy, handle_core_message-IsAnsweredBy, notifications, notices, responses,
  handle_message-notifications,
}
use go_messaging_nats.Tests.Fixtures.{
  messaging, consumer_env, accepts, fails, span_name, consumer, run, message_on,
}

run_handlers-IsOrderOf : IsOrderOf consumer.handlers run.handlers
run_handlers-IsOrderOf = Permᴰ.swap refl refl

found : get messaging run.handlers "Order.Created" ≡ some accepts
unfolding get
found = refl

found_by_key : get messaging run.handlers (routing_key_of "events.Order.Created") ≡ some accepts
unfolding get routing_key_of ℕ_discrete
found_by_key = refl

found_shipped : get messaging run.handlers "Order.Shipped" ≡ some fails
unfolding get
found_shipped = refl

sent_subject :
    ◌≡◌ {A = String} "events.Order.Created" (subject_name messaging "events" "Order.Created")
unfolding subject_name
sent_subject = refl

only_created : IsOnlyMatch messaging "Order.Created" consumer.handlers "Order.Created"
only_created q hit registered = (eq_iff q "Order.Created").0 hit

handle_message_settles_once_example :
    length
      (settlements (handle_message consumer_env run consumer (message_on "events.Order.Created")))
    ≡ 1
handle_message_settles_once_example =
    handle_message_settles_once consumer_env run consumer span_name
      (message_on "events.Order.Created") refl ((λ ctx event e. cc), ((λ ctx event e. cc), tt))

handle_message-IsServedBy_example :
    IsServedBy consumer_env run consumer span_name
      (delivery_info consumer_env run consumer "events"
        (message_on "events.Order.Created")
        (routing_key_of "events.Order.Created"))
      (message_on "events.Order.Created")
      accepts
      (handle_message consumer_env run consumer (message_on "events.Order.Created"))
handle_message-IsServedBy_example =
    handle_message-IsServedBy consumer_env run consumer span_name
      (message_on "events.Order.Created") accepts refl found_by_key

handle_message_dispatch_example :
    IsServedBy consumer_env run consumer span_name
      (delivery_info consumer_env run consumer "events"
        (message_on "events.Order.Created")
        "Order.Created")
      (message_on "events.Order.Created")
      accepts
      (handle_message consumer_env run consumer (message_on "events.Order.Created"))
handle_message_dispatch_example =
    handle_message_dispatch consumer_env run consumer span_name (message_on "events.Order.Created")
      "events" "Order.Created" "Order.Created" accepts (λ s k. refl) (omega arith) sent_subject refl
      (refl, (refl, tt)) run_handlers-IsOrderOf refl refl only_created

handle_message-Agrees_example :
    Agrees (handle_message consumer_env run consumer (message_on "events.Order.Shipped"))
    × (count counts_received
          (handle_message consumer_env run consumer (message_on "events.Order.Shipped"))
        ≡ 1)
handle_message-Agrees_example =
    handle_message-Agrees consumer_env run consumer (message_on "events.Order.Shipped")

handle_core_message-IsAnsweredBy_example :
    IsAnsweredBy consumer_env run consumer span_name
      (delivery_info consumer_env run consumer "orders.request.x"
        (message_on "orders.request.x")
        "Order.Shipped")
      (message_on "orders.request.x")
      fails
      (handle_core_message consumer_env run consumer
        (message_on "orders.request.x")
        "Order.Shipped")
handle_core_message-IsAnsweredBy_example =
    handle_core_message-IsAnsweredBy consumer_env run consumer span_name
      (message_on "orders.request.x") "Order.Shipped" fails refl found_shipped

handle_message-notifications_example :
    (notifications (handle_message consumer_env run consumer (message_on "events.Order.Created"))
      ≡ notices consumer_env run consumer
          (delivery_info consumer_env run consumer "events"
            (message_on "events.Order.Created")
            (routing_key_of "events.Order.Created"))
          (ok tt))
    × (responses (handle_message consumer_env run consumer (message_on "events.Order.Created"))
        ≡ [])
handle_message-notifications_example =
    handle_message-notifications consumer_env run consumer span_name
      (message_on "events.Order.Created") accepts refl found_by_key

-- Two patterns that match the same key, under a matching that accepts everything.
get_any_match_example :
    (order : RoutingKeyHandler) × IsOrderOf (("Order.#", accepts) ∷ ("Order.*", fails) ∷ []) order
    × (get (record messaging { match_routing_key = λ p k. true }) order "Order.Created"
        ≡ some fails)
get_any_match_example =
    get_any_match (record messaging { match_routing_key = λ p k. true }) "Order.Created"
      (("Order.#", accepts) ∷ []) [] "Order.*" fails refl
