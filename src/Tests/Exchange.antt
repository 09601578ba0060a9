-- ===== src/Tests/Exchange.antt =====
-- An event that one service publishes and another handles, and the trace that goes with it.
use mathlib.Core.List.{Permᴰ}
use mathlib.Core.List.Permᴰ
use go_messaging_nats.Base.{
  String, [], ◌∷◌, Option, none, some, ◌≡◌, inr, refl, ap, eq_iff, if◌then◌else◌, is_some, arith,
}
use go_messaging_nats.Base.GoMap.{lookup, HasDistinctKeys}
use go_messaging_nats.Base.GoMap.Order.{IsOrderOf}
use go_messaging_nats.Messaging.{text}
use go_messaging_nats.Nats.{Propagator, NatsHeader}
use go_messaging_nats.Nats.Lookups.{map_ops, map_ops-IsHeaderOps}
use go_messaging_nats.Tracing.{inject_to_headers, extract_to_context, propagator_or_global}
use go_messaging_nats.Tracing.Carriers.{ReadsOnly, extract_to_context-inject_to_headers}
use go_messaging_nats.Connection.{js_publish}
use go_messaging_nats.Publisher.{
  out_message, publish, stamped, set_headers, defaulted, set_default, message_id, span_context,
}
use go_messaging_nats.Publisher.Outcomes.{sends}
use go_messaging_nats.Consumer.{handled, JsConsumer, Run}
use go_messaging_nats.Consumer.Delivery.{
  handle_message, delivery_info, tracing_context, unmarshal_event,
}
use go_messaging_nats.Consumer.Settlement.{calls, settlements, verdict}
use go_messaging_nats.Exchange.{delivered}
use go_messaging_nats.Exchange.Events.{
  IsSubscribed, given, publish-handle_message, publish-delivery_info,
}
use go_messaging_nats.Tests.Fixtures.{consumer_env, span_name, consumer}
use go_messaging_nats.Tests.Publishing
use go_messaging_nats.Tests.Publishing.{env, publisher, attempt, allowed}
use go_messaging_nats.Tests.Requests.{byte, ignores, describe, typed_run}

abbrev subscriber : JsConsumer
subscriber = record consumer { handlers = typed_run.handlers }

subscribed : IsSubscribed consumer_env typed_run subscriber "Order.Created" byte ignores describe
subscribed = record {
  pattern_key = "Order.Created";
  distinct = (refl, tt);
  walk = Permᴰ.cons refl Permᴰ.nil;
  registered = refl;
  matches = refl;
  only = λ q hit found. (eq_iff q "Order.Created").0 hit;
}

publish-handle_message_example :
    let out =
      out_message env publisher "Order.Created" attempt
        (given env publisher "Order.Created" attempt Publishing.given)
        (1 ∷ 2 ∷ []) in
    let info =
      delivery_info consumer_env typed_run subscriber "events" (delivered out) "Order.Created" in
    (sends (publish env publisher "Order.Created" attempt Publishing.given).effects ≡ out ∷ [])
    × (settlements (handle_message consumer_env typed_run subscriber (delivered out))
        ≡ verdict (
            ignores
              (tracing_context consumer_env typed_run subscriber span_name info (delivered out))
              (record {
                metadata = consumer_env.messaging.metadata_from_headers info.headers;
                delivery_info = info;
                payload = 1 ∷ [];
              })))
    × (calls (handle_message consumer_env typed_run subscriber (delivered out))
        ≡ handled
            (tracing_context consumer_env typed_run subscriber span_name info (delivered out))
            (unmarshal_event consumer_env typed_run subscriber info (delivered out))
          ∷ [])
publish-handle_message_example =
    publish-handle_message env publisher "Order.Created" attempt Publishing.given consumer_env
      typed_run subscriber byte ignores describe span_name (1 ∷ 2 ∷ []) (js_publish (some 5))
      (1 ∷ []) allowed refl refl refl refl (λ stream key. refl) (omega arith) refl subscribed
      (inr (refl, refl))

-- The headers that the publisher sends.
abbrev sent_header : NatsHeader
sent_header =
    (out_message env publisher "Order.Created" attempt
      (given env publisher "Order.Created" attempt Publishing.given) (1 ∷ 2 ∷ [])).header

abbrev header_run : Run
header_run = record typed_run { headers = sent_header }

sent_header-HasDistinctKeys : HasDistinctKeys sent_header
unfolding out_message inject_to_headers stamped defaulted set_default message_id set_headers
sent_header-HasDistinctKeys = (refl, (refl, (refl, (refl, (refl, (refl, (refl, tt)))))))

source_stamped :
    env.header_ops.get
      (stamped env publisher "Order.Created" attempt
        (given env publisher "Order.Created" attempt Publishing.given))
      "ce_source"
    ≡ "orders"
unfolding stamped defaulted set_default set_headers
source_stamped = refl

not_injected :
    lookup "ce_source" (
      (propagator_or_global publisher.propagator env.global_propagator).inject
        (span_context env publisher "Order.Created" attempt))
    ≡ none
unfolding propagator_or_global
not_injected = refl

publish-delivery_info_example :
    lookup "ce_source"
      (delivery_info consumer_env header_run subscriber "events"
        (delivered (
          out_message env publisher "Order.Created" attempt
            (given env publisher "Order.Created" attempt Publishing.given)
            (1 ∷ 2 ∷ [])))
        "Order.Created").headers
    ≡ some (text "orders")
publish-delivery_info_example =
    publish-delivery_info env publisher "Order.Created" attempt Publishing.given consumer_env
      header_run subscriber (1 ∷ 2 ∷ []) "ce_source" "orders" map_ops-IsHeaderOps
      map_ops-IsHeaderOps sent_header-HasDistinctKeys (Permᴰ.refl sent_header) not_injected
      source_stamped (Publishing.differ refl)

-- A propagator of one header.
abbrev tracer_header : Propagator
tracer_header = record {
  inject = λ ctx. ("traceparent", "00-4bf9") ∷ [];
  extract = λ ctx carrier. if is_some (lookup "traceparent" carrier) then 9 else ctx;
}

abbrev reads_traceparent : ReadsOnly tracer_header ("traceparent" ∷ [])
reads_traceparent ctx c d same = ap (λ (o : Option String). if is_some o then 9 else ctx) same.0

abbrev base_header : NatsHeader
base_header = ("x-team", "billing" ∷ []) ∷ []

injected-HasDistinctKeys :
    HasDistinctKeys (inject_to_headers map_ops tracer_header 1 base_header none)
unfolding inject_to_headers
injected-HasDistinctKeys = (refl, (refl, tt))

injected-IsOrderOf :
    IsOrderOf
      (inject_to_headers map_ops tracer_header 1 base_header none)
      (("traceparent", "00-4bf9" ∷ []) ∷ ("x-team", "billing" ∷ []) ∷ [])
unfolding inject_to_headers
injected-IsOrderOf = Permᴰ.swap refl refl

reads_global : ReadsOnly (propagator_or_global none tracer_header) ("traceparent" ∷ [])
unfolding propagator_or_global
reads_global = reads_traceparent

wrote-HasDistinctKeys : HasDistinctKeys ((propagator_or_global none tracer_header).inject 1)
unfolding propagator_or_global
wrote-HasDistinctKeys = (refl, tt)

extract_to_context-inject_to_headers_example :
    extract_to_context map_ops tracer_header 0
      (inject_to_headers map_ops tracer_header 1 base_header none)
      (("traceparent", "00-4bf9" ∷ []) ∷ ("x-team", "billing" ∷ []) ∷ [])
      none
    ≡ (propagator_or_global none tracer_header).extract 0
        ((propagator_or_global none tracer_header).inject 1)
extract_to_context-inject_to_headers_example =
    extract_to_context-inject_to_headers map_ops map_ops-IsHeaderOps tracer_header tracer_header
      none none 1 0 base_header (("traceparent", "00-4bf9" ∷ []) ∷ ("x-team", "billing" ∷ []) ∷ [])
      ("traceparent" ∷ []) reads_global wrote-HasDistinctKeys (refl, tt) injected-HasDistinctKeys
      injected-IsOrderOf
