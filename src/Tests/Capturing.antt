-- ===== src/Tests/Capturing.antt =====
-- A service that captures what another one publishes.
use mathlib.Core.List.{Memᴰ}
use native.Mathlib.Decide.{ℕ_discrete}
use go_messaging_nats.Base.{
  String, List, [], ◌∷◌, none, some, ◌≡◌, refl, sym, subst, false, All, arith,
}
use go_messaging_nats.Base.GoMap.{GoMap, lookup}
use go_messaging_nats.Base.Text.{Lacks}
use go_messaging_nats.Base.Int.{pos}
use go_messaging_nats.Errors.{ok}
use go_messaging_nats.Naming.{subject_name, filter_subject, stream_name, consumer_name}
use go_messaging_nats.Config.{ConsumerConfig, new_consumer_config}
use go_messaging_nats.Handler.{new_wrapped_handler}
use go_messaging_nats.Connection.{new_connection}
use go_messaging_nats.Connection.Monad.{call, call_void, add_endpoint}
use go_messaging_nats.Connection.Stream.{ensure_stream}
use go_messaging_nats.Connection.Consumers.{start_pending_js_consumers, start_groups}
use go_messaging_nats.Connection.Groups.{grouped, group_all}
use go_messaging_nats.Connection.Groups.Settings.{HasSubject}
use go_messaging_nats.Connection.Start.{
  start, start_connected, open_jet_stream, finish_start, run_connected, run_setups,
}
use go_messaging_nats.Setup.Publishers.{stream_publisher, wire_stream, setup_publisher}
use go_messaging_nats.Publisher.Outcomes.{IsAllowed, sends}
use go_messaging_nats.Exchange.Serving.{StartsServing}
use go_messaging_nats.Intents.{SetupIntent, kind_of}
use go_messaging_nats.Adapter.{
  plan_intents, add_intent, setup_of, add_keys, add_key, add_publisher, add_setup, service_started,
  start_plan, ServiceState, has_prefix, start_service, capture_handler, publish_by_key, to_headers,
}
use go_messaging_nats.Adapter.Keys.{IsSupported}
use go_messaging_nats.Adapter.Serving.{start_service-IsRunning}
use go_messaging_nats.Adapter.Registering.{consumers_of}
use go_messaging_nats.Adapter.Publishers.{IsDemanded, start_service-IsDemanded}
use go_messaging_nats.Adapter.Appending.{IsCaptured}
use go_messaging_nats.Adapter.Capturing.{SharesPattern, env, sent_out}
use go_messaging_nats.Adapter.Conforming.{Targets, start_service-publish_by_key}
use go_messaging_nats.Tests.Fixtures.{messaging, consumer_env}
use go_messaging_nats.Tests.Publishing
use go_messaging_nats.Tests.Publishing.{attempt, differ}
use go_messaging_nats.Tests.Adapting.{service_made, intents, intent, kit, raw, service}
use go_messaging_nats.Tests.Starting.{url}

abbrev consuming : List SetupIntent
consuming = intent "custom-stream" "consume" ∷ []

abbrev audit_consumer : ConsumerConfig
audit_consumer = record {
  stream = stream_name messaging "audit";
  routing_key = "Order.Created";
  consumer_name = consumer_name "billing";
  ephemeral = false;
  handler = new_wrapped_handler kit.error_text raw capture_handler;
  suffix = "";
  max_deliver = pos 0;
  back_off = none;
}

registered : consumers_of kit consuming "billing" ≡ audit_consumer ∷ []
unfolding kind_of new_consumer_config
registered = refl

consuming-IsSupported : All IsSupported consuming
unfolding kind_of
consuming-IsSupported = (refl, tt)

abbrev billing : ServiceState
billing =
    (start_service-IsRunning kit (λ before c. refl) url "billing" consuming refl refl
      consuming-IsSupported).0

billing_made : (start_service kit url "billing" consuming).0 ≡ ok billing
billing_made =
    (start_service-IsRunning kit (λ before c. refl) url "billing" consuming refl refl
      consuming-IsSupported).1

not_response : has_prefix "stream:audit" "service-response:" ≡ false
unfolding has_prefix ℕ_discrete
not_response = refl

kept : lookup "stream:audit" service.publishers ≡ some 0
unfolding start_service plan_intents kind_of new_connection start start_connected call
    open_jet_stream finish_start run_connected run_setups add_intent setup_of stream_publisher
    ensure_stream add_endpoint start_pending_js_consumers start_groups add_keys add_key
    add_publisher add_setup service_started start_plan wire_stream setup_publisher grouped group_all
    stream_name call_void
kept = refl

targets : All (Targets kit "stream:audit" (stream_name messaging "audit")) intents
unfolding kind_of
targets = ((λ same. refl), ((λ same. tt), tt))

abbrev headers : GoMap String
headers = ("x-team", "billing") ∷ []

headers-IsAllowed : All IsAllowed (to_headers headers)
unfolding to_headers
headers-IsAllowed = ((differ refl, differ refl), tt)

alone :
    All (SharesPattern kit "Order.Created" audit_consumer) (consumers_of kit consuming "billing")
alone =
    subst (All (SharesPattern kit "Order.Created" audit_consumer)) (sym registered)
      ((λ same hit. refl), tt)

has_subject : All (HasSubject messaging) (consumers_of kit consuming "billing")
unfolding filter_subject stream_name
has_subject = subst (All (HasSubject messaging)) (sym registered) (differ refl, tt)

no_dot : Lacks b'.' (stream_name messaging "audit")
unfolding stream_name
no_dot = omega arith

start_service-publish_by_key_example :
    let out =
      sent_out kit consumer_env Publishing.env service "stream:audit" "Order.Created" attempt
        headers 0
        (1 ∷ 2 ∷ []) in
    (sends
        (publish_by_key Publishing.env service "stream:audit" "Order.Created" attempt
          headers).effects
      ≡ out ∷ [])
    × (out.subject ≡ subject_name messaging (stream_name messaging "audit") "Order.Created")
    × (v : StartsServing kit.client
        (env kit consumer_env)
        "Order.Created"
        audit_consumer
        billing.state)
    × IsCaptured kit (env kit consumer_env) "Order.Created" (1 ∷ 2 ∷ []) out v.request.consumer
start_service-publish_by_key_example =
    start_service-publish_by_key kit consumer_env Publishing.env "stream:audit" "Order.Created"
      attempt headers 0 url "orders" "billing" intents consuming service billing audit_consumer
      (1 ∷ 2 ∷ []) service_made billing_made kept not_response targets
      (subst (Memᴰ audit_consumer) (sym registered) (Memᴰ.head refl)) refl alone has_subject refl
      refl refl (λ stream key. refl) no_dot headers-IsAllowed refl

start_service-IsDemanded_example :
    IsDemanded kit intents "stream:audit" (service.state.publishers 0)
start_service-IsDemanded_example =
    start_service-IsDemanded kit url "orders" "stream:audit" intents service 0 service_made kept
