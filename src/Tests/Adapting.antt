-- ===== src/Tests/Adapting.antt =====
-- Services that are set up from intents.
use native.Mathlib.Decide.{ℕ_discrete}
use go_messaging_nats.Base.{
  String, List, [], ◌∷◌, ◌++◌, none, some, ◌≡◌, refl, false, true, All, if◌then◌else◌, arith,
}
use go_messaging_nats.Errors.{Result, ok, err, panic, is_ok}
use go_messaging_nats.Nats.{Bytes}
use go_messaging_nats.Handler.{GoType}
use go_messaging_nats.Connection.{new_connection}
use go_messaging_nats.Connection.Start.{
  start, start_connected, open_jet_stream, finish_start, run_connected, run_setups,
}
use go_messaging_nats.Connection.Stream.{ensure_stream}
use go_messaging_nats.Connection.Consumers.{start_pending_js_consumers, start_groups}
use go_messaging_nats.Connection.Groups.{grouped, group_all}
use go_messaging_nats.Setup.Publishers.{stream_publisher, wire_stream, setup_publisher}
use go_messaging_nats.Naming.{stream_name}
use go_messaging_nats.Connection.Monad.{call, call_void, add_endpoint}
use go_messaging_nats.Adapter.{
  plan_intents, add_intent, setup_of, add_keys, add_key, add_publisher, add_setup, service_started,
  start_plan, Kit, ServiceState, has_prefix, start_service,
}
use go_messaging_nats.Intents.{SetupIntent, kind_of, unsupported, response_publish, is_intent}
use go_messaging_nats.Connection.Running.{IsRunning}
use go_messaging_nats.Adapter.Serving.{start_service-IsRunning}
use go_messaging_nats.Adapter.Endpoints.{intents_endpoints, start_service-topology}
use go_messaging_nats.Adapter.Keys.{
  IsSupported, ResponseKeys, IsUsable, start_service-unsupported, start_service-IsUsable,
}
use go_messaging_nats.Tests.Fixtures.{messaging}
use go_messaging_nats.Tests.Publishing.{env}
use go_messaging_nats.Tests.Starting.{working, url, fresh}

abbrev pub raw : GoType Bytes
raw = record {
  name = "json.RawMessage";
  dynamic = some "json.RawMessage";
  assert = λ bytes. some bytes;
  unmarshal = λ bytes. ok bytes;
}

abbrev pub intent : String → String → SetupIntent
intent pattern_name direction_name = record {
  pattern_name = pattern_name;
  direction_name = direction_name;
  ephemeral = false;
  queue_suffix = "";
  routing_key = "Order.Created";
  exchange = "audit";
  target_service = "billing";
}

-- A key for the responses, and one for the rest.
abbrev key_of : SetupIntent → String
key_of i =
    if is_intent i "service-response" "publish" then "service-response:billing" else "stream:audit"

abbrev pub kit : Kit
kit = record {
  client = working;
  messaging = messaging;
  error_text = λ e. "failed";
  raw = raw;
  marshal_raw = λ bytes. ok bytes;
  publisher_key = key_of;
  setup_name = λ i. "setup";
}

abbrev pub intents : List SetupIntent
intents = intent "custom-stream" "publish" ∷ intent "service-response" "publish" ∷ []

abbrev service_of : Result ServiceState → ServiceState
service_of (ok st) = st
service_of _ = record {
  topology = record { service_name = ""; endpoints = [] };
  publisher_keys = [];
  publishers = [];
  state = fresh;
}

is_ok-service_of : (r : Result ServiceState) → is_ok r ≡ true → r ≡ ok (service_of r)
is_ok-service_of (ok st) h = refl
is_ok-service_of (err e) h = cc
is_ok-service_of panic h = cc

service_ok : is_ok (start_service kit url "orders" intents).0 ≡ true
unfolding start_service plan_intents kind_of new_connection start start_connected call
    open_jet_stream finish_start run_connected run_setups add_intent setup_of stream_publisher
    ensure_stream add_endpoint start_pending_js_consumers start_groups add_keys add_key
    add_publisher add_setup service_started start_plan wire_stream setup_publisher grouped group_all
    stream_name call_void
service_ok = refl

abbrev pub service : ServiceState
service = service_of (start_service kit url "orders" intents).0

pub service_made : (start_service kit url "orders" intents).0 ≡ ok service
service_made = is_ok-service_of (start_service kit url "orders" intents).0 service_ok

start_service-topology_example : service.topology ≡ record {
  service_name = "orders";
  endpoints = intents_endpoints messaging "json.RawMessage" "orders" intents;
}
start_service-topology_example =
    start_service-topology kit url "orders" intents service service_made

response_intent :
    (i : SetupIntent)
    → kind_of i ≡ some response_publish
    → is_intent i "service-response" "publish" ≡ true
unfolding kind_of
response_intent i e = ground arith

has_response_prefix : has_prefix "service-response:billing" "service-response:" ≡ true
unfolding has_prefix ℕ_discrete
has_response_prefix = refl

response_keys : ResponseKeys kit
response_keys i e = rw (response_intent i e) has_response_prefix

start_service-IsUsable_example : All (IsUsable kit env service) service.publisher_keys
start_service-IsUsable_example =
    start_service-IsUsable kit env url "orders" intents service response_keys service_made

supported : All IsSupported intents
unfolding kind_of
supported = (refl, (refl, tt))

unknown_kind : kind_of (intent "queue" "consume") ≡ none
unfolding kind_of
unknown_kind = refl

start_service-unsupported_example :
    start_service kit url "orders" (intents ++ intent "queue" "consume" ∷ [])
    ≡ (err (unsupported (intent "queue" "consume")), [])
start_service-unsupported_example =
    start_service-unsupported kit url "orders" intents [] (intent "queue" "consume") supported
      unknown_kind

-- Publishers and consumers of all patterns.
abbrev all_patterns : List SetupIntent
all_patterns =
    intent "event-stream" "consume"
    ∷ intent "custom-stream" "publish"
    ∷ intent "service-request" "consume"
    ∷ intent "service-request" "publish"
    ∷ intent "service-response" "consume"
    ∷ []

have_cases : All IsSupported all_patterns
unfolding kind_of
have_cases = (refl, (refl, (refl, (refl, (refl, tt)))))

start_service-IsRunning_example :
    (st : ServiceState) × ((start_service kit url "orders" all_patterns).0 ≡ ok st)
    × IsRunning st.state.conn
start_service-IsRunning_example =
    start_service-IsRunning kit (λ before c. refl) url "orders" all_patterns refl refl have_cases
