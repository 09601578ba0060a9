-- ===== src/Tests/Starting.antt =====
-- Connections that start, fail to start and close.
use go_messaging_nats.Base.{String, List, [], ◌∷◌, some, ◌≡◌, refl, arith, map, select}
use go_messaging_nats.Base.Int.{pos}
use go_messaging_nats.Base.Text.{concat}
use go_messaging_nats.Errors.{
  Handle, Error, sentinel, already_started, wrap, Result, ok, err, foreign,
}
use go_messaging_nats.Messaging.{Topology}
use go_messaging_nats.Naming.{stream_name}
use go_messaging_nats.Config.{ConsumerConfig}
use go_messaging_nats.Connection.{
  Connection, State, Client, Call, Publisher, create_or_update_stream, new_connection,
  new_publisher, blank_connection, no_defaults,
}
use go_messaging_nats.Connection.Monad.{call, call_void, add_endpoint}
use go_messaging_nats.Connection.Stream.{ensure_stream}
use go_messaging_nats.Connection.Groups.{
  consumer_group_key, grouped, consumer_settings, group_handlers,
}
use go_messaging_nats.Connection.Groups.Keys.{consumer_group_key_injective}
use go_messaging_nats.Connection.Groups.Refines.{grouped_lem, distinct, group_keys, has_key}
use go_messaging_nats.Connection.Groups.Settings.{consumer_settings_later, with_limits}
use go_messaging_nats.Connection.Consumers.{start_groups, start_pending_js_consumers}
use go_messaging_nats.Connection.Start.{
  start, start_connected, open_jet_stream, finish_start, run_connected, run_setups, apply_setups,
  collect_topology,
}
use go_messaging_nats.Connection.Lifecycle.{Closed, start-Closed, start_once}
use go_messaging_nats.Setup.Publishers.{stream_publisher, service_publisher, wire_stream}
use go_messaging_nats.Setup.Declares.{stream_publisher-Declares, service_publisher-Declares}
use go_messaging_nats.Setup.Declarations.{Declaration, setups, declared_by}
use go_messaging_nats.Setup.Topology.{start-collect_topology}
use go_messaging_nats.Tests.Fixtures.{messaging, config}

-- A server on which everything succeeds, and one that refuses streams.
abbrev pub working : Client
working = record { answer = λ calls c. ok 5; tracer_of = λ h. h; global_provider = 0 }

abbrev without_streams : Call → Result Handle
without_streams (create_or_update_stream js settings) = err (foreign 3)
without_streams _ = ok 5

abbrev refusing : Client
refusing = record { answer = λ calls c. without_streams c; tracer_of = λ h. h; global_provider = 0 }

abbrev pub url : String
url = "nats://localhost:4222"

abbrev pub connection : Connection
connection = record (blank_connection "orders") { nats_url = url }

abbrev pub publishers : Handle → Publisher
unfolding new_publisher
publishers _ = new_publisher

abbrev pub fresh : State
fresh = record { conn = connection; publishers = publishers; calls = [] }

abbrev declarations : Client → List Declaration
declarations client =
    record {
      setup = record {
        name = "StreamPublisher";
        apply = stream_publisher client messaging "audit" 1;
      };
      declared = _;
      correct = stream_publisher-Declares client messaging "audit" 1;
    }
    ∷ record {
      setup = record { name = "ServicePublisher"; apply = service_publisher client "billing" 2 };
      declared = _;
      correct = service_publisher-Declares client "billing" 2;
    }
    ∷ []

abbrev refusal : Error
refusal =
    wrap (concat ("setup function <" ∷ "StreamPublisher" ∷ "> failed: " ∷ []))
      (wrap (concat ("failed to ensure stream " ∷ "audit" ∷ ": " ∷ [])) (foreign 3) "") ""

refused : (start refusing messaging (setups (declarations refusing)) fresh).0 ≡ err refusal
unfolding start start_connected open_jet_stream finish_start run_connected run_setups
    stream_publisher wire_stream ensure_stream call call_void stream_name
refused = refl

start-Closed_example : Closed 5 (start refusing messaging (setups (declarations refusing)) fresh).1
start-Closed_example =
    start-Closed refusing messaging (setups (declarations refusing)) 5 fresh refusal refl refl refl
      refused

started : (start working messaging (setups (declarations working)) fresh).0 ≡ ok tt
unfolding start start_connected open_jet_stream finish_start run_connected run_setups
    stream_publisher wire_stream ensure_stream call call_void stream_name service_publisher
    start_pending_js_consumers start_groups grouped group_handlers add_endpoint
started = refl

start_once_example :
    start working messaging [] (start working messaging (setups (declarations working)) fresh).1 ≡ (
      err (sentinel already_started),
      (start working messaging (setups (declarations working)) fresh).1,
    )
start_once_example = start_once working messaging (setups (declarations working)) fresh [] started

abbrev declared : Topology
declared = record {
  service_name = "orders";
  endpoints = declared_by (declarations working) "orders";
}

pub connection_made : new_connection "orders" url [] ≡ ok connection
unfolding new_connection
connection_made = refl

collected : collect_topology publishers "orders" (setups (declarations working)) ≡ ok declared
unfolding collect_topology apply_setups stream_publisher service_publisher add_endpoint stream_name
collected = refl

start-collect_topology_example :
    ((start working messaging (setups (declarations working)) fresh).1.conn.topology ≡ declared)
    × (declared ≡ record {
      service_name = "orders";
      endpoints = declared_by (declarations working) "orders";
    })
start-collect_topology_example =
    start-collect_topology working messaging (declarations working) "orders" url [] connection
      publishers declared connection_made started collected

-- Two keys on one consumer, and one key on another stream.
abbrev pub pending : List ConsumerConfig
pending =
    config "Order.Created"
    ∷ record (config "Payment.Made") { stream = "payments" }
    ∷ config "Order.Shipped"
    ∷ []

grouped_lem_example :
    grouped pending ≡ map (λ k. select (has_key k) pending) (distinct (group_keys pending))
grouped_lem_example = grouped_lem pending

consumer_settings_later_example :
    consumer_settings messaging no_defaults (config "Order.Created") (
      config "Order.Created"
      ∷ with_limits (pos 5) (some (pos 1 ∷ [])) (config "Order.Shipped")
      ∷ [])
    ≡ consumer_settings messaging no_defaults
        (config "Order.Created")
        (config "Order.Created" ∷ config "Order.Shipped" ∷ [])
consumer_settings_later_example =
    consumer_settings_later messaging no_defaults (config "Order.Created")
      (config "Order.Shipped" ∷ []) (pos 5) (some (pos 1 ∷ []))

same_key : consumer_group_key (config "Order.Created") ≡ consumer_group_key (config "Order.Shipped")
unfolding consumer_group_key
same_key = refl

consumer_group_key_injective_example :
    (◌≡◌ {A = String} "events" "events") × (◌≡◌ {A = String} "orders" "orders")
consumer_group_key_injective_example =
    consumer_group_key_injective (config "Order.Created") (config "Order.Shipped") (omega arith)
      (omega arith) same_key
