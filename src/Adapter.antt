-- ===== src/Adapter.antt =====
-- cmd/tck-adapter/main.go: a service that the conformance kit sets up from a list of intents.
pub mod Started
pub mod Kinds
pub mod Endpoints
pub mod Serving
pub mod Keys
pub mod Main
pub mod Allocating
pub mod Allocated
pub mod Publishers
pub mod Registering
pub mod Captured
pub mod Consuming
pub mod Appending
pub mod Capturing
pub mod Conforming
use Prim.Native.Char.{code}
use Prim.Native.String
use native.Mathlib.Decide.{ℕ_discrete}
use mathlib.Core.Logic.{ite}
use go_messaging_nats.Base.{
  ℕ, String, Bool, true, false, List, [], ◌∷◌, ◌++◌, Option, none, some, if◌then◌else◌, ◌==◌, ◌&&◌,
  not, suc, or_default,
}
use go_messaging_nats.Base.GoMap.{GoMap, lookup, insert}
use go_messaging_nats.Base.Text.{concat}
use go_messaging_nats.Errors.{Handle, Error, message, wrap, Result, ok, err, panic, ◌>>=◌}
use go_messaging_nats.Messaging.{Messaging, Metadata, DeliveryInfo, Topology}
use go_messaging_nats.Nats.{Bytes, Context}
use go_messaging_nats.Headers.{Header}
use go_messaging_nats.Config.{add_consumer_name_suffix}
use go_messaging_nats.Handler.{GoType, EventHandler, ConsumableEvent, decoded_event}
use go_messaging_nats.Connection.{
  Connection, State, Client, Call, Publisher, new_connection, new_publisher,
}
use go_messaging_nats.Connection.Monad.{M}
use go_messaging_nats.Connection.Start.{Setup, start, close}
use go_messaging_nats.Setup.Consumers.{
  event_stream_consumer, transient_event_stream_consumer, stream_consumer,
  transient_stream_consumer, service_response_consumer, request_response_handler,
}
use go_messaging_nats.Setup.Publishers.{event_stream_publisher, stream_publisher, service_publisher}
use go_messaging_nats.Consumer.{Effect, handled}
use go_messaging_nats.Received.{Shared, capture_call, unused}
use go_messaging_nats.Publisher
use go_messaging_nats.Publisher.{Attempt, Outcome, publish}
use go_messaging_nats.Intents.{
  Kind, SetupIntent, event_consume, event_consume_suffixed, event_publish, event_transient, kind_of,
  request_consume, request_publish, response_consume, response_publish, stream_consume,
  stream_publish, stream_transient, unsupported,
}

-- captureHandler, as the consumers call it: what a whole call returns. The result is the same whatever
-- has been received; what becomes of the slice is in shared_after.
unfoldable pub capture_handler : EventHandler Bytes
capture_handler ctx event = or_default (capture_call event unused).1 panic

-- The bytes of {"ok":true}.
abbrev pub ok_response : Bytes
ok_response = 123 ∷ 34 ∷ 111 ∷ 107 ∷ 34 ∷ 58 ∷ 116 ∷ 114 ∷ 117 ∷ 101 ∷ 125 ∷ []

-- rrHandler appends as captureHandler does, and responds.
unfoldable pub rr_handler : Context → ConsumableEvent Bytes → Result Bytes
unfolding capture_handler
rr_handler ctx event = do _ ← capture_handler ctx event; ok ok_response

-- The variables of the loop over the intents; `next` is a publisher that is not allocated yet.
pub record Plan : Type 0 where
  pub setups : List Setup
  pub publishers : GoMap Handle
  pub publisher_keys : List String
  pub next : Handle

abbrev pub no_plan : Plan
no_plan = record { setups = []; publishers = []; publisher_keys = []; next = 0 }

-- adapterutil.ServiceState, with the connection's state behind its functions.
pub record ServiceState : Type 0 where
  pub topology : Topology
  pub publisher_keys : List String
  pub publishers : GoMap Handle
  pub state : State

-- strings.HasPrefix
unfoldable pub has_prefix : String → String → Bool
has_prefix s Prim.Native.String.[] = true
has_prefix Prim.Native.String.[] (Prim.Native.String.◌∷◌ d p) = false
has_prefix (Prim.Native.String.◌∷◌ c s) (Prim.Native.String.◌∷◌ d p) =
    ite (ℕ_discrete (code c) (code d)) (has_prefix s p) false

-- What follows conn.Start; the state is that of the connection and the publishers.
unfoldable pub service_started : Plan → Result (Unit {0}) × State → Result ServiceState
service_started plan (ok _, s) = ok (record {
  topology = s.conn.topology;
  publisher_keys = plan.publisher_keys;
  publishers = plan.publishers;
  state = s;
})
service_started plan (err e, s) = err (wrap "start: " e "")
service_started plan (panic, s) = panic

-- All publishers are new.
abbrev pub initial : Connection → State
initial conn = record { conn = conn; publishers = λ _. new_publisher; calls = [] }

-- The result of StartService, and the calls that it has made to the NATS client.

-- What the program takes from elsewhere: `raw` and `marshal_raw` are json.RawMessage under
-- encoding/json, `publisher_key` is spectest.PublisherKey, and `setup_name` is the name of a setup
-- function in an error's text.
pub record Kit : Type 0 where
  pub client : Client
  pub messaging : Messaging
  pub error_text : Error → String
  pub raw : GoType Bytes
  pub marshal_raw : Bytes → Result Bytes
  pub publisher_key : SetupIntent → String
  pub setup_name : SetupIntent → String

module _ (kit : Kit) where
  -- The setup function of one intent; a response is published without one.
  unfoldable pub setup_of : SetupIntent → Handle → Kind → Option (M (Unit {0}))
  setup_of i pub_handle event_publish =
      some (event_stream_publisher kit.client kit.messaging pub_handle)
  setup_of i pub_handle event_consume_suffixed = some (
      event_stream_consumer kit.client kit.messaging kit.error_text kit.raw i.routing_key
        capture_handler (add_consumer_name_suffix i.queue_suffix ∷ []))
  setup_of i pub_handle event_consume = some (
      event_stream_consumer kit.client kit.messaging kit.error_text kit.raw i.routing_key
        capture_handler [])
  setup_of i pub_handle event_transient = some (
      transient_event_stream_consumer kit.client kit.messaging kit.error_text kit.raw i.routing_key
        capture_handler [])
  setup_of i pub_handle stream_publish =
      some (stream_publisher kit.client kit.messaging i.exchange pub_handle)
  setup_of i pub_handle stream_consume = some (
      stream_consumer kit.client kit.messaging kit.error_text kit.raw i.exchange i.routing_key
        capture_handler [])
  setup_of i pub_handle stream_transient = some (
      transient_stream_consumer kit.client kit.messaging kit.error_text kit.raw i.exchange
        i.routing_key capture_handler [])
  setup_of i pub_handle request_consume = some (
      request_response_handler kit.client kit.messaging kit.error_text kit.raw kit.marshal_raw
        i.routing_key rr_handler)
  setup_of i pub_handle request_publish =
      some (service_publisher kit.client i.target_service pub_handle)
  setup_of i pub_handle response_consume = some (
      service_response_consumer kit.client kit.messaging kit.error_text kit.raw i.target_service
        i.routing_key capture_handler [])
  setup_of i pub_handle response_publish = none

  unfoldable pub add_setup : SetupIntent → Plan → Option (M (Unit {0})) → Plan
  add_setup i plan none = plan
  add_setup i plan (some apply) = record plan {
    setups = plan.setups ++ record { name = kit.setup_name i; apply = apply } ∷ [];
  }

  -- A case that allocates a publisher keeps it under its key.
  unfoldable pub add_publisher : SetupIntent → Plan → Plan
  add_publisher i plan = record plan {
    publishers = insert (kit.publisher_key i) plan.next plan.publishers;
    publisher_keys = plan.publisher_keys ++ kit.publisher_key i ∷ [];
    next = suc plan.next;
  }

  unfoldable pub add_key : SetupIntent → Plan → Plan
  add_key i plan = record plan { publisher_keys = plan.publisher_keys ++ kit.publisher_key i ∷ [] }

  -- The publishers and their keys after one case.
  unfoldable pub add_keys : SetupIntent → Kind → Plan → Plan
  unfolding add_publisher add_key
  add_keys i event_publish plan = add_publisher i plan
  add_keys i stream_publish plan = add_publisher i plan
  add_keys i request_publish plan = add_publisher i plan
  add_keys i response_publish plan = add_key i plan
  add_keys i kind plan = plan

  -- One case of the switch.
  unfoldable pub add_intent : SetupIntent → Kind → Plan → Plan
  unfolding add_setup add_keys
  add_intent i kind plan = add_keys i kind (add_setup i plan (setup_of i plan.next kind))

  -- The loop over the intents.
  unfoldable pub plan_intents : Plan → List SetupIntent → Result Plan
  plan_intents plan [] = ok plan
  plan_intents plan (i ∷ intents) = elim (kind_of i) [
    | none ↦ err (unsupported i)
    | some kind ↦ plan_intents (add_intent i kind plan) intents
  ]

  unfoldable pub start_plan : Plan → Result Connection → Result ServiceState × List Call
  unfolding service_started
  start_plan plan (ok conn) =
      let r = start kit.client kit.messaging plan.setups (initial conn) in
      (service_started plan r, r.1.calls)
  start_plan plan (err e) = (err (wrap "connect: " e ""), [])
  start_plan plan panic = (panic, [])

  unfoldable pub start_service :
      String → String → List SetupIntent → Result ServiceState × List Call
  unfolding start_plan
  start_service url service_name intents = elim (plan_intents no_plan intents) [
    | ok plan ↦ start_plan plan (new_connection service_name url [])
    | err e ↦ (err e, [])
    | panic ↦ (panic, [])
  ]

-- The slice after the calls of a service's handlers that the handling of messages makes: each decodes
-- the message and appends it.
unfoldable pub shared_after : Kit → List Effect → Shared → Shared
shared_after kit [] m = m
shared_after kit (handled ctx event ∷ effects) m =
    shared_after kit effects (elim (decoded_event kit.error_text kit.raw event) [
      | ok decoded ↦ (capture_call decoded m).0
      | err e ↦ m
      | panic ↦ m
    ])
shared_after kit (_ ∷ effects) m = shared_after kit effects m

-- Publish of a service; `order` is the order in which its loop meets the headers.
unfoldable pub to_headers : GoMap String → List Header
to_headers [] = []
to_headers ((k, v) ∷ order) = record { key = k; value = v } ∷ to_headers order

unfoldable pub publish_by_key :
    Publisher.Env → ServiceState → String → String → Attempt → (order : GoMap String) → Outcome
unfolding to_headers
publish_by_key env service key routing_key attempt order =
    if has_prefix key "service-response:"
    then record { effects = []; result = ok tt }
    else elim (lookup key service.publishers) [
      | none ↦ record {
        effects = [];
        result = err (message (concat ("unknown publisher key: " ∷ key ∷ [])));
      }
      | some pub_handle ↦
          publish env (service.state.publishers pub_handle) routing_key attempt (to_headers order)
    ]

-- Close of a service.
unfoldable pub close_service : Client → ServiceState → Result (Unit {0}) × State
close_service client service = close client service.state
