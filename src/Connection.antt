-- ===== src/Connection.antt =====
-- Connection (connection.go) and Publisher (publisher.go) as state, and the calls that the program
-- makes to the NATS client.
pub mod Monad
pub mod Stream
pub mod Groups
pub mod Consumers
pub mod Start
pub mod Keeps
pub mod Lifecycle
pub mod Closing
pub mod Requested
pub mod Pending
pub mod Contracts
pub mod Waiting
pub mod Sound
pub mod Tracking
pub mod Shutdown
pub mod Subscribed
pub mod Stages
pub mod Running
use go_messaging_nats.Base.{
  String, Bool, true, false, List, [], ◌∷◌, Option, none, some, if◌then◌else◌, ◌==◌, ℕ,
}
use go_messaging_nats.Base.Int.{ℤ, pos}
use go_messaging_nats.Base.GoMap.{GoMap}
use go_messaging_nats.Errors.{Handle, Error, message, Result, ok, err}
use go_messaging_nats.Messaging.{DeliveryInfo, Topology}
use go_messaging_nats.Nats.{Bytes, Context, Propagator, NatsHeader}
use go_messaging_nats.Headers.{Header}
use go_messaging_nats.Handler.{UnmarshalEvent}
use go_messaging_nats.Consumer.{JsConsumer}
use go_messaging_nats.Config.{StreamConfig, ConsumerDefaults, ConsumerConfig, Duration}

-- The logger is left out. Foreign objects are handles; `none` is nil.
pub record Connection : Type 0 where
  pub started : Bool
  pub service_name : String
  pub nats_url : String
  pub nc : Option Handle
  pub js : Option Handle
  pub consumers : List (Option Handle)
  pub subscriptions : List Handle
  pub topology : Topology
  pub tracer_provider : Option Handle
  pub propagator : Option Propagator
  pub notification_ch : Option Handle
  pub error_ch : Option Handle
  pub span_name_fn : Option (DeliveryInfo → String)
  pub publish_span_name_fn : Option (String → String → String)
  pub nats_opts : List Handle
  pub pending_js_consumers : List ConsumerConfig
  pub pending_streams : List String
  pub stream_defaults : StreamConfig
  pub stream_configs : GoMap StreamConfig
  pub consumer_defaults : ConsumerDefaults
  pub request_timeout : Duration
  pub collect_mode : Bool

-- jsPublishFn and coreRequestFn, with what they close over.
pub data PublishFn : Type 0 where
  js_publish : Option Handle → PublishFn
  core_request : Option Handle → Duration → PublishFn

pub record Publisher : Type 0 where
  pub stream : String
  pub service_name : String
  pub default_headers : List Header
  pub tracer : Option Handle
  pub propagator : Option Propagator
  pub span_name_fn : Option (String → String → String)
  pub publish_fn : Option PublishFn
  pub subject_fn : Option (String → String → String)

-- jetstream.StreamConfig, with file storage.
pub record StreamSettings : Type 0 where
  pub name : String
  pub subjects : List String
  pub max_age : Duration
  pub max_bytes : ℤ
  pub max_msgs : ℤ

-- jetstream.ConsumerConfig.
pub record ConsumerSettings : Type 0 where
  pub durable : String
  pub filter_subject : String
  pub filter_subjects : List String
  pub max_deliver : ℤ
  pub back_off : Option (List Duration)

abbrev pub RequestResponseFn : Type 0
RequestResponseFn = Context → UnmarshalEvent → Result Bytes

-- The callback of a subscription.
pub data Subscriber : Type 0 where
  core : JsConsumer → String → Subscriber
  request_response : JsConsumer → String → RequestResponseFn → Subscriber

pub data Call : Type 0 where
  connect : String → List Handle → Call
  new_jet_stream : Handle → Call
  close_connection : Handle → Call
  drain : Handle → Call
  create_or_update_stream : Handle → StreamSettings → Call
  create_or_update_consumer : Handle → ConsumerSettings → Call
  consume : Handle → JsConsumer → Call
  subscribe : Handle → String → Subscriber → Call
  stop : Handle → Call

-- A connection, the publishers by identity, and the calls made so far, in order.
pub record State : Type 0 where
  pub conn : Connection
  pub publishers : Handle → Publisher
  pub calls : List Call

-- What the calls return, on the grounds of all calls made before; and OpenTelemetry's tracers.
pub record Client : Type 0 where
  pub answer : List Call → Call → Result Handle
  pub tracer_of : Handle → Handle
  pub global_provider : Handle

abbrev pub no_limits : StreamConfig
no_limits = record { max_age = pos 0; max_bytes = pos 0; max_msgs = pos 0 }

abbrev pub no_defaults : ConsumerDefaults
no_defaults = record { max_deliver = pos 0; back_off = none }

-- The zero value of Connection, with a service name and its empty topology.
abbrev pub blank_connection : String → Connection
blank_connection service_name = record {
  started = false;
  service_name = service_name;
  nats_url = "";
  nc = none;
  js = none;
  consumers = [];
  subscriptions = [];
  topology = record { service_name = service_name; endpoints = [] };
  tracer_provider = none;
  propagator = none;
  notification_ch = none;
  error_ch = none;
  span_name_fn = none;
  publish_span_name_fn = none;
  nats_opts = [];
  pending_js_consumers = [];
  pending_streams = [];
  stream_defaults = no_limits;
  stream_configs = [];
  consumer_defaults = no_defaults;
  request_timeout = pos 0;
  collect_mode = false;
}

unfoldable pub new_connection : String → String → List Handle → Result Connection
new_connection service_name nats_url opts =
    if service_name == ""
    then err (message "service name must not be empty")
    else if nats_url == ""
    then err (message "NATS URL must not be empty")
    else ok (record (blank_connection service_name) { nats_url = nats_url; nats_opts = opts })

unfoldable pub new_publisher : Publisher
new_publisher = record {
  stream = "";
  service_name = "";
  default_headers = [];
  tracer = none;
  propagator = none;
  span_name_fn = none;
  publish_fn = none;
  subject_fn = none;
}
