-- ===== src/Consumer.antt =====
-- notifications.go, and the message handling of consumer.go: what a consumer does with one message,
-- as the list of its effects in order. Logging has no effect here.
pub mod Delivery
pub mod Settlement
pub mod Dispatch
pub mod Counts
pub mod Core
pub mod Requests
pub mod Decoding
use go_messaging_nats.Base.{
  ℕ, String, List, [], ◌∷◌, ◌++◌, Option, none, some, Bool, true, false, if◌then◌else◌, map,
}
use go_messaging_nats.Base.GoMap.{GoMap, lookup}
use go_messaging_nats.Errors.{
  Handle, Error, Result, ok, err, panic, is_error, parse_json, no_message_type_for_route_key,
}
use go_messaging_nats.Messaging.{
  Messaging, DeliveryInfo, Notification, ErrorNotification, Headers, Value, text, other,
}
use go_messaging_nats.Nats.{Bytes, Context, NatsHeader, HeaderOps, Message, Propagator}
use go_messaging_nats.Metrics.{Sample, Mapper}
use go_messaging_nats.Tracing.{KeyValue}
use go_messaging_nats.Handler.{UnmarshalEvent, WrappedHandler}
use go_messaging_nats.Routing.{RoutingKeyHandler}

-- jsConsumer; its logger is left out.
pub record JsConsumer : Type 0 where
  pub name : String
  pub stream : String
  pub service_name : String
  pub handlers : RoutingKeyHandler
  pub notification_ch : Option Handle
  pub error_ch : Option Handle
  pub span_name_fn : Option (DeliveryInfo → String)
  pub tracer : Option Handle
  pub propagator : Option Propagator

pub data Effect : Type 0 where
  sampled : Sample → Effect
  span_started : Handle → Context → String → List KeyValue → Effect
  error_recorded status_error : Error → Effect
  status_ok span_ended : Effect
  handled : Context → UnmarshalEvent → Effect
  notified : Handle → Notification → Effect
  error_notified : Handle → ErrorNotification → Effect
  acked naked termed : Effect
  responded : Bytes → Effect
  panicked : Effect

-- The functions of other packages that handling a message calls.
pub record Env : Type 0 where
  pub messaging : Messaging
  pub header_ops : HeaderOps
  pub mapper : Mapper
  pub global_propagator : Propagator
  pub global_tracer : Handle
  pub background : Context
  pub started : Handle → Context → String → List KeyValue → Context
  pub error_text : Error → String
  pub marshal_error : String → Bytes

-- What one delivery observes: the iteration orders of the maps that it walks, the time that the
-- handler took, and which channels can take a value at once.
pub record Run : Type 0 where
  pub handlers : RoutingKeyHandler
  pub headers : NatsHeader
  pub carried : NatsHeader
  pub elapsed : ℕ
  pub ready : Handle → Bool

-- A send under `select` with a default: it happens if the channel can take the value at once.
unfoldable pub notify_event_handler_succeed :
    (Handle → Bool) → Option Handle → DeliveryInfo → ℕ → List Effect
notify_event_handler_succeed ready none info took = []
notify_event_handler_succeed ready (some ch) info took =
    if ready ch then notified ch (record { delivery_info = info; duration = took }) ∷ [] else []

unfoldable pub notify_event_handler_failed :
    (Handle → Bool) → Option Handle → DeliveryInfo → ℕ → Error → List Effect
notify_event_handler_failed ready none info took e = []
notify_event_handler_failed ready (some ch) info took e =
    if ready ch
    then error_notified ch (record { error = e; delivery_info = info; duration = took }) ∷ []
    else []

-- `headers[key].(string)`, with the empty text where it fails.
abbrev pub text_at : String → Headers → String
text_at key headers = text_of (lookup key headers)
  where
    text_of : Option Value → String
    text_of none = ""
    text_of (some (text s)) = s
    text_of (some (other v)) = ""

abbrev pub samples : List Sample → List Effect
samples = map sampled
