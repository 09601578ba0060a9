-- ===== src/Tracing.antt =====
-- tracing.go: span attributes, and the trace context that travels in message headers. Spans and
-- tracers are OpenTelemetry's; their attributes are modelled.
pub mod Carriers
use go_messaging_nats.Base.{ℕ, String, List, [], ◌∷◌, ◌++◌, if◌then◌else◌, ◌==◌, Option, or_default}
use go_messaging_nats.Base.GoMap.{GoMap, insert, keys}
use go_messaging_nats.Base.Text.{concat}
use go_messaging_nats.Errors.{Handle}
use go_messaging_nats.Messaging.{DeliveryInfo}
use go_messaging_nats.Nats.{NatsHeader, HeaderOps, Context, Propagator}

pub data AttributeValue : Type 0 where
  text_attribute : String → AttributeValue
  int_attribute : ℕ → AttributeValue

abbrev pub KeyValue : Type 0
KeyValue = String × AttributeValue

unfoldable pub consumer_span_attributes : DeliveryInfo → String → String → ℕ → List KeyValue
consumer_span_attributes info service_name message_id body_size =
    let attrs : List KeyValue =
      ("messaging.system", text_attribute "nats")
      ∷ ("messaging.operation", text_attribute "receive")
      ∷ ("messaging.destination.name", text_attribute info.source)
      ∷ ("messaging.nats.subject", text_attribute info.key)
      ∷ ("messaging.destination.subscription", text_attribute info.destination)
      ∷ ("messaging.message.body.size", int_attribute body_size)
      ∷ ("messaging.client_id", text_attribute service_name)
      ∷ [] in
    if message_id == ""
    then attrs
    else attrs ++ ("messaging.message.id", text_attribute message_id) ∷ []

unfoldable pub publish_span_attributes : String → String → String → List KeyValue
publish_span_attributes stream subject service_name =
    ("messaging.system", text_attribute "nats")
    ∷ ("messaging.operation", text_attribute "publish")
    ∷ ("messaging.destination.name", text_attribute stream)
    ∷ ("messaging.nats.subject", text_attribute subject)
    ∷ ("messaging.client_id", text_attribute service_name)
    ∷ []

unfoldable pub default_publish_span_name : String → String → String
default_publish_span_name _ routing_key = concat ("publish " ∷ routing_key ∷ [])

-- The tracer of a provider, or of the global one.
unfoldable pub tracer_from_provider : (Handle → Handle) → Handle → Option Handle → Handle
tracer_from_provider tracer global provider = tracer (or_default provider global)

unfoldable pub propagator_or_global : Option Propagator → Propagator → Propagator
propagator_or_global p global = or_default p global

module _ (ops : HeaderOps) (global : Propagator) where
  pub set_all : NatsHeader → GoMap String → NatsHeader
  set_all headers [] = headers
  set_all headers ((k, v) ∷ carrier) = set_all (ops.set headers k v) carrier

  -- The carrier's entries come in the order in which the propagator's map is walked.
  unfoldable pub inject_to_headers : Context → NatsHeader → Option Propagator → NatsHeader
  unfolding set_all propagator_or_global
  inject_to_headers ctx headers p = set_all headers ((propagator_or_global p global).inject ctx)

  carry : NatsHeader → List String → GoMap String → GoMap String
  carry headers [] carrier = carrier
  carry headers (k ∷ ks) carrier = carry headers ks (insert k (ops.get headers k) carrier)

  unfoldable pub extract_to_context :
      Context → (headers order : NatsHeader) → Option Propagator → Context
  unfolding carry propagator_or_global
  extract_to_context ctx headers order p =
      (propagator_or_global p global).extract ctx (carry headers (keys order) [])
