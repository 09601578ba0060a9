-- ===== src/Adapter/Kinds.antt =====
-- One case of the switch over an intent, in StartService of cmd/tck-adapter/main.go.
use go_messaging_nats.Base.{
  String, Bool, true, false, List, [], ◌∷◌, ◌++◌, Option, none, some, ◌≡◌, refl, ap, ◌∙◌, arith,
  ◌==◌,
}
use go_messaging_nats.Errors.{Handle}
use go_messaging_nats.Messaging.{Messaging, Endpoint, topic, direct, service_request}
use go_messaging_nats.Naming.{
  stream_name, default_event_stream_name, consumer_name, consumer_name_with_suffix,
}
use go_messaging_nats.Config.{new_consumer_config, add_consumer_name_suffix}
use go_messaging_nats.Connection.Monad.{M}
use go_messaging_nats.Setup.Consumers.{
  stream_pattern, consumer_endpoint, response_endpoint, request_endpoint, event_stream_consumer,
  stream_consumer, transient_event_stream_consumer, transient_stream_consumer,
}
use go_messaging_nats.Setup.Publishers.{publish_endpoint, event_stream_publisher}
use go_messaging_nats.Setup.Declares.{
  Declares, stream_publisher-Declares, service_publisher-Declares, consume_stream-Declares,
  service_response_consumer-Declares, request_response_handler-Declares,
}
use go_messaging_nats.Adapter.{Kit, Plan, setup_of, add_keys, capture_handler}
use go_messaging_nats.Intents.{
  SetupIntent, Kind, event_publish, event_consume_suffixed, event_consume, event_transient,
  stream_publish, stream_consume, stream_transient, request_consume, request_publish,
  response_consume, response_publish, kind_of,
}

Declares-eq :
    {apply : M (Unit {0})} (f g : String → List Endpoint)
    → ((service : String) → f service ≡ g service)
    → Declares apply f
    → Declares apply g
Declares-eq f g e d = record {
  topology = λ s h.
      d.topology s h
      ∙ ap (λ es. record (s.conn.topology) { endpoints = s.conn.topology.endpoints ++ es })
          (e s.conn.service_name);
  service = d.service;
  mode = d.mode;
  quiet = d.quiet;
}

-- The endpoint of an event consumer on the default stream.
abbrev event_endpoint : Messaging → String → String → String → Bool → Endpoint
event_endpoint m consumer_name routing_key type_name ephemeral =
    consumer_endpoint default_event_stream_name (stream_name m default_event_stream_name)
      consumer_name routing_key type_name ephemeral

-- What an intent stands for in the topology of the service.
abbrev pub kind_endpoints : Messaging → String → String → SetupIntent → Kind → List Endpoint
kind_endpoints m type_name service i event_publish =
    publish_endpoint (stream_name m default_event_stream_name)
      (stream_pattern default_event_stream_name) topic
    ∷ []
kind_endpoints m type_name service i event_consume_suffixed =
    event_endpoint m (consumer_name_with_suffix service i.queue_suffix) i.routing_key type_name
      false
    ∷ []
kind_endpoints m type_name service i event_consume =
    event_endpoint m (consumer_name service) i.routing_key type_name false ∷ []
kind_endpoints m type_name service i event_transient =
    event_endpoint m "" i.routing_key type_name true ∷ []
kind_endpoints m type_name service i stream_publish =
    publish_endpoint (stream_name m i.exchange) (stream_pattern i.exchange) topic ∷ []
kind_endpoints m type_name service i stream_consume =
    consumer_endpoint i.exchange (stream_name m i.exchange) (consumer_name service) i.routing_key
      type_name false
    ∷ []
kind_endpoints m type_name service i stream_transient =
    consumer_endpoint i.exchange (stream_name m i.exchange) "" i.routing_key type_name true ∷ []
kind_endpoints m type_name service i request_consume =
    request_endpoint service i.routing_key "" ∷ []
kind_endpoints m type_name service i request_publish =
    publish_endpoint i.target_service service_request direct ∷ []
kind_endpoints m type_name service i response_consume =
    response_endpoint i.target_service service i.routing_key type_name ∷ []
kind_endpoints m type_name service i response_publish = []

pub suffix_given :
    (i : SetupIntent) → kind_of i ≡ some event_consume_suffixed → (i.queue_suffix == "") ≡ false
unfolding kind_of
suffix_given i e = ground arith

abbrev pub DeclaresOption : Option (M (Unit {0})) → (String → List Endpoint) → Type 0
DeclaresOption none f = (service : String) → f service ≡ []
DeclaresOption (some apply) f = Declares apply f

module _ (kit : Kit) where
  pub setup_of-Declares :
      (i : SetupIntent) (h : Handle) (kind : Kind)
      → kind_of i ≡ some kind
      → DeclaresOption
          (setup_of kit i h kind)
          (λ service. kind_endpoints kit.messaging kit.raw.name service i kind)
  unfolding setup_of event_stream_consumer stream_consumer transient_event_stream_consumer
      transient_stream_consumer event_stream_publisher new_consumer_config add_consumer_name_suffix
  setup_of-Declares i h event_publish e =
      stream_publisher-Declares kit.client kit.messaging default_event_stream_name h
  setup_of-Declares i h event_consume_suffixed e =
      Declares-eq _ _ (λ service. ground (arith, suffix_given i e))
        (consume_stream-Declares kit.client kit.messaging kit.error_text false kit.raw
          default_event_stream_name i.routing_key capture_handler
          (add_consumer_name_suffix i.queue_suffix ∷ []))
  setup_of-Declares i h event_consume e =
      Declares-eq _ _ (λ service. refl)
        (consume_stream-Declares kit.client kit.messaging kit.error_text false kit.raw
          default_event_stream_name i.routing_key capture_handler [])
  setup_of-Declares i h event_transient e =
      Declares-eq _ _ (λ service. refl)
        (consume_stream-Declares kit.client kit.messaging kit.error_text true kit.raw
          default_event_stream_name i.routing_key capture_handler [])
  setup_of-Declares i h stream_publish e =
      stream_publisher-Declares kit.client kit.messaging i.exchange h
  setup_of-Declares i h stream_consume e =
      Declares-eq _ _ (λ service. refl)
        (consume_stream-Declares kit.client kit.messaging kit.error_text false kit.raw i.exchange
          i.routing_key capture_handler [])
  setup_of-Declares i h stream_transient e =
      Declares-eq _ _ (λ service. refl)
        (consume_stream-Declares kit.client kit.messaging kit.error_text true kit.raw i.exchange
          i.routing_key capture_handler [])
  setup_of-Declares i h request_consume e =
      request_response_handler-Declares kit.client kit.messaging kit.error_text kit.raw
        kit.marshal_raw i.routing_key _
  setup_of-Declares i h request_publish e = service_publisher-Declares kit.client i.target_service h
  setup_of-Declares i h response_consume e =
      service_response_consumer-Declares kit.client kit.messaging kit.error_text kit.raw
        i.target_service i.routing_key capture_handler []
  setup_of-Declares i h response_publish e = λ service. refl

  pub add_keys-setups :
      (i : SetupIntent) (kind : Kind) (plan : Plan)
      → (add_keys kit i kind plan).setups ≡ plan.setups
  unfolding add_keys
  add_keys-setups i event_publish plan = refl
  add_keys-setups i response_publish plan = refl
  add_keys-setups i kind plan = refl
