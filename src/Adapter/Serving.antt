-- ===== src/Adapter/Serving.antt =====
-- StartService of cmd/tck-adapter/main.go on a server that accepts every call.
use go_messaging_nats.Base.{
  String, true, false, List, [], ◌∷◌, Option, none, some, ◌≡◌, refl, sym, ap, ◌∙◌, arith,
  Option-cases, inl, inr, All, All-append, is_some, ◌==◌, subst,
}
use go_messaging_nats.Errors.{Handle, ok}
use go_messaging_nats.Naming.{default_event_stream_name}
use go_messaging_nats.Config.{new_consumer_config, add_consumer_name_suffix}
use go_messaging_nats.Connection.{Connection, new_connection}
use go_messaging_nats.Connection.Monad.{M}
use go_messaging_nats.Connection.Start.{Setup, start}
use go_messaging_nats.Connection.Running.{Accepts, IsWorking, IsRunning, start-IsRunning}
use go_messaging_nats.Setup.Consumers.{
  event_stream_consumer, stream_consumer, transient_event_stream_consumer,
  transient_stream_consumer,
}
use go_messaging_nats.Setup.Publishers.{event_stream_publisher}
use go_messaging_nats.Setup.Accepting.{
  stream_publisher-Accepts, service_publisher-Accepts, consume_stream-Accepts,
  request_response_handler-Accepts, service_response_consumer-Accepts,
}
use go_messaging_nats.Intents.{
  SetupIntent, Kind, event_publish, event_consume_suffixed, event_consume, event_transient,
  stream_publish, stream_consume, stream_transient, request_consume, request_publish,
  response_consume, response_publish, kind_of,
}
use go_messaging_nats.Adapter.{
  Kit, Plan, no_plan, ServiceState, setup_of, add_setup, add_intent, plan_intents, initial,
  start_plan, start_service, service_started, capture_handler, rr_handler,
}
use go_messaging_nats.Adapter.Kinds.{suffix_given, add_keys-setups}
use go_messaging_nats.Adapter.Keys.{IsSupported}

abbrev AcceptsOption : Option (M (Unit {0})) → Type 0
AcceptsOption none = Unit
AcceptsOption (some apply) = Accepts apply

abbrev AcceptsAll : Plan → Type 0
AcceptsAll plan = All (λ (f : Setup). Accepts f.apply) plan.setups

module _ (kit : Kit) (works : IsWorking kit.client) where
  setup_of-Accepts :
      (i : SetupIntent) (h : Handle) (kind : Kind)
      → kind_of i ≡ some kind
      → AcceptsOption (setup_of kit i h kind)
  unfolding setup_of event_stream_consumer stream_consumer transient_event_stream_consumer
      transient_stream_consumer event_stream_publisher new_consumer_config add_consumer_name_suffix
  setup_of-Accepts i h event_publish e =
      stream_publisher-Accepts kit.client kit.messaging works default_event_stream_name h
  setup_of-Accepts i h event_consume_suffixed e =
      consume_stream-Accepts kit.client kit.messaging works kit.error_text kit.raw false
        default_event_stream_name i.routing_key capture_handler
        (add_consumer_name_suffix i.queue_suffix ∷ []) (λ service. ground (arith, suffix_given i e))
  setup_of-Accepts i h event_consume e =
      consume_stream-Accepts kit.client kit.messaging works kit.error_text kit.raw false
        default_event_stream_name i.routing_key capture_handler [] (λ service. refl)
  setup_of-Accepts i h event_transient e =
      consume_stream-Accepts kit.client kit.messaging works kit.error_text kit.raw true
        default_event_stream_name i.routing_key capture_handler [] (λ service. refl)
  setup_of-Accepts i h stream_publish e =
      stream_publisher-Accepts kit.client kit.messaging works i.exchange h
  setup_of-Accepts i h stream_consume e =
      consume_stream-Accepts kit.client kit.messaging works kit.error_text kit.raw false i.exchange
        i.routing_key capture_handler [] (λ service. refl)
  setup_of-Accepts i h stream_transient e =
      consume_stream-Accepts kit.client kit.messaging works kit.error_text kit.raw true i.exchange
        i.routing_key capture_handler [] (λ service. refl)
  setup_of-Accepts i h request_consume e =
      request_response_handler-Accepts kit.client kit.messaging works kit.error_text kit.raw
        kit.marshal_raw i.routing_key rr_handler
  setup_of-Accepts i h request_publish e =
      service_publisher-Accepts kit.client kit.messaging works i.target_service h
  setup_of-Accepts i h response_consume e =
      service_response_consumer-Accepts kit.client kit.messaging works kit.error_text kit.raw
        i.target_service i.routing_key capture_handler []
  setup_of-Accepts i h response_publish e = tt

  add_setup-AcceptsAll :
      (i : SetupIntent) (plan : Plan) (o : Option (M (Unit {0})))
      → AcceptsOption o
      → AcceptsAll plan
      → AcceptsAll (add_setup kit i plan o)
  unfolding add_setup
  add_setup-AcceptsAll i plan none k a = a
  add_setup-AcceptsAll i plan (some apply) k a =
      All-append (λ f. Accepts f.apply) plan.setups
        (record { name = kit.setup_name i; apply = apply } ∷ []) a (k, tt)

  add_intent-AcceptsAll :
      (i : SetupIntent) (kind : Kind) (plan : Plan)
      → kind_of i ≡ some kind
      → AcceptsAll plan
      → AcceptsAll (add_intent kit i kind plan)
  unfolding add_intent
  add_intent-AcceptsAll i kind plan e a =
      subst (All (λ f. Accepts f.apply)) (sym (add_keys-setups kit i kind _))
        (add_setup-AcceptsAll i plan _ (setup_of-Accepts i plan.next kind e) a)

  plan_intents-AcceptsAll :
      (plan : Plan) (intents : List SetupIntent)
      → All IsSupported intents
      → AcceptsAll plan
      → (plan' : Plan) × (plan_intents kit plan intents ≡ ok plan') × AcceptsAll plan'
  unfolding plan_intents
  plan_intents-AcceptsAll plan [] k a = (plan, refl, a)
  plan_intents-AcceptsAll plan (i ∷ intents) k a = elim (Option-cases (kind_of i)) [
    | inl missing ↦ cc (ap is_some (sym missing) ∙ k.0)
    | inr (kind, found) ↦
        rw (found, plan_intents)
          (plan_intents-AcceptsAll (add_intent kit i kind plan) intents k.1
            (add_intent-AcceptsAll i kind plan found a))
  ]

  named_connection :
      (service url : String)
      → (service == "") ≡ false
      → (url == "") ≡ false
      → (conn : Connection) × (new_connection service url [] ≡ ok conn)
        × (conn.started ≡ false)
        × (conn.collect_mode ≡ false)
  unfolding new_connection
  named_connection service url named located = rw (named, located) (_, refl, refl, refl)

  -- StartService succeeds for every list of supported intents, with a service name and a URL that
  -- are not empty, if the NATS client answers every call. The connection of the service is then
  -- started and linked to the server and to JetStream, and no consumer of the intents is left
  -- pending.
  pub start_service-IsRunning :
      (url service : String) (intents : List SetupIntent)
      → (service == "") ≡ false
      → (url == "") ≡ false
      → All IsSupported intents
      → (st : ServiceState) × ((start_service kit url service intents).0 ≡ ok st)
        × IsRunning st.state.conn
  unfolding start_service start_plan service_started
  start_service-IsRunning url service intents named located k =
      let (plan, planned, accepts) = plan_intents-AcceptsAll no_plan intents k tt in
      let (conn, made, shut, mode) = named_connection service url named located in
      let (done, running) =
        start-IsRunning kit.client works kit.messaging plan.setups accepts (initial conn) shut
          mode in
      (
        record {
          topology = (start kit.client kit.messaging plan.setups (initial conn)).1.conn.topology;
          publisher_keys = plan.publisher_keys;
          publishers = plan.publishers;
          state = (start kit.client kit.messaging plan.setups (initial conn)).1;
        },
        rw (planned, start_service, made, start_plan, done, service_started) refl,
        running,
      )
