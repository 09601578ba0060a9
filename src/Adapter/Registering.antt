-- ===== src/Adapter/Registering.antt =====
-- The consumers that the intents of a service of cmd/tck-adapter/main.go register.
use go_messaging_nats.Base.{
  String, List, [], ◌∷◌, ◌++◌, Option, none, some, ◌≡◌, refl, sym, ap, ◌∙◌, Option-cases, inl, inr,
  append-nil, append_assoc, true, false,
}
use go_messaging_nats.Errors.{Handle, ok}
use go_messaging_nats.Naming.{default_event_stream_name}
use go_messaging_nats.Config.{ConsumerConfig, add_consumer_name_suffix}
use go_messaging_nats.Connection.Monad.{M}
use go_messaging_nats.Setup.Consumers.{
  event_stream_consumer, stream_consumer, transient_event_stream_consumer,
  transient_stream_consumer,
}
use go_messaging_nats.Setup.Publishers.{event_stream_publisher}
use go_messaging_nats.Setup.Topology.{ok-injective}
use go_messaging_nats.Setup.Registrations.{
  Registers, Registration, registering, registered_by, no_configs, stream_config,
  stream_publisher-Registers, service_publisher-Registers, consume_stream-Registers,
  request_response_handler-Registers, service_response_consumer-Registers,
}
use go_messaging_nats.Intents.{
  SetupIntent, Kind, event_publish, event_consume_suffixed, event_consume, event_transient,
  stream_publish, stream_consume, stream_transient, request_consume, request_publish,
  response_consume, response_publish, kind_of,
}
use go_messaging_nats.Adapter.{
  Kit, Plan, no_plan, setup_of, add_setup, add_intent, plan_intents, capture_handler, rr_handler,
}
use go_messaging_nats.Adapter.Kinds.{add_keys-setups}

registering-append :
    (rs qs : List Registration) → registering (rs ++ qs) ≡ registering rs ++ registering qs
registering-append [] qs = refl
registering-append (r ∷ rs) qs = ap (λ fs. r.setup ∷ fs) (registering-append rs qs)

registered_by-append :
    (rs qs : List Registration) (service : String)
    → registered_by (rs ++ qs) service ≡ registered_by rs service ++ registered_by qs service
registered_by-append [] qs service = refl
registered_by-append (r ∷ rs) qs service =
    ap (λ l. r.configs service ++ l) (registered_by-append rs qs service)
    ∙ sym (append_assoc (r.configs service) (registered_by rs service) (registered_by qs service))

module _ (kit : Kit) where
  -- What a consuming intent registers for a service.
  abbrev pub intent_configs : SetupIntent → Kind → String → List ConsumerConfig
  intent_configs i event_consume_suffixed =
      stream_config kit.client kit.messaging kit.error_text kit.raw false default_event_stream_name
        i.routing_key capture_handler (add_consumer_name_suffix i.queue_suffix ∷ [])
  intent_configs i event_consume =
      stream_config kit.client kit.messaging kit.error_text kit.raw false default_event_stream_name
        i.routing_key capture_handler []
  intent_configs i event_transient =
      stream_config kit.client kit.messaging kit.error_text kit.raw true default_event_stream_name
        i.routing_key capture_handler []
  intent_configs i stream_consume =
      stream_config kit.client kit.messaging kit.error_text kit.raw false i.exchange i.routing_key
        capture_handler []
  intent_configs i stream_transient =
      stream_config kit.client kit.messaging kit.error_text kit.raw true i.exchange i.routing_key
        capture_handler []
  intent_configs i _ = no_configs

  abbrev pub found_configs : SetupIntent → Option Kind → String → List ConsumerConfig
  found_configs i none service = []
  found_configs i (some kind) service = intent_configs i kind service

  -- The consumers of all intents, in their order.
  abbrev pub consumers_of : List SetupIntent → String → List ConsumerConfig
  consumers_of [] service = []
  consumers_of (i ∷ intents) service =
      found_configs i (kind_of i) service ++ consumers_of intents service

  abbrev RegistersOption : Option (M (Unit {0})) → (String → List ConsumerConfig) → Type 0
  RegistersOption none configs = (service : String) → configs service ≡ []
  RegistersOption (some apply) configs = Registers apply configs

  setup_of-Registers :
      (i : SetupIntent) (h : Handle) (kind : Kind)
      → RegistersOption (setup_of kit i h kind) (intent_configs i kind)
  unfolding setup_of event_stream_consumer stream_consumer transient_event_stream_consumer
      transient_stream_consumer event_stream_publisher
  setup_of-Registers i h event_publish =
      stream_publisher-Registers kit.client kit.messaging default_event_stream_name h
  setup_of-Registers i h event_consume_suffixed =
      consume_stream-Registers kit.client kit.messaging kit.error_text kit.raw false
        default_event_stream_name i.routing_key capture_handler
        (add_consumer_name_suffix i.queue_suffix ∷ [])
  setup_of-Registers i h event_consume =
      consume_stream-Registers kit.client kit.messaging kit.error_text kit.raw false
        default_event_stream_name i.routing_key capture_handler []
  setup_of-Registers i h event_transient =
      consume_stream-Registers kit.client kit.messaging kit.error_text kit.raw true
        default_event_stream_name i.routing_key capture_handler []
  setup_of-Registers i h stream_publish =
      stream_publisher-Registers kit.client kit.messaging i.exchange h
  setup_of-Registers i h stream_consume =
      consume_stream-Registers kit.client kit.messaging kit.error_text kit.raw false i.exchange
        i.routing_key capture_handler []
  setup_of-Registers i h stream_transient =
      consume_stream-Registers kit.client kit.messaging kit.error_text kit.raw true i.exchange
        i.routing_key capture_handler []
  setup_of-Registers i h request_consume =
      request_response_handler-Registers kit.client kit.messaging kit.error_text kit.raw
        kit.marshal_raw i.routing_key rr_handler
  setup_of-Registers i h request_publish =
      service_publisher-Registers kit.client kit.messaging i.target_service h
  setup_of-Registers i h response_consume =
      service_response_consumer-Registers kit.client kit.messaging kit.error_text kit.raw
        i.target_service i.routing_key capture_handler []
  setup_of-Registers i h response_publish = λ service. refl

  -- The setup functions of a plan are these registrations, of these consumers.
  pub record IsRegistering (plan : Plan) (configs : String → List ConsumerConfig) : Type 0 where
    pub registrations : List Registration
    pub setups : registering registrations ≡ plan.setups
    pub registered : (service : String) → registered_by registrations service ≡ configs service

  add_setup-IsRegistering :
      (i : SetupIntent) (plan : Plan) (o : Option (M (Unit {0})))
      (cs ds : String → List ConsumerConfig)
      → RegistersOption o ds
      → IsRegistering plan cs
      → IsRegistering (add_setup kit i plan o) (λ service. cs service ++ ds service)
  unfolding add_setup
  add_setup-IsRegistering i plan none cs ds none_added v = record {
    registrations = v.registrations;
    setups = v.setups;
    registered =
        λ service. v.registered service ∙ (rw (none_added service) (sym (append-nil (cs service))));
  }
  add_setup-IsRegistering i plan (some apply) cs ds added v =
      let r : Registration = record {
        setup = record { name = kit.setup_name i; apply = apply };
        configs = ds;
        correct = added;
      } in
      record {
        registrations = v.registrations ++ r ∷ [];
        setups =
            registering-append v.registrations (r ∷ []) ∙ ap (λ fs. fs ++ r.setup ∷ []) v.setups;
        registered = λ service.
            registered_by-append v.registrations (r ∷ []) service
            ∙ (rw (v.registered service, append-nil (ds service)) refl);
      }

  add_intent-IsRegistering :
      (i : SetupIntent) (kind : Kind) (plan : Plan) (cs : String → List ConsumerConfig)
      → IsRegistering plan cs
      → IsRegistering
          (add_intent kit i kind plan)
          (λ service. cs service ++ intent_configs i kind service)
  unfolding add_intent
  add_intent-IsRegistering i kind plan cs v =
      let u =
        add_setup-IsRegistering i plan (setup_of kit i plan.next kind) cs (intent_configs i kind)
          (setup_of-Registers i plan.next kind) v in
      record {
        registrations = u.registrations;
        setups = u.setups ∙ sym (add_keys-setups kit i kind _);
        registered = u.registered;
      }

  pub plan_intents-IsRegistering :
      (intents : List SetupIntent) (plan plan' : Plan) (cs : String → List ConsumerConfig)
      → plan_intents kit plan intents ≡ ok plan'
      → IsRegistering plan cs
      → IsRegistering plan' (λ service. cs service ++ consumers_of intents service)
  unfolding plan_intents
  plan_intents-IsRegistering [] plan plan' cs e v = record {
    registrations = v.registrations;
    setups = v.setups ∙ ap (λ (p : Plan). p.setups) (ok-injective e);
    registered = λ service. v.registered service ∙ sym (append-nil (cs service));
  }
  plan_intents-IsRegistering (i ∷ intents) plan plan' cs e v = elim (Option-cases (kind_of i)) [
    | inl missing ↦ cc (rw (missing, plan_intents) at e)
    | inr (kind, found) ↦
        let u =
          plan_intents-IsRegistering intents (add_intent kit i kind plan) plan' _
            (rw (found, plan_intents) at e) (add_intent-IsRegistering i kind plan cs v) in
        rw found (record {
          registrations = u.registrations;
          setups = u.setups;
          registered = λ service.
              u.registered service
              ∙ append_assoc (cs service) (intent_configs i kind service)
                  (consumers_of intents service);
        })
  ]

  pub no_plan-IsRegistering : IsRegistering no_plan no_configs
  no_plan-IsRegistering = record { registrations = []; setups = refl; registered = λ service. refl }
