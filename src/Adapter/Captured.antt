-- ===== src/Adapter/Captured.antt =====
-- The handler of the consumers that intents of cmd/tck-adapter/main.go register.
use go_messaging_nats.Base.{
  String, List, [], ◌∷◌, Option, none, some, ◌≡◌, refl, Bool-cases, ◌==◌, inl, inr, All, All-append,
}
use go_messaging_nats.Config.{ConsumerConfig, new_consumer_config, add_consumer_name_suffix}
use go_messaging_nats.Handler.{new_wrapped_handler}
use go_messaging_nats.Intents.{
  SetupIntent, Kind, event_publish, event_consume_suffixed, event_consume, event_transient,
  stream_publish, stream_consume, stream_transient, request_consume, request_publish,
  response_consume, response_publish, kind_of,
}
use go_messaging_nats.Adapter.{Kit, capture_handler}
use go_messaging_nats.Adapter.Registering.{intent_configs, found_configs, consumers_of}

module _ (kit : Kit) where
  -- Every consumer of an intent has the handler that captures.
  abbrev pub Captures : ConsumerConfig → Type 0
  Captures cfg = cfg.handler ≡ new_wrapped_handler kit.error_text kit.raw capture_handler

  intent_configs-Captures :
      (i : SetupIntent) (kind : Kind) (service : String)
      → All Captures (intent_configs kit i kind service)
  unfolding new_consumer_config add_consumer_name_suffix
  intent_configs-Captures i event_consume_suffixed service =
      elim (Bool-cases (i.queue_suffix == "")) [
        | inl given ↦ rw (given, new_consumer_config, add_consumer_name_suffix) tt
        | inr empty ↦ rw (empty, new_consumer_config, add_consumer_name_suffix) (refl, tt)
      ]
  intent_configs-Captures i event_consume service = (refl, tt)
  intent_configs-Captures i event_transient service = (refl, tt)
  intent_configs-Captures i stream_consume service = (refl, tt)
  intent_configs-Captures i stream_transient service = (refl, tt)
  intent_configs-Captures i event_publish service = tt
  intent_configs-Captures i stream_publish service = tt
  intent_configs-Captures i request_consume service = tt
  intent_configs-Captures i request_publish service = tt
  intent_configs-Captures i response_consume service = tt
  intent_configs-Captures i response_publish service = tt

  found_configs-Captures :
      (i : SetupIntent) (o : Option Kind) (service : String)
      → All Captures (found_configs kit i o service)
  found_configs-Captures i none service = tt
  found_configs-Captures i (some kind) service = intent_configs-Captures i kind service

  pub consumers_of-Captures :
      (intents : List SetupIntent) (service : String)
      → All Captures (consumers_of kit intents service)
  consumers_of-Captures [] service = tt
  consumers_of-Captures (i ∷ intents) service =
      All-append Captures (found_configs kit i (kind_of i) service)
        (consumers_of kit intents service) (found_configs-Captures i (kind_of i) service)
        (consumers_of-Captures intents service)
