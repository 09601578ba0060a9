-- ===== src/Metrics.antt =====
-- metrics.go: the Prometheus metrics. A counter's increments and a histogram's observations are
-- recorded as a list of samples, in order.
pub mod Registering
use go_messaging_nats.Base.{ℕ, String, List, [], ◌∷◌, if◌then◌else◌, ◌==◌, Option, some}
use go_messaging_nats.Errors.{Error, Result, ok, err}

pub data Collector : Type 0 where
  event_received_counter event_without_handler_counter event_not_parsable_counter : Collector
  event_nak_counter event_ack_counter event_processed_duration : Collector
  event_publish_succeed_counter event_publish_failed_counter event_publish_duration : Collector

-- Label values in the order of the collector's label names; an observation has milliseconds.
pub data Sample : Type 0 where
  inc : Collector → List String → Sample
  observe : Collector → List String → ℕ → Sample

-- The active mapper of routing keys, the package's only mutable variable; its calls are taken to return.
abbrev pub Mapper : Type 0
Mapper = String → String

unfoldable pub routing_key_label : Mapper → String → String
routing_key_label mapper key = let mapped = mapper key in if mapped == "" then "unknown" else mapped

module _ (mapper : Mapper) where
  unfoldable pub event_received : String → String → List Sample
  event_received consumer routing_key =
      inc event_received_counter (consumer ∷ routing_key_label mapper routing_key ∷ []) ∷ []

  unfoldable pub event_without_handler : String → String → List Sample
  event_without_handler consumer routing_key =
      inc event_without_handler_counter (consumer ∷ routing_key_label mapper routing_key ∷ []) ∷ []

  unfoldable pub event_not_parsable : String → String → List Sample
  event_not_parsable consumer routing_key =
      inc event_not_parsable_counter (consumer ∷ routing_key_label mapper routing_key ∷ []) ∷ []

  unfoldable pub event_nak : String → String → ℕ → List Sample
  event_nak consumer routing_key milliseconds =
      inc event_nak_counter (consumer ∷ routing_key_label mapper routing_key ∷ [])
      ∷ observe event_processed_duration
          (consumer ∷ routing_key_label mapper routing_key ∷ "NAK" ∷ []) milliseconds
      ∷ []

  unfoldable pub event_ack : String → String → ℕ → List Sample
  event_ack consumer routing_key milliseconds =
      inc event_ack_counter (consumer ∷ routing_key_label mapper routing_key ∷ [])
      ∷ observe event_processed_duration
          (consumer ∷ routing_key_label mapper routing_key ∷ "ACK" ∷ []) milliseconds
      ∷ []

  unfoldable pub event_publish_succeed : String → String → ℕ → List Sample
  event_publish_succeed stream routing_key milliseconds =
      inc event_publish_succeed_counter (stream ∷ routing_key_label mapper routing_key ∷ [])
      ∷ observe event_publish_duration (stream ∷ routing_key_label mapper routing_key ∷ "OK" ∷ [])
          milliseconds
      ∷ []

  unfoldable pub event_publish_failed : String → String → ℕ → List Sample
  event_publish_failed stream routing_key milliseconds =
      inc event_publish_failed_counter (stream ∷ routing_key_label mapper routing_key ∷ [])
      ∷ observe event_publish_duration
          (stream ∷ routing_key_label mapper routing_key ∷ "ERROR" ∷ []) milliseconds
      ∷ []

-- MetricsOption: it changes the mapper of the configuration, which may be nil.
abbrev pub MetricsOption : Type 0
MetricsOption = Option Mapper → Option Mapper

unfoldable pub with_routing_key_mapper : Option Mapper → MetricsOption
with_routing_key_mapper fn _ = fn

configured : Option Mapper → List MetricsOption → Option Mapper
configured mapper [] = mapper
configured mapper (o ∷ opts) = configured (o mapper) opts

-- What the registerer answers to one collector.
pub data Registration : Type 0 where
  registered : Registration
  already_registered : Registration
  refused : Error → Registration

abbrev pub collectors : List Collector
collectors =
    event_received_counter ∷ event_ack_counter ∷ event_nak_counter ∷ event_without_handler_counter
    ∷ event_not_parsable_counter ∷ event_processed_duration ∷ event_publish_succeed_counter
    ∷ event_publish_failed_counter ∷ event_publish_duration ∷ []

-- The collectors that are handed to the registerer, and the result.
register_all : (Collector → Registration) → List Collector → List Collector × Result (Unit {0})
register_all answer [] = ([], ok tt)
register_all answer (c ∷ cs) =
    let rest = register_all answer cs in
    elim (answer c) [ refused e ↦ (c ∷ [], err e) | _ ↦ (c ∷ rest.0, rest.1) ]

pub record Initialised : Type 0 where
  pub mapper : Option Mapper
  pub tried : List Collector
  pub result : Result (Unit {0})

-- The mapper is stored before any collector is registered.
unfoldable pub init_metrics : (Collector → Registration) → List MetricsOption → Initialised
unfolding configured register_all
init_metrics answer opts =
    let registering = register_all answer collectors in
    record {
      mapper = configured (some (λ s. s)) opts;
      tried = registering.0;
      result = registering.1;
    }
