-- ===== src/Connection/Groups.antt =====
-- The grouping of pending consumers in startPendingJSConsumers (setup_consumer.go), and the
-- settings of a group's NATS consumer.
pub mod Refines
pub mod Inhabited
pub mod Settings
pub mod Keys
pub mod Members
use go_messaging_nats.Base.{
  String, List, [], ◌∷◌, ◌++◌, Option, none, some, or_default, map, if◌then◌else◌, Bool,
}
use go_messaging_nats.Base.Int.{ℤ, pos, is_positive}
use go_messaging_nats.Base.GoMap.{GoMap, lookup, insert}
use go_messaging_nats.Base.Text.{concat}
use go_messaging_nats.Config.{ConsumerConfig, ConsumerDefaults, Duration}
use go_messaging_nats.Messaging.{Messaging}
use go_messaging_nats.Naming.{filter_subject}
use go_messaging_nats.Routing.{RoutingKeyHandler, add}
use go_messaging_nats.Connection.{ConsumerSettings}

unfoldable pub consumer_group_key : ConsumerConfig → String
consumer_group_key cfg = concat (cfg.stream ∷ ":" ∷ cfg.consumer_name ∷ [])

pub record Groups : Type 0 where
  pub groups : GoMap (List ConsumerConfig)
  pub order : List String

abbrev pub empty : Groups
empty = record { groups = []; order = [] }

-- One round of the grouping loop.
unfoldable pub add_to_group : Groups → ConsumerConfig → Groups
add_to_group gs cfg = elim (lookup (consumer_group_key cfg) gs.groups) [
  | none ↦ record {
    groups = insert (consumer_group_key cfg) (cfg ∷ []) gs.groups;
    order = gs.order ++ consumer_group_key cfg ∷ [];
  }
  | some configs ↦ record gs {
    groups = insert (consumer_group_key cfg) (configs ++ cfg ∷ []) gs.groups;
  }
]

unfoldable pub group_all : Groups → List ConsumerConfig → Groups
group_all gs [] = gs
group_all gs (cfg ∷ pending) = group_all (add_to_group gs cfg) pending

-- The groups in the order of their first configurations.
unfoldable pub grouped : List ConsumerConfig → List (List ConsumerConfig)
unfolding group_all
grouped pending =
    let gs = group_all empty pending in map (λ k. or_default (lookup k gs.groups) []) gs.order

-- The handlers of a group: a later configuration replaces the handler of an equal routing key.
unfoldable pub group_handlers : RoutingKeyHandler → List ConsumerConfig → RoutingKeyHandler
group_handlers h [] = h
group_handlers h (cfg ∷ configs) = group_handlers (add h cfg.routing_key cfg.handler) configs

unfoldable pub filter_subjects : Messaging → List ConsumerConfig → List String
filter_subjects m configs = map (λ cfg. filter_subject m cfg.stream cfg.routing_key) configs

-- The one filter subject, if there is exactly one.
abbrev pub single : List String → String
single (s ∷ []) = s
single _ = ""

abbrev pub several : List String → List String
several (s ∷ []) = []
several subjects = subjects

abbrev pub non_empty : Option (List Duration) → Option (List Duration)
non_empty (some (d ∷ ds)) = some (d ∷ ds)
non_empty _ = none

-- The first configuration overrides the connection's defaults.
unfoldable pub consumer_settings :
    Messaging
    → ConsumerDefaults
    → (first : ConsumerConfig) → (configs : List ConsumerConfig) → ConsumerSettings
unfolding filter_subjects
consumer_settings m defaults first configs =
    let max_deliver =
      if is_positive first.max_deliver then first.max_deliver else defaults.max_deliver in
    let back_off : Option (List Duration) = elim first.back_off [
      | none ↦ defaults.back_off
      | some ds ↦ some ds
    ] in
    record {
      durable = if first.ephemeral then "" else first.consumer_name;
      filter_subject = single (filter_subjects m configs);
      filter_subjects = several (filter_subjects m configs);
      max_deliver = if is_positive max_deliver then max_deliver else pos 0;
      back_off = non_empty back_off;
    }
