-- ===== src/Routing.antt =====
-- routingkey_handlers.go: the handlers of a consumer by routing-key pattern.
pub mod Matching
use go_messaging_nats.Base.{String, List, [], ◌∷◌, Option, none, some, if◌then◌else◌}
use go_messaging_nats.Base.GoMap.{GoMap, insert}
use go_messaging_nats.Messaging.{Messaging}
use go_messaging_nats.Handler.{WrappedHandler}

abbrev pub RoutingKeyHandler : Type 0
RoutingKeyHandler = GoMap WrappedHandler

-- The argument lists the map's entries in the order in which this loop meets them.
unfoldable pub get : Messaging → (order : RoutingKeyHandler) → String → Option WrappedHandler
get m [] routing_key = none
get m ((mapped_routing_key, handler) ∷ order) routing_key =
    let rest = get m order routing_key in
    if m.match_routing_key mapped_routing_key routing_key then some handler else rest

unfoldable pub add : RoutingKeyHandler → String → WrappedHandler → RoutingKeyHandler
add h routing_key handler = insert routing_key handler h
