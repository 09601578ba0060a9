-- ===== src/Intents.antt =====
-- The intents of cmd/tck-adapter/main.go, and the switch over them.
use go_messaging_nats.Base.{
  String, Bool, Option, none, some, if◌then◌else◌, ◌==◌, ◌&&◌, not, [], ◌∷◌,
}
use go_messaging_nats.Base.Text.{concat}
use go_messaging_nats.Errors.{Error, message}

-- The fields of spectest.SetupIntent that the program reads.
pub record SetupIntent : Type 0 where
  pub pattern_name : String
  pub direction_name : String
  pub ephemeral : Bool
  pub queue_suffix : String
  pub routing_key : String
  pub exchange : String
  pub target_service : String

-- The cases of the switch over an intent.
pub data Kind : Type 0 where
  event_publish event_consume_suffixed event_consume event_transient : Kind
  stream_publish stream_consume stream_transient : Kind
  request_consume request_publish response_consume response_publish : Kind

abbrev pub is_intent : SetupIntent → String → String → Bool
is_intent i pattern_name direction_name =
    i.pattern_name == pattern_name && i.direction_name == direction_name

-- The switch's conditions, in their order; `none` is the default case.
unfoldable pub kind_of : SetupIntent → Option Kind
kind_of i =
    if is_intent i "event-stream" "publish"
    then some event_publish
    else if is_intent i "event-stream" "consume" && (not i.ephemeral && not (i.queue_suffix == ""))
    then some event_consume_suffixed
    else if is_intent i "event-stream" "consume" && not i.ephemeral
    then some event_consume
    else if is_intent i "event-stream" "consume" && i.ephemeral
    then some event_transient
    else if is_intent i "custom-stream" "publish"
    then some stream_publish
    else if is_intent i "custom-stream" "consume" && not i.ephemeral
    then some stream_consume
    else if is_intent i "custom-stream" "consume" && i.ephemeral
    then some stream_transient
    else if is_intent i "service-request" "consume"
    then some request_consume
    else if is_intent i "service-request" "publish"
    then some request_publish
    else if is_intent i "service-response" "consume"
    then some response_consume
    else if is_intent i "service-response" "publish"
    then some response_publish
    else none

unfoldable pub unsupported : SetupIntent → Error
unsupported i = message (
    concat
      ("unsupported intent: pattern=" ∷ i.pattern_name ∷ " direction=" ∷ i.direction_name ∷ []))
