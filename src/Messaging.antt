-- ===== src/Messaging.antt =====
-- The package github.com/sparetimecoders/messaging as this program uses it: the data types whose
-- fields it sets, and a record of the functions and constants that it calls.
use go_messaging_nats.Base.{ℕ, String, Bool, List, [], ◌∷◌, ◌≡◌, ◌≢◌, All}
use go_messaging_nats.Base.GoMap.{GoMap}
use go_messaging_nats.Base.Text.{concat}
use go_messaging_nats.Errors.{Handle, Error}

-- A header value of type `any`: a text, or something else.
pub data Value : Type 0 where
  text : String → Value
  other : Handle → Value

abbrev pub Headers : Type 0
Headers = GoMap Value

pub record DeliveryInfo : Type 0 where
  pub destination : String
  pub source : String
  pub key : String
  pub headers : Headers

pub data Direction : Type 0 where
  consume publish : Direction

pub data Pattern : Type 0 where
  event_stream custom_stream service_request service_response : Pattern

pub data ExchangeKind : Type 0 where
  topic direct headers : ExchangeKind

pub record Endpoint : Type 0 where
  pub direction : Direction
  pub pattern_kind : Pattern
  pub exchange_name : String
  pub exchange_kind : ExchangeKind
  pub queue_name : String
  pub routing_key : String
  pub message_type : String
  pub ephemeral : Bool

-- The transport is always NATS here.
pub record Topology : Type 0 where
  pub service_name : String
  pub endpoints : List Endpoint

-- Both sources are the consumer's.
pub record Notification : Type 0 where
  pub delivery_info : DeliveryInfo
  pub duration : ℕ

pub record ErrorNotification : Type 0 where
  pub error : Error
  pub delivery_info : DeliveryInfo
  pub duration : ℕ

-- Metadata is only handed on.
abbrev pub Metadata : Type 0
Metadata = Handle

pub record Messaging : Type 0 where
  pub nats_stream_name : String → String
  pub nats_subject : String → String → String
  pub translate_wildcard : String → String
  pub match_routing_key : String → String → Bool
  pub metadata_from_headers : Headers → Metadata
  pub ce_spec_version : String
  pub ce_spec_version_value : String
  pub ce_type : String
  pub ce_source : String
  pub ce_data_content_type : String
  pub ce_time : String
  pub ce_id : String

-- The subject's format, as naming.go and docs/publishers.md give it: <stream>.<routingKey>.
abbrev pub HasSubjectFormat : Messaging → Type 0
HasSubjectFormat m =
    (stream routing_key : String)
    → m.nats_subject stream routing_key ≡ concat (stream ∷ "." ∷ routing_key ∷ [])

abbrev pub AllDistinct : List String → Type 0
AllDistinct [] = Unit
AllDistinct (k ∷ ks) = All (λ j. k ≢ j) ks × AllDistinct ks
