-- ===== src/Naming.antt =====
-- naming.go: stream, subject and consumer names.
pub mod Injective
use go_messaging_nats.Base.{String, List, [], ◌∷◌}
use go_messaging_nats.Base.Text.{concat}
use go_messaging_nats.Messaging.{Messaging}

abbrev pub default_event_stream_name : String
default_event_stream_name = "events"

-- <stream>.>
unfoldable pub stream_subjects : String → String
stream_subjects stream = concat (stream ∷ ".>" ∷ [])

-- <service>.request.<routingKey>
unfoldable pub service_request_subject : String → String → String
service_request_subject service routing_key = concat (service ∷ ".request." ∷ routing_key ∷ [])

unfoldable pub consumer_name : String → String
consumer_name service = service

unfoldable pub consumer_name_with_suffix : String → String → String
consumer_name_with_suffix service suffix = concat (service ∷ "-" ∷ suffix ∷ [])

module _ (m : Messaging) where
  unfoldable pub stream_name : String → String
  stream_name name = m.nats_stream_name name

  unfoldable pub subject_name : String → String → String
  subject_name stream routing_key = m.nats_subject stream routing_key

  unfoldable pub filter_subject : String → String → String
  filter_subject stream routing_key = m.nats_subject stream (m.translate_wildcard routing_key)
