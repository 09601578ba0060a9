-- ===== src/Tests/Fixtures.antt =====
-- Concrete instances of what the program takes from other packages, and a small consumer.
use go_messaging_nats.Base.{String, [], ◌∷◌, none, some, true, false, ◌==◌}
use go_messaging_nats.Base.Int.{pos}
use go_messaging_nats.Base.Text.{concat}
use go_messaging_nats.Errors.{ok, err, foreign}
use go_messaging_nats.Messaging.{Messaging, DeliveryInfo}
use go_messaging_nats.Nats.{Message, Propagator}
use go_messaging_nats.Nats.Lookups.{map_ops}
use go_messaging_nats.Handler.{WrappedHandler}
use go_messaging_nats.Consumer.{JsConsumer, Env, Run}
use go_messaging_nats.Config.{ConsumerConfig}

-- Routing keys match exactly; the header names are those of docs/publishers.md.
abbrev pub messaging : Messaging
messaging = record {
  nats_stream_name = λ s. s;
  nats_subject = λ s k. concat (s ∷ "." ∷ k ∷ []);
  translate_wildcard = λ k. k;
  match_routing_key = λ p k. p == k;
  metadata_from_headers = λ h. 0;
  ce_spec_version = "ce_specversion";
  ce_spec_version_value = "1.0";
  ce_type = "ce_type";
  ce_source = "ce_source";
  ce_data_content_type = "ce_datacontenttype";
  ce_time = "ce_time";
  ce_id = "ce_id";
}

abbrev pub no_propagation : Propagator
no_propagation = record { inject = λ ctx. []; extract = λ ctx carrier. ctx }

abbrev pub consumer_env : Env
consumer_env = record {
  messaging = messaging;
  header_ops = map_ops;
  mapper = λ k. k;
  global_propagator = no_propagation;
  global_tracer = 0;
  background = 0;
  started = λ tracer ctx name attrs. 1;
  error_text = λ e. "failed";
  marshal_error = λ text. 1 ∷ [];
}

abbrev pub accepts : WrappedHandler
accepts ctx event = ok tt

abbrev pub fails : WrappedHandler
fails ctx event = err (foreign 7)

abbrev pub span_name : DeliveryInfo → String
span_name info = info.key

-- One handler that accepts, and one that fails.
abbrev pub consumer : JsConsumer
consumer = record {
  name = "orders";
  stream = "events";
  service_name = "orders";
  handlers = ("Order.Created", accepts) ∷ ("Order.Shipped", fails) ∷ [];
  notification_ch = some 1;
  error_ch = some 2;
  span_name_fn = some span_name;
  tracer = none;
  propagator = none;
}

-- The map of handlers is walked from its end.
abbrev pub run : Run
run = record {
  handlers = ("Order.Shipped", fails) ∷ ("Order.Created", accepts) ∷ [];
  headers = [];
  carried = [];
  elapsed = 12;
  ready = λ ch. true;
}

abbrev pub message_on : String → Message
message_on subject = record { subject = subject; reply = "inbox"; header = []; payload = 7 ∷ [] }

abbrev pub config : String → ConsumerConfig
config routing_key = record {
  stream = "events";
  routing_key = routing_key;
  consumer_name = "orders";
  ephemeral = false;
  handler = accepts;
  suffix = "";
  max_deliver = pos 0;
  back_off = none;
}
