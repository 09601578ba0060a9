-- ===== src/Setup/Publishers.antt =====
-- setup_publisher.go, and `setup` of publisher.go. A publisher is shared by its pointer: a handle
-- into the state's publishers.
use go_messaging_nats.Base.{String, Bool, true, false, [], ◌∷◌, ◌++◌, some, if◌then◌else◌}
use go_messaging_nats.Base.Int.{pos, is_zero}
use go_messaging_nats.Base.Text.{concat}
use Prim.Native.Nat.{compare, Ordering}
use go_messaging_nats.Errors.{Handle, ok}
use go_messaging_nats.Messaging.{
  Messaging, Direction, Pattern, ExchangeKind, topic, direct, service_request, Endpoint,
}
use go_messaging_nats.Naming.{default_event_stream_name, stream_name, service_request_subject}
use go_messaging_nats.Headers.{header_service}
use go_messaging_nats.Config.{Duration}
use go_messaging_nats.Connection.{Connection, Publisher, Client, js_publish, core_request}
use go_messaging_nats.Connection.Monad.{
  M, pure, ◌>>=◌, ◌>>◌, get_conn, modify_conn, wrap_error, add_endpoint,
}
use go_messaging_nats.Connection.Stream.{ensure_stream}
use go_messaging_nats.Connection.Consumers.{tracer}
use go_messaging_nats.Setup.Consumers.{stream_pattern}

-- A change of one publisher in place.
abbrev pub same_handle : Handle → Handle → Bool
same_handle p q = elim (compare p q) [ Ordering.eq ↦ true | _ ↦ false ]

abbrev pub modify_publisher : Handle → (Publisher → Publisher) → M (Unit {0})
modify_publisher p f s = (
  ok tt,
  record s { publishers = λ q. if same_handle p q then f (s.publishers q) else s.publishers q },
)

abbrev pub default_timeout : Duration
default_timeout = pos 30_000_000_000

abbrev pub publish_endpoint : String → Pattern → ExchangeKind → Endpoint
publish_endpoint name pattern_kind exchange_kind = record {
  direction = Direction.publish;
  pattern_kind = pattern_kind;
  exchange_name = name;
  exchange_kind = exchange_kind;
  queue_name = "";
  routing_key = "";
  message_type = "";
  ephemeral = false;
}

module _ (client : Client) where
  unfoldable pub setup_publisher : Connection → String → Publisher → Publisher
  setup_publisher c stream p = record p {
    stream = stream;
    service_name = c.service_name;
    tracer = some (tracer client c);
    propagator = c.propagator;
    span_name_fn = c.publish_span_name_fn;
    default_headers =
        p.default_headers ++ record { key = header_service; value = c.service_name } ∷ [];
  }

  -- What StreamPublisher does only on a connection that does not collect.
  unfoldable pub wire_stream : String → Handle → M (Unit {0})
  wire_stream name publisher = do
    _ ←
        wrap_error (concat ("failed to ensure stream " ∷ name ∷ ": " ∷ [])) ""
          (ensure_stream client name)
    c ← get_conn
    modify_publisher publisher (λ p. record p { publish_fn = some (js_publish c.js) })

  unfoldable pub stream_publisher : Messaging → String → Handle → M (Unit {0})
  unfolding wire_stream setup_publisher
  stream_publisher m stream publisher = do
    c ← get_conn
    if c.collect_mode then pure tt else wire_stream (stream_name m stream) publisher
    modify_conn (λ c. record c { pending_streams = c.pending_streams ++ stream_name m stream ∷ [] })
    add_endpoint (publish_endpoint (stream_name m stream) (stream_pattern stream) topic)
    modify_publisher publisher (setup_publisher c (stream_name m stream))

  unfoldable pub event_stream_publisher : Messaging → Handle → M (Unit {0})
  unfolding stream_publisher
  event_stream_publisher m publisher = stream_publisher m default_event_stream_name publisher

  unfoldable pub service_publisher : String → Handle → M (Unit {0})
  unfolding setup_publisher
  service_publisher target_service publisher = do
    c ← get_conn
    if c.collect_mode
        then pure tt
        else modify_publisher publisher (λ p. record p {
          publish_fn = some (
              core_request c.nc
                (if is_zero c.request_timeout then default_timeout else c.request_timeout));
        })
    modify_publisher publisher (λ p. record p {
      subject_fn = some (λ _ routing_key. service_request_subject target_service routing_key);
    })
    add_endpoint (publish_endpoint target_service service_request direct)
    modify_publisher publisher (setup_publisher c target_service)
