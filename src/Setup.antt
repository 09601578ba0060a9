-- ===== src/Setup.antt =====
-- setup.go: setup functions that change a connection's settings.
pub mod Consumers
pub mod Publishers
pub mod Declares
pub mod Declarations
pub mod Topology
pub mod Identity
pub mod Wiring
pub mod Links
pub mod Accepting
pub mod Tracking
pub mod Registrations
pub mod Assigning
pub mod Assigned
use go_messaging_nats.Base.{String, Option, none, some, Bool, not, if◌then◌else◌, ◌==◌}
use go_messaging_nats.Base.Int.{ℤ, is_positive}
use go_messaging_nats.Base.GoMap.{insert}
use go_messaging_nats.Errors.{Handle, message, nonpositive_request_timeout}
use go_messaging_nats.Messaging.{Messaging, DeliveryInfo}
use go_messaging_nats.Nats.{Propagator}
use go_messaging_nats.Naming.{stream_name}
use go_messaging_nats.Config.{StreamConfig, ConsumerDefaults, Duration}
use go_messaging_nats.Connection.Monad.{M, throw, modify_conn}

unfoldable pub with_consumer_defaults : ConsumerDefaults → M (Unit {0})
with_consumer_defaults cfg = modify_conn λ c. record c { consumer_defaults = cfg }

unfoldable pub with_stream_defaults : StreamConfig → M (Unit {0})
with_stream_defaults cfg = modify_conn λ c. record c { stream_defaults = cfg }

unfoldable pub with_stream_config : Messaging → String → StreamConfig → M (Unit {0})
with_stream_config m stream cfg =
    if stream == ""
    then throw (message "stream name must not be empty")
    else modify_conn
        λ c. record c { stream_configs = insert (stream_name m stream) cfg c.stream_configs }

unfoldable pub with_tracing : Option Handle → M (Unit {0})
with_tracing tp = modify_conn λ c. record c { tracer_provider = tp }

unfoldable pub with_propagator : Option Propagator → M (Unit {0})
with_propagator p = modify_conn λ c. record c { propagator = p }

unfoldable pub with_span_name_fn : Option (DeliveryInfo → String) → M (Unit {0})
with_span_name_fn f = modify_conn λ c. record c { span_name_fn = f }

unfoldable pub with_publish_span_name_fn : Option (String → String → String) → M (Unit {0})
with_publish_span_name_fn f = modify_conn λ c. record c { publish_span_name_fn = f }

unfoldable pub with_notification_channel : Option Handle → M (Unit {0})
with_notification_channel ch = modify_conn λ c. record c { notification_ch = ch }

unfoldable pub with_error_channel : Option Handle → M (Unit {0})
with_error_channel ch = modify_conn λ c. record c { error_ch = ch }

unfoldable pub with_request_timeout : Duration → M (Unit {0})
with_request_timeout d =
    if is_positive d
    then modify_conn (λ c. record c { request_timeout = d })
    else throw (nonpositive_request_timeout d)
