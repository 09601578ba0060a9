-- ===== src/Tests/Closing.antt =====
-- A connection with registrations that starts and closes.
use go_messaging_nats.Base.{[], ◌∷◌, some, ◌≡◌, refl}
use go_messaging_nats.Errors.{ok}
use go_messaging_nats.Naming.{stream_name}
use go_messaging_nats.Connection.{State}
use go_messaging_nats.Connection.Monad.{call, add_endpoint}
use go_messaging_nats.Connection.Stream.{ensure_stream}
use go_messaging_nats.Connection.Groups.{grouped, group_all, add_to_group, consumer_group_key}
use go_messaging_nats.Connection.Consumers.{start_group, start_groups, start_pending_js_consumers}
use go_messaging_nats.Connection.Start.{
  start, close, start_connected, open_jet_stream, finish_start, run_connected, run_setups,
}
use go_messaging_nats.Connection.Running.{start-IsRunning}
use go_messaging_nats.Connection.Tracking.{opened}
use go_messaging_nats.Connection.Shutdown.{shut_down, close-start}
use go_messaging_nats.Setup.Publishers.{stream_publisher, wire_stream, setup_publisher}
use go_messaging_nats.Setup.Accepting.{stream_publisher-Accepts}
use go_messaging_nats.Setup.Tracking.{stream_publisher-Tracks}
use go_messaging_nats.Tests.Fixtures.{messaging}
use go_messaging_nats.Tests.Reaching.{audit, works}
use go_messaging_nats.Tests.Starting.{working, fresh, connection, pending}

-- Three registrations for two NATS consumers.
abbrev registered : State
registered = record fresh { conn = record connection { pending_js_consumers = pending } }

abbrev running : State
running = (start working messaging audit registered).1

registered_started : (start working messaging audit registered).0 ≡ ok tt
registered_started =
    (start-IsRunning working works messaging audit
      (stream_publisher-Accepts working messaging works "audit" 1, tt) registered refl refl).0

registered_linked : running.conn.nc ≡ some 5
unfolding start start_connected open_jet_stream finish_start run_connected run_setups call
    stream_publisher wire_stream setup_publisher ensure_stream add_endpoint stream_name
    start_pending_js_consumers start_groups start_group grouped group_all add_to_group
    consumer_group_key
registered_linked = refl

-- Two consume contexts are opened.
registered_opened : opened working [] running.calls ≡ 5 ∷ 5 ∷ []
unfolding start start_connected open_jet_stream finish_start run_connected run_setups call
    stream_publisher wire_stream setup_publisher ensure_stream add_endpoint stream_name
    start_pending_js_consumers start_groups start_group grouped group_all add_to_group
    consumer_group_key
registered_opened = refl

close-start_example :
    close working running ≡ shut_down working running (opened working [] running.calls) 5
close-start_example =
    close-start working messaging audit registered 5
      (stream_publisher-Tracks working messaging "audit" 1, tt) refl registered_started
      registered_linked
