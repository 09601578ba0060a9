-- ===== src/Connection/Start.antt =====
-- Start and Close of connection.go, and CollectTopology of topology_export.go.
use go_messaging_nats.Base.{String, true, List, [], ◌∷◌, Option, none, some, if◌then◌else◌, not}
use go_messaging_nats.Base.Text.{concat}
use go_messaging_nats.Errors.{Handle, sentinel, already_started, Result}
use go_messaging_nats.Messaging.{Messaging, DeliveryInfo, Topology}
use go_messaging_nats.Connection.{
  Connection, Client, blank_connection, connect, new_jet_stream, close_connection, drain, stop,
  Publisher,
}
use go_messaging_nats.Connection.Monad.{
  M, pure, throw, ◌>>=◌, ◌>>◌, get_conn, modify_conn, wrap_error, or_cleanup, call, call_void,
}
use go_messaging_nats.Connection.Consumers.{start_pending_js_consumers}

-- A setup function, with its name as runtime.FuncForPC gives it.
pub record Setup : Type 0 where
  pub name : String
  pub apply : M (Unit {0})

unfoldable pub default_span_name_fn : DeliveryInfo → String
default_span_name_fn info = concat (info.destination ∷ "#" ∷ info.key ∷ [])

-- The loop of Start over the setup functions.
unfoldable pub run_setups : List Setup → M (Unit {0})
run_setups [] = pure tt
run_setups (f ∷ opts) = do
  wrap_error (concat ("setup function <" ∷ f.name ∷ "> failed: " ∷ [])) "" f.apply
  run_setups opts

-- The loop of CollectTopology, which returns the first error as it is.
unfoldable pub apply_setups : List Setup → M (Unit {0})
apply_setups [] = pure tt
apply_setups (f ∷ setups) = do f.apply; apply_setups setups

abbrev pub with_default_span_name : Connection → Connection
with_default_span_name c = elim c.span_name_fn [
  | none ↦ record c { span_name_fn = some default_span_name_fn }
  | some f ↦ c
]

abbrev pub set_started : Connection → Connection
set_started c = record c { started = true }

-- The start of a connection that collects: nothing but the setup functions.
unfoldable pub start_collecting : List Setup → M (Unit {0})
start_collecting opts = do run_setups opts; modify_conn set_started

module _ (client : Client) (m : Messaging) where
  -- What follows the connection to the server and its JetStream context.
  unfoldable pub run_connected : List Setup → M (Unit {0})
  run_connected opts = do run_setups opts; start_pending_js_consumers client m

  -- A failure from here on closes the connection.
  unfoldable pub finish_start : Handle → List Setup → M (Unit {0})
  finish_start nc opts = do
    or_cleanup (call_void (close_connection nc)) (run_connected opts)
    modify_conn set_started

  unfoldable pub open_jet_stream : Handle → List Setup → M (Unit {0})
  open_jet_stream nc opts = do
    js ←
        or_cleanup (call_void (close_connection nc))
          (wrap_error "failed to create JetStream context: " "" (call client (new_jet_stream nc)))
    modify_conn (λ c. record c { js = some js })
    finish_start nc opts

  unfoldable pub start_connected : List Setup → M (Unit {0})
  start_connected opts = do
    c ← get_conn
    nc ← wrap_error "failed to connect to NATS: " "" (call client (connect c.nats_url c.nats_opts))
    modify_conn (λ c. record c { nc = some nc })
    open_jet_stream nc opts

  unfoldable pub start : List Setup → M (Unit {0})
  start opts = do
    c ← get_conn
    if c.started then throw (sentinel already_started) else (do
      modify_conn with_default_span_name
      if c.collect_mode then start_collecting opts else start_connected opts)

-- ctx.Stop() of every consumer that has a context.
unfoldable pub stop_all : List (Option Handle) → M (Unit {0})
stop_all [] = pure tt
stop_all (none ∷ consumers) = stop_all consumers
stop_all (some ctx ∷ consumers) = do call_void (stop ctx); stop_all consumers

unfoldable pub drained : Client → List (Option Handle) → Option Handle → M (Unit {0})
drained client consumers none = pure tt
drained client consumers (some nc) = do stop_all consumers; _ ← call client (drain nc); pure tt

unfoldable pub close : Client → M (Unit {0})
unfolding drained
close client = do c ← get_conn; if not c.started then pure tt else drained client c.consumers c.nc

-- The result of a run on a connection that collects, given the publishers as they are.
unfoldable pub collect_topology : (Handle → Publisher) → String → List Setup → Result Topology
unfolding apply_setups
collect_topology publishers service_name setups =
    ((do apply_setups setups; c ← get_conn; pure c.topology)
      (record {
        conn = record (blank_connection service_name) { collect_mode = true };
        publishers = publishers;
        calls = [];
      })).0
