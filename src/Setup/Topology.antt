-- ===== src/Setup/Topology.antt =====
-- The topology of a started connection and of CollectTopology.
use go_messaging_nats.Base.{String, true, List, [], some, ◌≡◌, refl, sym, ap, ◌∙◌, arith}
use go_messaging_nats.Errors.{Handle, ok}
use go_messaging_nats.Messaging.{Messaging, Topology}
use go_messaging_nats.Connection.{
  Connection, State, Client, Publisher, new_connection, blank_connection, connect, new_jet_stream,
  close_connection,
}
use go_messaging_nats.Connection.Monad.{M, ◌>>◌, wrapped, cleaned, call, call_void, modify_conn}
use go_messaging_nats.Connection.Start.{
  run_setups, apply_setups, start, start_connected, start_collecting, run_connected, finish_start,
  open_jet_stream, collect_topology, with_default_span_name, set_started,
}
use go_messaging_nats.Connection.Consumers.{start_pending_js_consumers}
use go_messaging_nats.Connection.Keeps.{
  start_pending_js_consumers-Keeps, bind_result-eq-ok, cleaned-eq-ok,
}
use go_messaging_nats.Setup.Declarations.{
  Declaration, setups, declared_by, run_setups-HasDeclared, apply_setups-HasDeclared,
  HasDeclared-left, HasDeclared-right, DeclaresAll, if-DeclaresAll, span_name-Same,
}

pub new_connection_lem :
    (service url : String) (opts : List Handle) (conn : Connection)
    → new_connection service url opts ≡ ok conn
    → (conn.topology ≡ record { service_name = service; endpoints = [] })
      × (conn.service_name ≡ service)
unfolding new_connection
new_connection_lem service url opts conn made = ground arith

pub ok-injective : {A : Type 0} {a b : A} → ok a ≡ ok b → a ≡ b
ok-injective e = cc

module _ (client : Client) (m : Messaging) (ds : List Declaration) where
  run_connected-DeclaresAll : DeclaresAll ds (run_connected client m (setups ds))
  unfolding run_connected
  run_connected-DeclaresAll s e =
      let (a, first, rest) =
        bind_result-eq-ok (run_setups (setups ds) s).0 (run_setups (setups ds) s).1
          (λ _. start_pending_js_consumers client m) e in
      rw rest (
        HasDeclared-right ds (run_setups-HasDeclared ds s first)
          (start_pending_js_consumers-Keeps client m _))

  finish_start-DeclaresAll : (nc : Handle) → DeclaresAll ds (finish_start client m nc (setups ds))
  unfolding finish_start
  finish_start-DeclaresAll nc s e =
      let r = run_connected client m (setups ds) s in
      let c = cleaned (call_void (close_connection nc)) r.0 r.1 in
      let (a, first, rest) = bind_result-eq-ok c.0 c.1 (λ _. modify_conn set_started) e in
      let (fine, same) = cleaned-eq-ok (call_void (close_connection nc)) r.0 r.1 first in
      rw (rest, same)
        (HasDeclared-right ds (run_connected-DeclaresAll s fine)
          (record { topology = refl; service = refl; mode = refl; publishers = refl }))

  open_jet_stream-DeclaresAll :
      (nc : Handle) → DeclaresAll ds (open_jet_stream client m nc (setups ds))
  unfolding open_jet_stream call
  open_jet_stream-DeclaresAll nc s e =
      let t = (call client (new_jet_stream nc) s).1 in
      let r =
        wrapped "failed to create JetStream context: " ""
          (client.answer s.calls (new_jet_stream nc)) in
      let c = cleaned (call_void (close_connection nc)) r t in
      let k : Handle → M (Unit {0}) = λ js. (do
        modify_conn (λ c. record c { js = some js })
        finish_start client m nc (setups ds)) in
      let (js, first, rest) = bind_result-eq-ok c.0 c.1 k e in
      let (_, same) = cleaned-eq-ok (call_void (close_connection nc)) r t first in
      let ran : (k js t).0 ≡ ok tt =
        ap (λ x. (k js x.1).0) (sym same) ∙ sym (ap (λ x. x.0) rest) ∙ e in
      rw (rest, same)
        (HasDeclared-left ds
          (record { topology = refl; service = refl; mode = refl; publishers = refl })
          (finish_start-DeclaresAll nc (record t { conn = record (t.conn) { js = some js } }) ran))

  start_connected-DeclaresAll : DeclaresAll ds (start_connected client m (setups ds))
  unfolding start_connected call
  start_connected-DeclaresAll s e =
      let t = (call client (connect s.conn.nats_url s.conn.nats_opts) s).1 in
      let r =
        wrapped "failed to connect to NATS: " ""
          (client.answer s.calls (connect s.conn.nats_url s.conn.nats_opts)) in
      let k : Handle → M (Unit {0}) = λ nc. (do
        modify_conn (λ c. record c { nc = some nc })
        open_jet_stream client m nc (setups ds)) in
      let (nc, _, rest) = bind_result-eq-ok r t k e in
      rw rest (
        HasDeclared-left ds
          (record { topology = refl; service = refl; mode = refl; publishers = refl })
          (open_jet_stream-DeclaresAll nc (record t { conn = record (t.conn) { nc = some nc } })
            (sym (ap (λ x. x.0) rest) ∙ e)))

  start_collecting-DeclaresAll : DeclaresAll ds (start_collecting (setups ds))
  unfolding start_collecting
  start_collecting-DeclaresAll s e =
      let (a, first, rest) =
        bind_result-eq-ok (run_setups (setups ds) s).0 (run_setups (setups ds) s).1
          (λ _. modify_conn set_started) e in
      rw rest (
        HasDeclared-right ds (run_setups-HasDeclared ds s first)
          (record { topology = refl; service = refl; mode = refl; publishers = refl }))

  pub start-DeclaresAll : DeclaresAll ds (start client m (setups ds))
  unfolding start
  start-DeclaresAll s =
      if-DeclaresAll ds s.conn.started _ _ (λ t e. cc)
        (λ t e. HasDeclared-left ds (span_name-Same t) (
          if-DeclaresAll ds s.conn.collect_mode _ _ start_collecting-DeclaresAll
            start_connected-DeclaresAll (record t { conn = with_default_span_name t.conn }) e))
        s

  -- A new connection that has started with the setup functions `ds` has exactly the topology that
  -- CollectTopology gives for them: the service's name, and the endpoints that each setup function
  -- declares, in order; if both succeed, and the setup functions declare as `ds` says.
  pub start-collect_topology :
      (service url : String) (opts : List Handle) (conn : Connection)
      (publishers : Handle → Publisher) (t : Topology)
      → new_connection service url opts ≡ ok conn
      → let s : State = record { conn = conn; publishers = publishers; calls = [] } in
        (start client m (setups ds) s).0 ≡ ok tt
        → collect_topology publishers service (setups ds) ≡ ok t
        → ((start client m (setups ds) s).1.conn.topology ≡ t)
          × (t ≡ record { service_name = service; endpoints = declared_by ds service })
  unfolding collect_topology
  start-collect_topology service url opts conn publishers t made started collected =
      let (topology, named) = new_connection_lem service url opts conn made in
      let live : State = record { conn = conn; publishers = publishers; calls = [] } in
      let blank : State = record {
        conn = record (blank_connection service) { collect_mode = true };
        publishers = publishers;
        calls = [];
      } in
      let (_, first, rest) =
        bind_result-eq-ok (apply_setups (setups ds) blank).0 (apply_setups (setups ds) blank).1
          (λ _ s. (ok s.conn.topology, s)) collected in
      let same : (apply_setups (setups ds) blank).1.conn.topology ≡ t =
        ok-injective (sym (ap (λ x. x.0) rest) ∙ collected) in
      let collects = sym same ∙ (apply_setups-HasDeclared ds blank first).topology in
      let starts = (start-DeclaresAll live started).topology in
      ((starts ∙ (rw (topology, named) (sym collects))), collects)
