-- ===== src/Connection/Stages.antt =====
-- The stages of a Start that succeeded on a connection that does not collect.
use go_messaging_nats.Base.{false, List, some, ◌≡◌, refl, sym, ap, ◌∙◌}
use go_messaging_nats.Errors.{Handle, ok}
use go_messaging_nats.Messaging.{Messaging}
use go_messaging_nats.Connection.{
  Connection, State, Client, connect, new_jet_stream, close_connection,
}
use go_messaging_nats.Connection.Monad.{M, wrapped, cleaned, call, call_void, modify_conn, ◌>>◌}
use go_messaging_nats.Connection.Consumers.{start_pending_js_consumers}
use go_messaging_nats.Connection.Start.{
  Setup, run_setups, start, start_connected, open_jet_stream, finish_start, run_connected,
  set_started, with_default_span_name,
}
use go_messaging_nats.Connection.Keeps.{
  bind_result-eq-ok, cleaned-eq-ok, start_pending_js_consumers-Keeps,
}
use go_messaging_nats.Connection.Lifecycle.{start-start_connected}

-- What the stages before the setup functions leave alone.
pub record Linked (c d : Connection) : Type 0 where
  pub pending : d.pending_js_consumers ≡ c.pending_js_consumers
  pub service : d.service_name ≡ c.service_name
  pub span : d.span_name_fn ≡ c.span_name_fn
  pub mode : d.collect_mode ≡ c.collect_mode

module _ (client : Client) (m : Messaging) (opts : List Setup) where
  -- The setup functions ran on `linked`, and the pending consumers were started after them.
  pub record Staged (s t : State) : Type 0 where
    pub linked : State
    pub kept : Linked s.conn linked.conn
    pub given : linked.publishers ≡ s.publishers
    pub ran : (run_setups opts linked).0 ≡ ok tt
    pub served : (start_pending_js_consumers client m (run_setups opts linked).1).0 ≡ ok tt
    pub calls : t.calls ≡ (start_pending_js_consumers client m (run_setups opts linked).1).1.calls
    pub left : t.publishers ≡ (run_setups opts linked).1.publishers

  run_connected-Staged :
      (s : State)
      → (run_connected client m opts s).0 ≡ ok tt
      → Staged s (run_connected client m opts s).1
  unfolding run_connected
  run_connected-Staged s e =
      let r = run_setups opts s in
      let (_, first, rest) =
        bind_result-eq-ok r.0 r.1 (λ _. start_pending_js_consumers client m) e in
      record {
        linked = s;
        kept = record { pending = refl; service = refl; span = refl; mode = refl };
        ran = first;
        served = sym (ap (λ x. x.0) rest) ∙ e;
        given = refl;
        calls = ap (λ x. x.1.calls) rest;
        left =
            ap (λ x. x.1.publishers) rest
            ∙ (start_pending_js_consumers-Keeps client m r.1).publishers;
      }

  -- The stages, seen from an earlier and a later state.
  Staged-between :
      {r s t u : State}
      → Linked r.conn s.conn
      → s.publishers ≡ r.publishers
      → u.calls ≡ t.calls
      → u.publishers ≡ t.publishers
      → Staged s t
      → Staged r u
  Staged-between k p e q v = record {
    linked = v.linked;
    kept = record {
      pending = v.kept.pending ∙ k.pending;
      service = v.kept.service ∙ k.service;
      span = v.kept.span ∙ k.span;
      mode = v.kept.mode ∙ k.mode;
    };
    given = v.given ∙ p;
    ran = v.ran;
    served = v.served;
    calls = e ∙ v.calls;
    left = q ∙ v.left;
  }

  finish_start-Staged :
      (nc : Handle) (s : State)
      → (finish_start client m nc opts s).0 ≡ ok tt
      → Staged s (finish_start client m nc opts s).1
  unfolding finish_start
  finish_start-Staged nc s e =
      let r = run_connected client m opts s in
      let c = cleaned (call_void (close_connection nc)) r.0 r.1 in
      let (_, first, rest) = bind_result-eq-ok c.0 c.1 (λ _. modify_conn set_started) e in
      let (fine, same) = cleaned-eq-ok (call_void (close_connection nc)) r.0 r.1 first in
      Staged-between (record { pending = refl; service = refl; span = refl; mode = refl }) refl
        (ap (λ x. x.1.calls) rest ∙ ap (λ x. x.1.calls) same)
        (ap (λ x. x.1.publishers) rest ∙ ap (λ x. x.1.publishers) same)
        (run_connected-Staged s fine)

  open_jet_stream-Staged :
      (nc : Handle) (s : State)
      → (open_jet_stream client m nc opts s).0 ≡ ok tt
      → Staged s (open_jet_stream client m nc opts s).1
  unfolding open_jet_stream call
  open_jet_stream-Staged nc s e =
      let t = (call client (new_jet_stream nc) s).1 in
      let r =
        wrapped "failed to create JetStream context: " ""
          (client.answer s.calls (new_jet_stream nc)) in
      let c = cleaned (call_void (close_connection nc)) r t in
      let k : Handle → M (Unit {0}) =
        λ js. (do modify_conn (λ c. record c { js = some js }); finish_start client m nc opts) in
      let (js, first, rest) = bind_result-eq-ok c.0 c.1 k e in
      let (_, same) = cleaned-eq-ok (call_void (close_connection nc)) r t first in
      let u = record t { conn = record (t.conn) { js = some js } } in
      let ran : (k js t).0 ≡ ok tt =
        ap (λ x. (k js x.1).0) (sym same) ∙ sym (ap (λ x. x.0) rest) ∙ e in
      Staged-between (record { pending = refl; service = refl; span = refl; mode = refl }) refl
        (ap (λ x. x.1.calls) rest ∙ ap (λ x. (k js x.1).1.calls) same)
        (ap (λ x. x.1.publishers) rest ∙ ap (λ x. (k js x.1).1.publishers) same)
        (finish_start-Staged nc u ran)

  start_connected-Staged :
      (s : State)
      → (start_connected client m opts s).0 ≡ ok tt
      → Staged s (start_connected client m opts s).1
  unfolding start_connected call
  start_connected-Staged s e =
      let t = (call client (connect s.conn.nats_url s.conn.nats_opts) s).1 in
      let r =
        wrapped "failed to connect to NATS: " ""
          (client.answer s.calls (connect s.conn.nats_url s.conn.nats_opts)) in
      let k : Handle → M (Unit {0}) =
        λ nc. (do modify_conn (λ c. record c { nc = some nc }); open_jet_stream client m nc opts) in
      let (nc, _, rest) = bind_result-eq-ok r t k e in
      Staged-between (record { pending = refl; service = refl; span = refl; mode = refl }) refl
        (ap (λ x. x.1.calls) rest) (ap (λ x. x.1.publishers) rest)
        (open_jet_stream-Staged nc (record t { conn = record (t.conn) { nc = some nc } })
          (sym (ap (λ x. x.0) rest) ∙ e))

  pub start-Staged :
      (s : State)
      → s.conn.started ≡ false
      → s.conn.collect_mode ≡ false
      → (start client m opts s).0 ≡ ok tt
      → Staged (record s { conn = with_default_span_name s.conn }) (start client m opts s).1
  start-Staged s fresh live e =
      let same = start-start_connected client m opts s fresh live in
      Staged-between (record { pending = refl; service = refl; span = refl; mode = refl }) refl
        (ap (λ x. x.1.calls) same) (ap (λ x. x.1.publishers) same)
        (start_connected-Staged (record s { conn = with_default_span_name s.conn })
          (sym (ap (λ x. x.0) same) ∙ e))
