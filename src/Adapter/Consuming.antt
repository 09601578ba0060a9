-- ===== src/Adapter/Consuming.antt =====
-- The registrations behind a service of cmd/tck-adapter/main.go that has started.
use go_messaging_nats.Base.{String, List, [], ◌≡◌, sym, ap, ◌∙◌, subst, false, arith}
use go_messaging_nats.Errors.{ok}
use go_messaging_nats.Connection.{Connection, new_connection}
use go_messaging_nats.Connection.Start.{start}
use go_messaging_nats.Exchange.Serving.{all_registered}
use go_messaging_nats.Setup.Registrations.{Registration, registering, no_configs}
use go_messaging_nats.Intents.{SetupIntent}
use go_messaging_nats.Adapter.{Kit, ServiceState, initial, no_plan, start_service}
use go_messaging_nats.Adapter.Registering.{
  consumers_of, plan_intents-IsRegistering, no_plan-IsRegistering,
}
use go_messaging_nats.Adapter.Started.{start_service-IsStarted}

pub new_connection_blank :
    (service url : String) (conn : Connection)
    → new_connection service url [] ≡ ok conn
    → (conn.service_name ≡ service)
      × (conn.started ≡ false)
      × (conn.collect_mode ≡ false)
      × (conn.pending_js_consumers ≡ [])
unfolding new_connection
new_connection_blank service url conn made = ground arith

module _ (kit : Kit) where
  -- The service has started with these registrations, of the consumers of its intents.
  pub record HasConsumers (service : String) (intents : List SetupIntent) (st : ServiceState)
      : Type 0 where
    pub registrations : List Registration
    pub conn : Connection
    pub shut : conn.started ≡ false
    pub live : conn.collect_mode ≡ false
    pub registered : consumers_of kit intents service ≡ all_registered (initial conn) registrations
    pub started :
        (start kit.client kit.messaging (registering registrations) (initial conn)).0 ≡ ok tt
    pub final :
        (start kit.client kit.messaging (registering registrations) (initial conn)).1 ≡ st.state

  pub start_service-HasConsumers :
      (url service : String) (intents : List SetupIntent) (st : ServiceState)
      → (start_service kit url service intents).0 ≡ ok st
      → HasConsumers service intents st
  start_service-HasConsumers url service intents st e =
      let by = start_service-IsStarted kit url service intents st e in
      let v =
        plan_intents-IsRegistering kit intents no_plan by.plan no_configs by.planned
          (no_plan-IsRegistering kit) in
      let (named, shut, live, nothing) = new_connection_blank service url by.conn by.made in
      let s = initial by.conn in
      record {
        registrations = v.registrations;
        conn = by.conn;
        shut = shut;
        live = live;
        registered = sym (rw (nothing, named) (v.registered service));
        started =
            subst (λ fs. (start kit.client kit.messaging fs s).0 ≡ ok tt) (sym v.setups) by.started;
        final =
            ap (λ fs. (start kit.client kit.messaging fs s).1) v.setups
            ∙ ap (λ (x : ServiceState). x.state) (sym by.result);
      }
