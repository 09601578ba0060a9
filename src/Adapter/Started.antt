-- ===== src/Adapter/Started.antt =====
-- The parts of a run of StartService that succeeds.
use go_messaging_nats.Base.{String, List, [], ◌≡◌, refl, sym}
use go_messaging_nats.Errors.{Result, ok, err, panic}
use go_messaging_nats.Connection.{Connection, Call, State, new_connection}
use go_messaging_nats.Connection.Start.{start}
use go_messaging_nats.Setup.Topology.{ok-injective}
use go_messaging_nats.Adapter.{
  Kit, Plan, no_plan, ServiceState, plan_intents, service_started, initial, start_plan,
  start_service,
}
use go_messaging_nats.Intents.{SetupIntent}

module _ (kit : Kit) where
  pub record IsStarted (service url : String) (intents : List SetupIntent) (st : ServiceState)
      : Type 0 where
    pub plan : Plan
    pub planned : plan_intents kit no_plan intents ≡ ok plan
    pub conn : Connection
    pub made : new_connection service url [] ≡ ok conn
    pub started : (start kit.client kit.messaging plan.setups (initial conn)).0 ≡ ok tt
    pub result : st ≡ record {
      topology = (start kit.client kit.messaging plan.setups (initial conn)).1.conn.topology;
      publisher_keys = plan.publisher_keys;
      publishers = plan.publishers;
      state = (start kit.client kit.messaging plan.setups (initial conn)).1;
    }

  service_started-eq-ok :
      (plan : Plan) (r : Result (Unit {0})) (s : State) (st : ServiceState)
      → service_started plan (r, s) ≡ ok st
      → (r ≡ ok tt)
        × (st ≡ record {
          topology = s.conn.topology;
          publisher_keys = plan.publisher_keys;
          publishers = plan.publishers;
          state = s;
        })
  unfolding service_started
  service_started-eq-ok plan (ok _) s st e = (refl, sym (ok-injective e))
  service_started-eq-ok plan (err x) s st e = cc
  service_started-eq-ok plan panic s st e = cc

  start_plan-IsStarted :
      (service url : String) (intents : List SetupIntent) (st : ServiceState) (plan : Plan)
      (r : Result Connection)
      → plan_intents kit no_plan intents ≡ ok plan
      → new_connection service url [] ≡ r
      → (start_plan kit plan r).0 ≡ ok st
      → IsStarted service url intents st
  unfolding start_plan
  start_plan-IsStarted service url intents st plan (ok conn) planned made e =
      let r = start kit.client kit.messaging plan.setups (initial conn) in
      let (done, same) = service_started-eq-ok plan r.0 r.1 st e in
      record {
        plan = plan;
        planned = planned;
        conn = conn;
        made = made;
        started = done;
        result = same;
      }
  start_plan-IsStarted service url intents st plan (err x) planned made e = cc
  start_plan-IsStarted service url intents st plan panic planned made e = cc

  pub start_service-IsStarted :
      (url service : String) (intents : List SetupIntent) (st : ServiceState)
      → (start_service kit url service intents).0 ≡ ok st
      → IsStarted service url intents st
  unfolding start_service
  start_service-IsStarted url service intents st e =
      by_plan (plan_intents kit no_plan intents) refl e
    where
      by_plan :
          (r : Result Plan)
          → plan_intents kit no_plan intents ≡ r
          → ((elim r as (λ x. Result ServiceState × List Call) [
            | ok plan ↦ start_plan kit plan (new_connection service url [])
            | err x ↦ (err x, [])
            | panic ↦ (panic, [])
          ]).0
              ≡ ok st)
          → IsStarted service url intents st
      by_plan (ok plan) same h =
          start_plan-IsStarted service url intents st plan (new_connection service url []) same refl
            h
      by_plan (err x) same h = cc
      by_plan panic same h = cc
