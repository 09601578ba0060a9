-- ===== src/Adapter/Publishers.antt =====
-- The publishers of a started service of cmd/tck-adapter/main.go.
use mathlib.Core.List.{Memᴰ}
use go_messaging_nats.Base.{String, List, some, ◌≡◌, sym, ap, ◌∙◌, subst, arith, inl, inr}
use go_messaging_nats.Base.GoMap.{lookup}
use go_messaging_nats.Errors.{Handle, ok}
use go_messaging_nats.Connection.{Connection, Publisher}
use go_messaging_nats.Connection.Start.{run_setups, with_default_span_name}
use go_messaging_nats.Connection.Stages.{start-Staged}
use go_messaging_nats.Connection.Groups.Members.{All-Memᴰ}
use go_messaging_nats.Setup.Assigning.{run_setups-IsAssigned}
use go_messaging_nats.Intents.{SetupIntent, Kind, kind_of}
use go_messaging_nats.Adapter.{Kit, no_plan, ServiceState, initial, start_service}
use go_messaging_nats.Adapter.Allocating.{Demanded, Demand}
use go_messaging_nats.Adapter.Allocated.{plan_intents-HasWirings}
use go_messaging_nats.Adapter.Started.{start_service-IsStarted}
use go_messaging_nats.Adapter.Consuming.{new_connection_blank}

span_name-mode : (c : Connection) → (with_default_span_name c).collect_mode ≡ c.collect_mode
span_name-mode c = ground arith

module _ (kit : Kit) where
  -- The publisher is the one that an intent demands.
  pub record IsDemanded (intents : List SetupIntent) (pk : String) (p : Publisher) : Type 0 where
    pub i : SetupIntent
    pub kind : Kind
    pub listed : Memᴰ i intents
    pub covered : kind_of i ≡ some kind
    pub keyed : kit.publisher_key i ≡ pk
    pub meets : Demanded kit i kind p

  -- Every publisher that a started service keeps under a key is set up and wired as an intent with
  -- that key demands: to publish to the stream of the intent, or to send requests to its target
  -- service.
  pub start_service-IsDemanded :
      (url service pk : String) (intents : List SetupIntent) (st : ServiceState) (h : Handle)
      → (start_service kit url service intents).0 ≡ ok st
      → lookup pk st.publishers ≡ some h
      → IsDemanded intents pk (st.state.publishers h)
  start_service-IsDemanded url service pk intents st h e found =
      let by = start_service-IsStarted kit url service intents st e in
      let v = plan_intents-HasWirings kit intents no_plan by.plan by.planned in
      let (named, shut, live, nothing) = new_connection_blank service url by.conn by.made in
      let w =
        start-Staged kit.client kit.messaging by.plan.setups (initial by.conn) shut live
          by.started in
      let u = w.linked in
      let t = (run_setups by.plan.setups u).1 in
      let assigned =
        run_setups-IsAssigned (Demand kit) v.wirings 0 u
          (w.kept.mode ∙ span_name-mode by.conn ∙ live) v.ascending
          (λ o from. ap (λ p. p o) w.given)
          (subst (λ fs. (run_setups fs u).0 ≡ ok tt) v.setups w.ran) in
      elim (v.named pk h
        (ap (λ (x : ServiceState). lookup pk x.publishers) (sym by.result) ∙ found)) [
          | inl before ↦ cc
          | inr a ↦ record {
            i = a.i;
            kind = a.kind;
            listed = a.listed;
            covered = a.covered;
            keyed = a.keyed;
            meets =
                subst (Demanded kit a.i a.kind)
                  (ap (λ fs. (run_setups fs u).1.publishers h) (sym v.setups)
                    ∙ ap (λ p. p h) (sym w.left)
                    ∙ ap (λ (x : ServiceState). x.state.publishers h) (sym by.result))
                  (All-Memᴰ _ _ _ assigned.assigned a.owner);
          }
        ]
