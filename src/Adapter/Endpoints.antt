-- ===== src/Adapter/Endpoints.antt =====
-- The topology of a service that StartService of cmd/tck-adapter/main.go has started.
use go_messaging_nats.Base.{
  String, List, [], ◌∷◌, ◌++◌, Option, none, some, ◌≡◌, refl, sym, ap, ◌∙◌, Option-cases, inl, inr,
  append-nil, append_assoc, subst,
}
use go_messaging_nats.Errors.{ok}
use go_messaging_nats.Messaging.{Messaging, Endpoint}
use go_messaging_nats.Connection.Monad.{M}
use go_messaging_nats.Connection.Start.{start}
use go_messaging_nats.Setup.Declarations.{Declaration, setups, declared_by}
use go_messaging_nats.Setup.Topology.{start-DeclaresAll, new_connection_lem, ok-injective}
use go_messaging_nats.Adapter.Started.{start_service-IsStarted}
use go_messaging_nats.Adapter.{
  Kit, Plan, no_plan, ServiceState, add_setup, add_intent, plan_intents, initial, start_service,
}
use go_messaging_nats.Intents.{SetupIntent, Kind, kind_of}
use go_messaging_nats.Adapter.Kinds.{
  kind_endpoints, DeclaresOption, setup_of-Declares, add_keys-setups,
}

abbrev pub supported_endpoints :
    Messaging → String → String → SetupIntent → Option Kind → List Endpoint
supported_endpoints m type_name service i none = []
supported_endpoints m type_name service i (some kind) = kind_endpoints m type_name service i kind

abbrev pub intents_endpoints : Messaging → String → String → List SetupIntent → List Endpoint
intents_endpoints m type_name service [] = []
intents_endpoints m type_name service (i ∷ intents) =
    supported_endpoints m type_name service i (kind_of i)
    ++ intents_endpoints m type_name service intents

setups-append : (ds es : List Declaration) → setups (ds ++ es) ≡ setups ds ++ setups es
setups-append [] es = refl
setups-append (d ∷ ds) es = ap (◌∷◌ d.setup) (setups-append ds es)

declared_by-append :
    (ds es : List Declaration) (service : String)
    → declared_by (ds ++ es) service ≡ declared_by ds service ++ declared_by es service
declared_by-append [] es service = refl
declared_by-append (d ∷ ds) es service =
    ap (λ x. d.declared service ++ x) (declared_by-append ds es service)
    ∙ sym (append_assoc (d.declared service) (declared_by ds service) (declared_by es service))

module _ (kit : Kit) where
  -- What one case of the switch adds to the setup functions.
  record IsPlanned (intents_declared : String → List Endpoint) (plan plan' : Plan) : Type 0 where
    added : List Declaration
    setups_lem : plan'.setups ≡ plan.setups ++ setups added
    declared : (service : String) → declared_by added service ≡ intents_declared service

  add_setup-IsPlanned :
      (i : SetupIntent) (plan : Plan) (o : Option (M (Unit {0}))) (f : String → List Endpoint)
      → DeclaresOption o f
      → IsPlanned f plan (add_setup kit i plan o)
  unfolding add_setup
  add_setup-IsPlanned i plan none f d = record {
    added = [];
    setups_lem = sym (append-nil plan.setups);
    declared = λ service. sym (d service);
  }
  add_setup-IsPlanned i plan (some apply) f d = record {
    added =
        record {
          setup = record { name = kit.setup_name i; apply = apply };
          declared = f;
          correct = d;
        }
        ∷ [];
    setups_lem = refl;
    declared = λ service. append-nil (f service);
  }

  IsPlanned-trans :
      (f g : String → List Endpoint) (a b c : Plan)
      → IsPlanned f a b
      → IsPlanned g b c
      → IsPlanned (λ service. f service ++ g service) a c
  IsPlanned-trans f g a b c p q = record {
    added = p.added ++ q.added;
    setups_lem =
        q.setups_lem
        ∙ ap (λ x. x ++ setups q.added) p.setups_lem
        ∙ append_assoc a.setups (setups p.added) (setups q.added)
        ∙ ap (λ x. a.setups ++ x) (sym (setups-append p.added q.added));
    declared = λ service.
        declared_by-append p.added q.added service
        ∙ (λ j. p.declared service j ++ q.declared service j);
  }

  add_intent-IsPlanned :
      (i : SetupIntent) (kind : Kind) (plan : Plan)
      → kind_of i ≡ some kind
      → IsPlanned
          (λ service. kind_endpoints kit.messaging kit.raw.name service i kind)
          plan
          (add_intent kit i kind plan)
  unfolding add_intent
  add_intent-IsPlanned i kind plan e =
      let by = add_setup-IsPlanned i plan _ _ (setup_of-Declares kit i plan.next kind e) in
      record {
        added = by.added;
        setups_lem = add_keys-setups kit i kind _ ∙ by.setups_lem;
        declared = by.declared;
      }

  plan_intents-IsPlanned :
      (plan plan' : Plan) (intents : List SetupIntent)
      → plan_intents kit plan intents ≡ ok plan'
      → IsPlanned
          (λ service. intents_endpoints kit.messaging kit.raw.name service intents)
          plan
          plan'
  unfolding plan_intents
  plan_intents-IsPlanned plan plan' [] e = record {
    added = [];
    setups_lem = ap (λ p. p.setups) (sym (ok-injective e)) ∙ sym (append-nil plan.setups);
    declared = λ service. refl;
  }
  plan_intents-IsPlanned plan plan' (i ∷ intents) e = elim (Option-cases (kind_of i)) [
    | inl missing ↦ cc (rw (missing, plan_intents) at e)
    | inr (kind, found) ↦ rw found (
        IsPlanned-trans _ _ plan _ plan' (add_intent-IsPlanned i kind plan found) (
          plan_intents-IsPlanned (add_intent kit i kind plan) plan' intents
            (rw (found, plan_intents) at e)))
  ]

  -- A service that StartService has started reports its own name and, in the order of the intents,
  -- exactly the endpoint that each intent stands for: an intent to publish a response has none.
  pub start_service-topology :
      (url service : String) (intents : List SetupIntent) (st : ServiceState)
      → (start_service kit url service intents).0 ≡ ok st
      → st.topology ≡ record {
        service_name = service;
        endpoints = intents_endpoints kit.messaging kit.raw.name service intents;
      }
  start_service-topology url service intents st e =
      let by = start_service-IsStarted kit url service intents st e in
      let plan = plan_intents-IsPlanned no_plan by.plan intents by.planned in
      let (topology, named) = new_connection_lem service url [] by.conn by.made in
      let s = initial by.conn in
      let started =
        subst (λ fs. (start kit.client kit.messaging fs s).0 ≡ ok tt) plan.setups_lem by.started in
      ap (λ x. x.topology) by.result
      ∙ ap (λ fs. (start kit.client kit.messaging fs s).1.conn.topology) plan.setups_lem
      ∙ (start-DeclaresAll kit.client kit.messaging plan.added s started).topology
      ∙ (rw (topology, named)
          (ap (λ es. record { service_name = service; endpoints = es }) (plan.declared service)))
