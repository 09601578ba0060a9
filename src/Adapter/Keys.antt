-- ===== src/Adapter/Keys.antt =====
-- Intents that are refused, and the publishers of a started service, in cmd/tck-adapter/main.go.
use go_messaging_nats.Base.{
  String, true, List, [], ◌∷◌, ◌++◌, none, some, ◌≡◌, sym, ap, ◌∙◌, arith, Option-cases, Bool-cases,
  inl, inr, ◌⊎◌, All, is_some, eq_iff, subst,
}
use go_messaging_nats.Base.GoMap.{lookup, insert, lookup-insert}
use go_messaging_nats.Errors.{Handle, ok, err}
use go_messaging_nats.Setup.Topology.{ok-injective}
use go_messaging_nats.Publisher
use go_messaging_nats.Publisher.{Attempt, publish}
use go_messaging_nats.Adapter.Started.{start_service-IsStarted}
use go_messaging_nats.Adapter.{
  publish_by_key, to_headers, Kit, Plan, no_plan, ServiceState, has_prefix, setup_of, add_setup,
  add_publisher, add_key, add_keys, add_intent, plan_intents, start_service,
}
use go_messaging_nats.Intents.{
  SetupIntent, Kind, event_publish, stream_publish, request_publish, response_publish, kind_of,
  unsupported,
}

abbrev pub IsSupported : SetupIntent → Type 0
IsSupported i = is_some (kind_of i) ≡ true

-- The key is one of a response, or it has a publisher.
abbrev pub Resolves : List (String × Handle) → String → Type 0
Resolves publishers key =
    (has_prefix key "service-response:" ≡ true) ⊎ (is_some (lookup key publishers) ≡ true)

All-snoc {ℓ κ} :
    {A : Type ℓ} (P : A → Type κ) (xs : List A) (x : A) → All P xs → P x → All P (xs ++ x ∷ [])
All-snoc P [] x h p = (p, tt)
All-snoc P (y ∷ xs) x h p = (h.0, All-snoc P xs x h.1 p)

Resolves-insert :
    (publishers : List (String × Handle)) (j key : String) (h : Handle)
    → Resolves publishers key
    → Resolves (insert j h publishers) key
Resolves-insert publishers j key h (inl response) = inl response
Resolves-insert publishers j key h (inr found) =
    inr (rw (lookup-insert j key h publishers) (ground arith))

All-Resolves-insert :
    (publishers : List (String × Handle)) (j : String) (h : Handle) (keys : List String)
    → All (Resolves publishers) keys
    → All (Resolves (insert j h publishers)) keys
All-Resolves-insert publishers j h [] a = tt
All-Resolves-insert publishers j h (k ∷ keys) a =
    (Resolves-insert publishers j k h a.0, All-Resolves-insert publishers j h keys a.1)

module _ (kit : Kit) where
  plan_intents-unsupported :
      (plan : Plan) (before after : List SetupIntent) (i : SetupIntent)
      → All IsSupported before
      → kind_of i ≡ none
      → plan_intents kit plan (before ++ i ∷ after) ≡ err (unsupported i)
  unfolding plan_intents
  plan_intents-unsupported plan [] after i a e = rw (e, plan_intents)
  plan_intents-unsupported plan (b ∷ before) after i a e = elim (Option-cases (kind_of b)) [
    | inl missing ↦ cc (ap is_some (sym missing) ∙ a.0)
    | inr (kind, found) ↦
        rw (found, plan_intents)
          (plan_intents-unsupported (add_intent kit b kind plan) before after i a.1 e)
  ]

  -- An intent that no case covers makes StartService fail with an error that names its pattern and
  -- direction, the first such intent in the list, and nothing is asked of the NATS server.
  pub start_service-unsupported :
      (url service : String) (before after : List SetupIntent) (i : SetupIntent)
      → All IsSupported before
      → kind_of i ≡ none
      → start_service kit url service (before ++ i ∷ after) ≡ (err (unsupported i), [])
  unfolding start_service
  start_service-unsupported url service before after i a e =
      rw (plan_intents-unsupported no_plan before after i a e, start_service)

  -- The keys of responses start as the kit writes them.
  abbrev pub ResponseKeys : Type 0
  ResponseKeys =
      (i : SetupIntent)
      → kind_of i ≡ some response_publish
      → has_prefix (kit.publisher_key i) "service-response:" ≡ true

  abbrev HasKeys : Plan → Type 0
  HasKeys plan = All (Resolves plan.publishers) plan.publisher_keys

  add_publisher-HasKeys :
      (i : SetupIntent) (plan : Plan) → HasKeys plan → HasKeys (add_publisher kit i plan)
  unfolding add_publisher
  add_publisher-HasKeys i plan h =
      All-snoc (Resolves (insert (kit.publisher_key i) plan.next plan.publishers))
        plan.publisher_keys (kit.publisher_key i)
        (All-Resolves-insert plan.publishers (kit.publisher_key i) plan.next plan.publisher_keys h)
        (inr (
          rw (lookup-insert (kit.publisher_key i) (kit.publisher_key i) plan.next plan.publishers)
            (ground (arith, eq_iff (kit.publisher_key i) (kit.publisher_key i)))))

  add_setup-HasKeys :
      (i : SetupIntent) (kind : Kind) (plan : Plan)
      → HasKeys plan
      → HasKeys (add_setup kit i plan (setup_of kit i plan.next kind))
  unfolding add_setup setup_of
  add_setup-HasKeys i event_publish plan h = h
  add_setup-HasKeys i response_publish plan h = h
  add_setup-HasKeys i kind plan h = h

  add_keys-HasKeys :
      (i : SetupIntent) (kind : Kind) (plan : Plan)
      → ResponseKeys
      → kind_of i ≡ some kind
      → HasKeys plan
      → HasKeys (add_keys kit i kind plan)
  unfolding add_keys add_key
  add_keys-HasKeys i event_publish plan r e h = add_publisher-HasKeys i plan h
  add_keys-HasKeys i stream_publish plan r e h = add_publisher-HasKeys i plan h
  add_keys-HasKeys i request_publish plan r e h = add_publisher-HasKeys i plan h
  add_keys-HasKeys i response_publish plan r e h =
      All-snoc (Resolves plan.publishers) plan.publisher_keys (kit.publisher_key i) h (inl (r i e))
  add_keys-HasKeys i kind plan r e h = h

  plan_intents-HasKeys :
      (plan plan' : Plan) (intents : List SetupIntent)
      → ResponseKeys
      → HasKeys plan
      → plan_intents kit plan intents ≡ ok plan'
      → HasKeys plan'
  unfolding plan_intents add_intent
  plan_intents-HasKeys plan plan' [] r h e = subst HasKeys (ok-injective e) h
  plan_intents-HasKeys plan plan' (i ∷ intents) r h e = elim (Option-cases (kind_of i)) [
    | inl missing ↦ cc (rw (missing, plan_intents) at e)
    | inr (kind, found) ↦
        plan_intents-HasKeys (add_intent kit i kind plan) plan' intents r
          (add_keys-HasKeys i kind _ r found (add_setup-HasKeys i kind plan h))
          (rw (found, plan_intents) at e)
  ]

  -- Publishing under the key ends without a word, or is a Publish of one of the service's publishers.
  abbrev pub IsUsable : Publisher.Env → ServiceState → String → Type 0
  IsUsable env st key =
      (routing_key : String) (a : Attempt) (order : List (String × String))
      → (publish_by_key env st key routing_key a order ≡ record { effects = []; result = ok tt })
        ⊎ ((h : Handle) × (publish_by_key env st key routing_key a order
              ≡ publish env (st.state.publishers h) routing_key a (to_headers order)))

  Resolves-IsUsable :
      (env : Publisher.Env) (st : ServiceState) (key : String)
      → Resolves st.publishers key
      → IsUsable env st key
  unfolding publish_by_key
  Resolves-IsUsable env st key (inl response) routing_key a order =
      inl (rw (response, publish_by_key))
  Resolves-IsUsable env st key (inr found) routing_key a order =
      elim (Bool-cases (has_prefix key "service-response:")) [
        | inl response ↦ inl (rw (response, publish_by_key))
        | inr plain ↦ elim (Option-cases (lookup key st.publishers)) [
          | inl missing ↦ cc (ap is_some (sym missing) ∙ found)
          | inr (h, e) ↦ inr (h, rw (plain, e, publish_by_key))
        ]
      ]

  All-IsUsable :
      (env : Publisher.Env) (st : ServiceState) (keys : List String)
      → All (Resolves st.publishers) keys
      → All (IsUsable env st) keys
  All-IsUsable env st [] h = tt
  All-IsUsable env st (k ∷ keys) h = (Resolves-IsUsable env st k h.0, All-IsUsable env st keys h.1)

  -- Under every key that a started service names, publishing either does nothing, as for a response,
  -- or is a Publish of one of the service's publishers: no key is unknown. The keys of responses have
  -- the prefix that the kit gives them.
  pub start_service-IsUsable :
      (env : Publisher.Env) (url service : String) (intents : List SetupIntent) (st : ServiceState)
      → ResponseKeys
      → (start_service kit url service intents).0 ≡ ok st
      → All (IsUsable env st) st.publisher_keys
  start_service-IsUsable env url service intents st r e =
      let by = start_service-IsStarted kit url service intents st e in
      let keys = plan_intents-HasKeys no_plan by.plan intents r tt by.planned in
      All-IsUsable env st st.publisher_keys (
        subst (λ (x : ServiceState). All (Resolves x.publishers) x.publisher_keys) (sym by.result)
          keys)
