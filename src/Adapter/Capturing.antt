-- ===== src/Adapter/Capturing.antt =====
-- A service of cmd/tck-adapter/main.go that captures what another one publishes.
use mathlib.Core.List.{Memᴰ}
use go_messaging_nats.Base.{
  String, List, [], ◌∷◌, none, some, ◌≡◌, refl, sym, ◌∙◌, subst, true, false, All, inl,
}
use go_messaging_nats.Base.GoMap.{GoMap, lookup}
use go_messaging_nats.Base.Text.{Lacks}
use go_messaging_nats.Errors.{Handle, ok}
use go_messaging_nats.Messaging.{HasSubjectFormat}
use go_messaging_nats.Nats.{Bytes}
use go_messaging_nats.Naming.{subject_name}
use go_messaging_nats.Config.{ConsumerConfig}
use go_messaging_nats.Handler.{is_raw}
use go_messaging_nats.Routing.Matching.{Matches}
use go_messaging_nats.Connection.{PublishFn}
use go_messaging_nats.Connection.Groups.{consumer_group_key}
use go_messaging_nats.Connection.Groups.Settings.{HasSubject}
use go_messaging_nats.Connection.Groups.Members.{Agrees, All-Memᴰ}
use go_messaging_nats.Publisher
use go_messaging_nats.Publisher.{Attempt, OutMessage, Outcome, out_message, publish}
use go_messaging_nats.Publisher.Outcomes.{IsAllowed, sends}
use go_messaging_nats.Consumer
use go_messaging_nats.Consumer.{JsConsumer, Run, acked, handled}
use go_messaging_nats.Exchange.Events.{given}
use go_messaging_nats.Exchange.Serving.{StartsServing}
use go_messaging_nats.Exchange.Services.{HandlesWith, start-publish-handle_message}
use go_messaging_nats.Intents.{SetupIntent}
use go_messaging_nats.Adapter.{
  Kit, ServiceState, capture_handler, has_prefix, initial, publish_by_key, start_service,
  to_headers,
}
use go_messaging_nats.Adapter.Registering.{consumers_of}
use go_messaging_nats.Adapter.Captured.{Captures, consumers_of-Captures}
use go_messaging_nats.Adapter.Consuming.{start_service-HasConsumers}
use go_messaging_nats.Adapter.Appending.{IsCaptured, HandlesWith-IsCaptured}

-- A publication by key uses the publisher under that key.
publish_by_key_lem :
    (sender : Publisher.Env) (service : ServiceState) (pk key : String) (a : Attempt)
    (order : GoMap String) (h : Handle)
    → has_prefix pk "service-response:" ≡ false
    → lookup pk service.publishers ≡ some h
    → publish_by_key sender service pk key a order
      ≡ publish sender (service.state.publishers h) key a (to_headers order)
unfolding publish_by_key
publish_by_key_lem sender service pk key a order h other found = rw (other, found) refl

-- Another consumer of the same stream and name that matches the routing key has the same pattern.
abbrev pub SharesPattern : Kit → String → ConsumerConfig → ConsumerConfig → Type 0
SharesPattern kit key cfg d =
    consumer_group_key d ≡ consumer_group_key cfg
    → Matches kit.messaging key d.routing_key
    → d.routing_key ≡ cfg.routing_key

shared-Agrees :
    (kit : Kit) (key : String) (cfg : ConsumerConfig) (cs : List ConsumerConfig)
    → Captures kit cfg
    → All (Captures kit) cs
    → All (SharesPattern kit key cfg) cs
    → All (Agrees kit.messaging key cfg) cs
shared-Agrees kit key cfg [] own all shared = tt
shared-Agrees kit key cfg (d ∷ cs) own all shared = (
  (λ same hit. (shared.0 same hit, all.0 ∙ sym own)),
  shared-Agrees kit key cfg cs own all.1 shared.1,
)

module _ (kit : Kit) (others : Consumer.Env) where
  -- The consumers of the service use the kit's messaging package.
  abbrev pub env : Consumer.Env
  env = record others { messaging = kit.messaging }

  module _ (sender : Publisher.Env) (publishing : ServiceState) (pk key : String) (a : Attempt)
      (order : GoMap String) (h : Handle) where
    abbrev pub sent_out : Bytes → OutMessage
    sent_out bytes =
        out_message sender (publishing.state.publishers h) key a
          (given sender (publishing.state.publishers h) key a (to_headers order)) bytes

    sent_payload : (bytes : Bytes) → (sent_out bytes).payload ≡ bytes
    unfolding out_message
    sent_payload bytes = refl

    -- A message of a publisher that is wired to the stream of a consumer is captured.
    pub publish_by_key-IsCaptured :
        (url service : String) (intents : List SetupIntent) (st : ServiceState)
        (cfg : ConsumerConfig) (bytes : Bytes) (fn : PublishFn)
        → (start_service kit url service intents).0 ≡ ok st
        → Memᴰ cfg (consumers_of kit intents service)
        → Matches kit.messaging key cfg.routing_key
        → All (SharesPattern kit key cfg) (consumers_of kit intents service)
        → All (HasSubject kit.messaging) (consumers_of kit intents service)
        → is_raw kit.raw.dynamic ≡ true
        → kit.raw.assert bytes ≡ some bytes
        → has_prefix pk "service-response:" ≡ false
        → lookup pk publishing.publishers ≡ some h
        → (publishing.state.publishers h).publish_fn ≡ some fn
        → (publishing.state.publishers h).subject_fn ≡ none
        → (publishing.state.publishers h).stream ≡ cfg.stream
        → sender.messaging ≡ kit.messaging
        → HasSubjectFormat kit.messaging
        → Lacks b'.' (publishing.state.publishers h).stream
        → All IsAllowed (to_headers order)
        → a.json ≡ ok bytes
        → (sends (publish_by_key sender publishing pk key a order).effects ≡ sent_out bytes ∷ [])
          × ((sent_out bytes).subject ≡ subject_name kit.messaging cfg.stream key)
          × (v : StartsServing kit.client env key cfg st.state) × IsCaptured kit env key bytes
              (sent_out bytes)
              v.request.consumer
    publish_by_key-IsCaptured url service intents st cfg bytes fn e mem matches shared have_subjects
          raw asserted other found wired plain streams same format dotless allowed json =
        let v = start_service-HasConsumers kit url service intents st e in
        let all = consumers_of-Captures kit intents service in
        let handler = All-Memᴰ (Captures kit) cfg _ all mem in
        let (once, subject, serving, handles) =
          start-publish-handle_message sender (publishing.state.publishers h) key a
            (to_headers order) kit.client env v.registrations (initial v.conn) kit.raw
            capture_handler kit.error_text cfg bytes fn bytes v.shut v.live v.started
            (subst (Memᴰ cfg) v.registered mem) handler matches
            (subst (All (Agrees kit.messaging key cfg)) v.registered
              (shared-Agrees kit key cfg _ handler all shared))
            (subst (All (HasSubject kit.messaging)) v.registered have_subjects) allowed json wired
            plain same format streams dotless (inl (raw, asserted)) in
        let (w, captured) =
          subst
            (λ u.
              (w : StartsServing kit.client env key cfg u) × IsCaptured kit env key bytes
                (sent_out bytes) w.request.consumer)
            v.final
            (
              serving,
              HandlesWith-IsCaptured kit env key bytes _ serving.request.consumer
                  (sent_payload bytes) raw asserted
                  (subst
                    (λ f.
                      HandlesWith env key f capture_handler bytes (sent_out bytes)
                        serving.request.consumer)
                    handler handles),
            ) in
        (
          (rw (publish_by_key_lem sender publishing pk key a order h other found) once),
          subject,
          w,
          captured,
        )
