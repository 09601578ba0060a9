-- ===== src/Adapter/Conforming.antt =====
-- Two services of cmd/tck-adapter/main.go: what one publishes, the other captures.
use mathlib.Core.List.{Memᴰ}
use go_messaging_nats.Base.{
  String, List, [], ◌∷◌, none, some, ◌≡◌, sym, ◌∙◌, subst, true, false, All,
}
use go_messaging_nats.Base.GoMap.{GoMap, lookup}
use go_messaging_nats.Base.Text.{Lacks}
use go_messaging_nats.Errors.{Handle, ok}
use go_messaging_nats.Messaging.{HasSubjectFormat}
use go_messaging_nats.Nats.{Bytes}
use go_messaging_nats.Naming.{subject_name}
use go_messaging_nats.Config.{ConsumerConfig}
use go_messaging_nats.Handler.{is_raw}
use go_messaging_nats.Routing.Matching.{Matches}
use go_messaging_nats.Connection.Groups.Settings.{HasSubject}
use go_messaging_nats.Connection.Groups.Members.{All-Memᴰ}
use go_messaging_nats.Publisher
use go_messaging_nats.Publisher.{Attempt, OutMessage, Outcome, out_message, publish}
use go_messaging_nats.Publisher.Outcomes.{IsAllowed, sends}
use go_messaging_nats.Consumer
use go_messaging_nats.Consumer.{JsConsumer, Run, acked, handled}
use go_messaging_nats.Exchange.Serving.{StartsServing}
use go_messaging_nats.Intents.{SetupIntent}
use go_messaging_nats.Adapter.{
  Kit, ServiceState, has_prefix, publish_by_key, start_service, to_headers,
}
use go_messaging_nats.Adapter.Registering.{consumers_of}
use go_messaging_nats.Base.{Option}
use go_messaging_nats.Naming.{default_event_stream_name, stream_name}
use go_messaging_nats.Connection.{Publisher, js_publish}
use go_messaging_nats.Setup.Assigned.{PublishesTo}
use go_messaging_nats.Intents.{
  Kind, event_publish, event_consume_suffixed, event_consume, event_transient, stream_publish,
  stream_consume, stream_transient, request_consume, request_publish, response_consume,
  response_publish, kind_of,
}
use go_messaging_nats.Adapter.Allocating.{Demanded}
use go_messaging_nats.Adapter.Publishers.{IsDemanded, start_service-IsDemanded}
use go_messaging_nats.Adapter.Appending.{IsCaptured}
use go_messaging_nats.Adapter.Capturing.{SharesPattern, env, sent_out, publish_by_key-IsCaptured}

module _ (kit : Kit) where
  -- The intent, if it publishes, publishes to the stream.
  abbrev TargetsAs : String → SetupIntent → Option Kind → Type 0
  TargetsAs stream i (some event_publish) =
      stream_name kit.messaging default_event_stream_name ≡ stream
  TargetsAs stream i (some stream_publish) = stream_name kit.messaging i.exchange ≡ stream
  TargetsAs stream i (some request_publish) = ⊥
  TargetsAs stream i _ = Unit

  abbrev pub Targets : String → String → SetupIntent → Type 0
  Targets pk stream i = kit.publisher_key i ≡ pk → TargetsAs stream i (kind_of i)

  -- A publisher that is wired to a stream.
  record IsWired (stream : String) (p : Publisher) : Type 0 where
    js : Option Handle
    wired : p.publish_fn ≡ some (js_publish js)
    subjects : p.subject_fn ≡ none
    named : p.stream ≡ stream

  PublishesTo-IsWired :
      (stream exchange : String) (p : Publisher)
      → stream_name kit.messaging exchange ≡ stream
      → PublishesTo kit.messaging exchange p
      → IsWired stream p
  PublishesTo-IsWired stream exchange p same v = record {
    js = v.js;
    wired = v.wired;
    subjects = v.subjects;
    named = v.named ∙ same;
  }

  Demanded-IsWired :
      (stream : String) (i : SetupIntent) (kind : Kind) (p : Publisher)
      → TargetsAs stream i (some kind)
      → Demanded kit i kind p
      → IsWired stream p
  Demanded-IsWired stream i event_publish p same v =
      PublishesTo-IsWired stream default_event_stream_name p same v
  Demanded-IsWired stream i stream_publish p same v = PublishesTo-IsWired stream i.exchange p same v
  Demanded-IsWired stream i request_publish p same v = absurd same
  Demanded-IsWired stream i event_consume_suffixed p same v = absurd v
  Demanded-IsWired stream i event_consume p same v = absurd v
  Demanded-IsWired stream i event_transient p same v = absurd v
  Demanded-IsWired stream i stream_consume p same v = absurd v
  Demanded-IsWired stream i stream_transient p same v = absurd v
  Demanded-IsWired stream i request_consume p same v = absurd v
  Demanded-IsWired stream i response_consume p same v = absurd v
  Demanded-IsWired stream i response_publish p same v = absurd v

  IsDemanded-IsWired :
      (intents : List SetupIntent) (pk stream : String) (p : Publisher)
      → All (Targets pk stream) intents
      → IsDemanded kit intents pk p
      → IsWired stream p
  IsDemanded-IsWired intents pk stream p targets v =
      Demanded-IsWired stream v.i v.kind p
        (subst (TargetsAs stream v.i) v.covered
          (All-Memᴰ (Targets pk stream) v.i intents targets v.listed v.keyed))
        v.meets

  module _ (others : Consumer.Env) (sender : Publisher.Env) (pk key : String) (a : Attempt)
      (order : GoMap String) (h : Handle) where
    -- StartService has started two services of one kit, and the first one's Publish is called with a
    -- key of its publishers. Then one message is handed to the client, on the subject of the stream
    -- and the routing key, and the start of the second service has asked the NATS server for a
    -- consumer, filtered on the subject of an intent's pattern. In every order of its handlers, the
    -- callback of this consumer finds captureHandler for the message, calls it once and acknowledges
    -- the message; and where no other call comes between, the call appends the payload that was
    -- published, under the routing key, to what the second service has received, and frees the mutex.
    -- The key is not one of a response, and an intent of the first service that publishes under it
    -- publishes to the stream of the consumer; no other pattern of the second service under the
    -- consumer's stream and name matches the routing key; payloads are raw JSON and encode; the headers
    -- are allowed; no filter subject is empty; the stream's name has no dot, and subjects have the
    -- documented format.
    pub start_service-publish_by_key :
        (url publisher_service consumer_service : String) (published consumed : List SetupIntent)
        (publishing consuming : ServiceState) (cfg : ConsumerConfig) (bytes : Bytes)
        → (start_service kit url publisher_service published).0 ≡ ok publishing
        → (start_service kit url consumer_service consumed).0 ≡ ok consuming
        → lookup pk publishing.publishers ≡ some h
        → has_prefix pk "service-response:" ≡ false
        → All (Targets pk cfg.stream) published
        → Memᴰ cfg (consumers_of kit consumed consumer_service)
        → Matches kit.messaging key cfg.routing_key
        → All (SharesPattern kit key cfg) (consumers_of kit consumed consumer_service)
        → All (HasSubject kit.messaging) (consumers_of kit consumed consumer_service)
        → is_raw kit.raw.dynamic ≡ true
        → kit.raw.assert bytes ≡ some bytes
        → sender.messaging ≡ kit.messaging
        → HasSubjectFormat kit.messaging
        → Lacks b'.' cfg.stream
        → All IsAllowed (to_headers order)
        → a.json ≡ ok bytes
        → let out = sent_out kit others sender publishing pk key a order h bytes in
          (sends (publish_by_key sender publishing pk key a order).effects ≡ out ∷ [])
          × (out.subject ≡ subject_name kit.messaging cfg.stream key)
          × (v : StartsServing kit.client (env kit others) key cfg consuming.state) × IsCaptured kit
              (env kit others)
              key
              bytes
              out
              v.request.consumer
    start_service-publish_by_key url publisher_service consumer_service published consumed
          publishing consuming cfg bytes e d found other targets mem matches shared have_subjects
          raw asserted same format dotless allowed json =
        let w =
          IsDemanded-IsWired published pk cfg.stream (publishing.state.publishers h) targets (
            start_service-IsDemanded kit url publisher_service pk published publishing h e found) in
        publish_by_key-IsCaptured kit others sender publishing pk key a order h url consumer_service
          consumed consuming cfg bytes (js_publish w.js) d mem matches shared have_subjects raw
          asserted other found w.wired w.subjects w.named same format
          (subst (Lacks b'.') (sym w.named) dotless) allowed json
