-- ===== src/Exchange/Services.antt =====
-- A service that has started with setup functions for consumers, and a publisher of another one.
use mathlib.Core.List.{Memᴰ}
use go_messaging_nats.Base.{
  String, List, [], ◌∷◌, none, some, ◌≡◌, or_default, sym, ap, ◌∙◌, subst, false, All, is_some,
  Option-cases, inl, inr,
}
use go_messaging_nats.Base.GoMap.Order.{IsOrderOf}
use go_messaging_nats.Base.GoMap.{GoMap, HasDistinctKeys, lookup}
use go_messaging_nats.Base.Text.{Lacks}
use go_messaging_nats.Errors.{Error, ok}
use go_messaging_nats.Messaging.{HasSubjectFormat, DeliveryInfo}
use go_messaging_nats.Nats.{Bytes}
use go_messaging_nats.Headers.{Header}
use go_messaging_nats.Config.{ConsumerConfig}
use go_messaging_nats.Handler.{GoType, EventHandler, WrappedHandler, new_wrapped_handler}
use go_messaging_nats.Routing.{get}
use go_messaging_nats.Routing.Matching.{Matches, IsOnlyMatch, get_of_IsOnlyMatch}
use go_messaging_nats.Connection.{State, Client, PublishFn, Publisher}
use go_messaging_nats.Connection.Groups.Settings.{HasSubject}
use go_messaging_nats.Connection.Groups.Members.{Agrees}
use go_messaging_nats.Connection.Start.{start}
use go_messaging_nats.Setup.Registrations.{Registration, registering}
use go_messaging_nats.Publisher
use go_messaging_nats.Naming.{subject_name}
use go_messaging_nats.Publisher.{Attempt, out_message, publish, subject_of}
use go_messaging_nats.Publisher.Outcomes.{IsAllowed, sends, publish-IsSent}
use go_messaging_nats.Consumer
use go_messaging_nats.Consumer.{handled, JsConsumer, Run}
use go_messaging_nats.Consumer.Delivery.{
  handle_message, delivery_info, tracing_context, unmarshal_event,
}
use go_messaging_nats.Consumer.Decoding.{Decodes}
use go_messaging_nats.Consumer.Settlement.{calls, settlements, verdict}
use go_messaging_nats.Exchange.{delivered}
use go_messaging_nats.Exchange.Events.{given, publish-handle_message}
use go_messaging_nats.Exchange.Serving.{all_registered, StartsServing, start-StartsServing}

-- Whatever the order in which the handlers are walked, the callback finds the handler `f`, calls it
-- once, and settles the message as `h` demands for the value `x`.
pub record HandlesWith (env : Consumer.Env) (key : String) (f : WrappedHandler) {T : Type 0}
    (h : EventHandler T) (x : T) (out : Publisher.OutMessage) (c : JsConsumer) : Type 0 where
  pub span_name : DeliveryInfo → String
  pub named : c.span_name_fn ≡ some span_name
  pub found :
      (run : Run) → IsOrderOf c.handlers run.handlers → get env.messaging run.handlers key ≡ some f
  pub settled :
      (run : Run)
      → IsOrderOf c.handlers run.handlers
      → let info = delivery_info env run c c.stream (delivered out) key in
        settlements (handle_message env run c (delivered out))
        ≡ verdict (
            h (tracing_context env run c span_name info (delivered out)) (record {
              metadata = env.messaging.metadata_from_headers info.headers;
              delivery_info = info;
              payload = x;
            }))
  pub called :
      (run : Run)
      → IsOrderOf c.handlers run.handlers
      → let info = delivery_info env run c c.stream (delivered out) key in
        calls (handle_message env run c (delivered out))
        ≡ handled
            (tracing_context env run c span_name info (delivered out))
            (unmarshal_event env run c info (delivered out))
          ∷ []

module _ (sender : Publisher.Env) (p : Publisher) (key : String) (a : Attempt)
    (headers : List Header) (client : Client) (env : Consumer.Env) (rs : List Registration)
    (s : State) {T : Type 0} (t : GoType T) (h : EventHandler T) (error_text : Error → String) where
  named_span :
      (cfg : ConsumerConfig) (u : State) (v : StartsServing client env key cfg u)
      → (span_name : DeliveryInfo → String) × (v.request.consumer.span_name_fn ≡ some span_name)
  named_span cfg u v = elim (Option-cases v.request.consumer.span_name_fn) [
    | inl missing ↦ cc (sym (ap is_some (sym v.serves.span ∙ missing)) ∙ v.span)
    | inr (f, found) ↦ (f, found)
  ]

  out_message_subject :
      (bytes : Bytes) (hs : GoMap (List String))
      → p.subject_fn ≡ none
      → sender.messaging ≡ env.messaging
      → (out_message sender p key a hs bytes).subject ≡ subject_name env.messaging p.stream key
  unfolding out_message subject_of
  out_message_subject bytes hs plain same =
      ap (λ f. or_default f (subject_name sender.messaging) p.stream key) plain
      ∙ ap (λ m. subject_name m p.stream key) same

  -- A service has started with setup functions that register a consumer for a pattern, and another
  -- one publishes an event whose routing key only that pattern matches among the consumers that are
  -- registered under the same stream and consumer name. Then the start has asked the NATS server to
  -- consume, with a filter on the pattern's subject, with a callback that settles the event as the
  -- registered handler demands for the decoded value, in every order of its handlers; and the
  -- publisher has handed exactly one message to the client, on the subject of that stream and key. The
  -- publisher is wired to the pattern's stream, whose name has no dot, the caller's headers are allowed, the event encodes and its bytes decode to a
  -- value of the handler's type, or are that value if the type is raw JSON, both services use one messaging library, whose subjects have the
  -- documented format, and no filter subject is empty.
  pub start-publish-handle_message :
      (cfg : ConsumerConfig) (bytes : Bytes) (fn : PublishFn) (x : T)
      → s.conn.started ≡ false
      → s.conn.collect_mode ≡ false
      → (start client env.messaging (registering rs) s).0 ≡ ok tt
      → Memᴰ cfg (all_registered s rs)
      → cfg.handler ≡ new_wrapped_handler error_text t h
      → Matches env.messaging key cfg.routing_key
      → All (Agrees env.messaging key cfg) (all_registered s rs)
      → All (HasSubject env.messaging) (all_registered s rs)
      → All IsAllowed headers
      → a.json ≡ ok bytes
      → p.publish_fn ≡ some fn
      → p.subject_fn ≡ none
      → sender.messaging ≡ env.messaging
      → HasSubjectFormat env.messaging
      → p.stream ≡ cfg.stream
      → Lacks b'.' p.stream
      → Decodes t bytes x
      → let out = out_message sender p key a (given sender p key a headers) bytes in
        (sends (publish sender p key a headers).effects ≡ out ∷ [])
        × (out.subject ≡ subject_name env.messaging cfg.stream key)
        × (v : StartsServing client env key cfg (start client env.messaging (registering rs) s).1)
        × HandlesWith env key cfg.handler h x out v.request.consumer
  start-publish-handle_message cfg bytes fn x fresh live e mem handler matches alone have_subjects
        allowed json wired plain same format streams dotless decoded =
      let v =
        start-StartsServing client env rs s key cfg fresh live e mem matches alone have_subjects in
      let c = v.request.consumer in
      let (span_name, named) = named_span cfg _ v in
      let distinct = subst HasDistinctKeys (sym v.serves.handlers) v.serves.takes.distinct_keys in
      let registered : lookup cfg.routing_key c.handlers ≡ some cfg.handler =
        ap (lookup cfg.routing_key) v.serves.handlers ∙ v.serves.takes.registered in
      let only : IsOnlyMatch env.messaging key c.handlers cfg.routing_key =
        subst (λ hs. IsOnlyMatch env.messaging key hs cfg.routing_key) (sym v.serves.handlers)
          v.serves.takes.only in
      let run_any = λ (run : Run) (walk : IsOrderOf c.handlers run.handlers).
        publish-handle_message sender p key a headers env run c t h error_text span_name bytes fn x
          allowed json wired plain same format dotless named
          (record {
            pattern_key = cfg.routing_key;
            distinct = distinct;
            walk = walk;
            registered = registered ∙ ap some handler;
            matches = matches;
            only = only;
          })
          decoded in
      (
        (publish-IsSent sender p key a headers bytes fn allowed json wired).once,
        out_message_subject bytes (given sender p key a headers) plain same
            ∙ ap (λ stream. subject_name env.messaging stream key) streams,
        v,
        record {
          span_name = span_name;
          named = named;
          found = λ run walk.
              get_of_IsOnlyMatch env.messaging key c.handlers run.handlers cfg.routing_key
                cfg.handler distinct walk matches registered only;
          settled = λ run walk. (run_any run walk).1;
          called = λ run walk. (run_any run walk).2;
        },
      )
