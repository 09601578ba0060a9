-- ===== src/Exchange/Requests.antt =====
-- A request on its way from one service to another, and its response.
use go_messaging_nats.Base.{
  String, List, [], ◌∷◌, ◌++◌, some, ◌≡◌, refl, ap, ◌∙◌, ◌≢◌, false, All, arith, eq_iff, or_default,
}
use go_messaging_nats.Errors
use go_messaging_nats.Errors.{Handle, Error, Result, ok, err, panic, wrap}
use go_messaging_nats.Messaging.{Messaging, DeliveryInfo}
use go_messaging_nats.Nats.{Bytes, Context, Message}
use go_messaging_nats.Naming.{service_request_subject}
use go_messaging_nats.Headers.{Header}
use go_messaging_nats.Handler.{GoType, ConsumableEvent}
use go_messaging_nats.Connection.{
  State, Client, PublishFn, Publisher, subscribe, request_response, RequestResponseFn,
}
use go_messaging_nats.Connection.Monad.{call, add_endpoint}
use go_messaging_nats.Connection.Consumers.{
  new_consumer, subscribe_to, start_request_response_consumer,
}
use go_messaging_nats.Setup.Consumers.{request_response_handler, request_response_wrapper}
use go_messaging_nats.Setup.Publishers.{service_publisher, setup_publisher}
use go_messaging_nats.Setup.Wiring.{service_publisher_lem}
use go_messaging_nats.Publisher
use go_messaging_nats.Publisher.{OutMessage, Attempt, out_message, publish, subject_of}
use go_messaging_nats.Publisher.Outcomes.{IsAllowed, sends, publish-IsSent}
use go_messaging_nats.Consumer
use go_messaging_nats.Consumer.{JsConsumer, Run, Effect, responded}
use go_messaging_nats.Consumer.Delivery.{delivery_info, tracing_context, unmarshal_event}
use go_messaging_nats.Consumer.Core.{responses}
use go_messaging_nats.Consumer.Requests.{handle_request, reply_to, handle_request-IsReplied}
use go_messaging_nats.Exchange.{delivered}
use go_messaging_nats.Exchange.Events.{given}

-- The message of a request, with the inbox of the one that asks.
abbrev pub asked : String → OutMessage → Message
asked inbox out = record (delivered out) { reply = inbox }

-- The one response to a result of the handler.
abbrev pub response_to : {R : Type 0} → Consumer.Env → (R → Result Bytes) → Result R → List Effect
response_to env marshal (ok resp) = elim (marshal resp) [
  | ok bytes ↦ responded bytes ∷ []
  | err e ↦
      responded (env.marshal_error (env.error_text (wrap "failed to marshal response: " e ""))) ∷ []
  | panic ↦ []
]
response_to env marshal (err e) = responded (env.marshal_error (env.error_text e)) ∷ []
response_to env marshal panic = []

-- What a setup of RequestResponseHandler that succeeds has asked the NATS server for.
pub record Subscribes (client : Client) (key : String) (f : RequestResponseFn) (s t : State)
    : Type 0 where
  pub nc : Handle
  pub connected : s.conn.nc ≡ some nc
  pub calls :
      t.calls
      ≡ s.calls
        ++ subscribe nc
            (service_request_subject s.conn.service_name key)
            (request_response (new_consumer client s.conn s.conn.service_name "" []) key f)
          ∷ []

module _ (client : Client) (m : Messaging) (error_text : Error → String) {T R : Type 0}
    (t : GoType T) (marshal : R → Result Bytes) (h : Context → ConsumableEvent T → Result R) where
  request_response_handler-Subscribes :
      (key : String) (s : State)
      → s.conn.collect_mode ≡ false
      → (request_response_handler client m error_text t marshal key h s).0 ≡ ok tt
      → Subscribes client key
          (request_response_wrapper client m error_text t marshal h)
          s
          (request_response_handler client m error_text t marshal key h s).1
  unfolding request_response_handler start_request_response_consumer subscribe_to call add_endpoint
  request_response_handler-Subscribes key s live e = record {
    nc = or_default s.conn.nc 0;
    connected = ground arith;
    calls = ground arith;
  }

  module _ (env : Consumer.Env) (run : Run) (c : JsConsumer) where
    -- What the handler's result brings about where the requester gave an inbox.
    encoded-response :
        (msg : Message) (r : Result R)
        → msg.reply ≢ ""
        → reply_to env run c msg (
            Errors.◌>>=◌ r λ resp. elim (marshal resp) [
              | ok bytes ↦ ok bytes
              | err e ↦ err (wrap "failed to marshal response: " e "")
              | panic ↦ panic
            ])
          ≡ response_to env marshal r
    encoded-response msg (ok resp) given_inbox = ground (arith, eq_iff msg.reply "")
    encoded-response msg (err e) given_inbox = ground (arith, eq_iff msg.reply "")
    encoded-response msg panic given_inbox = refl

    wrapper-response :
        (msg : Message) (ctx : Context) (info : DeliveryInfo) (x : T)
        → t.unmarshal msg.payload ≡ ok x
        → msg.reply ≢ ""
        → reply_to env run c msg (
            request_response_wrapper client m error_text t marshal h ctx
              (unmarshal_event env run c info msg))
          ≡ response_to env marshal (
              h ctx (record {
                metadata = env.messaging.metadata_from_headers info.headers;
                delivery_info = info;
                payload = x;
              }))
    unfolding request_response_wrapper unmarshal_event
    wrapper-response msg ctx info x decoded given_inbox = rw decoded (
        encoded-response msg
          (h ctx (record {
            metadata = env.messaging.metadata_from_headers info.headers;
            delivery_info = info;
            payload = x;
          }))
          given_inbox)

  module _ (sender : Publisher.Env) (asker : Client) (publisher : Handle) (s₁ : State)
      (key : String) (a : Attempt) (headers : List Header) (env : Consumer.Env) (run : Run)
      (s₂ : State) where
    -- The publisher, after ServicePublisher has set it up for requests to the second service.
    abbrev pub requester : Publisher
    requester = (service_publisher asker s₂.conn.service_name publisher s₁).1.publishers publisher

    abbrev pub request_out : Bytes → OutMessage
    request_out bytes =
        out_message sender requester key a (given sender requester key a headers) bytes

    requester_lem :
        s₁.conn.collect_mode ≡ false
        → (requester.subject_fn ≡ some (λ _ k. service_request_subject s₂.conn.service_name k))
          × ((fn : PublishFn) × (requester.publish_fn ≡ some fn))
    unfolding setup_publisher
    requester_lem live =
        let made = (service_publisher_lem asker publisher s₁ s₂.conn.service_name live).2 in
        (ap (λ (q : Publisher). q.subject_fn) made, (_, ap (λ (q : Publisher). q.publish_fn) made))

    -- A service has set up a publisher for requests to another service, which has set up a handler for
    -- a routing key. Then a publication under that key hands one message to the client, on the subject
    -- to which the other service has subscribed; and when its callback gets the message with the
    -- requester's inbox, it answers exactly once: with the encoded response, or the error, of the
    -- handler for the decoded request, unless that panics. Both connections are live, the request's
    -- headers are allowed, it encodes and decodes, and the second service has a function for span
    -- names, which Start gives it.
    pub publish-handle_request :
        (bytes : Bytes) (x : T) (inbox : String) (span_name : DeliveryInfo → String)
        → s₁.conn.collect_mode ≡ false
        → s₂.conn.collect_mode ≡ false
        → (request_response_handler client m error_text t marshal key h s₂).0 ≡ ok tt
        → s₂.conn.span_name_fn ≡ some span_name
        → All IsAllowed headers
        → a.json ≡ ok bytes
        → t.unmarshal bytes ≡ ok x
        → inbox ≢ ""
        → let f = request_response_wrapper client m error_text t marshal h in
          let c = new_consumer client s₂.conn s₂.conn.service_name "" [] in
          let out = request_out bytes in
          let msg = asked inbox out in
          let info = delivery_info env run c msg.subject msg key in
          Subscribes client key f s₂
            (request_response_handler client m error_text t marshal key h s₂).1
          × (sends (publish sender requester key a headers).effects ≡ out ∷ [])
          × (out.subject ≡ service_request_subject s₂.conn.service_name key)
          × (responses (handle_request env run c f msg key)
              ≡ response_to env marshal (
                  h (tracing_context env run c span_name info msg) (record {
                    metadata = env.messaging.metadata_from_headers info.headers;
                    delivery_info = info;
                    payload = x;
                  })))
    unfolding out_message subject_of new_consumer
    publish-handle_request bytes x inbox span_name live₁ live₂ done named allowed json decoded
          given_inbox =
        let (subject_fn, (fn, wired)) = requester_lem live₁ in
        let f = request_response_wrapper client m error_text t marshal h in
        let c = new_consumer client s₂.conn s₂.conn.service_name "" [] in
        let msg = asked inbox (request_out bytes) in
        let info = delivery_info env run c msg.subject msg key in
        (
          request_response_handler-Subscribes key s₂ live₂ done,
          (publish-IsSent sender requester key a headers bytes fn allowed json wired).once,
          (rw subject_fn),
          (handle_request-IsReplied env run c span_name msg key f named).replied
              ∙ wrapper-response env run c msg (tracing_context env run c span_name info msg) info x
                  decoded given_inbox,
        )
