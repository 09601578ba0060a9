-- ===== src/Exchange/Events.antt =====
-- An event on its way from Publish to a typed handler.
use go_messaging_nats.Base.{String, List, [], ◌∷◌, none, some, ◌≡◌, sym, ap, ◌∙◌, ◌≢◌, All}
use go_messaging_nats.Base.GoMap.{lookup, HasDistinctKeys}
use go_messaging_nats.Base.GoMap.Order.{IsOrderOf}
use go_messaging_nats.Base.Text.{Lacks}
use go_messaging_nats.Errors.{Error, ok}
use go_messaging_nats.Messaging.{HasSubjectFormat, DeliveryInfo, text}
use go_messaging_nats.Nats.{Bytes, NatsHeader, IsHeaderOps}
use go_messaging_nats.Headers.{Header}
use go_messaging_nats.Headers.Conversion.{lookup-from_nats_headers_given}
use go_messaging_nats.Tracing.{propagator_or_global, inject_to_headers}
use go_messaging_nats.Handler.{GoType, EventHandler, new_wrapped_handler}
use go_messaging_nats.Routing.{get}
use go_messaging_nats.Routing.Matching.{Matches, IsOnlyMatch, get_of_IsOnlyMatch}
use go_messaging_nats.Connection.{PublishFn}
use go_messaging_nats.Publisher
use go_messaging_nats.Publisher.{
  Attempt, set_headers, out_message, stamped, subject_of, publish, span_context,
}
use go_messaging_nats.Publisher.Outcomes.{IsAllowed, sends, publish-IsSent}
use go_messaging_nats.Consumer
use go_messaging_nats.Consumer.{handled, JsConsumer, Run}
use go_messaging_nats.Consumer.Delivery.{
  handle_message, routing_key_of, delivery_info, tracing_context, unmarshal_event,
}
use go_messaging_nats.Consumer.Settlement.{calls, handle_message-IsServedBy, settlements, verdict}
use go_messaging_nats.Consumer.Dispatch.{routing_key_of-subject_name}
use go_messaging_nats.Consumer.Decoding.{Decodes, handle_message_decoded}
use go_messaging_nats.Connection.{Publisher}
use go_messaging_nats.Tracing.Carriers.{get-set_all}
use go_messaging_nats.Exchange.{delivered}

-- What both services agree on: the handler map and the matching of one consumer, seen from a
-- publisher's routing key.
pub record IsSubscribed (env : Consumer.Env) (run : Run) (c : JsConsumer) (key : String)
    {T : Type 0} (t : GoType T) (h : EventHandler T) (error_text : Error → String) : Type 0 where
  pub pattern_key : String
  pub distinct : HasDistinctKeys c.handlers
  pub walk : IsOrderOf c.handlers run.handlers
  pub registered : lookup pattern_key c.handlers ≡ some (new_wrapped_handler error_text t h)
  pub matches : Matches env.messaging key pattern_key
  pub only : IsOnlyMatch env.messaging key c.handlers pattern_key

module _ (sender : Publisher.Env) (p : Publisher) (key : String) (a : Attempt)
    (headers : List Header) where
  -- The headers before stamping.
  abbrev pub given : NatsHeader
  given = set_headers sender.header_ops (set_headers sender.header_ops [] p.default_headers) headers

  module _ (env : Consumer.Env) (run : Run) (c : JsConsumer) {T : Type 0} (t : GoType T)
      (h : EventHandler T) (error_text : Error → String) (span_name : DeliveryInfo → String) where
    -- An event that is published to a stream reaches the typed handler that another service has
    -- subscribed for its routing key: Publish hands one message to the client, and when the consumer
    -- gets it, it calls one handler, once, whose result for the decoded event under that routing key
    -- settles the message. The
    -- caller's headers are allowed, the event encodes and its bytes decode to a value of the handler's
    -- type, or are that value if the type is raw JSON, the publisher is wired to a stream whose name has no dot, subjects
    -- have the documented format, and the consumer has a function for span names.
    pub publish-handle_message :
        (bytes : Bytes) (fn : PublishFn) (x : T)
        → All IsAllowed headers
        → a.json ≡ ok bytes
        → p.publish_fn ≡ some fn
        → p.subject_fn ≡ none
        → sender.messaging ≡ env.messaging
        → HasSubjectFormat env.messaging
        → Lacks b'.' p.stream
        → c.span_name_fn ≡ some span_name
        → IsSubscribed env run c key t h error_text
        → Decodes t bytes x
        → let out = out_message sender p key a given bytes in
          let info = delivery_info env run c c.stream (delivered out) key in
          (sends (publish sender p key a headers).effects ≡ out ∷ [])
          × (settlements (handle_message env run c (delivered out))
              ≡ verdict (
                  h (tracing_context env run c span_name info (delivered out)) (record {
                    metadata = env.messaging.metadata_from_headers info.headers;
                    delivery_info = info;
                    payload = x;
                  })))
          × (calls (handle_message env run c (delivered out))
              ≡ handled
                  (tracing_context env run c span_name info (delivered out))
                  (unmarshal_event env run c info (delivered out))
                ∷ [])
    unfolding out_message subject_of
    publish-handle_message bytes fn x allowed json wired plain same format dotless named s decoded =
        let out = out_message sender p key a given bytes in
        let msg = delivered out in
        let read : routing_key_of msg.subject ≡ key =
          (rw (plain, same)
            (routing_key_of-subject_name env.messaging p.stream key format dotless)) in
        let found =
          get_of_IsOnlyMatch env.messaging key c.handlers run.handlers s.pattern_key
            (new_wrapped_handler error_text t h) s.distinct s.walk s.matches s.registered s.only in
        let found_read = ap (get env.messaging run.handlers) read ∙ found in
        let by =
          handle_message_decoded env run c t h error_text span_name msg x named found_read
            decoded in
        let served =
          handle_message-IsServedBy env run c span_name msg (new_wrapped_handler error_text t h)
            named found_read in
        (
          (publish-IsSent sender p key a headers bytes fn allowed json wired).once,
          by
              ∙ ap
                  (λ k.
                    let info = delivery_info env run c c.stream msg k in
                    verdict (
                      h (tracing_context env run c span_name info msg) (record {
                        metadata = env.messaging.metadata_from_headers info.headers;
                        delivery_info = info;
                        payload = x;
                      })))
                  read,
          served.called
              ∙ ap
                  (λ k.
                    let info = delivery_info env run c c.stream msg k in
                    handled (tracing_context env run c span_name info msg)
                      (unmarshal_event env run c info msg)
                    ∷ [])
                  read,
        )

  -- What the caller and the publisher put into the headers of a message, the handler reads in its
  -- delivery information: each header with a value, unless the propagator writes it too, in every
  -- order in which the headers are walked. Header maps behave as documented on both sides.
  pub publish-delivery_info :
      (env : Consumer.Env) (run : Run) (c : JsConsumer) (bytes : Bytes) (k v : String)
      → IsHeaderOps sender.header_ops
      → IsHeaderOps env.header_ops
      → let out = out_message sender p key a given bytes in
        HasDistinctKeys out.header
        → IsOrderOf out.header run.headers
        → lookup k (
            (propagator_or_global p.propagator sender.global_propagator).inject
              (span_context sender p key a))
          ≡ none
        → sender.header_ops.get (stamped sender p key a given) k ≡ v
        → v ≢ ""
        → lookup k (delivery_info env run c c.stream (delivered out) key).headers ≡ some (text v)
  unfolding out_message inject_to_headers delivery_info
  publish-delivery_info env run c bytes k v sent_laws laws distinct walk absent e nonempty =
      let out = out_message sender p key a given bytes in
      let carrier =
        (propagator_or_global p.propagator sender.global_propagator).inject
          (span_context sender p key a) in
      lookup-from_nats_headers_given env.header_ops laws out.header run.headers k v distinct walk
        (laws.get-lookup out.header k
          ∙ sym (sent_laws.get-lookup out.header k)
          ∙ get-set_all sender.header_ops sent_laws sender.global_propagator
              (stamped sender p key a given) carrier k absent
          ∙ e)
        nonempty
