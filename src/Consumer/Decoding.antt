-- ===== src/Consumer/Decoding.antt =====
-- Typed handlers on JetStream messages: payloads that decode, and payloads that do not.
use go_messaging_nats.Base.{String, [], ◌∷◌, some, ◌≡◌, ◌∙◌, true, false, ◌⊎◌, inl, inr}
use go_messaging_nats.Errors.{Error, ok, err}
use go_messaging_nats.Messaging.{DeliveryInfo}
use go_messaging_nats.Nats.{Bytes, Message}
use go_messaging_nats.Handler.{GoType, EventHandler, is_raw, new_wrapped_handler}
use go_messaging_nats.Routing.{get}
use go_messaging_nats.Consumer.{JsConsumer, termed, Env, Run}
use go_messaging_nats.Consumer.Delivery.{
  handle_message, routing_key_of, delivery_info, tracing_context, unmarshal_event,
}
use go_messaging_nats.Consumer.Settlement.{settlements, verdict, handle_message-IsServedBy}

-- The value of the handler's type that a payload stands for: raw JSON is taken as it is.
abbrev pub Decodes : {T : Type 0} → GoType T → Bytes → T → Type 0
Decodes t bytes x =
    ((is_raw t.dynamic ≡ true) × (t.assert bytes ≡ some x))
    ⊎ ((is_raw t.dynamic ≡ false) × (t.unmarshal bytes ≡ ok x))

module _ (env : Env) (run : Run) (c : JsConsumer) {T : Type 0} (t : GoType T)
    (h : EventHandler T) where
  -- A message for a typed handler is terminated if its payload does not decode. If it decodes, the
  -- handler gets the decoded payload and its result decides what becomes of the message. The type
  -- is not raw JSON, and the consumer has a function for span names.
  pub handle_message_typed :
      (error_text : Error → String) (span_name : DeliveryInfo → String) (msg : Message)
      → c.span_name_fn ≡ some span_name
      → get env.messaging run.handlers (routing_key_of msg.subject)
        ≡ some (new_wrapped_handler error_text t h)
      → is_raw t.dynamic ≡ false
      → let info = delivery_info env run c c.stream msg (routing_key_of msg.subject) in
        ((e : Error)
          → t.unmarshal msg.payload ≡ err e
          → settlements (handle_message env run c msg) ≡ termed ∷ [])
        × ((x : T)
            → t.unmarshal msg.payload ≡ ok x
            → settlements (handle_message env run c msg)
              ≡ verdict (
                  h (tracing_context env run c span_name info msg) (record {
                    metadata = env.messaging.metadata_from_headers info.headers;
                    delivery_info = info;
                    payload = x;
                  })))
  unfolding new_wrapped_handler unmarshal_event
  handle_message_typed error_text span_name msg named found typed =
      let by =
        handle_message-IsServedBy env run c span_name msg (new_wrapped_handler error_text t h) named
          found in
      ((λ e bad. by.settled ∙ (rw (typed, bad))), (λ x good. by.settled ∙ (rw (typed, good))))

  -- A message whose payload decodes is settled by the handler's result for the value.
  pub handle_message_decoded :
      (error_text : Error → String) (span_name : DeliveryInfo → String) (msg : Message) (x : T)
      → c.span_name_fn ≡ some span_name
      → get env.messaging run.handlers (routing_key_of msg.subject)
        ≡ some (new_wrapped_handler error_text t h)
      → Decodes t msg.payload x
      → let info = delivery_info env run c c.stream msg (routing_key_of msg.subject) in
        settlements (handle_message env run c msg)
        ≡ verdict (
            h (tracing_context env run c span_name info msg) (record {
              metadata = env.messaging.metadata_from_headers info.headers;
              delivery_info = info;
              payload = x;
            }))
  unfolding new_wrapped_handler unmarshal_event
  handle_message_decoded error_text span_name msg x named found (inl (raw, asserted)) =
      let by =
        handle_message-IsServedBy env run c span_name msg (new_wrapped_handler error_text t h) named
          found in
      by.settled ∙ (rw (raw, asserted))
  handle_message_decoded error_text span_name msg x named found (inr (typed, good)) =
      (handle_message_typed error_text span_name msg named found typed).1 x good
