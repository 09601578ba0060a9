-- ===== src/Consumer/Core.antt =====
-- What becomes of a Core NATS request: no settlement, a reply only where the handler failed, and
-- notifications that never wait for the channel's reader.
use go_messaging_nats.Base.{
  String, List, [], ◌∷◌, Option, none, some, Bool, true, false, ◌≡◌, refl, arith, if◌then◌else◌,
  ◌==◌, select,
}
use mathlib.Core.Option.{some-injective}
use go_messaging_nats.Errors.{Result, ok, err, panic}
use go_messaging_nats.Messaging.{DeliveryInfo}
use go_messaging_nats.Nats.{Message}
use go_messaging_nats.Metrics.{
  event_received, event_not_parsable, event_without_handler, event_nak, event_ack,
}
use go_messaging_nats.Handler.{WrappedHandler}
use go_messaging_nats.Routing.{get}
use go_messaging_nats.Consumer.{
  JsConsumer, Effect, responded, notified, error_notified, Env, Run, notify_event_handler_succeed,
  notify_event_handler_failed,
}
use go_messaging_nats.Consumer.Delivery.{
  traced, tracing_context, unmarshal_event, reply_failure, settle, delivery_info,
  handle_core_message, handle_message, handle_delivery, routing_key_of,
}
use go_messaging_nats.Consumer.Settlement.{settlements}

abbrev pub is_response : Effect → Bool
is_response (responded body) = true
is_response _ = false

abbrev pub responses : List Effect → List Effect
responses = select is_response

abbrev pub is_notification : Effect → Bool
is_notification (notified ch n) = true
is_notification (error_notified ch n) = true
is_notification _ = false

-- The sends on the two notification channels.
abbrev pub notifications : List Effect → List Effect
notifications = select is_notification

module _ (env : Env) (run : Run) (c : JsConsumer) where
  -- The reply that a result calls for: the error's text where the requester waits for a reply.
  abbrev pub replies : Message → Result (Unit {0}) → List Effect
  replies msg (ok _) = []
  replies msg (err e) =
      if msg.reply == "" then [] else responded (env.marshal_error (env.error_text e)) ∷ []
  replies msg panic = []

  -- The notification that a result calls for: on the channel for its kind, if there is one and it
  -- can take the value at once.
  abbrev pub notices : DeliveryInfo → Result (Unit {0}) → List Effect
  notices info (ok _) = elim c.notification_ch [
    | none ↦ []
    | some ch ↦
        if run.ready ch
        then notified ch (record { delivery_info = info; duration = run.elapsed }) ∷ []
        else []
  ]
  notices info (err e) = elim c.error_ch [
    | none ↦ []
    | some ch ↦
        if run.ready ch
        then error_notified ch (record { error = e; delivery_info = info; duration = run.elapsed })
          ∷ []
        else []
  ]
  notices info panic = []

  -- What a request that reached its handler `f` brings about.
  pub record IsAnsweredBy (span_name : DeliveryInfo → String) (info : DeliveryInfo) (msg : Message)
      (f : WrappedHandler) (es : List Effect) : Type 0 where
    pub unsettled : settlements es ≡ []
    pub replied :
        responses es
        ≡ replies msg
            (f (tracing_context env run c span_name info msg) (unmarshal_event env run c info msg))
    pub noticed :
        notifications es
        ≡ notices info
            (f (tracing_context env run c span_name info msg) (unmarshal_event env run c info msg))

  reply_failure-settlements :
      (info : DeliveryInfo) (msg : Message) (key : String) (r : Result (Unit {0}))
      → settlements (reply_failure env run c info msg key r) ≡ []
  unfolding reply_failure notify_event_handler_succeed notify_event_handler_failed event_nak
      event_ack
  reply_failure-settlements info msg key (ok _) = ground arith
  reply_failure-settlements info msg key (err e) = ground arith
  reply_failure-settlements info msg key panic = refl

  reply_failure-responses :
      (info : DeliveryInfo) (msg : Message) (key : String) (r : Result (Unit {0}))
      → responses (reply_failure env run c info msg key r) ≡ replies msg r
  unfolding reply_failure notify_event_handler_succeed notify_event_handler_failed event_nak
      event_ack
  reply_failure-responses info msg key (ok _) = ground arith
  reply_failure-responses info msg key (err e) = ground arith
  reply_failure-responses info msg key panic = refl

  reply_failure-notifications :
      (info : DeliveryInfo) (msg : Message) (key : String) (r : Result (Unit {0}))
      → notifications (reply_failure env run c info msg key r) ≡ notices info r
  unfolding reply_failure notify_event_handler_succeed notify_event_handler_failed event_nak
      event_ack
  reply_failure-notifications info msg key (ok _) = ground arith
  reply_failure-notifications info msg key (err e) = ground arith
  reply_failure-notifications info msg key panic = refl

  traced-IsAnsweredBy :
      (o : Option (DeliveryInfo → String)) (span_name : DeliveryInfo → String) (info : DeliveryInfo)
      (msg : Message) (f : WrappedHandler) (key : String)
      → o ≡ some span_name
      → IsAnsweredBy span_name info msg f
          (traced env run c o info msg f (reply_failure env run c info msg key))
  unfolding traced
  traced-IsAnsweredBy none span_name info msg f key e = cc
  traced-IsAnsweredBy (some g) span_name info msg f key e =
      rw (some-injective g span_name e) (record {
        unsettled = reply_failure-settlements info msg key _;
        replied = reply_failure-responses info msg key _;
        noticed = reply_failure-notifications info msg key _;
      })

  -- A Core NATS request for which `get` finds a handler is never settled; it is answered, with the
  -- error, exactly if the handler fails and the request names a reply subject; and exactly the
  -- notification of the handler's result is sent, unless its channel is missing or not ready. The
  -- consumer has a function for span names.
  pub handle_core_message-IsAnsweredBy :
      (span_name : DeliveryInfo → String) (msg : Message) (key : String) (f : WrappedHandler)
      → c.span_name_fn ≡ some span_name
      → get env.messaging run.handlers key ≡ some f
      → IsAnsweredBy span_name
          (delivery_info env run c msg.subject msg key)
          msg
          f
          (handle_core_message env run c msg key)
  unfolding handle_core_message event_received
  handle_core_message-IsAnsweredBy span_name msg key f named e =
      let by =
        traced-IsAnsweredBy c.span_name_fn span_name (delivery_info env run c msg.subject msg key)
          msg f key named in
      rw e (record { unsettled = by.unsettled; replied = by.replied; noticed = by.noticed })

  settle-notifications :
      (info : DeliveryInfo) (key : String) (r : Result (Unit {0}))
      → (notifications (settle env run c info key r) ≡ notices info r)
        × (responses (settle env run c info key r) ≡ [])
  unfolding settle notify_event_handler_succeed notify_event_handler_failed event_nak event_ack
      event_not_parsable event_without_handler
  settle-notifications info key (ok _) = ground arith
  settle-notifications info key (err e) = ground arith
  settle-notifications info key panic = (refl, refl)

  traced-notifications :
      (o : Option (DeliveryInfo → String)) (span_name : DeliveryInfo → String) (info : DeliveryInfo)
      (msg : Message) (f : WrappedHandler) (key : String)
      → o ≡ some span_name
      → (notifications (traced env run c o info msg f (settle env run c info key))
          ≡ notices info (
              f
                (tracing_context env run c span_name info msg)
                (unmarshal_event env run c info msg)))
        × (responses (traced env run c o info msg f (settle env run c info key)) ≡ [])
  unfolding traced
  traced-notifications none span_name info msg f key e = cc
  traced-notifications (some g) span_name info msg f key e =
      rw (some-injective g span_name e) (settle-notifications info key _)

  -- A JetStream message for which `get` finds a handler brings about exactly the notification of the
  -- handler's result, unless its channel is missing or not ready, and no reply. The consumer has a
  -- function for span names.
  pub handle_message-notifications :
      (span_name : DeliveryInfo → String) (msg : Message) (f : WrappedHandler)
      → c.span_name_fn ≡ some span_name
      → get env.messaging run.handlers (routing_key_of msg.subject) ≡ some f
      → let info = delivery_info env run c c.stream msg (routing_key_of msg.subject) in
        (notifications (handle_message env run c msg)
          ≡ notices info (
              f
                (tracing_context env run c span_name info msg)
                (unmarshal_event env run c info msg)))
        × (responses (handle_message env run c msg) ≡ [])
  unfolding handle_message handle_delivery event_received
  handle_message-notifications span_name msg f named e = rw e (
      traced-notifications c.span_name_fn span_name
        (delivery_info env run c c.stream msg (routing_key_of msg.subject)) msg f
        (routing_key_of msg.subject) named)
