-- ===== src/Consumer/Requests.antt =====
-- The subscription's callback of startRequestResponseConsumer (request_response.go), and what it
-- replies. `c` is the consumer that the function builds, whose service is the connection's.
use go_messaging_nats.Base.{
  String, List, [], ◌∷◌, ◌++◌, Option, none, some, ◌≡◌, refl, arith, if◌then◌else◌, ◌==◌,
}
use mathlib.Core.Option.{some-injective}
use go_messaging_nats.Errors.{Result, ok, err, panic}
use go_messaging_nats.Messaging.{DeliveryInfo}
use go_messaging_nats.Nats.{Message, Bytes, Context}
use go_messaging_nats.Handler.{UnmarshalEvent}
use go_messaging_nats.Consumer.{
  JsConsumer, Effect, Env, Run, span_started, handled, error_recorded, status_error, status_ok,
  span_ended, responded, panicked,
}
use go_messaging_nats.Consumer.Delivery.{
  get_tracer, header_context, span_attributes, tracing_context, unmarshal_event, delivery_info,
}
use go_messaging_nats.Consumer.Settlement.{settlements, calls}
use go_messaging_nats.Consumer.Core.{responses, notifications}

abbrev pub RequestFn : Type 0
RequestFn = Context → UnmarshalEvent → Result Bytes

module _ (env : Env) (run : Run) (c : JsConsumer) where
  -- What follows the handler's result.
  unfoldable pub reply_with : Message → Result Bytes → List Effect
  reply_with msg panic = span_ended ∷ panicked ∷ []
  reply_with msg (err e) =
      error_recorded e
      ∷ status_error e
      ∷ ((if msg.reply == "" then [] else responded (env.marshal_error (env.error_text e)) ∷ [])
          ++ span_ended ∷ [])
  reply_with msg (ok resp) =
      status_ok ∷ ((if msg.reply == "" then [] else responded resp ∷ []) ++ span_ended ∷ [])

  unfoldable pub requested :
      Option (DeliveryInfo → String) → DeliveryInfo → Message → RequestFn → List Effect
  unfolding reply_with
  requested none info msg handler = panicked ∷ []
  requested (some span_name) info msg handler =
      span_started (get_tracer env run c) (header_context env run c msg) (span_name info)
        (span_attributes env run c info msg)
      ∷ handled (tracing_context env run c span_name info msg) (unmarshal_event env run c info msg)
      ∷ reply_with msg (
          handler (tracing_context env run c span_name info msg)
            (unmarshal_event env run c info msg))

  unfoldable pub handle_request : RequestFn → Message → String → List Effect
  unfolding requested
  handle_request handler msg routing_key =
      requested c.span_name_fn (delivery_info env run c msg.subject msg routing_key) msg handler

  -- The reply to a result, where the requester waits for one.
  abbrev pub reply_to : Message → Result Bytes → List Effect
  reply_to msg (ok resp) = if msg.reply == "" then [] else responded resp ∷ []
  reply_to msg (err e) =
      if msg.reply == "" then [] else responded (env.marshal_error (env.error_text e)) ∷ []
  reply_to msg panic = []

  pub record IsReplied (span_name : DeliveryInfo → String) (info : DeliveryInfo) (msg : Message)
      (f : RequestFn) (es : List Effect) : Type 0 where
    pub called :
        calls es
        ≡ handled
            (tracing_context env run c span_name info msg)
            (unmarshal_event env run c info msg)
          ∷ []
    pub replied :
        responses es
        ≡ reply_to msg
            (f (tracing_context env run c span_name info msg) (unmarshal_event env run c info msg))
    pub unsettled : settlements es ≡ []
    pub unnoticed : notifications es ≡ []

  reply_with_lem :
      (msg : Message) (r : Result Bytes)
      → (calls (reply_with msg r) ≡ [])
        × (responses (reply_with msg r) ≡ reply_to msg r)
        × (settlements (reply_with msg r) ≡ [])
        × (notifications (reply_with msg r) ≡ [])
  unfolding reply_with
  reply_with_lem msg (ok resp) = ground arith
  reply_with_lem msg (err e) = ground arith
  reply_with_lem msg panic = (refl, refl, refl, refl)

  requested-IsReplied :
      (o : Option (DeliveryInfo → String)) (span_name : DeliveryInfo → String) (info : DeliveryInfo)
      (msg : Message) (f : RequestFn)
      → o ≡ some span_name
      → IsReplied span_name info msg f (requested o info msg f)
  unfolding requested
  requested-IsReplied none span_name info msg f e = cc
  requested-IsReplied (some g) span_name info msg f e =
      let by =
        reply_with_lem msg
          (f (tracing_context env run c span_name info msg) (unmarshal_event env run c info msg)) in
      rw (some-injective g span_name e)
        (record { called = rw by.0; replied = by.1; unsettled = by.2; unnoticed = by.3 })

  -- A request whose consumer has a function for span names calls the handler exactly once; if the
  -- request names a reply subject, it is answered exactly once, with the handler's response, or with
  -- the error if the handler fails, and not at all if the handler panics; without a reply subject it
  -- is not answered. It is never settled, and no notification is sent.
  pub handle_request-IsReplied :
      (span_name : DeliveryInfo → String) (msg : Message) (key : String) (f : RequestFn)
      → c.span_name_fn ≡ some span_name
      → IsReplied span_name
          (delivery_info env run c msg.subject msg key)
          msg
          f
          (handle_request f msg key)
  unfolding handle_request
  handle_request-IsReplied span_name msg key f named =
      requested-IsReplied c.span_name_fn span_name (delivery_info env run c msg.subject msg key) msg
        f named
