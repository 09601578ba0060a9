-- ===== src/Consumer/Settlement.antt =====
-- What becomes of a JetStream message: it is acknowledged, rejected for redelivery, or terminated.
use go_messaging_nats.Base.{
  String, List, [], ◌∷◌, Option, none, some, Bool, true, false, ◌≡◌, refl, ◌≢◌, arith, ◌||◌,
  if◌then◌else◌, length, select, All, Option-cases, Bool-cases, subst, inl, inr, ◌∙◌, ap,
}
use mathlib.Core.Option.{some-injective}
use go_messaging_nats.Errors.{
  Result, ok, err, panic, is_error, parse_json, no_message_type_for_route_key,
}
use go_messaging_nats.Messaging.{DeliveryInfo}
use go_messaging_nats.Nats.{Context, Message}
use go_messaging_nats.Metrics.{
  Sample, event_received, event_without_handler, event_not_parsable, event_nak, event_ack,
}
use go_messaging_nats.Handler.{WrappedHandler, UnmarshalEvent}
use go_messaging_nats.Routing.{RoutingKeyHandler, get}
use go_messaging_nats.Consumer.{
  JsConsumer, Effect, sampled, handled, acked, naked, termed, Env, Run,
  notify_event_handler_succeed, notify_event_handler_failed,
}
use go_messaging_nats.Consumer.Delivery.{
  routing_key_of, delivery_info, unmarshal_event, traced, settle, tracing_context, handle_delivery,
  handle_message,
}

abbrev is_settlement : Effect → Bool
is_settlement acked = true
is_settlement naked = true
is_settlement termed = true
is_settlement _ = false

abbrev pub settlements : List Effect → List Effect
settlements = select is_settlement

abbrev is_call : Effect → Bool
is_call (handled ctx event) = true
is_call _ = false

-- The calls of the handler.
abbrev pub calls : List Effect → List Effect
calls = select is_call

-- The documented contract of a handler's result (docs/consumers.md, "Acknowledgment").
abbrev pub verdict : Result (Unit {0}) → List Effect
verdict (ok _) = acked ∷ []
verdict (err e) =
    if is_error e parse_json || is_error e no_message_type_for_route_key
    then termed ∷ []
    else naked ∷ []
verdict panic = []

module _ (env : Env) (run : Run) (c : JsConsumer) where
  settle-verdict :
      (info : DeliveryInfo) (key : String) (r : Result (Unit {0}))
      → settlements (settle env run c info key r) ≡ verdict r
  unfolding settle notify_event_handler_succeed notify_event_handler_failed event_not_parsable
      event_without_handler event_nak event_ack
  settle-verdict info key (ok _) = ground arith
  settle-verdict info key (err e) = ground arith
  settle-verdict info key panic = refl

  settle-calls :
      (info : DeliveryInfo) (key : String) (r : Result (Unit {0}))
      → calls (settle env run c info key r) ≡ []
  unfolding settle notify_event_handler_succeed notify_event_handler_failed event_not_parsable
      event_without_handler event_nak event_ack
  settle-calls info key (ok _) = ground arith
  settle-calls info key (err e) = ground arith
  settle-calls info key panic = refl

  -- The message was handed to `f` once, and settled by its result.
  pub record IsServedBy (span_name : DeliveryInfo → String) (info : DeliveryInfo) (msg : Message)
      (f : WrappedHandler) (es : List Effect) : Type 0 where
    pub called :
        calls es
        ≡ handled
            (tracing_context env run c span_name info msg)
            (unmarshal_event env run c info msg)
          ∷ []
    pub settled :
        settlements es
        ≡ verdict
            (f (tracing_context env run c span_name info msg) (unmarshal_event env run c info msg))

  traced-IsServedBy :
      (o : Option (DeliveryInfo → String)) (span_name : DeliveryInfo → String) (info : DeliveryInfo)
      (msg : Message) (f : WrappedHandler) (key : String)
      → o ≡ some span_name
      → IsServedBy span_name info msg f (traced env run c o info msg f (settle env run c info key))
  unfolding traced
  traced-IsServedBy none span_name info msg f key e = cc
  traced-IsServedBy (some g) span_name info msg f key e =
      rw (some-injective g span_name e)
        (record { called = rw settle-calls; settled = settle-verdict info key _ })

  abbrev key_of : Message → String
  key_of msg = routing_key_of msg.subject

  handle_message-select :
      (p : Effect → Bool) (msg : Message) (f : WrappedHandler)
      → ((s : Sample) → p (sampled s) ≡ false)
      → get env.messaging run.handlers (key_of msg) ≡ some f
      → select p (handle_message env run c msg)
        ≡ select p (handle_delivery env run c f msg (key_of msg))
  unfolding handle_message event_received
  handle_message-select p msg f quiet e = rw (e, quiet)

  -- A message for which `get` finds a handler is handed to that handler exactly once, with the
  -- message's payload and delivery information, and then acknowledged, terminated or rejected as the
  -- handler's result demands, and nothing else. The consumer has a function for span names.
  pub handle_message-IsServedBy :
      (span_name : DeliveryInfo → String) (msg : Message) (f : WrappedHandler)
      → c.span_name_fn ≡ some span_name
      → get env.messaging run.handlers (key_of msg) ≡ some f
      → IsServedBy span_name
          (delivery_info env run c c.stream msg (key_of msg))
          msg
          f
          (handle_message env run c msg)
  unfolding handle_delivery
  handle_message-IsServedBy span_name msg f named e =
      let by =
        traced-IsServedBy c.span_name_fn span_name
          (delivery_info env run c c.stream msg (key_of msg)) msg f (key_of msg) named in
      record {
        called = handle_message-select is_call msg f (λ s. refl) e ∙ by.called;
        settled = handle_message-select is_settlement msg f (λ s. refl) e ∙ by.settled;
      }

  -- A message for which `get` finds no handler is terminated, and no handler is called.
  pub handle_message_unhandled :
      (msg : Message)
      → get env.messaging run.handlers (key_of msg) ≡ none
      → (settlements (handle_message env run c msg) ≡ termed ∷ [])
        × (calls (handle_message env run c msg) ≡ [])
  unfolding handle_message event_received event_without_handler
  handle_message_unhandled msg e = rw e (refl, refl)

  -- The handler returns, with an error or without.
  abbrev pub Returns : WrappedHandler → Type 0
  Returns f = (ctx : Context) (event : UnmarshalEvent) → f ctx event ≢ panic

  length-verdict : (r : Result (Unit {0})) → r ≢ panic → length (verdict r) ≡ 1
  length-verdict (ok _) h = refl
  length-verdict (err e) h = ground arith
  length-verdict panic h = absurd (h refl)

  All-get :
      (order : RoutingKeyHandler) (key : String) (f : WrappedHandler)
      → All (λ entry. Returns entry.1) order
      → get env.messaging order key ≡ some f
      → Returns f
  unfolding get
  All-get [] key f h e = cc
  All-get ((p, g) ∷ order) key f h e = elim (Bool-cases (env.messaging.match_routing_key p key)) [
    | inl hit ↦ subst Returns (some-injective g f (rw (hit, get) at e)) h.0
    | inr miss ↦ All-get order key f h.1 (rw (miss, get) at e)
  ]

  -- Every JetStream message is settled exactly once, where no handler of the consumer panics and the
  -- consumer has a function for span names.
  pub handle_message_settles_once :
      (span_name : DeliveryInfo → String) (msg : Message)
      → c.span_name_fn ≡ some span_name
      → All (λ entry. Returns entry.1) run.handlers
      → length (settlements (handle_message env run c msg)) ≡ 1
  handle_message_settles_once span_name msg named safe =
      elim (Option-cases (get env.messaging run.handlers (key_of msg))) [
        | inl e ↦ ap length (handle_message_unhandled msg e).0
        | inr (f, e) ↦
            ap length (handle_message-IsServedBy span_name msg f named e).settled
            ∙ length-verdict _ (All-get run.handlers (key_of msg) f safe e _ _)
      ]
