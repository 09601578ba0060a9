-- ===== src/Consumer/Counts.antt =====
-- The metrics of a delivery agree with what became of the message.
use go_messaging_nats.Base.{
  ℕ, String, List, Option, none, some, Bool, true, false, ◌≡◌, arith, ◌+◌, length, select,
  Option-cases, inl, inr, ap, suc,
}
use go_messaging_nats.Errors.{Result, ok, err, panic}
use go_messaging_nats.Messaging.{DeliveryInfo}
use go_messaging_nats.Nats.{Message}
use go_messaging_nats.Metrics.{
  inc, observe, event_received_counter, event_without_handler_counter, event_not_parsable_counter,
  event_nak_counter, event_ack_counter, event_processed_duration, event_received,
  event_without_handler, event_not_parsable, event_nak, event_ack,
}
use go_messaging_nats.Handler.{WrappedHandler}
use go_messaging_nats.Routing.{get}
use go_messaging_nats.Consumer.{
  JsConsumer, Effect, sampled, acked, naked, termed, Env, Run, notify_event_handler_succeed,
  notify_event_handler_failed,
}
use go_messaging_nats.Consumer.Delivery.{
  routing_key_of, traced, settle, tracing_context, unmarshal_event, delivery_info, handle_delivery,
  handle_message,
}

-- How many of the effects pass the test.
abbrev pub count : (Effect → Bool) → List Effect → ℕ
count p es = length (select p es)

abbrev pub is_acked : Effect → Bool
is_acked acked = true
is_acked _ = false

abbrev pub is_naked : Effect → Bool
is_naked naked = true
is_naked _ = false

abbrev pub is_termed : Effect → Bool
is_termed termed = true
is_termed _ = false

abbrev pub counts_received : Effect → Bool
counts_received (sampled (inc event_received_counter labels)) = true
counts_received _ = false

abbrev pub counts_ack : Effect → Bool
counts_ack (sampled (inc event_ack_counter labels)) = true
counts_ack _ = false

abbrev pub counts_nak : Effect → Bool
counts_nak (sampled (inc event_nak_counter labels)) = true
counts_nak _ = false

-- The two counters of messages that are given up.
abbrev pub counts_term : Effect → Bool
counts_term (sampled (inc event_not_parsable_counter labels)) = true
counts_term (sampled (inc event_without_handler_counter labels)) = true
counts_term _ = false

-- Durations that the histogram gets.
abbrev pub counts_duration : Effect → Bool
counts_duration (sampled (observe event_processed_duration labels milliseconds)) = true
counts_duration _ = false

-- The counters of these effects agree with the settlements among them.
pub record Agrees (es : List Effect) : Type 0 where
  pub ack : count counts_ack es ≡ count is_acked es
  pub nak : count counts_nak es ≡ count is_naked es
  pub term : count counts_term es ≡ count is_termed es
  pub duration : count counts_duration es ≡ count is_acked es + count is_naked es

module _ (env : Env) (run : Run) (c : JsConsumer) where
  settle-Agrees :
      (info : DeliveryInfo) (key : String) (r : Result (Unit {0}))
      → Agrees (settle env run c info key r)
        × (count counts_received (settle env run c info key r) ≡ 0)
  unfolding settle notify_event_handler_succeed notify_event_handler_failed event_not_parsable
      event_without_handler event_nak event_ack
  settle-Agrees info key (ok _) = ground arith
  settle-Agrees info key (err e) = ground arith
  settle-Agrees info key panic = ground arith

  traced-Agrees :
      (o : Option (DeliveryInfo → String)) (info : DeliveryInfo) (msg : Message)
      (f : WrappedHandler) (key : String)
      → Agrees (traced env run c o info msg f (settle env run c info key))
        × (count counts_received (traced env run c o info msg f (settle env run c info key)) ≡ 0)
  unfolding traced
  traced-Agrees none info msg f key = ground arith
  traced-Agrees (some g) info msg f key =
      let by =
        settle-Agrees info key
          (f (tracing_context env run c g info msg) (unmarshal_event env run c info msg)) in
      (record { ack = by.0.ack; nak = by.0.nak; term = by.0.term; duration = by.0.duration }, by.1)

  -- Whatever happens to a message, a panic included, it is counted once as received; the counter of
  -- acknowledged messages grows by one exactly if it is acknowledged, that of rejected ones if it is
  -- rejected, and one of the two counters of lost messages if it is terminated; and its duration is
  -- observed exactly if it is acknowledged or rejected.
  pub handle_message-Agrees :
      (msg : Message)
      → Agrees (handle_message env run c msg)
        × (count counts_received (handle_message env run c msg) ≡ 1)
  unfolding handle_message handle_delivery event_received event_without_handler
  handle_message-Agrees msg =
      elim (Option-cases (get env.messaging run.handlers (routing_key_of msg.subject))) [
        | inl e ↦ rw e (ground arith)
        | inr (f, e) ↦
            let key = routing_key_of msg.subject in
            let by =
              traced-Agrees c.span_name_fn (delivery_info env run c c.stream msg key) msg f key in
            rw e (
              record { ack = by.0.ack; nak = by.0.nak; term = by.0.term; duration = by.0.duration },
              ap suc by.1,
            )
      ]
