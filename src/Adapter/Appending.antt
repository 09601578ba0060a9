-- ===== src/Adapter/Appending.antt =====
-- What a service of cmd/tck-adapter/main.go does with one message: it appends and acknowledges it.
use go_messaging_nats.Base.{String, List, [], ◌∷◌, some, ◌≡◌, refl, sym, ◌∙◌, subst, true, false}
use go_messaging_nats.Base.GoMap.Order.{IsOrderOf}
use go_messaging_nats.Errors.{ok}
use go_messaging_nats.Nats.{Bytes}
use go_messaging_nats.Handler.{is_raw}
use go_messaging_nats.Publisher.{OutMessage}
use go_messaging_nats.Consumer
use go_messaging_nats.Consumer.{JsConsumer, Run, acked, handled}
use go_messaging_nats.Consumer.Delivery.{handle_message, delivery_info, unmarshal_event}
use go_messaging_nats.Consumer.Settlement.{calls, settlements}
use go_messaging_nats.Exchange.{delivered}
use go_messaging_nats.Exchange.Services.{HandlesWith}
use go_messaging_nats.Adapter.{Kit, capture_handler}
use go_messaging_nats.Base.{length, ap, ◌++◌}
use go_messaging_nats.Routing.{get}
use go_messaging_nats.Handler.{ConsumableEvent, UnmarshalEvent, new_wrapped_handler}
use go_messaging_nats.Nats.{Context}
use go_messaging_nats.Received.{ReceivedMessage, capture}
use go_messaging_nats.Received.Alone.{capture_call_lem}
use go_messaging_nats.Adapter.{shared_after}
use go_messaging_nats.Consumer.Settlement.{verdict}

capture_handler_lem :
    (ctx : Context) (event : ConsumableEvent Bytes) → capture_handler ctx event ≡ ok tt
unfolding capture_handler
capture_handler_lem ctx event = rw (capture_call_lem event []) refl

-- In every order of its handlers, the callback finds captureHandler for the routing key, calls it once,
-- and acknowledges the message; after the call, the slice has the message as its last element.
pub record IsCaptured (kit : Kit) (env : Consumer.Env) (key : String) (bytes : Bytes)
    (out : OutMessage) (c : JsConsumer) : Type 0 where
  pub found :
      (run : Run)
      → IsOrderOf c.handlers run.handlers
      → get env.messaging run.handlers key
        ≡ some (new_wrapped_handler kit.error_text kit.raw capture_handler)
  pub called :
      (run : Run)
      → IsOrderOf c.handlers run.handlers
      → length (calls (handle_message env run c (delivered out))) ≡ 1
  pub acknowledged :
      (run : Run)
      → IsOrderOf c.handlers run.handlers
      → settlements (handle_message env run c (delivered out)) ≡ acked ∷ []
  pub appended :
      (run : Run) (received : List ReceivedMessage)
      → IsOrderOf c.handlers run.handlers
      → let info = delivery_info env run c c.stream (delivered out) key in
        shared_after kit
          (calls (handle_message env run c (delivered out)))
          (record { locked = false; received = received })
        ≡ record {
          locked = false;
          received =
              received
              ++ record {
                routing_key = key;
                payload = bytes;
                metadata = env.messaging.metadata_from_headers info.headers;
                delivery_info = info;
              }
                ∷ [];
        }

-- One call of a handler for raw JSON appends its event.
shared_after-handled :
    (kit : Kit) (ctx : Context) (event : UnmarshalEvent) (received : List ReceivedMessage)
    → is_raw kit.raw.dynamic ≡ true
    → kit.raw.assert event.payload ≡ some event.payload
    → shared_after kit (handled ctx event ∷ []) (record { locked = false; received = received })
      ≡ record {
        locked = false;
        received =
            received
            ++ record {
              routing_key = event.delivery_info.key;
              payload = event.payload;
              metadata = event.metadata;
              delivery_info = event.delivery_info;
            }
              ∷ [];
      }
unfolding shared_after capture
shared_after-handled kit ctx event received raw asserted =
    rw (shared_after, raw, asserted, capture_call_lem) refl

pub HandlesWith-IsCaptured :
    (kit : Kit) (env : Consumer.Env) (key : String) (bytes : Bytes) (out : OutMessage)
    (c : JsConsumer)
    → out.payload ≡ bytes
    → is_raw kit.raw.dynamic ≡ true
    → kit.raw.assert bytes ≡ some bytes
    → HandlesWith env key
        (new_wrapped_handler kit.error_text kit.raw capture_handler)
        capture_handler
        bytes
        out
        c
    → IsCaptured kit env key bytes out c
unfolding unmarshal_event delivery_info
HandlesWith-IsCaptured kit env key bytes out c sent raw asserted v = record {
  found = v.found;
  called = λ run walk. ap length (v.called run walk);
  acknowledged = λ run walk. v.settled run walk ∙ ap verdict (capture_handler_lem _ _);
  appended = λ run received walk.
      ap (λ es. shared_after kit es (record { locked = false; received = received }))
        (v.called run walk)
      ∙ shared_after-handled kit _ _ received raw
          (subst (λ b. kit.raw.assert b ≡ some b) (sym sent) asserted)
      ∙ (rw sent refl);
}
