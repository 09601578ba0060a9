-- ===== src/Received/Alone.antt =====
-- A call of captureHandler that no other call comes between.
use go_messaging_nats.Base.{List, [], ◌∷◌, ◌++◌, some, false, ◌≡◌, refl}
use go_messaging_nats.Errors.{ok}
use go_messaging_nats.Nats.{Bytes}
use go_messaging_nats.Handler.{ConsumableEvent}
use go_messaging_nats.Received.{ReceivedMessage, capture, access, run_alone, capture_call}

pub capture_call_lem :
    (event : ConsumableEvent Bytes) (received : List ReceivedMessage)
    → capture_call event (record { locked = false; received = received })
      ≡ (record { locked = false; received = received ++ capture event ∷ [] }, some (ok tt))
unfolding capture_call access run_alone
capture_call_lem event received = refl
