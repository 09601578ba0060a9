-- ===== src/Consumer/Dispatch.antt =====
-- From a published subject to the handler that is registered for its routing key.
use Prim.Native.Char.{Char}
use Prim.Native.String.{◌++◌, ◌∷◌}
use text.Mathlib.TextLemmas.{cons-append, nil-append}
use go_messaging_nats.Base.{String, some, ◌≡◌, ◌∙◌, ap, subst}
use go_messaging_nats.Base.GoMap.{lookup, HasDistinctKeys}
use go_messaging_nats.Base.GoMap.Order.{IsOrderOf}
use go_messaging_nats.Base.Text.{Lacks, after_first-append}
use go_messaging_nats.Messaging.{Messaging, HasSubjectFormat, DeliveryInfo}
use go_messaging_nats.Nats.{Message}
use go_messaging_nats.Naming.{subject_name}
use go_messaging_nats.Handler.{WrappedHandler}
use go_messaging_nats.Routing.{get}
use go_messaging_nats.Routing.Matching.{Matches, IsOnlyMatch, get_of_IsOnlyMatch}
use go_messaging_nats.Consumer.{JsConsumer, Env, Run}
use go_messaging_nats.Consumer.Delivery.{routing_key_of, delivery_info, handle_message}
use go_messaging_nats.Consumer.Settlement.{IsServedBy, handle_message-IsServedBy}

abbrev dot : Char
dot = "."

dot_form : (s k : String) → s ++ ("." ++ k) ≡ s ++ (dot ∷ k)
dot_form s k = rw cons-append (rw nil-append)

-- The routing key that a consumer reads off a subject is the one that the publisher built it from,
-- for subjects in the documented format and streams whose names have no dot.
pub routing_key_of-subject_name :
    (m : Messaging) (stream routing_key : String)
    → HasSubjectFormat m
    → Lacks b'.' stream
    → routing_key_of (subject_name m stream routing_key) ≡ routing_key
unfolding routing_key_of subject_name
routing_key_of-subject_name m stream routing_key format plain =
    rw (format, dot_form, after_first-append dot stream routing_key plain)

-- A message published to a stream whose name has no dot reaches the handler of the one registered
-- pattern that matches its routing key, in every iteration order of the handler map, and is settled
-- by that handler's result. Subjects have the documented format, the handler map has distinct keys,
-- and the consumer has a function for span names.
pub handle_message_dispatch :
    (env : Env) (run : Run) (c : JsConsumer) (span_name : DeliveryInfo → String) (msg : Message)
    (stream key p : String) (f : WrappedHandler)
    → HasSubjectFormat env.messaging
    → Lacks b'.' stream
    → msg.subject ≡ subject_name env.messaging stream key
    → c.span_name_fn ≡ some span_name
    → HasDistinctKeys c.handlers
    → IsOrderOf c.handlers run.handlers
    → lookup p c.handlers ≡ some f
    → Matches env.messaging key p
    → IsOnlyMatch env.messaging key c.handlers p
    → IsServedBy env run c span_name
        (delivery_info env run c c.stream msg key)
        msg
        f
        (handle_message env run c msg)
handle_message_dispatch env run c span_name msg stream key p f format plain sent named d o e hit
      only =
    let same : routing_key_of msg.subject ≡ key =
      ap routing_key_of sent ∙ routing_key_of-subject_name env.messaging stream key format plain in
    let found = get_of_IsOnlyMatch env.messaging key c.handlers run.handlers p f d o hit e only in
    subst
      (λ k.
        IsServedBy env run c span_name (delivery_info env run c c.stream msg k) msg f
          (handle_message env run c msg))
      same
      (handle_message-IsServedBy env run c span_name msg f named
        (ap (get env.messaging run.handlers) same ∙ found))
