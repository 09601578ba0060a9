-- ===== src/Outbox.antt =====
-- outbox_adapter.go: messages that were serialised before.
pub mod Copying
use go_messaging_nats.Base.{String, [], ◌∷◌, Option, none, some}
use go_messaging_nats.Base.GoMap.{GoMap}
use go_messaging_nats.Errors.{Result, err, sentinel, publisher_not_wired}
use go_messaging_nats.Nats.{Bytes, Context, NatsHeader, HeaderOps}
use go_messaging_nats.Connection.{Publisher, PublishFn}
use go_messaging_nats.Publisher.{Env, OutMessage, subject_of}

-- The loop over the map of headers, in the order in which it meets them.
unfoldable pub copy_headers : HeaderOps → NatsHeader → (order : GoMap String) → NatsHeader
copy_headers ops nh [] = nh
copy_headers ops nh ((k, v) ∷ order) = copy_headers ops (ops.set nh k v) order

-- The message that is handed to the client, and how; none on a publisher that is not wired.
pub record Sent : Type 0 where
  pub via : PublishFn
  pub message : OutMessage

module _ (env : Env) where
  unfoldable pub raw_message : Publisher → String → Bytes → (order : GoMap String) → OutMessage
  unfolding copy_headers
  raw_message p routing_key payload order = record {
    subject = subject_of env p routing_key;
    payload = payload;
    header = copy_headers env.header_ops [] order;
  }

  unfoldable pub publish_raw :
      Publisher
      → Context
      → String
      → Bytes
      → (order : GoMap String) → Option Sent × Result (Unit {0})
  unfolding raw_message
  publish_raw p ctx routing_key payload order = elim p.publish_fn [
    | none ↦ (none, err (sentinel publisher_not_wired))
    | some fn ↦ (
      some (record { via = fn; message = raw_message p routing_key payload order }),
      env.send fn ctx (raw_message p routing_key payload order),
    )
  ]
