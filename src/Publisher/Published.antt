-- ===== src/Publisher/Published.antt =====
-- The headers of a message as it is sent: the caller's, the CloudEvents headers, and the trace context.
use go_messaging_nats.Base.{String, List, [], ◌∷◌, some, ◌≡◌, or_default, All}
use go_messaging_nats.Base.GoMap.{GoMap, lookup, HasDistinctKeys}
use go_messaging_nats.Errors.{ok}
use go_messaging_nats.Messaging.{AllDistinct}
use go_messaging_nats.Nats.{Bytes, NatsHeader, IsHeaderOps}
use go_messaging_nats.Headers.{Header}
use go_messaging_nats.Tracing.{inject_to_headers, propagator_or_global}
use go_messaging_nats.Tracing.Carriers.{get-set_all_over}
use go_messaging_nats.Connection.{Publisher, PublishFn}
use go_messaging_nats.Publisher.{
  Env, Attempt, set_headers, span_context, stamped, out_message, publish,
}
use go_messaging_nats.Publisher.Stamping.{IsStamped, ce_keys, stamped-IsStamped}
use go_messaging_nats.Publisher.Outcomes.{IsAllowed, sends, publish-IsSent}

-- `out` has the headers `h` with the CloudEvents headers of the publication, and over them the keys of
-- the propagator's carrier.
pub record IsPublished (env : Env) (p : Publisher) (key : String) (a : Attempt) (h : NatsHeader)
    (carrier : GoMap String) (out : NatsHeader) : Type 0 where
  pub before : NatsHeader
  pub stamping : IsStamped env p key a h before
  pub injected :
      (k : String)
      → env.header_ops.get out k ≡ or_default (lookup k carrier) (env.header_ops.get before k)

module _ (env : Env) (p : Publisher) (key : String) (a : Attempt) where
  -- What the propagator writes for the span of the publication.
  abbrev pub carrier : GoMap String
  carrier =
      (propagator_or_global p.propagator env.global_propagator).inject (span_context env p key a)

  out_message-IsPublished :
      (h : NatsHeader) (bytes : Bytes)
      → IsHeaderOps env.header_ops
      → AllDistinct (ce_keys env.messaging)
      → HasDistinctKeys carrier
      → IsPublished env p key a h carrier (out_message env p key a h bytes).header
  unfolding out_message inject_to_headers
  out_message-IsPublished h bytes laws distinct keys = record {
    before = stamped env p key a h;
    stamping = stamped-IsStamped env laws distinct p key a h;
    injected = λ k.
        get-set_all_over env.header_ops laws env.global_propagator (stamped env p key a h) carrier k
          keys;
  }

  -- A publication with allowed headers and an encodable message, on a wired publisher, sends one
  -- message. Where the propagator writes a header of the message, it has that value. Of its other
  -- headers, each CloudEvents header has the value of the publisher's and the caller's headers where
  -- that is not empty, and otherwise the specification's version, the routing key, the service's name,
  -- the JSON content type, the time or the fresh UUID; the rest are as the publisher's and the caller's
  -- headers give them. Header maps behave as documented, the CloudEvents header names are distinct,
  -- and the propagator's carrier has each key once.
  pub publish-IsPublished :
      (headers : List Header) (bytes : Bytes) (fn : PublishFn)
      → IsHeaderOps env.header_ops
      → AllDistinct (ce_keys env.messaging)
      → All IsAllowed headers
      → a.json ≡ ok bytes
      → p.publish_fn ≡ some fn
      → HasDistinctKeys carrier
      → let h =
          set_headers env.header_ops (set_headers env.header_ops [] p.default_headers) headers in
        let out = out_message env p key a h bytes in
        (sends (publish env p key a headers).effects ≡ out ∷ [])
        × IsPublished env p key a h carrier out.header
  publish-IsPublished headers bytes fn laws distinct allowed json wired keys = (
    (publish-IsSent env p key a headers bytes fn allowed json wired).once,
    out_message-IsPublished _ bytes laws distinct keys,
  )
