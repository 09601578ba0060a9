-- ===== src/Setup/Identity.antt =====
-- The `service` header of published messages (publisher.go: setup, Publish).
use go_messaging_nats.Base.{String, List, [], ◌∷◌, ◌++◌, none, ◌≡◌, refl, sym, ◌∙◌, ◌≢◌, All}
use go_messaging_nats.Base.GoMap.{lookup}
use go_messaging_nats.Messaging.{AllDistinct}
use go_messaging_nats.Nats.{Bytes, NatsHeader, HeaderOps, IsHeaderOps}
use go_messaging_nats.Nats.Lookups.{get-set_self, get-set_ne}
use go_messaging_nats.Headers.{Header, header_service}
use go_messaging_nats.Tracing.{inject_to_headers, propagator_or_global}
use go_messaging_nats.Tracing.Carriers.{get-set_all}
use go_messaging_nats.Connection.{Connection, Client, Publisher}
use go_messaging_nats.Publisher.{Env, Attempt, set_headers, span_context, stamped, out_message}
use go_messaging_nats.Publisher.Stamping.{ce_keys, stamped-IsStamped}
use go_messaging_nats.Publisher.Outcomes.{IsAllowed}
use go_messaging_nats.Setup.Publishers.{setup_publisher}

module _ (ops : HeaderOps) (laws : IsHeaderOps ops) where
  -- Headers that do not have the key leave its value alone.
  get-set_headers :
      (nh : NatsHeader) (hs : List Header) (k : String)
      → All (λ h. k ≢ h.key) hs
      → ops.get (set_headers ops nh hs) k ≡ ops.get nh k
  unfolding set_headers
  get-set_headers nh [] k ne = refl
  get-set_headers nh (h ∷ hs) k ne =
      get-set_headers (ops.set nh h.key h.value) hs k ne.1
      ∙ get-set_ne ops laws nh h.key k h.value ne.0

  get-set_headers_last :
      (nh : NatsHeader) (hs : List Header) (k v : String)
      → ops.get (set_headers ops nh (hs ++ record { key = k; value = v } ∷ [])) k ≡ v
  unfolding set_headers
  get-set_headers_last nh [] k v = get-set_self ops laws nh k v
  get-set_headers_last nh (h ∷ hs) k v = get-set_headers_last (ops.set nh h.key h.value) hs k v

allowed_keys : (hs : List Header) → All IsAllowed hs → All (λ h. header_service ≢ h.key) hs
allowed_keys [] a = tt
allowed_keys (h ∷ hs) a = ((λ e. a.0.1 (sym e)), allowed_keys hs a.1)

-- A message of a publisher that was set up on a connection carries the name of the connection's
-- service in its `service` header, whatever allowed headers the caller gives. The header names of
-- CloudEvents are distinct and none is `service`, and the propagator does not write that header.
pub out_message_service :
    (client : Client) (c : Connection) (stream : String) (q : Publisher) (env : Env) (key : String)
    (a : Attempt) (headers : List Header) (bytes : Bytes)
    → IsHeaderOps env.header_ops
    → AllDistinct (ce_keys env.messaging)
    → All (λ k. header_service ≢ k) (ce_keys env.messaging)
    → All IsAllowed headers
    → let p = setup_publisher client c stream q in
      lookup header_service (
          (propagator_or_global p.propagator env.global_propagator).inject
            (span_context env p key a))
        ≡ none
      → env.header_ops.get
          (out_message env p key a
            (set_headers env.header_ops (set_headers env.header_ops [] p.default_headers) headers)
            bytes).header
          header_service
        ≡ c.service_name
unfolding out_message inject_to_headers setup_publisher
out_message_service client c stream q env key a headers bytes laws distinct free allowed quiet =
    let p = setup_publisher client c stream q in
    let first = set_headers env.header_ops [] p.default_headers in
    let nh = set_headers env.header_ops first headers in
    get-set_all env.header_ops laws env.global_propagator (stamped env p key a nh)
      ((propagator_or_global p.propagator env.global_propagator).inject (span_context env p key a))
      header_service quiet
    ∙ (stamped-IsStamped env laws distinct p key a nh).others header_service free
    ∙ get-set_headers env.header_ops laws first headers header_service
        (allowed_keys headers allowed)
    ∙ get-set_headers_last env.header_ops laws [] q.default_headers header_service c.service_name
