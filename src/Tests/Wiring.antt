-- ===== src/Tests/Wiring.antt =====
-- Publishers that are set up on a connection.
use go_messaging_nats.Base.{[], ◌∷◌, none, ◌≡◌, refl, ◌≢◌, All}
use go_messaging_nats.Base.GoMap.{lookup}
use go_messaging_nats.Tracing.{propagator_or_global}
use go_messaging_nats.Headers.{header_service}
use go_messaging_nats.Nats.Lookups.{map_ops, map_ops-IsHeaderOps}
use go_messaging_nats.Publisher.{set_headers, span_context, out_message}
use go_messaging_nats.Publisher.Stamping.{ce_keys}
use go_messaging_nats.Setup.Publishers.{setup_publisher}
use go_messaging_nats.Setup.Identity.{out_message_service}
use go_messaging_nats.Tests.Fixtures.{messaging}
use go_messaging_nats.Tests.Starting.{working, connection}
use go_messaging_nats.Tests.Publishing.{
  env, publisher, attempt, given, allowed, differ, distinct_names,
}

free_name : All (λ k. header_service ≢ k) (ce_keys messaging)
free_name =
    (differ refl, (differ refl, (differ refl, (differ refl, (differ refl, (differ refl, tt))))))

nothing_injected :
    lookup header_service (
      (propagator_or_global
          (setup_publisher working connection "audit" publisher).propagator
          env.global_propagator).inject
        (span_context env
          (setup_publisher working connection "audit" publisher)
          "Order.Created"
          attempt))
    ≡ none
unfolding propagator_or_global setup_publisher
nothing_injected = refl

out_message_service_example :
    map_ops.get
      (out_message env
        (setup_publisher working connection "audit" publisher)
        "Order.Created"
        attempt
        (set_headers map_ops
          (set_headers map_ops []
            (setup_publisher working connection "audit" publisher).default_headers)
          given)
        (7 ∷ [])).header
      header_service
    ≡ "orders"
out_message_service_example =
    out_message_service working connection "audit" publisher env "Order.Created" attempt given
      (7 ∷ []) map_ops-IsHeaderOps distinct_names free_name allowed nothing_injected
