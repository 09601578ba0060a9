-- ===== src/Tests/Publishing.antt =====
-- Messages that are published, and refused.
use go_messaging_nats.Base.{
  String, List, [], ◌∷◌, none, some, ◌≡◌, refl, ◌≢◌, true, false, sym, ◌∙◌, ◌==◌, All, eq_iff,
}
use go_messaging_nats.Errors.{ok, err, foreign}
use go_messaging_nats.Nats.Lookups.{map_ops, map_ops-IsHeaderOps}
use go_messaging_nats.Headers.{Header, header_service}
use go_messaging_nats.Messaging.{AllDistinct}
use go_messaging_nats.Connection.{Publisher, js_publish}
use go_messaging_nats.Publisher.{Env, Attempt, set_headers, out_message, publish}
use go_messaging_nats.Publisher.Stamping.{ce_keys}
use go_messaging_nats.Publisher.Published.{IsPublished, carrier, publish-IsPublished}
use go_messaging_nats.Tracing.{propagator_or_global}
use go_messaging_nats.Base.GoMap.{HasDistinctKeys}
use go_messaging_nats.Publisher.Outcomes.{
  IsAllowed, IsSent, sends, is_err, publish_refused, publish-IsSent,
}
use go_messaging_nats.Tests.Fixtures.{messaging, no_propagation}

abbrev pub env : Env
env = record {
  messaging = messaging;
  header_ops = map_ops;
  mapper = λ k. k;
  global_propagator = no_propagation;
  global_tracer = 0;
  started = λ tracer ctx name attrs. 1;
  send = λ fn ctx msg. err (foreign 4);
}

abbrev pub publisher : Publisher
publisher = record {
  stream = "events";
  service_name = "orders";
  default_headers = [];
  tracer = none;
  propagator = none;
  span_name_fn = none;
  publish_fn = some (js_publish (some 5));
  subject_fn = none;
}

abbrev pub attempt : Attempt
attempt = record {
  context = 0;
  json = ok (1 ∷ 2 ∷ []);
  now = "2024-01-01T00:00:00Z";
  uuid = "u1";
  elapsed = 3;
}

abbrev pub given : List Header
given = record { key = "x-team"; value = "billing" } ∷ []

pub differ : {a b : String} → (a == b) ≡ false → a ≢ b
differ {a} {b} h e = cc (sym ((eq_iff a b).1 e) ∙ h)

pub distinct_names : AllDistinct (ce_keys messaging)
distinct_names = (
  (differ refl, (differ refl, (differ refl, (differ refl, (differ refl, tt))))),
  (
    (differ refl, (differ refl, (differ refl, (differ refl, tt)))),
    (
      (differ refl, (differ refl, (differ refl, tt))),
      ((differ refl, (differ refl, tt)), ((differ refl, tt), (tt, tt))),
    ),
  ),
)

pub allowed : All IsAllowed given
allowed = ((differ refl, differ refl), tt)

publish-IsSent_example :
    IsSent env publisher "Order.Created" attempt
      (js_publish (some 5))
      (out_message env publisher "Order.Created" attempt
        (set_headers map_ops (set_headers map_ops [] publisher.default_headers) given)
        (1 ∷ 2 ∷ []))
      (publish env publisher "Order.Created" attempt given)
publish-IsSent_example =
    publish-IsSent env publisher "Order.Created" attempt given (1 ∷ 2 ∷ []) (js_publish (some 5))
      allowed refl refl

publish_refused_example :
    ((publish env publisher "Order.Created" attempt
        (record { key = header_service; value = "x" } ∷ given)).effects
      ≡ [])
    × (is_err
          (publish env publisher "Order.Created" attempt
            (record { key = header_service; value = "x" } ∷ given)).result
        ≡ true)
publish_refused_example =
    publish_refused env publisher "Order.Created" attempt
      (record { key = header_service; value = "x" } ∷ given) (λ all. all.0.1 refl)

-- A publisher whose propagator writes a header.
abbrev tracing_publisher : Publisher
tracing_publisher = record publisher {
  propagator =
      some (record { inject = λ ctx. ("traceparent", "00-1") ∷ []; extract = λ ctx carrier. ctx });
}

carrier-HasDistinctKeys : HasDistinctKeys (carrier env tracing_publisher "Order.Created" attempt)
unfolding propagator_or_global
carrier-HasDistinctKeys = (refl, tt)

publish-IsPublished_example :
    let h = set_headers map_ops (set_headers map_ops [] tracing_publisher.default_headers) given in
    let out = out_message env tracing_publisher "Order.Created" attempt h (1 ∷ 2 ∷ []) in
    (sends (publish env tracing_publisher "Order.Created" attempt given).effects ≡ out ∷ [])
    × IsPublished env tracing_publisher "Order.Created" attempt h
        (carrier env tracing_publisher "Order.Created" attempt)
        out.header
publish-IsPublished_example =
    publish-IsPublished env tracing_publisher "Order.Created" attempt given (1 ∷ 2 ∷ [])
      (js_publish (some 5)) map_ops-IsHeaderOps distinct_names allowed refl refl
      carrier-HasDistinctKeys
