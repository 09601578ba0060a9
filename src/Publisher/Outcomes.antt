-- ===== src/Publisher/Outcomes.antt =====
-- What a call of Publish sends, records and returns, on every branch.
use go_messaging_nats.Base.{
  String, List, [], ◌∷◌, Option, none, some, ◌≡◌, refl, sym, ◌≢◌, ◌==◌, arith, eq_iff, ap, ◌∙◌, All,
  ◌⊎◌, inl, inr, Bool, Bool-cases, true, false,
}
use mathlib.Core.Option.{some-injective}
use go_messaging_nats.Errors.{Result, ok, err, panic, ◌>>◌, ◌>>=◌}
use go_messaging_nats.Nats.{Bytes, NatsHeader, HeaderOps}
use go_messaging_nats.Headers.{Header, header_service, validate_key}
use go_messaging_nats.Metrics.{Sample, event_publish_succeed, event_publish_failed}
use go_messaging_nats.Connection.{Publisher, PublishFn}
use go_messaging_nats.Publisher.{
  Env, Attempt, OutMessage, Effect, sent, sampled, Outcome, set_headers, add_headers, span_context,
  out_message, reported, sending, encoded, publish_message, publish,
}

-- The messages that were handed to the client.
abbrev pub sends : List Effect → List OutMessage
sends [] = []
sends (sent fn ctx msg ∷ es) = msg ∷ sends es
sends (_ ∷ es) = sends es

abbrev pub metrics : List Effect → List Sample
metrics [] = []
metrics (sampled s ∷ es) = s ∷ metrics es
metrics (_ ∷ es) = metrics es

-- A header that a caller may give: its key is neither empty nor reserved.
abbrev pub IsAllowed : Header → Type 0
IsAllowed h = (h.key ≢ "") × (h.key ≢ header_service)

abbrev pub is_err : {A : Type 0} → Result A → Bool
is_err (err e) = true
is_err _ = false

validate_key_cases :
    (h : Header)
    → (IsAllowed h × (validate_key h ≡ ok tt))
      ⊎ ((¬ IsAllowed h) × (is_err (validate_key h) ≡ true))
unfolding validate_key
validate_key_cases h = elim (Bool-cases (h.key == "")) [
  | inl empty ↦ inr ((λ a. a.0 ((eq_iff h.key "").0 empty)), rw (empty, validate_key))
  | inr given ↦ elim (Bool-cases (header_service == h.key)) [
    | inl taken ↦ inr ((λ a. a.1 (sym ((eq_iff header_service h.key).0 taken))), rw (given, taken))
    | inr free ↦ inl (
      (
        (λ e. cc (sym ((eq_iff h.key "").1 e) ∙ given)),
        (λ e. cc (sym ((eq_iff header_service h.key).1 (sym e)) ∙ free)),
      ),
      rw (given, free),
    )
  ]
]

is_err->>= :
    {A B : Type 0} (r : Result A) (f : A → Result B) → is_err r ≡ true → is_err (r >>= f) ≡ true
is_err->>= (ok a) f h = cc
is_err->>= (err e) f h = refl
is_err->>= panic f h = cc

-- The headers are all set, or one of them is refused.
add_headers_cases :
    (ops : HeaderOps) (nh : NatsHeader) (hs : List Header)
    → (All IsAllowed hs × (add_headers ops nh hs ≡ ok (set_headers ops nh hs)))
      ⊎ ((¬ All IsAllowed hs) × (is_err (add_headers ops nh hs) ≡ true))
unfolding add_headers set_headers
add_headers_cases ops nh [] = inl (tt, refl)
add_headers_cases ops nh (h ∷ hs) = elim (validate_key_cases h) [
  | inr (bad, e) ↦ inr ((λ a. bad a.0), is_err->>= (validate_key h) _ e)
  | inl (good, e) ↦ elim (add_headers_cases ops (ops.set nh h.key h.value) hs) [
    | inl (all, es) ↦ inl ((good, all), rw (e, ◌>>◌, ◌>>=◌) es)
    | inr (bad, es) ↦ inr ((λ a. bad a.1), rw (e, ◌>>◌, ◌>>=◌) es)
  ]
]

-- A call with a header whose key is empty or reserved fails and sends nothing; it leaves no trace.
pub publish_refused :
    (env : Env) (p : Publisher) (key : String) (a : Attempt) (headers : List Header)
    → ¬ All IsAllowed headers
    → ((publish env p key a headers).effects ≡ [])
      × (is_err (publish env p key a headers).result ≡ true)
unfolding publish
publish_refused env p key a headers bad =
    elim (add_headers_cases env.header_ops (set_headers env.header_ops [] p.default_headers)
      headers) [ inl (all, e) ↦ absurd (bad all) | inr (_, e) ↦ ground arith ]

-- The result of a call, and its metrics, where the client answers `r`.
abbrev pub measured : Env → Publisher → String → Attempt → Result (Unit {0}) → List Sample
measured env p key a (ok _) = event_publish_succeed env.mapper p.stream key a.elapsed
measured env p key a (err e) = event_publish_failed env.mapper p.stream key a.elapsed
measured env p key a panic = []

-- The client got the message `msg` once, by `fn`, and its answer is the result.
pub record IsSent (env : Env) (p : Publisher) (key : String) (a : Attempt) (fn : PublishFn)
    (msg : OutMessage) (out : Outcome) : Type 0 where
  pub once : sends out.effects ≡ msg ∷ []
  pub answered : out.result ≡ env.send fn (span_context env p key a) msg
  pub counted :
      metrics out.effects ≡ measured env p key a (env.send fn (span_context env p key a) msg)

reported_lem :
    (env : Env) (p : Publisher) (key : String) (a : Attempt) (r : Result (Unit {0}))
    → ((reported env p key a r).result ≡ r)
      × (sends (reported env p key a r).effects ≡ [])
      × (metrics (reported env p key a r).effects ≡ measured env p key a r)
unfolding reported event_publish_succeed event_publish_failed
reported_lem env p key a (ok _) = (refl, refl, refl)
reported_lem env p key a (err e) = (refl, refl, refl)
reported_lem env p key a panic = (refl, refl, refl)

sending-IsSent :
    (env : Env) (p : Publisher) (key : String) (a : Attempt) (o : Option PublishFn) (fn : PublishFn)
    (msg : OutMessage)
    → o ≡ some fn
    → IsSent env p key a fn msg (sending env p key a o msg)
unfolding sending
sending-IsSent env p key a none fn msg e = cc
sending-IsSent env p key a (some g) fn msg e = rw (some-injective g fn e) (record {
  once = ap (◌∷◌ msg) (reported_lem env p key a _).1;
  answered = (reported_lem env p key a _).0;
  counted = (reported_lem env p key a _).2;
})

encoded-IsSent :
    (env : Env) (p : Publisher) (key : String) (a : Attempt) (nh : NatsHeader) (r : Result Bytes)
    (bytes : Bytes) (fn : PublishFn)
    → r ≡ ok bytes
    → p.publish_fn ≡ some fn
    → IsSent env p key a fn (out_message env p key a nh bytes) (encoded env p key a nh r)
unfolding encoded
encoded-IsSent env p key a nh (ok b) bytes fn e wired =
    let same : b ≡ bytes = cc in
    let by = sending-IsSent env p key a p.publish_fn fn (out_message env p key a nh bytes) wired in
    rw same (record { once = by.once; answered = by.answered; counted = by.counted })
encoded-IsSent env p key a nh (err x) bytes fn e wired = cc
encoded-IsSent env p key a nh panic bytes fn e wired = cc

-- A call on a wired publisher with allowed headers and an encodable message hands exactly one message
-- to the client, with the publisher's subject for the routing key, the JSON payload, and the stamped
-- headers; the client's answer is the result, and the success or failure is counted accordingly.
pub publish-IsSent :
    (env : Env) (p : Publisher) (key : String) (a : Attempt) (headers : List Header) (bytes : Bytes)
    (fn : PublishFn)
    → All IsAllowed headers
    → a.json ≡ ok bytes
    → p.publish_fn ≡ some fn
    → IsSent env p key a fn
        (out_message env p key a
          (set_headers env.header_ops (set_headers env.header_ops [] p.default_headers) headers)
          bytes)
        (publish env p key a headers)
unfolding publish publish_message
publish-IsSent env p key a headers bytes fn all json wired =
    elim (add_headers_cases env.header_ops (set_headers env.header_ops [] p.default_headers)
      headers) [
        | inl (_, e) ↦
            let nh =
              set_headers env.header_ops (set_headers env.header_ops [] p.default_headers)
                headers in
            let by = encoded-IsSent env p key a nh a.json bytes fn json wired in
            rw (e, publish)
              (record { once = by.once; answered = by.answered; counted = by.counted })
        | inr (bad, _) ↦ absurd (bad all)
      ]
