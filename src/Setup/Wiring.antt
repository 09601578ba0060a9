-- ===== src/Setup/Wiring.antt =====
-- What StreamPublisher and ServicePublisher do to the publisher that they are given.
use text.Mathlib.TextPositions.{compare_self}
use native.Mathlib.Omega.{compare-eq}
use Prim.Native.Nat.{compare, Ordering}
use go_messaging_nats.Base.{String, true, false, some, ◌≡◌, refl, ◌≢◌, arith, if◌then◌else◌}
use go_messaging_nats.Base.Int.{is_zero}
use go_messaging_nats.Errors.{Handle, Error, ok, err}
use go_messaging_nats.Messaging.{Messaging}
use go_messaging_nats.Naming.{stream_name, service_request_subject}
use go_messaging_nats.Connection.{State, Client, js_publish, core_request}
use go_messaging_nats.Connection.Monad.{call, add_endpoint}
use go_messaging_nats.Connection.Stream.{ensure_stream}
use go_messaging_nats.Setup.Publishers.{
  same_handle, stream_publisher, service_publisher, wire_stream, setup_publisher, default_timeout,
}

same_handle_refl : (p : Handle) → same_handle p p ≡ true
same_handle_refl p = rw (compare_self p, same_handle) refl

different :
    (o : Ordering) → (o ≡ Ordering.eq → ⊥) → (elim o [ Ordering.eq ↦ true | _ ↦ false ]) ≡ false
different Ordering.eq h = absurd (h refl)
different Ordering.lt h = refl
different Ordering.gt h = refl

same_handle_ne : (p q : Handle) → p ≢ q → same_handle p q ≡ false
same_handle_ne p q ne = different (compare p q) (λ e. ne (compare-eq p q e))

module _ (client : Client) (publisher : Handle) (s : State) where
  -- A StreamPublisher setup that succeeds on a connection that does not collect leaves the publisher
  -- set up for the stream and wired to the connection's JetStream context, and every other publisher
  -- as it was; if it fails, no publisher has changed.
  pub stream_publisher_lem :
      (m : Messaging) (stream : String)
      → s.conn.collect_mode ≡ false
      → let r = stream_publisher client m stream publisher s in
        (r.0 ≡ ok tt
          → (r.1.publishers publisher
              ≡ setup_publisher client s.conn
                  (stream_name m stream)
                  (record (s.publishers publisher) { publish_fn = some (js_publish s.conn.js) }))
            × ((other : Handle) → publisher ≢ other → r.1.publishers other ≡ s.publishers other))
        × ((e : Error) → r.0 ≡ err e → r.1.publishers ≡ s.publishers)
  unfolding stream_publisher wire_stream ensure_stream call add_endpoint setup_publisher
  stream_publisher_lem m stream live = (
    (λ done. (
      ground (arith, same_handle_refl publisher),
      (λ other ne. ground (arith, same_handle_ne publisher other ne)),
    )),
    (λ e failed. ground arith),
  )

  -- A ServicePublisher setup on a connection that does not collect always succeeds. It leaves the
  -- publisher set up for the service, wired to requests on the NATS connection with the connection's
  -- timeout, or 30 seconds if there is none, and its subjects are those of requests to the service,
  -- whatever stream it is asked for; every other publisher is as it was, and no call is made.
  pub service_publisher_lem :
      (target : String)
      → s.conn.collect_mode ≡ false
      → let r = service_publisher client target publisher s in
        let timeout =
          if is_zero s.conn.request_timeout then default_timeout else s.conn.request_timeout in
        (r.0 ≡ ok tt)
        × (r.1.calls ≡ s.calls)
        × (r.1.publishers publisher
            ≡ setup_publisher client s.conn target (record (s.publishers publisher) {
              publish_fn = some (core_request s.conn.nc timeout);
              subject_fn = some (λ _ key. service_request_subject target key);
            }))
        × ((other : Handle) → publisher ≢ other → r.1.publishers other ≡ s.publishers other)
  unfolding service_publisher add_endpoint setup_publisher
  service_publisher_lem target live = (
    ground arith,
    ground arith,
    ground (arith, same_handle_refl publisher),
    (λ other ne. ground (arith, same_handle_ne publisher other ne)),
  )
