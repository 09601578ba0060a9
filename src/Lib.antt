-- ===== src/Lib.antt =====
-- go-messaging-nats: a Go library that connects a service to NATS. A service builds a Connection,
-- and Start runs its setup functions, which register consumers and wire publishers; a consumer hands
-- each message to the handler of its routing key and settles it; a publisher encodes a message,
-- stamps it with CloudEvents headers and sends it.
--
-- The parts, and the files of the repository that they model:
--   Naming        naming.go: streams, subjects and consumer names. Naming/Injective is a proof.
--   Headers       headers.go: validation of headers, and both conversions. Conversion is a proof.
--   Metrics       metrics.go: what is counted and observed, as a list of samples; InitMetrics.
--                 Metrics/Registering has proofs on the latter.
--   Tracing       tracing.go: attributes of spans, and the trace context in message headers.
--                 Carriers is a proof.
--   Handler       consumable_event.go, handler.go, and TypeMappingHandler of setup_consumer.go.
--   Routing       routingkey_handlers.go: the handlers of a consumer by pattern. Matching is a
--                 proof.
--   Consumer      consumer.go and notifications.go. Consumer/Delivery has handle_message,
--                 handle_delivery and handle_core_message, which give the effects of one message as
--                 a list in the order of the code; Consumer/Requests has the callback of a
--                 request-response subscription (request_response.go). The other files below
--                 Consumer are proofs: Settlement, Dispatch and Decoding on the handling of
--                 JetStream messages, Core on requests and on notifications, Counts on the metrics.
--   Config        consumerConfig and its options (consumer.go), and the settings of setup.go.
--   Connection    connection.go and the starting of consumers in setup_consumer.go and
--                 request_response.go: the state of a connection, of the publishers, and the calls
--                 made to the NATS client. Monad has the methods that change this state and return
--                 an error; Stream, Groups, Consumers and Start follow the methods of Connection;
--                 Keeps, Lifecycle, Closing and the files below Groups are proofs, as are Requested
--                 and Pending, on what the server is asked for, Waiting and Sound, on every state
--                 that calls of Start and Close reach, and Running, on a server that accepts every
--                 call, which state what a run guarantees in the terms of Contracts; Tracking and
--                 Shutdown, on the consume contexts that are opened and stopped; Stages and
--                 Subscribed, on what Start has asked the server for when it has succeeded.
--   Setup         The setup functions: setup.go (Setup), setup_consumer.go and request_response.go
--                 (Setup/Consumers), setup_publisher.go (Setup/Publishers). Declares, Declarations
--                 and Topology are proofs on topology_export.go, Wiring and Identity on publishers,
--                 Links, Accepting, Tracking and Registrations on what a setup function does to the
--                 connection, Assigning and Assigned on what it does to the publishers.
--   Publisher     publisher.go: Publish and publishMessage, as the effects and the result of a call.
--                 Stamping and Published are proofs on the headers, Outcomes on every branch.
--   Outbox        outbox_adapter.go: PublishRaw. Outbox/Copying is a proof.
--   Exchange      Two services together, as proofs: Events has a publisher and a consumer, Serving
--                 and Services a publisher and a service that Start has started with its consumers,
--                 and Requests a publisher of requests and the service that answers them.
--   Intents       cmd/tck-adapter/main.go: the intents, and the cases of the switch over them.
--   Received      cmd/tck-adapter/main.go: the mutex and the slice that captureHandler, rrHandler
--                 and Received share, with a step for each access of a call to them. Alone is a
--                 proof on a whole call; Guarded, Stepped and Runs are proofs on what every order of
--                 the steps keeps; Work and Progress, on how many there are and that the calls do
--                 not wait for each other forever.
--   Adapter       cmd/tck-adapter/main.go: StartService, what a started service offers, and main
--                 (Adapter/Main). The other files below Adapter are proofs: Started, Kinds,
--                 Endpoints, Keys and Serving on the start of a service; Allocating, Allocated and
--                 Publishers on its publishers; Registering, Captured, Consuming, Appending, Capturing
--                 and Conforming on what its consumers get from another service.
--   Errors        The errors of all files, errors.Is, and results that may be a panic.
--   Base          Helpers: Booleans, lists, maps of Go as lists of entries, texts, integers.
--   Tests         Concrete instances of the parameters, and runs of the code on them.
--
-- Code of other packages is a parameter. Messaging has the package
-- github.com/sparetimecoders/messaging as a record of functions and constants, with the data types
-- whose fields this program sets; Nats has the operations of nats.Header, with the laws that nats.go
-- documents, and OpenTelemetry's propagators. A Client answers each call of the NATS client, on the
-- grounds of all calls made before it; the clock, fresh identifiers, JSON and the results of
-- reflection are arguments of the code that asks for them. A foreign object, such as a connection, a
-- context or a channel, is a handle.
--
-- Go walks a map in a random order: each walk takes its order as an argument, and IsOrderOf says
-- that the order is a permutation of the map's entries. A send to a channel under select happens if
-- the channel is ready, which is an argument too. A nil pointer and a nil function are none, and
-- their use is a panic, which is a result of its own; but messages are handled and published with a
-- mapper of routing keys for metrics that is not nil and does not panic. All loops run over lists
-- and are structural recursion, so there is no fuel; a run of Received is a sequence of steps, whose
-- number is bounded. The integers of the program are counters, durations and limits that are
-- compared and handed on, never computed with, so that no overflow arises; they are ℤ or ℕ.
--
-- A handler is a function of its context and its event, so it keeps no memory of its own. Those of
-- cmd/tck-adapter/main.go append to a shared slice: capture_call is the whole call, with the slice,
-- capture_handler what it returns, and shared_after what the handler calls in the effects of
-- messages do to the slice.
--
-- Not modelled: logging, with WithLogger and the names of loggers; the warning that
-- ValidateCEHeaders gives; help texts and buckets of metrics; and concurrency between messages
-- outside Received, where each message is one run of its handler. A step of Received is one access
-- to the mutex or the slice, and the accesses of all calls are in one order. A server is taken to
-- hand on a message as it was published.
pub mod Base
pub mod Errors
pub mod Messaging
pub mod Nats
pub mod Naming
pub mod Headers
pub mod Metrics
pub mod Tracing
pub mod Handler
pub mod Routing
pub mod Consumer
pub mod Config
pub mod Connection
pub mod Setup
pub mod Publisher
pub mod Outbox
pub mod Exchange
pub mod Intents
pub mod Received
pub mod Adapter
pub mod Tests
