-- ===== src/Connection/Requested.antt =====
-- The consumers that the connection asks the NATS server for, and the calls that ask for them.
use go_messaging_nats.Base.{List, [], ◌∷◌, ◌++◌, Option, some, ◌≡◌, refl, ap}
use go_messaging_nats.Errors.{Handle, Result, ok}
use go_messaging_nats.Messaging.{Messaging}
use go_messaging_nats.Consumer.{JsConsumer}
use go_messaging_nats.Config.{ConsumerConfig}
use go_messaging_nats.Connection.{
  Connection, Client, Call, StreamSettings, ConsumerSettings, create_or_update_stream,
  create_or_update_consumer, consume,
}
use go_messaging_nats.Connection.Stream.{stream_settings}
use go_messaging_nats.Connection.Groups.{group_handlers, consumer_settings}
use go_messaging_nats.Connection.Consumers.{tracer, new_consumer}

-- One consumer as the server is asked for it: its stream, its settings, and the callback's consumer.
pub record Request : Type 0 where
  pub stream : StreamSettings
  pub settings : ConsumerSettings
  pub consumer : JsConsumer

-- The three calls of a group, as they follow one another.
abbrev pub requests : List Call → List Request
requests
      (create_or_update_stream js stream
        ∷ create_or_update_consumer h settings
        ∷ consume k consumer
        ∷ calls) =
    record { stream = stream; settings = settings; consumer = consumer } ∷ requests calls
requests _ = []

-- The three calls of one request, each with the handle that the client answered to the one before.
pub record Created (client : Client) (o : Option Handle) (before : List Call) (r : Request)
    : Type 0 where
  pub js : Handle
  pub stream : Handle
  pub cons : Handle
  pub ctx : Handle
  pub linked : o ≡ some js
  pub ensured : client.answer before (create_or_update_stream js r.stream) ≡ ok stream
  pub created :
      client.answer
        (before ++ create_or_update_stream js r.stream ∷ [])
        (create_or_update_consumer stream r.settings)
      ≡ ok cons
  pub consumed :
      client.answer
        (before
          ++ create_or_update_stream js r.stream ∷ create_or_update_consumer stream r.settings ∷ [])
        (consume cons r.consumer)
      ≡ ok ctx

abbrev pub calls_of :
    {client : Client} {o : Option Handle} {before : List Call} {r : Request}
    → Created client o before r
    → List Call
calls_of {r = r} c =
    create_or_update_stream c.js r.stream
    ∷ create_or_update_consumer c.stream r.settings
    ∷ consume c.cons r.consumer
    ∷ []

-- Step by step, the calls of the requests: with the JetStream context of the connection, the stream is
-- ensured, the consumer is created on the stream that the client answered, and is consumed from as the
-- client answered it. `before` are the calls made before, `contexts` what Consume answered.
abbrev pub IsAnswered :
    Client → Option Handle → List Call → List Request → List Call → List (Option Handle) → Type 0
IsAnswered client o before [] made contexts = (made ≡ []) × (contexts ≡ [])
IsAnswered client o before (r ∷ rs) made contexts =
    (c : Created client o before r) × (later : List Call) × (more : List (Option Handle)) × (made
      ≡ calls_of c ++ later)
    × (contexts ≡ some c.ctx ∷ more)
    × IsAnswered client o (before ++ calls_of c) rs later more

abbrev pub handle_of : Result Handle → Handle
handle_of (ok h) = h
handle_of _ = 0

module _ (client : Client) (m : Messaging) where
  -- What the configurations of one group ask for.
  abbrev pub requested : Connection → ConsumerConfig → List ConsumerConfig → Request
  requested c first configs = record {
    stream = stream_settings c first.stream;
    settings = consumer_settings m c.consumer_defaults first configs;
    consumer = new_consumer client c first.consumer_name first.stream (group_handlers [] configs);
  }

  abbrev pub all_requested : Connection → List (List ConsumerConfig) → List Request
  all_requested c [] = []
  all_requested c ([] ∷ gs) = all_requested c gs
  all_requested c ((first ∷ rest) ∷ gs) = requested c first (first ∷ rest) ∷ all_requested c gs

  pub all_requested-consumers :
      (c : Connection) (contexts : List (Option Handle)) (gs : List (List ConsumerConfig))
      → all_requested (record c { consumers = contexts }) gs ≡ all_requested c gs
  unfolding stream_settings new_consumer tracer
  all_requested-consumers c contexts [] = refl
  all_requested-consumers c contexts ([] ∷ gs) = all_requested-consumers c contexts gs
  all_requested-consumers c contexts ((first ∷ rest) ∷ gs) =
      ap (◌∷◌ (requested c first (first ∷ rest))) (all_requested-consumers c contexts gs)
