-- ===== src/Tests/Services.antt =====
-- A service that consumes two kinds of events, and a publisher.
use mathlib.Core.List.{Memᴰ}
use go_messaging_nats.Base.{
  String, List, [], ◌∷◌, none, some, ◌≡◌, inr, refl, sym, subst, false, All, arith,
}
use go_messaging_nats.Base.Int.{pos}
use go_messaging_nats.Errors.{ok}
use go_messaging_nats.Naming.{subject_name, filter_subject, stream_name, consumer_name}
use go_messaging_nats.Config.{ConsumerConfig, new_consumer_config}
use go_messaging_nats.Handler.{new_wrapped_handler}
use go_messaging_nats.Connection.{js_publish}
use go_messaging_nats.Connection.Groups.Settings.{HasSubject}
use go_messaging_nats.Connection.Groups.Members.{Agrees}
use go_messaging_nats.Connection.Running.{start-IsRunning}
use go_messaging_nats.Connection.Start.{start}
use go_messaging_nats.Setup.Consumers.{consume_stream}
use go_messaging_nats.Setup.Accepting.{consume_stream-Accepts}
use go_messaging_nats.Setup.Registrations.{
  Registration, registering, stream_config, consume_stream-Registers,
}
use go_messaging_nats.Publisher.{out_message, publish}
use go_messaging_nats.Publisher.Outcomes.{sends}
use go_messaging_nats.Exchange.Events.{given}
use go_messaging_nats.Exchange.Serving.{all_registered, StartsServing}
use go_messaging_nats.Exchange.Services.{HandlesWith, start-publish-handle_message}
use go_messaging_nats.Tests.Fixtures.{messaging, consumer_env}
use go_messaging_nats.Tests.Publishing
use go_messaging_nats.Tests.Publishing.{env, publisher, attempt, allowed, differ}
use go_messaging_nats.Tests.Reaching.{works}
use go_messaging_nats.Tests.Requests.{byte, ignores, describe}
use go_messaging_nats.Tests.Starting.{working, fresh}

abbrev registration : String → Registration
registration key = record {
  setup = record {
    name = "StreamConsumer";
    apply = consume_stream working messaging describe false byte "events" key ignores [];
  };
  configs = stream_config working messaging describe byte false "events" key ignores [];
  correct = consume_stream-Registers working messaging describe byte false "events" key ignores [];
}

abbrev registrations : List Registration
registrations = registration "Order.Created" ∷ registration "Order.Shipped" ∷ []

abbrev configuration : String → ConsumerConfig
configuration key = record {
  stream = stream_name messaging "events";
  routing_key = key;
  consumer_name = consumer_name "orders";
  ephemeral = false;
  handler = new_wrapped_handler describe byte ignores;
  suffix = "";
  max_deliver = pos 0;
  back_off = none;
}

abbrev configurations : List ConsumerConfig
configurations = configuration "Order.Created" ∷ configuration "Order.Shipped" ∷ []

registers : all_registered fresh registrations ≡ configurations
unfolding new_consumer_config
registers = refl

starts : (start working messaging (registering registrations) fresh).0 ≡ ok tt
unfolding new_consumer_config
starts =
    (start-IsRunning working works messaging (registering registrations)
      (
        consume_stream-Accepts working messaging works describe byte false "events" "Order.Created"
            ignores [] (λ service. refl),
        (
          consume_stream-Accepts working messaging works describe byte false "events"
              "Order.Shipped" ignores [] (λ service. refl),
          tt,
        ),
      )
      fresh refl refl).0

alone : All (Agrees messaging "Order.Created" (configuration "Order.Created")) configurations
alone = ((λ e hit. (refl, refl)), ((λ e hit. cc), tt))

have_subjects : All (HasSubject messaging) configurations
unfolding filter_subject stream_name
have_subjects = (differ refl, (differ refl, tt))

start-publish-handle_message_example :
    let out =
      out_message env publisher "Order.Created" attempt
        (given env publisher "Order.Created" attempt Publishing.given)
        (1 ∷ 2 ∷ []) in
    (sends (publish env publisher "Order.Created" attempt Publishing.given).effects ≡ out ∷ [])
    × (out.subject ≡ subject_name consumer_env.messaging "events" "Order.Created")
    × (v : StartsServing working consumer_env "Order.Created"
        (configuration "Order.Created")
        (start working messaging (registering registrations) fresh).1)
    × HandlesWith consumer_env "Order.Created"
        (configuration "Order.Created").handler
        ignores
        (1 ∷ [])
        out
        v.request.consumer
unfolding stream_name
start-publish-handle_message_example =
    start-publish-handle_message env publisher "Order.Created" attempt Publishing.given working
      consumer_env registrations fresh byte ignores describe (configuration "Order.Created")
      (1 ∷ 2 ∷ []) (js_publish (some 5)) (1 ∷ []) refl refl starts
      (subst (Memᴰ (configuration "Order.Created")) (sym registers) (Memᴰ.head refl)) refl refl
      (subst (All (Agrees messaging "Order.Created" (configuration "Order.Created")))
        (sym registers) alone)
      (subst (All (HasSubject messaging)) (sym registers) have_subjects) allowed refl refl refl refl
      (λ stream key. refl) refl (omega arith) (inr (refl, refl))
