-- ===== src/Tests/Reaching.antt =====
-- States of a connection, and the consumers that it asks for.
use go_messaging_nats.Base.{List, [], ◌∷◌, some, ◌≡◌, refl, ◌≢◌, ◌⊎◌, All, false}
use go_messaging_nats.Base.Int.{negsuc, is_negative}
use go_messaging_nats.Errors.{ok}
use go_messaging_nats.Naming.{filter_subject}
use go_messaging_nats.Config.{ConsumerDefaults}
use go_messaging_nats.Connection.{State}
use go_messaging_nats.Connection.Monad.{call}
use go_messaging_nats.Connection.Stream.{ensure_stream}
use go_messaging_nats.Connection.Groups.{
  consumer_settings, filter_subjects, grouped, group_all, add_to_group, consumer_group_key,
}
use go_messaging_nats.Connection.Groups.Settings.{subjects, HasSubject, consumer_settings_lem}
use go_messaging_nats.Connection.Consumers.{start_group, start_groups, start_pending_js_consumers}
use go_messaging_nats.Connection.Pending.{IsServed, start_pending_js_consumers-IsServed}
use go_messaging_nats.Connection.Start.{Setup, start, close}
use go_messaging_nats.Connection.Sound.{IsSound, started, closed, here, next, Reach-IsSound}
use go_messaging_nats.Setup.Publishers.{stream_publisher}
use go_messaging_nats.Connection.Running.{IsWorking, IsRunning, start-IsRunning}
use go_messaging_nats.Setup.Accepting.{stream_publisher-Accepts}
use go_messaging_nats.Setup.Links.{stream_publisher-KeepsLink}
use go_messaging_nats.Tests.Fixtures.{messaging, config}
use go_messaging_nats.Tests.Publishing.{differ}
use go_messaging_nats.Tests.Starting.{
  working, fresh, connection, publishers, pending, url, connection_made,
}

-- A connection with three registrations for two NATS consumers.
abbrev waiting : State
waiting = record fresh { conn = record connection { js = some 5; pending_js_consumers = pending } }

pending_started : (start_pending_js_consumers working messaging waiting).0 ≡ ok tt
unfolding start_pending_js_consumers start_groups start_group ensure_stream call grouped group_all
    add_to_group consumer_group_key
pending_started = refl

start_pending_js_consumers-IsServed_example :
    IsServed working messaging waiting (start_pending_js_consumers working messaging waiting).1
start_pending_js_consumers-IsServed_example =
    start_pending_js_consumers-IsServed working messaging waiting pending_started

have_subjects : All (HasSubject messaging) (config "Order.Created" ∷ config "Order.Shipped" ∷ [])
unfolding filter_subject
have_subjects = (differ refl, (differ refl, tt))

-- A negative default for MaxDeliver.
abbrev negative_default : ConsumerDefaults
negative_default = record { max_deliver = negsuc 0; back_off = some [] }

consumer_settings_lem_example :
    (subjects (
        consumer_settings messaging negative_default
          (config "Order.Created")
          (config "Order.Created" ∷ config "Order.Shipped" ∷ []))
      ≡ filter_subjects messaging (config "Order.Created" ∷ config "Order.Shipped" ∷ []))
    × (((consumer_settings messaging negative_default
            (config "Order.Created")
            (config "Order.Created" ∷ config "Order.Shipped" ∷ [])).filter_subject
          ≡ "")
        ⊎ ((consumer_settings messaging negative_default
              (config "Order.Created")
              (config "Order.Created" ∷ config "Order.Shipped" ∷ [])).filter_subjects
            ≡ []))
    × (is_negative
          (consumer_settings messaging negative_default
            (config "Order.Created")
            (config "Order.Created" ∷ config "Order.Shipped" ∷ [])).max_deliver
        ≡ false)
    × ((consumer_settings messaging negative_default
          (config "Order.Created")
          (config "Order.Created" ∷ config "Order.Shipped" ∷ [])).back_off
        ≢ some [])
consumer_settings_lem_example =
    consumer_settings_lem messaging negative_default (config "Order.Created")
      (config "Order.Created" ∷ config "Order.Shipped" ∷ []) have_subjects

abbrev pub audit : List Setup
audit =
    record { name = "StreamPublisher"; apply = stream_publisher working messaging "audit" 1 } ∷ []

Reach-IsSound_example : IsSound (close working (start working messaging audit fresh).1).1.conn
Reach-IsSound_example =
    Reach-IsSound working messaging "orders" url [] connection publishers
      (close working (start working messaging audit fresh).1).1 connection_made
      (next
        (next here
          (started fresh audit (stream_publisher-KeepsLink working messaging "audit" 1, tt)))
        (closed (start working messaging audit fresh).1))

pub works : IsWorking working
works before c = refl

start-IsRunning_example :
    ((start working messaging audit fresh).0 ≡ ok tt)
    × IsRunning (start working messaging audit fresh).1.conn
start-IsRunning_example =
    start-IsRunning working works messaging audit
      (stream_publisher-Accepts working messaging works "audit" 1, tt) fresh refl refl
