-- ===== src/Connection/Groups/Settings.antt =====
-- Which configurations of a group decide its NATS consumer's settings and handlers.
use go_messaging_nats.Connection.{ConsumerSettings}
use go_messaging_nats.Base.{
  All, ◌≢◌, ◌⊎◌, inl, inr, false, arith, eq_iff, none, String, List, [], ◌∷◌, ◌≡◌, refl, ap, map,
  some, Option, if◌then◌else◌, ◌==◌,
}
use go_messaging_nats.Base.Int.{is_negative, ℤ}
use go_messaging_nats.Base.GoMap.{
  lookup, insert, lookup-insert, HasDistinctKeys, insert-HasDistinctKeys,
}
use go_messaging_nats.Config.{ConsumerConfig, ConsumerDefaults, Duration}
use go_messaging_nats.Handler.{WrappedHandler}
use go_messaging_nats.Messaging.{Messaging}
use go_messaging_nats.Naming.{filter_subject}
use go_messaging_nats.Routing.{RoutingKeyHandler, add}
use go_messaging_nats.Connection.Groups.{
  single, several, non_empty, consumer_settings, filter_subjects, group_handlers,
}

-- The configuration with other options for delivery.
abbrev pub with_limits : ℤ → Option (List Duration) → ConsumerConfig → ConsumerConfig
with_limits max_deliver back_off cfg = record cfg { max_deliver = max_deliver; back_off = back_off }

filter_subjects-with_limits :
    (m : Messaging) (n : ℤ) (ds : Option (List Duration)) (configs : List ConsumerConfig)
    → filter_subjects m (map (with_limits n ds) configs) ≡ filter_subjects m configs
unfolding filter_subjects
filter_subjects-with_limits m n ds [] = refl
filter_subjects-with_limits m n ds (cfg ∷ configs) =
    ap (◌∷◌ (filter_subject m cfg.stream cfg.routing_key))
      (filter_subjects-with_limits m n ds configs)

-- WithMaxDeliver and WithBackOff have no effect on any registration of a group but the first: the
-- group's NATS consumer has the same settings whatever the later ones ask for.
pub consumer_settings_later :
    (m : Messaging) (defaults : ConsumerDefaults) (first : ConsumerConfig)
    (later : List ConsumerConfig) (n : ℤ) (ds : Option (List Duration))
    → consumer_settings m defaults first (first ∷ map (with_limits n ds) later)
      ≡ consumer_settings m defaults first (first ∷ later)
unfolding consumer_settings
consumer_settings_later m defaults first later n ds = rw (filter_subjects-with_limits m n ds later)

-- The last configuration of the routing key decides.
abbrev pub last_handler :
    String → Option WrappedHandler → List ConsumerConfig → Option WrappedHandler
last_handler k found [] = found
last_handler k found (cfg ∷ configs) =
    last_handler k (if cfg.routing_key == k then some cfg.handler else found) configs

-- Registering a group's handlers in a map with distinct keys gives each routing key the handler of
-- its last registration, or its old one if the group does not register it; keys stay distinct.
pub group_handlers_lem :
    (h : RoutingKeyHandler) (configs : List ConsumerConfig) (k : String)
    → HasDistinctKeys h
    → (lookup k (group_handlers h configs) ≡ last_handler k (lookup k h) configs)
      × HasDistinctKeys (group_handlers h configs)
unfolding group_handlers add
group_handlers_lem h [] k d = (refl, d)
group_handlers_lem h (cfg ∷ configs) k d = rw (← lookup-insert cfg.routing_key k cfg.handler h) (
    group_handlers_lem (insert cfg.routing_key cfg.handler h) configs k
      (insert-HasDistinctKeys cfg.routing_key cfg.handler h d))

-- The subjects that the settings ask for, in whichever of the two fields.
abbrev pub subjects : ConsumerSettings → List String
subjects st = if st.filter_subject == "" then st.filter_subjects else st.filter_subject ∷ []

abbrev pub HasSubject : Messaging → ConsumerConfig → Type 0
HasSubject m cfg = filter_subject m cfg.stream cfg.routing_key ≢ ""

single_lem :
    (m : Messaging) (configs : List ConsumerConfig)
    → All (HasSubject m) configs
    → let ss = filter_subjects m configs in
      ((if single ss == "" then several ss else single ss ∷ []) ≡ ss)
      × ((single ss ≡ "") ⊎ (several ss ≡ []))
unfolding filter_subjects
single_lem m [] h = (refl, inl refl)
single_lem m (cfg ∷ []) h =
    let s = filter_subject m cfg.stream cfg.routing_key in
    (ground (arith, eq_iff s "", h.0), inr refl)
single_lem m (cfg ∷ other ∷ configs) h = (refl, inl refl)

non_empty_lem : (o : Option (List Duration)) → non_empty o ≢ some []
non_empty_lem none e = cc
non_empty_lem (some []) e = cc
non_empty_lem (some (d ∷ ds)) e = cc

-- The NATS consumer of a group filters exactly the subjects of the group's registrations, in their
-- order, and uses only one of the two fields for them; it is never given a negative MaxDeliver, nor
-- an empty list for BackOff, whatever the options and the connection's defaults. No subject is empty.
pub consumer_settings_lem :
    (m : Messaging) (defaults : ConsumerDefaults) (first : ConsumerConfig)
    (configs : List ConsumerConfig)
    → All (HasSubject m) configs
    → let st = consumer_settings m defaults first configs in
      (subjects st ≡ filter_subjects m configs)
      × ((st.filter_subject ≡ "") ⊎ (st.filter_subjects ≡ []))
      × (is_negative st.max_deliver ≡ false)
      × (st.back_off ≢ some [])
unfolding consumer_settings
consumer_settings_lem m defaults first configs h =
    let (exact, one) = single_lem m configs h in (exact, one, ground arith, non_empty_lem _)
