-- ===== src/Connection/Subscribed.antt =====
-- What the server is asked for on behalf of one registration.
use mathlib.Core.List.{Memᴰ}
use mathlib.Core.List.Memᴰ
use go_messaging_nats.Base.{
  String, List, [], ◌∷◌, ◌++◌, ◌≡◌, refl, sym, ap, subst, All, All-select, select,
}
use go_messaging_nats.Errors.{ok}
use go_messaging_nats.Messaging.{Messaging}
use go_messaging_nats.Naming.{filter_subject}
use go_messaging_nats.Config.{ConsumerConfig}
use go_messaging_nats.Routing.Matching.{Matches}
use go_messaging_nats.Connection.{Connection, State, Client, Call}
use go_messaging_nats.Connection.Groups.{filter_subjects, group_handlers}
use go_messaging_nats.Connection.Groups.Refines.{has_key}
use go_messaging_nats.Connection.Groups.Settings.{subjects, HasSubject, consumer_settings_lem}
use go_messaging_nats.Connection.Groups.Members.{
  Agrees, Takes, group_of, group_of-Memᴰ, group_keys-Memᴰ, group_of-Takes,
}
use go_messaging_nats.Connection.Consumers.{new_consumer, start_pending_js_consumers}
use go_messaging_nats.Connection.Requested.{Request, requests, requested, all_requested}
use go_messaging_nats.Connection.Pending.{requests_by_key, start_pending_js_consumers-IsServed}

module _ (client : Client) (m : Messaging) where
  -- A NATS consumer that is consumed from, for a message that only the pattern of `cfg` matches among
  -- the registrations of its group: the server filters the subject of `cfg`, and the callback's
  -- handlers have the handler of `cfg`.
  pub record Serves (key : String) (cfg : ConsumerConfig) (c : Connection) (r : Request)
      : Type 0 where
    pub group : List ConsumerConfig
    pub filters : Memᴰ (filter_subject m cfg.stream cfg.routing_key) (subjects r.settings)
    pub handlers : r.consumer.handlers ≡ group_handlers [] group
    pub takes : Takes m key cfg group
    pub span : r.consumer.span_name_fn ≡ c.span_name_fn

  -- The request for a group that is not empty is among those made.
  all_requested-Memᴰ :
      (c : Connection) (g : List ConsumerConfig) (gs : List (List ConsumerConfig))
      (cfg : ConsumerConfig)
      → Memᴰ cfg g
      → Memᴰ g gs
      → (first : ConsumerConfig) × Memᴰ (requested client m c first g) (all_requested client m c gs)
  all_requested-Memᴰ c g [] cfg in_group mem = elim mem [ ]
  all_requested-Memᴰ c g ([] ∷ gs) cfg in_group (Memᴰ.head e) =
      elim (subst (Memᴰ cfg) e in_group) [ ]
  all_requested-Memᴰ c g ((first ∷ rest) ∷ gs) cfg in_group (Memᴰ.head e) =
      (first, Memᴰ.head (ap (requested client m c first) e))
  all_requested-Memᴰ c g ([] ∷ gs) cfg in_group (Memᴰ.tail mem) =
      all_requested-Memᴰ c g gs cfg in_group mem
  all_requested-Memᴰ c g ((first ∷ rest) ∷ gs) cfg in_group (Memᴰ.tail mem) =
      let (f, found) = all_requested-Memᴰ c g gs cfg in_group mem in (f, Memᴰ.tail found)

  module _ (key : String) (cfg : ConsumerConfig) (s : State)
      (mem : Memᴰ cfg s.conn.pending_js_consumers) (matches : Matches m key cfg.routing_key)
      (alone : All (Agrees m key cfg) s.conn.pending_js_consumers)
      (have_subjects : All (HasSubject m) s.conn.pending_js_consumers) where
    abbrev own_group : List ConsumerConfig
    own_group = group_of s.conn.pending_js_consumers cfg

    own_request :
        (first : ConsumerConfig) × Memᴰ
          (requested client m s.conn first own_group)
          (requests_by_key client m s.conn)
    own_request =
        all_requested-Memᴰ s.conn own_group _ cfg
          (group_of-Memᴰ m key s.conn.pending_js_consumers cfg mem)
          (Memᴰ.map (λ k. select (has_key k) s.conn.pending_js_consumers)
            (group_keys-Memᴰ m key s.conn.pending_js_consumers cfg mem))

    requested-Serves :
        (first : ConsumerConfig) → Serves key cfg s.conn (requested client m s.conn first own_group)
    unfolding new_consumer filter_subjects
    requested-Serves first = record {
      group = own_group;
      filters =
          subst (Memᴰ _)
            (sym
              (consumer_settings_lem m s.conn.consumer_defaults first own_group
                (All-select (HasSubject m) _ s.conn.pending_js_consumers have_subjects)).0)
            (Memᴰ.map (λ (d : ConsumerConfig). filter_subject m d.stream d.routing_key)
              (group_of-Memᴰ m key s.conn.pending_js_consumers cfg mem));
      handlers = refl;
      takes = group_of-Takes m key s.conn.pending_js_consumers cfg mem matches alone;
      span = refl;
    }

    pub start_pending-Serves :
        (start_pending_js_consumers client m s).0 ≡ ok tt
        → (made : List Call) × (r : Request) × ((start_pending_js_consumers client m s).1.calls
            ≡ s.calls ++ made)
          × Memᴰ r (requests made)
          × Serves key cfg s.conn r
    start_pending-Serves e =
        let by = start_pending_js_consumers-IsServed client m s e in
        let (first, found) = own_request in
        (
          by.made,
          requested client m s.conn first own_group,
          by.calls,
          subst (Memᴰ _) (sym by.asked) found,
          requested-Serves first,
        )
