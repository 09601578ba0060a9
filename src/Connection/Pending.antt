-- ===== src/Connection/Pending.antt =====
-- What the start of the pending consumers asks of the NATS server.
use go_messaging_nats.Base.{
  List, [], ◌∷◌, ◌++◌, map, Option, some, or_default, length, suc, ◌≡◌, refl, sym, ap, subst, ◌∙◌,
  append-nil, append_assoc, select, arith,
}
use go_messaging_nats.Errors.{Handle, ok}
use go_messaging_nats.Messaging.{Messaging}
use go_messaging_nats.Config.{ConsumerConfig}
use go_messaging_nats.Connection.{
  Connection, State, Client, Call, create_or_update_stream, create_or_update_consumer, consume,
}
use go_messaging_nats.Connection.Monad.{call, modify_conn}
use go_messaging_nats.Connection.Stream.{ensure_stream, stream_settings}
use go_messaging_nats.Connection.Groups.{grouped, group_handlers, consumer_settings}
use go_messaging_nats.Connection.Groups.Refines.{grouped_lem, distinct, group_keys, has_key}
use go_messaging_nats.Connection.Consumers.{
  new_consumer, start_group, start_groups, start_pending_js_consumers,
}
use go_messaging_nats.Connection.Requested.{
  Request, requests, handle_of, requested, all_requested, all_requested-consumers, Created,
  calls_of, IsAnswered,
}
use go_messaging_nats.Connection.Keeps.{bind_result-eq-ok}

module _ (client : Client) (m : Messaging) where
  -- The run asked for the consumers of `gs`, and has a new context for each.
  record IsStarted (gs : List (List ConsumerConfig)) (s t : State) : Type 0 where
    made : List Call
    contexts : List (Option Handle)
    calls : t.calls ≡ s.calls ++ made
    asked : requests made ≡ all_requested client m s.conn gs
    conn : t.conn ≡ record (s.conn) { consumers = s.conn.consumers ++ contexts }
    one_each : length contexts ≡ length (all_requested client m s.conn gs)
    answered : IsAnswered client s.conn.js s.calls (all_requested client m s.conn gs) made contexts

  -- One group: its three calls, and its context.
  record IsStartedGroup (first : ConsumerConfig) (rest : List ConsumerConfig) (s t : State)
      : Type 0 where
    created : Created client s.conn.js s.calls (requested client m s.conn first (first ∷ rest))
    calls : t.calls ≡ s.calls ++ calls_of created
    conn : t.conn ≡ record (s.conn) { consumers = s.conn.consumers ++ some created.ctx ∷ [] }

  start_group-IsStartedGroup :
      (first : ConsumerConfig) (rest : List ConsumerConfig) (s : State)
      → (start_group client m (first ∷ rest) s).0 ≡ ok tt
      → IsStartedGroup first rest s (start_group client m (first ∷ rest) s).1
  unfolding start_group ensure_stream call
  start_group-IsStartedGroup first rest s e =
      let js = or_default s.conn.js 0 in
      let c₁ = create_or_update_stream js (stream_settings s.conn first.stream) in
      let stream = handle_of (client.answer s.calls c₁) in
      let c₂ =
        create_or_update_consumer stream
          (consumer_settings m s.conn.consumer_defaults first (first ∷ rest)) in
      let cons = handle_of (client.answer (s.calls ++ c₁ ∷ []) c₂) in
      let c₃ = consume cons (
        new_consumer client s.conn first.consumer_name first.stream
          (group_handlers [] (first ∷ rest))) in
      record {
        created = record {
          js = js;
          stream = stream;
          cons = cons;
          ctx = handle_of (client.answer (s.calls ++ c₁ ∷ c₂ ∷ []) c₃);
          linked = ground arith;
          ensured = ground arith;
          created = ground arith;
          consumed = ground (arith, append_assoc s.calls (c₁ ∷ []) (c₂ ∷ []));
        };
        calls = ground (
          arith,
          append_assoc s.calls (c₁ ∷ []) (c₂ ∷ []),
          append_assoc s.calls (c₁ ∷ c₂ ∷ []) (c₃ ∷ []),
        );
        conn = ground (arith, append_assoc s.calls (c₁ ∷ []) (c₂ ∷ []));
      }

  IsStarted-cons :
      (first : ConsumerConfig) (rest : List ConsumerConfig) (gs : List (List ConsumerConfig))
      (s t u : State)
      → IsStartedGroup first rest s t
      → IsStarted gs t u
      → IsStarted ((first ∷ rest) ∷ gs) s u
  IsStarted-cons first rest gs s t u a b =
      let same : all_requested client m t.conn gs ≡ all_requested client m s.conn gs =
        ap (λ c. all_requested client m c gs) a.conn
        ∙ all_requested-consumers client m s.conn _ gs in
      record {
        made = calls_of a.created ++ b.made;
        contexts = some a.created.ctx ∷ b.contexts;
        calls =
            b.calls
            ∙ ap (λ l. l ++ b.made) a.calls
            ∙ append_assoc s.calls (calls_of a.created) b.made;
        asked = ap (◌∷◌ (requested client m s.conn first (first ∷ rest))) (b.asked ∙ same);
        answered = (
          a.created,
          b.made,
          b.contexts,
          refl,
          refl,
          subst
              (λ rs.
                IsAnswered client s.conn.js (s.calls ++ calls_of a.created) rs b.made b.contexts)
              same
              (subst
                (λ l.
                  IsAnswered client s.conn.js l (all_requested client m t.conn gs) b.made
                    b.contexts)
                a.calls
                (subst
                  (λ (c : Connection).
                    IsAnswered client c.js t.calls (all_requested client m t.conn gs) b.made
                      b.contexts)
                  a.conn b.answered)),
        );
        one_each = ap suc (b.one_each ∙ ap length same);
        conn =
            b.conn
            ∙ (λ i. record (a.conn i) { consumers = (a.conn i).consumers ++ b.contexts })
            ∙ ap (λ l. record (s.conn) { consumers = l })
                (append_assoc s.conn.consumers (some a.created.ctx ∷ []) b.contexts);
      }

  start_groups-IsStarted :
      (gs : List (List ConsumerConfig)) (s : State)
      → (start_groups client m gs s).0 ≡ ok tt
      → IsStarted gs s (start_groups client m gs s).1
  unfolding start_groups start_group
  start_groups-IsStarted [] s e = record {
    made = [];
    contexts = [];
    calls = sym (append-nil s.calls);
    asked = refl;
    conn = ap (λ l. record (s.conn) { consumers = l }) (sym (append-nil s.conn.consumers));
    one_each = refl;
    answered = (refl, refl);
  }
  start_groups-IsStarted ([] ∷ gs) s e = cc
  start_groups-IsStarted ((first ∷ rest) ∷ gs) s e =
      let r = start_group client m (first ∷ rest) s in
      let (_, done, same) = bind_result-eq-ok r.0 r.1 (λ _. start_groups client m gs) e in
      rw same (
        IsStarted-cons first rest gs s r.1 _ (start_group-IsStartedGroup first rest s done)
          (start_groups-IsStarted gs r.1 (sym (ap (λ x. x.0) same) ∙ e)))

  -- The registrations of one group key, as the server is asked for them.
  abbrev pub requests_by_key : Connection → List Request
  requests_by_key c = all_requested client m c (
      map (λ k. select (has_key k) c.pending_js_consumers)
        (distinct (group_keys c.pending_js_consumers)))

  pub record IsServed (s t : State) : Type 0 where
    pub made : List Call
    pub calls : t.calls ≡ s.calls ++ made
    pub asked : requests made ≡ requests_by_key s.conn
    pub contexts : List (Option Handle)
    pub answered : IsAnswered client s.conn.js s.calls (requests_by_key s.conn) made contexts
    pub one_each : length contexts ≡ length (requests_by_key s.conn)
    pub conn :
        t.conn
        ≡ record (s.conn) { consumers = s.conn.consumers ++ contexts; pending_js_consumers = [] }

  -- If the start of the pending consumers succeeds, the server has been asked, in the order of first
  -- registration, for exactly one consumer for each stream and consumer name that a registration has,
  -- and for nothing else: the stream is ensured, a consumer is created on the stream that the server
  -- answered, with the subjects of all registrations of that name and the delivery limits of the first
  -- of them, and this consumer is consumed from, with the handlers of all of them. The connection has
  -- gained the consume context that was answered for each, has no pending registration left, and is
  -- otherwise as it was.
  pub start_pending_js_consumers-IsServed :
      (s : State)
      → (start_pending_js_consumers client m s).0 ≡ ok tt
      → IsServed s (start_pending_js_consumers client m s).1
  unfolding start_pending_js_consumers
  start_pending_js_consumers-IsServed s e =
      let gs = grouped s.conn.pending_js_consumers in
      let r = start_groups client m gs s in
      let (_, done, same) =
        bind_result-eq-ok r.0 r.1 (λ _. modify_conn (λ c. record c { pending_js_consumers = [] }))
          e in
      let by = start_groups-IsStarted gs s done in
      let named = ap (all_requested client m s.conn) (grouped_lem s.conn.pending_js_consumers) in
      rw same (record {
        made = by.made;
        calls = by.calls;
        asked = by.asked ∙ named;
        contexts = by.contexts;
        answered =
            subst (λ rs. IsAnswered client s.conn.js s.calls rs by.made by.contexts) named
              by.answered;
        one_each = by.one_each ∙ ap length named;
        conn = ap {A = Connection} (λ c. record c { pending_js_consumers = [] }) by.conn;
      })
