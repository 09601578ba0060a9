-- ===== src/Connection/Sound.antt =====
-- What holds of a connection in every state that Start and Close can reach.
use go_messaging_nats.Base.{
  String, Bool, true, false, List, [], some, ◌≡◌, refl, sym, ◌∙◌, subst, All, is_some,
  if◌then◌else◌, arith,
}
use go_messaging_nats.Errors.{Handle, Result, ok, err, panic}
use go_messaging_nats.Messaging.{Messaging}
use go_messaging_nats.Connection.{
  Connection, State, Client, new_jet_stream, close_connection, Publisher, new_connection,
}
use go_messaging_nats.Connection.Monad.{M, get_conn}
use go_messaging_nats.Connection.Start.{
  Setup, run_setups, start, start_collecting, start_connected, open_jet_stream, finish_start,
  run_connected, with_default_span_name, close,
}
use go_messaging_nats.Connection.Closing.{close-conn}
use go_messaging_nats.Connection.Contracts.{Post, Ensures, bind-Ensures, or_cleanup-Ensures}
use go_messaging_nats.Connection.Waiting.{
  KeepsLink, HasContexts, IsWaiting, IsIdle, wrapped_call-Ensures, IsServed, start_pending-Ensures,
  run_setups-Ensures,
}

-- Every consumer has a context, and a started connection that does not collect is linked to the
-- server and to JetStream and has no registration left to start.
pub record IsSound (c : Connection) : Type 0 where
  pub contexts : HasContexts c.consumers
  pub linked :
      c.started ≡ true
      → c.collect_mode ≡ false
      → (is_some c.nc ≡ true) × (is_some c.js ≡ true) × (c.pending_js_consumers ≡ [])

IsWaiting-IsSound : (b n j : Bool) (c : Connection) → IsWaiting b n j c → IsSound c
IsWaiting-IsSound b n j c w = record { contexts = w.contexts; linked = λ e. cc (sym e ∙ w.waiting) }

-- Whatever comes out, the connection is sound.
Post-IsSound :
    (b : Bool) (Q : Connection → Type 0) (r : Result (Unit {0})) (t : State)
    → ((c : Connection) → Q c → IsSound c)
    → Post (IsIdle b) Q r t
    → IsSound t.conn
Post-IsSound b Q (ok a) t k p = k t.conn p
Post-IsSound b Q (err e) t k p = IsWaiting-IsSound b false false t.conn p
Post-IsSound b Q panic t k p = IsWaiting-IsSound b false false t.conn p

module _ (client : Client) (m : Messaging) (opts : List Setup)
    (k : All (λ f. KeepsLink f.apply) opts) where
  finish_start-Ensures :
      (nc : Handle)
      → Ensures (IsIdle false) (IsWaiting false true true) (finish_start client m nc opts) IsSound
  unfolding finish_start run_connected
  finish_start-Ensures nc =
      bind-Ensures (IsIdle false) (IsWaiting false true true) (IsServed client m false true true)
        IsSound _ _
        (or_cleanup-Ensures (IsIdle false) (IsWaiting false true true)
          (IsServed client m false true true) (close_connection nc) _
          (bind-Ensures (IsIdle false) (IsWaiting false true true) (IsWaiting false true true)
            (IsServed client m false true true) (run_setups opts) _
            (run_setups-Ensures client m false true true opts k)
            (λ _. start_pending-Ensures client m false true true)))
        (λ _ s w. record {
          contexts = w.0.contexts;
          linked = λ e l. (w.0.nc refl, w.0.js refl, w.1);
        })

  open_jet_stream-Ensures :
      (nc : Handle)
      → Ensures
          (IsIdle false)
          (IsWaiting false true false)
          (open_jet_stream client m nc opts)
          IsSound
  unfolding open_jet_stream
  open_jet_stream-Ensures nc =
      bind-Ensures (IsIdle false) (IsWaiting false true false) (IsWaiting false true false) IsSound
        _ _
        (or_cleanup-Ensures (IsIdle false) (IsWaiting false true false) (IsWaiting false true false)
          (close_connection nc) _
          (wrapped_call-Ensures client m false true false _ (new_jet_stream nc)))
        (λ js s w.
          finish_start-Ensures nc (record s { conn = record (s.conn) { js = some js } })
            (record {
              waiting = w.waiting;
              mode = w.mode;
              contexts = w.contexts;
              nc = w.nc;
              js = λ e. refl;
            }))

  start_connected-Ensures :
      Ensures (IsIdle false) (IsWaiting false false false) (start_connected client m opts) IsSound
  unfolding start_connected
  start_connected-Ensures =
      bind-Ensures (IsIdle false) (IsWaiting false false false) (IsWaiting false false false)
        IsSound get_conn _ (λ s w. w)
        (λ c.
          bind-Ensures (IsIdle false) (IsWaiting false false false) (IsWaiting false false false)
            IsSound _ _ (wrapped_call-Ensures client m false false false _ _)
            (λ nc s w.
              open_jet_stream-Ensures nc (record s { conn = record (s.conn) { nc = some nc } })
                (record {
                  waiting = w.waiting;
                  mode = w.mode;
                  contexts = w.contexts;
                  nc = λ e. refl;
                  js = w.js;
                })))

  start_collecting-Ensures :
      Ensures (IsIdle true) (IsWaiting true false false) (start_collecting opts) IsSound
  unfolding start_collecting
  start_collecting-Ensures =
      bind-Ensures (IsIdle true) (IsWaiting true false false) (IsWaiting true false false) IsSound
        (run_setups opts) _ (run_setups-Ensures client m true false false opts k)
        (λ _ s w. record { contexts = w.contexts; linked = λ e l. cc (sym l ∙ w.mode) })

  with_name-IsWaiting :
      (b : Bool) (c : Connection)
      → c.started ≡ false
      → c.collect_mode ≡ b
      → HasContexts c.consumers
      → IsWaiting b false false (with_default_span_name c)
  with_name-IsWaiting b c shut mode contexts =
      let same : (with_default_span_name c).consumers ≡ c.consumers = ground arith in
      record {
        waiting = ground arith;
        mode = ground arith;
        contexts = subst HasContexts (sym same) contexts;
        nc = λ e. cc;
        js = λ e. cc;
      }

  if-IsSound :
      (b : Bool) (f g : M (Unit {0})) (s : State)
      → (b ≡ true → IsSound (f s).1.conn)
      → (b ≡ false → IsSound (g s).1.conn)
      → IsSound ((if b then f else g) s).1.conn
  if-IsSound true f g s h h' = h refl
  if-IsSound false f g s h h' = h' refl

  start-IsSound : (s : State) → IsSound s.conn → IsSound (start client m opts s).1.conn
  unfolding start
  start-IsSound s v =
      let s' = record s { conn = with_default_span_name s.conn } in
      if-IsSound s.conn.started _ _ s (λ e. v)
        (λ shut.
          if-IsSound s.conn.collect_mode _ _ s'
            (λ mode.
              Post-IsSound true IsSound _ _ (λ c w. w)
                (start_collecting-Ensures s'
                  (with_name-IsWaiting true s.conn shut mode v.contexts)))
            (λ mode.
              Post-IsSound false IsSound _ _ (λ c w. w)
                (start_connected-Ensures s'
                  (with_name-IsWaiting false s.conn shut mode v.contexts))))

module _ (client : Client) (m : Messaging) where
  -- A caller of the connection starts it, with setup functions that leave the link alone, or closes
  -- it; each may succeed or fail.
  pub data Step : State → State → Type 0 where
    started :
        (s : State) (opts : List Setup)
        → All (λ f. KeepsLink f.apply) opts
        → Step s (start client m opts s).1
    closed : (s : State) → Step s (close client s).1

  pub data Reach (s : State) : State → Type 0 where
    here : Reach s s
    next : {t u : State} → Reach s t → Step t u → Reach s u

  Step-IsSound : {s t : State} → Step s t → IsSound s.conn → IsSound t.conn
  Step-IsSound (started s opts k) v = start-IsSound client m opts k s v
  Step-IsSound (closed s) v = subst IsSound (sym (close-conn client s)) v

  Reach-keeps-IsSound : {s t : State} → Reach s t → IsSound s.conn → IsSound t.conn
  Reach-keeps-IsSound here v = v
  Reach-keeps-IsSound (next r st) v = Step-IsSound st (Reach-keeps-IsSound r v)

  new_connection-IsSound :
      (service url : String) (opts : List Handle) (conn : Connection)
      → new_connection service url opts ≡ ok conn
      → (conn.started ≡ false) × (conn.consumers ≡ [])
  unfolding new_connection
  new_connection-IsSound service url opts conn made = ground arith

  -- In every state that a new connection reaches by calls of Start and Close, failed ones included,
  -- each consumer has a consume context, and if the connection is started and does not collect, it
  -- has its NATS connection and its JetStream context, and no registration is left pending. The setup
  -- functions leave the link alone, as those for consumers and publishers do.
  pub Reach-IsSound :
      (service url : String) (opts : List Handle) (conn : Connection)
      (publishers : Handle → Publisher) (t : State)
      → new_connection service url opts ≡ ok conn
      → Reach (record { conn = conn; publishers = publishers; calls = [] }) t
      → IsSound t.conn
  Reach-IsSound service url opts conn publishers t made r =
      let (shut, empty) = new_connection-IsSound service url opts conn made in
      Reach-keeps-IsSound r
        (record { contexts = subst HasContexts (sym empty) tt; linked = λ e. cc (sym e ∙ shut) })
