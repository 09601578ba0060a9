-- ===== src/Connection/Running.antt =====
-- Start of connection.go on a server that accepts every call.
use go_messaging_nats.Base.{
  String, Bool, true, false, List, [], ◌∷◌, Option, none, some, ◌≡◌, refl, All, is_some, arith,
  if◌then◌else◌,
}
use go_messaging_nats.Errors.{Handle, Result, ok, err, panic, is_ok}
use go_messaging_nats.Messaging.{Messaging}
use go_messaging_nats.Config.{ConsumerConfig}
use go_messaging_nats.Connection.{Connection, State, Client, Call, new_jet_stream, close_connection}
use go_messaging_nats.Connection.Monad.{M, get_conn, not_nil, call}
use go_messaging_nats.Connection.Contracts.{
  Post, Ensures, bind-Ensures, wrap_error-Ensures, or_cleanup-Ensures,
}
use go_messaging_nats.Connection.Groups.Inhabited.{IsGroup, grouped-IsGroup}
use go_messaging_nats.Connection.Stream.{ensure_stream}
use go_messaging_nats.Connection.Consumers.{start_group, start_groups, start_pending_js_consumers}
use go_messaging_nats.Connection.Start.{
  Setup, run_setups, start, start_connected, open_jet_stream, finish_start, run_connected,
  with_default_span_name,
}

abbrev Never : Connection → Type 0
Never c = ⊥

-- The run succeeds, and leaves a connection with the property.
abbrev pub Ends : {A : Type 0} → (Connection → Type 0) → Result A → State → Type 0
Ends Q r t = Post Never Q r t

abbrev pub Runs : {A : Type 0} → (Connection → Type 0) → M A → (Connection → Type 0) → Type 0
Runs P m Q = Ensures Never P m Q

Ends-ok :
    (Q : Connection → Type 0) (r : Result (Unit {0})) (t : State)
    → Ends Q r t
    → (r ≡ ok tt) × Q t.conn
Ends-ok Q (ok a) t p = (refl, p)
Ends-ok Q (err e) t p = elim p [ ]
Ends-ok Q panic t p = elim p [ ]

if-Ends :
    (Q : Connection → Type 0) (b : Bool) (f g : M (Unit {0})) (s : State)
    → b ≡ false
    → Ends Q (g s).0 (g s).1
    → Ends Q ((if b then f else g) s).0 ((if b then f else g) s).1
if-Ends Q true f g s e p = cc
if-Ends Q false f g s e p = p

-- The client answers every call, whatever it was asked before.
abbrev pub IsWorking : Client → Type 0
IsWorking client = (before : List Call) (c : Call) → is_ok (client.answer before c) ≡ true

answer-Ends :
    (Q : Connection → Type 0) (r : Result Handle) (t : State)
    → is_ok r ≡ true
    → Q t.conn
    → Ends Q r t
answer-Ends Q (ok h) t e p = p
answer-Ends Q (err x) t e p = cc
answer-Ends Q panic t e p = cc

-- A connection to the server, with its JetStream context, that does not collect.
pub record IsLinked (c : Connection) : Type 0 where
  pub nc : is_some c.nc ≡ true
  pub js : is_some c.js ≡ true
  pub mode : c.collect_mode ≡ false

-- A connection after a start that succeeded.
pub record IsRunning (c : Connection) : Type 0 where
  pub started : c.started ≡ true
  pub linked : IsLinked c
  pub served : c.pending_js_consumers ≡ []

-- A setup function that succeeds on a linked connection, and leaves it linked.
abbrev pub Accepts : M (Unit {0}) → Type 0
Accepts apply = Runs IsLinked apply IsLinked

module _ (client : Client) (works : IsWorking client) where
  pub call-Runs : (P : Connection → Type 0) (c : Call) → Runs P (call client c) P
  unfolding call
  call-Runs P c s p = answer-Ends P (client.answer s.calls c) _ (works s.calls c) p

  not_nil-Runs :
      (P : Connection → Type 0) (o : Option Handle) → is_some o ≡ true → Runs P (not_nil o) P
  not_nil-Runs P none e s p = cc
  not_nil-Runs P (some h) e s p = p

  pub ensure_stream-Runs : (name : String) → Runs IsLinked (ensure_stream client name) IsLinked
  unfolding ensure_stream
  ensure_stream-Runs name s w =
      bind-Ensures Never IsLinked IsLinked IsLinked (not_nil s.conn.js) _
        (not_nil-Runs IsLinked s.conn.js w.js) (λ js. call-Runs IsLinked _) s w

  module _ (m : Messaging) where
    start_group-Runs :
        (g : List ConsumerConfig) → IsGroup g → Runs IsLinked (start_group client m g) IsLinked
    unfolding start_group
    start_group-Runs [] h = elim h [ ]
    start_group-Runs (first ∷ rest) h =
        bind-Ensures Never IsLinked IsLinked IsLinked _ _
          (wrap_error-Ensures Never IsLinked IsLinked _ "" _ (ensure_stream-Runs first.stream))
          (λ stream.
            bind-Ensures Never IsLinked IsLinked IsLinked get_conn _ (λ s w. w)
              (λ c.
                bind-Ensures Never IsLinked IsLinked IsLinked _ _
                  (wrap_error-Ensures Never IsLinked IsLinked _ "" _ (call-Runs IsLinked _))
                  (λ cons.
                    bind-Ensures Never IsLinked IsLinked IsLinked _ _
                      (wrap_error-Ensures Never IsLinked IsLinked _ "" _ (call-Runs IsLinked _))
                      (λ ctx s w. record { nc = w.nc; js = w.js; mode = w.mode }))))

    start_groups-Runs :
        (gs : List (List ConsumerConfig))
        → All IsGroup gs
        → Runs IsLinked (start_groups client m gs) IsLinked
    unfolding start_groups
    start_groups-Runs [] h = λ s w. w
    start_groups-Runs (g ∷ gs) h =
        bind-Ensures Never IsLinked IsLinked IsLinked (start_group client m g) _
          (start_group-Runs g h.0) (λ _. start_groups-Runs gs h.1)

    -- Linked, and nothing is pending.
    abbrev IsServed : Connection → Type 0
    IsServed c = IsLinked c × (c.pending_js_consumers ≡ [])

    start_pending-Runs : Runs IsLinked (start_pending_js_consumers client m) IsServed
    unfolding start_pending_js_consumers
    start_pending-Runs s w =
        bind-Ensures Never IsLinked IsLinked IsServed (start_groups client m _) _
          (start_groups-Runs _ (grouped-IsGroup s.conn.pending_js_consumers))
          (λ _ t v. (record { nc = v.nc; js = v.js; mode = v.mode }, refl)) s w

    run_setups-Runs :
        (opts : List Setup)
        → All (λ f. Accepts f.apply) opts
        → Runs IsLinked (run_setups opts) IsLinked
    unfolding run_setups
    run_setups-Runs [] k = λ s w. w
    run_setups-Runs (f ∷ opts) k =
        bind-Ensures Never IsLinked IsLinked IsLinked _ _
          (wrap_error-Ensures Never IsLinked IsLinked _ "" f.apply k.0)
          (λ _. run_setups-Runs opts k.1)

    module _ (opts : List Setup) (k : All (λ f. Accepts f.apply) opts) where
      finish_start-Runs : (nc : Handle) → Runs IsLinked (finish_start client m nc opts) IsRunning
      unfolding finish_start run_connected
      finish_start-Runs nc =
          bind-Ensures Never IsLinked IsServed IsRunning _ _
            (or_cleanup-Ensures Never IsLinked IsServed (close_connection nc) _ (
              bind-Ensures Never IsLinked IsLinked IsServed (run_setups opts) _
                (run_setups-Runs opts k) (λ _. start_pending-Runs)))
            (λ _ s w. record {
              started = refl;
              linked = record { nc = w.0.nc; js = w.0.js; mode = w.0.mode };
              served = w.1;
            })

      -- Connected, and not collecting.
      abbrev IsConnected : Connection → Type 0
      IsConnected c = (is_some c.nc ≡ true) × (c.collect_mode ≡ false)

      open_jet_stream-Runs :
          (nc : Handle) → Runs IsConnected (open_jet_stream client m nc opts) IsRunning
      unfolding open_jet_stream
      open_jet_stream-Runs nc =
          bind-Ensures Never IsConnected IsConnected IsRunning _ _
            (or_cleanup-Ensures Never IsConnected IsConnected (close_connection nc) _ (
              wrap_error-Ensures Never IsConnected IsConnected _ "" _
                (call-Runs IsConnected (new_jet_stream nc))))
            (λ js s w.
              finish_start-Runs nc (record s { conn = record (s.conn) { js = some js } })
                (record { nc = w.0; js = refl; mode = w.1 }))

      abbrev IsDirect : Connection → Type 0
      IsDirect c = c.collect_mode ≡ false

      start_connected-Runs : Runs IsDirect (start_connected client m opts) IsRunning
      unfolding start_connected
      start_connected-Runs s w =
          bind-Ensures Never IsDirect IsDirect IsRunning _ _
            (wrap_error-Ensures Never IsDirect IsDirect _ "" _ (call-Runs IsDirect _))
            (λ nc t v.
              open_jet_stream-Runs nc (record t { conn = record (t.conn) { nc = some nc } })
                (refl, v))
            s w

      -- Start succeeds on a connection that is neither started nor collecting, if the NATS client
      -- answers every call and every setup function succeeds on a linked connection, which it leaves
      -- linked. The connection is then started, has its NATS connection and its JetStream context, and
      -- no registration is left pending.
      pub start-IsRunning :
          (s : State)
          → s.conn.started ≡ false
          → s.conn.collect_mode ≡ false
          → ((start client m opts s).0 ≡ ok tt) × IsRunning (start client m opts s).1.conn
      unfolding start
      start-IsRunning s shut mode =
          let s' = record s { conn = with_default_span_name s.conn } in
          Ends-ok IsRunning (start client m opts s).0 (start client m opts s).1 (
            if-Ends IsRunning s.conn.started _ _ s shut (
              if-Ends IsRunning s.conn.collect_mode _ _ s' mode
                (start_connected-Runs s' (ground arith))))
