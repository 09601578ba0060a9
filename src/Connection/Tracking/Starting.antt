-- ===== src/Connection/Tracking/Starting.antt =====
-- Start of connection.go keeps every consume context that it opens.
use go_messaging_nats.Base.{List, [], ◌∷◌, refl, All, arith}
use go_messaging_nats.Errors.{Handle}
use go_messaging_nats.Messaging.{Messaging}
use go_messaging_nats.Config.{ConsumerConfig}
use go_messaging_nats.Connection.{Client, close_connection}
use go_messaging_nats.Connection.Monad.{call_void}
use go_messaging_nats.Connection.Consumers.{start_group, start_groups, start_pending_js_consumers}
use go_messaging_nats.Connection.Start.{
  Setup, run_setups, start, start_collecting, start_connected, open_jet_stream, finish_start,
  run_connected, with_default_span_name,
}
use go_messaging_nats.Connection.Tracking.{
  Tracks, bind-Tracks, wrap_error-Tracks, or_cleanup-Tracks, call_void-Tracks, call-Tracks,
  modify-Tracks, if-Tracks, consume-Tracks, ensure_stream-Tracks, get_conn-Tracks,
}

module _ (client : Client) (m : Messaging) where
  start_group-Tracks : (g : List ConsumerConfig) → Tracks client (start_group client m g)
  unfolding start_group
  start_group-Tracks [] = record { keeps = λ s w. w }
  start_group-Tracks (first ∷ rest) =
      bind-Tracks client _ _
        (wrap_error-Tracks client _ "" _ (ensure_stream-Tracks client first.stream))
        (λ stream. bind-Tracks client _ _ (get_conn-Tracks client) (λ c.
          bind-Tracks client _ _
            (wrap_error-Tracks client _ "" _ (call-Tracks client _ (λ r. refl)))
            (λ cons. consume-Tracks client cons _ _)))

  start_groups-Tracks : (gs : List (List ConsumerConfig)) → Tracks client (start_groups client m gs)
  unfolding start_groups
  start_groups-Tracks [] = record { keeps = λ s w. w }
  start_groups-Tracks (g ∷ gs) =
      bind-Tracks client _ _ (start_group-Tracks g) (λ _. start_groups-Tracks gs)

  start_pending-Tracks : Tracks client (start_pending_js_consumers client m)
  unfolding start_pending_js_consumers
  start_pending-Tracks = bind-Tracks client _ _ (get_conn-Tracks client) (λ c.
      bind-Tracks client _ _ (start_groups-Tracks _) (λ _. modify-Tracks client _ (λ d. refl)))

  run_setups-Tracks :
      (opts : List Setup) → All (λ f. Tracks client f.apply) opts → Tracks client (run_setups opts)
  unfolding run_setups
  run_setups-Tracks [] k = record { keeps = λ s w. w }
  run_setups-Tracks (f ∷ opts) k =
      bind-Tracks client _ _ (wrap_error-Tracks client _ "" f.apply k.0)
        (λ _. run_setups-Tracks opts k.1)

  module _ (opts : List Setup) (k : All (λ f. Tracks client f.apply) opts) where
    finish_start-Tracks : (nc : Handle) → Tracks client (finish_start client m nc opts)
    unfolding finish_start run_connected
    finish_start-Tracks nc =
        bind-Tracks client _ _
          (or_cleanup-Tracks client (call_void (close_connection nc)) _
            (call_void-Tracks client _ (λ r. refl))
            (bind-Tracks client _ _ (run_setups-Tracks opts k) (λ _. start_pending-Tracks)))
          (λ _. modify-Tracks client _ (λ d. refl))

    open_jet_stream-Tracks : (nc : Handle) → Tracks client (open_jet_stream client m nc opts)
    unfolding open_jet_stream
    open_jet_stream-Tracks nc =
        bind-Tracks client _ _
          (or_cleanup-Tracks client (call_void (close_connection nc)) _
            (call_void-Tracks client _ (λ r. refl))
            (wrap_error-Tracks client _ "" _ (call-Tracks client _ (λ r. refl))))
          (λ js.
            bind-Tracks client _ _ (modify-Tracks client _ (λ d. refl))
              (λ _. finish_start-Tracks nc))

    start_connected-Tracks : Tracks client (start_connected client m opts)
    unfolding start_connected
    start_connected-Tracks = bind-Tracks client _ _ (get_conn-Tracks client) (λ c.
        bind-Tracks client _ _ (wrap_error-Tracks client _ "" _ (call-Tracks client _ (λ r. refl)))
          (λ nc.
            bind-Tracks client _ _ (modify-Tracks client _ (λ d. refl))
              (λ _. open_jet_stream-Tracks nc)))

    start_collecting-Tracks : Tracks client (start_collecting opts)
    unfolding start_collecting
    start_collecting-Tracks =
        bind-Tracks client _ _ (run_setups-Tracks opts k) (λ _. modify-Tracks client _ (λ d. refl))

    pub start-Tracks : Tracks client (start client m opts)
    unfolding start
    start-Tracks = bind-Tracks client _ _ (get_conn-Tracks client) (λ c.
        if-Tracks client c.started _ _ (record { keeps = λ s w. w })
          (bind-Tracks client _ _ (modify-Tracks client with_default_span_name (λ d. ground arith))
            (λ _.
              if-Tracks client c.collect_mode _ _ start_collecting-Tracks start_connected-Tracks)))
