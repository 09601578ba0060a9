-- ===== src/Connection/Shutdown.antt =====
-- Close of connection.go after Start.
use go_messaging_nats.Base.{List, ◌∷◌, [], ◌++◌, map, some, ◌≡◌, ap, ◌∙◌, All}
use go_messaging_nats.Errors.{Handle, Result, ok}
use go_messaging_nats.Messaging.{Messaging}
use go_messaging_nats.Connection.{State, Client, stop, drain}
use go_messaging_nats.Connection.Start.{Setup, start, close}
use go_messaging_nats.Connection.Lifecycle.{start-started}
use go_messaging_nats.Connection.Closing.{close_lem, drain_result}
use go_messaging_nats.Connection.Tracking.{opened, IsTracked, Tracks}
use go_messaging_nats.Connection.Tracking.Starting.{start-Tracks}

-- The contexts are stopped, and the connection is drained, which gives the result.
abbrev pub shut_down : Client → State → List Handle → Handle → Result (Unit {0}) × State
shut_down client t contexts nc = (
  drain_result (client.answer (t.calls ++ map stop contexts) (drain nc)),
  record t { calls = t.calls ++ (map stop contexts ++ drain nc ∷ []) },
)

-- Close after a Start that succeeded stops exactly the consume contexts that calls to the NATS client
-- have opened, each once and in the order of opening, those of earlier Starts that failed included;
-- it then drains the connection and returns the result of draining. The connection held the contexts
-- opened before, as a new one does, and the setup functions keep it so, as the library's do.
pub close-start :
    (client : Client) (m : Messaging) (opts : List Setup) (s : State) (nc : Handle)
    → All (λ f. Tracks client f.apply) opts
    → IsTracked client s
    → (start client m opts s).0 ≡ ok tt
    → (start client m opts s).1.conn.nc ≡ some nc
    → let t = (start client m opts s).1 in
      close client t ≡ shut_down client t (opened client [] t.calls) nc
close-start client m opts s nc k w e linked =
    let t = (start client m opts s).1 in
    (close_lem client t).0 nc (start-started client m opts s e, linked)
    ∙ ap (λ contexts. shut_down client t contexts nc) ((start-Tracks client m opts k).keeps s w)
