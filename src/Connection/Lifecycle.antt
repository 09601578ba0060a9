-- ===== src/Connection/Lifecycle.antt =====
-- The start of a connection: once, and closed again after a failure.
use go_messaging_nats.Base.{
  Bool, true, false, List, [], ◌∷◌, ◌++◌, some, ◌≡◌, refl, sym, ap, subst, ◌∙◌, arith,
  if◌then◌else◌,
}
use go_messaging_nats.Errors.{Handle, Error, Result, ok, err, panic, sentinel, already_started}
use go_messaging_nats.Messaging.{Messaging}
use go_messaging_nats.Connection.{
  Connection, State, Client, Call, connect, new_jet_stream, close_connection,
}
use go_messaging_nats.Connection.Monad.{
  M, bind_result, wrapped, cleaned, call, call_void, modify_conn, ◌>>=◌, ◌>>◌,
}
use go_messaging_nats.Connection.Start.{
  Setup, start, start_connected, start_collecting, open_jet_stream, finish_start, run_connected,
  set_started, with_default_span_name,
}

-- The last call of the run closed the connection.
abbrev pub Closed : Handle → State → Type 0
Closed nc s = (before : List Call) × (s.calls ≡ before ++ close_connection nc ∷ [])

cleaned-Closed :
    {A : Type 0} (nc : Handle) (r : Result A) (s : State) {e : Error}
    → (cleaned (call_void (close_connection nc)) r s).0 ≡ err e
    → Closed nc (cleaned (call_void (close_connection nc)) r s).1
unfolding call_void
cleaned-Closed nc (ok a) s h = cc
cleaned-Closed nc (err e) s h = (s.calls, refl)
cleaned-Closed nc panic s h = cc

-- A failed run failed in its first part, or after it.
bind_result-Closed :
    {A B : Type 0} (nc : Handle) (r : Result A) (t : State) (f : A → M B) {e : Error}
    → ((x : Error) → r ≡ err x → Closed nc t)
    → ((a : A) → r ≡ ok a → (f a t).0 ≡ err e → Closed nc (f a t).1)
    → (bind_result r t f).0 ≡ err e
    → Closed nc (bind_result r t f).1
bind_result-Closed nc (ok a) t f h k e = k a refl e
bind_result-Closed nc (err x) t f h k e = h x refl
bind_result-Closed nc panic t f h k e = cc

if_false {ℓ} : {A : Type ℓ} (b : Bool) (x y : A) → b ≡ false → (if b then x else y) ≡ y
if_false true x y h = cc
if_false false x y h = refl

if_true {ℓ} : {A : Type ℓ} (b : Bool) (x y : A) → b ≡ true → (if b then x else y) ≡ x
if_true true x y h = refl
if_true false x y h = cc

with_default_span_name_fields :
    (c : Connection)
    → ((with_default_span_name c).nats_url ≡ c.nats_url)
      × ((with_default_span_name c).nats_opts ≡ c.nats_opts)
with_default_span_name_fields c = ground arith

-- A successful run of `m` leaves the connection started.
abbrev Starts : M (Unit {0}) → State → Type 0
Starts m s = (m s).0 ≡ ok tt → (m s).1.conn.started ≡ true

bind_result-started :
    {A : Type 0} (r : Result A) (t : State) (f : A → M (Unit {0}))
    → ((a : A) (u : State) → Starts (f a) u)
    → (bind_result r t f).0 ≡ ok tt
    → (bind_result r t f).1.conn.started ≡ true
bind_result-started (ok a) t f h e = h a t e
bind_result-started (err x) t f h e = cc
bind_result-started panic t f h e = cc

if-started :
    (b : Bool) (f g : M (Unit {0})) (s : State)
    → Starts f s
    → Starts g s
    → Starts (if b then f else g) s
if-started true f g s hf hg = hf
if-started false f g s hf hg = hg

module _ (client : Client) (m : Messaging) (opts : List Setup) where
  finish_start-Closed :
      (nc : Handle) (s : State) (e : Error)
      → (finish_start client m nc opts s).0 ≡ err e
      → Closed nc (finish_start client m nc opts s).1
  unfolding finish_start
  finish_start-Closed nc s e h =
      let r = run_connected client m opts s in
      let c = cleaned (call_void (close_connection nc)) r.0 r.1 in
      bind_result-Closed nc c.0 c.1 (λ _. modify_conn set_started) (λ x. cleaned-Closed nc r.0 r.1)
        (λ _ _ no. cc) h

  open_jet_stream-Closed :
      (nc : Handle) (s : State) (e : Error)
      → (open_jet_stream client m nc opts s).0 ≡ err e
      → Closed nc (open_jet_stream client m nc opts s).1
  unfolding open_jet_stream call
  open_jet_stream-Closed nc s e h =
      let t = (call client (new_jet_stream nc) s).1 in
      let r =
        wrapped "failed to create JetStream context: " ""
          (client.answer s.calls (new_jet_stream nc)) in
      let c = cleaned (call_void (close_connection nc)) r t in
      bind_result-Closed nc c.0 c.1
        (λ js. (do modify_conn (λ c. record c { js = some js }); finish_start client m nc opts))
        (λ x. cleaned-Closed nc r t) (λ js _. finish_start-Closed nc _ e) h

  start_connected-Closed :
      (nc : Handle) (s : State) (e : Error)
      → client.answer s.calls (connect s.conn.nats_url s.conn.nats_opts) ≡ ok nc
      → (start_connected client m opts s).0 ≡ err e
      → Closed nc (start_connected client m opts s).1
  unfolding start_connected call
  start_connected-Closed nc s e answered h =
      rw (answered, ◌>>=◌) (open_jet_stream-Closed nc _ e (rw (answered, ◌>>=◌) at h))

  abbrev with_span_name : State → State
  with_span_name s = record s { conn = with_default_span_name s.conn }

  -- A start that is neither repeated nor collecting.
  pub start-start_connected :
      (s : State)
      → s.conn.started ≡ false
      → s.conn.collect_mode ≡ false
      → start client m opts s ≡ start_connected client m opts (with_span_name s)
  unfolding start
  start-start_connected s fresh live =
      ap (λ (f : M (Unit {0})). f s) (if_false s.conn.started _ _ fresh)
      ∙ ap (λ (f : M (Unit {0})). f (with_span_name s)) (if_false s.conn.collect_mode _ _ live)

  -- If Start on a connection that is neither started nor collecting fails after the server has accepted the connection, then closing that connection was
  -- the last call that it made to the NATS client: it never returns an error with the connection
  -- open. This covers JetStream, every setup function, and the start of the consumers.
  pub start-Closed :
      (nc : Handle) (s : State) (e : Error)
      → s.conn.started ≡ false
      → s.conn.collect_mode ≡ false
      → client.answer s.calls (connect s.conn.nats_url s.conn.nats_opts) ≡ ok nc
      → (start client m opts s).0 ≡ err e
      → Closed nc (start client m opts s).1
  start-Closed nc s e fresh live answered h =
      let same = start-start_connected s fresh live in
      let (url, given) = with_default_span_name_fields s.conn in
      subst (λ (r : Result (Unit {0}) × State). Closed nc r.1) (sym same)
        (start_connected-Closed nc (with_span_name s) e
          ((λ i. client.answer s.calls (connect (url i) (given i))) ∙ answered)
          (ap (λ r. r.0) (sym same) ∙ h))

  set_started_last :
      {A : Type 0} (r : Result A) (t : State)
      → (bind_result r t (λ _. modify_conn set_started)).0 ≡ ok tt
      → (bind_result r t (λ _. modify_conn set_started)).1.conn.started ≡ true
  set_started_last (ok a) t e = refl
  set_started_last (err x) t e = cc
  set_started_last panic t e = cc

  open_jet_stream-started :
      (nc : Handle) (s : State)
      → (open_jet_stream client m nc opts s).0 ≡ ok tt
      → (open_jet_stream client m nc opts s).1.conn.started ≡ true
  unfolding open_jet_stream call finish_start
  open_jet_stream-started nc s e =
      let t = (call client (new_jet_stream nc) s).1 in
      let c =
        cleaned (call_void (close_connection nc))
          (wrapped "failed to create JetStream context: " ""
            (client.answer s.calls (new_jet_stream nc)))
          t in
      bind_result-started c.0 c.1 _ (λ js u. set_started_last _ _) e

  start_connected-started :
      (s : State)
      → (start_connected client m opts s).0 ≡ ok tt
      → (start_connected client m opts s).1.conn.started ≡ true
  unfolding start_connected call
  start_connected-started s e =
      bind_result-started
        (wrapped "failed to connect to NATS: " ""
          (client.answer s.calls (connect s.conn.nats_url s.conn.nats_opts)))
        (call client (connect s.conn.nats_url s.conn.nats_opts) s).1 _
        (λ nc u. open_jet_stream-started nc _) e

  pub start-started :
      (s : State)
      → (start client m opts s).0 ≡ ok tt
      → (start client m opts s).1.conn.started ≡ true
  unfolding start start_collecting
  start-started s =
      if-started s.conn.started _ _ s (λ e. cc)
        (if-started s.conn.collect_mode _ _ (with_span_name s) (set_started_last _ _)
          (start_connected-started (with_span_name s)))

  -- A connection starts once: after a successful Start, every further Start returns
  -- ErrAlreadyStarted, makes no call to the NATS client and changes nothing, whatever its setup
  -- functions.
  pub start_once :
      (s : State) (again : List Setup)
      → (start client m opts s).0 ≡ ok tt
      → let t = (start client m opts s).1 in
        start client m again t ≡ (err (sentinel already_started), t)
  unfolding start
  start_once s again e =
      ap (λ (f : M (Unit {0})). f (start client m opts s).1) (if_true _ _ _ (start-started s e))
