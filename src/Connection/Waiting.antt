-- ===== src/Connection/Waiting.antt =====
-- The runs of a connection that is not started: what they leave behind, whether they succeed or fail.
use go_messaging_nats.Base.{
  String, Bool, true, false, List, [], ◌∷◌, Option, none, some, ◌≡◌, refl, sym, ap, ◌∙◌, subst, All,
  All-append, is_some,
}
use go_messaging_nats.Errors.{Handle, Result}
use go_messaging_nats.Messaging.{Messaging}
use go_messaging_nats.Config.{ConsumerConfig}
use go_messaging_nats.Connection.{Connection, State, Client, Call}
use go_messaging_nats.Connection.Monad.{M, ◌>>=◌, get_conn, not_nil, wrap_error, call}
use go_messaging_nats.Connection.Contracts.{
  Post, Ensures, bind-Ensures, wrap_error-Ensures, Post-both,
}
use go_messaging_nats.Connection.Stream.{ensure_stream}
use go_messaging_nats.Connection.Groups.{grouped}
use go_messaging_nats.Connection.Consumers.{start_group, start_groups, start_pending_js_consumers}
use go_messaging_nats.Connection.Start.{Setup, run_setups}

-- A setup function that leaves the link to the server alone.
pub record KeepsLink (apply : M (Unit {0})) : Type 0 where
  pub started : (s : State) → (apply s).1.conn.started ≡ s.conn.started
  pub nc : (s : State) → (apply s).1.conn.nc ≡ s.conn.nc
  pub js : (s : State) → (apply s).1.conn.js ≡ s.conn.js
  pub consumers : (s : State) → (apply s).1.conn.consumers ≡ s.conn.consumers
  pub mode : (s : State) → (apply s).1.conn.collect_mode ≡ s.conn.collect_mode

abbrev pub HasContexts : List (Option Handle) → Type 0
HasContexts = All (λ o. is_some o ≡ true)

-- A connection that is not started; `n` and `j` say what it is known to have.
pub record IsWaiting (b n j : Bool) (c : Connection) : Type 0 where
  pub waiting : c.started ≡ false
  pub mode : c.collect_mode ≡ b
  pub contexts : HasContexts c.consumers
  pub nc : n ≡ true → is_some c.nc ≡ true
  pub js : j ≡ true → is_some c.js ≡ true

pub IsWaiting-weaken :
    (b n j : Bool) (c : Connection) → IsWaiting b n j c → IsWaiting b false false c
IsWaiting-weaken b n j c w = record {
  waiting = w.waiting;
  mode = w.mode;
  contexts = w.contexts;
  nc = λ e. cc;
  js = λ e. cc;
}

-- What holds of the connection after a run that fails.
abbrev pub IsIdle : Bool → Connection → Type 0
IsIdle b = IsWaiting b false false

-- A result whose connection has the property, whether it succeeds or not.
pub Post-IsWaiting :
    {A : Type 0} (b n j : Bool) (r : Result A) (t : State)
    → IsWaiting b n j t.conn
    → Post (IsIdle b) (IsWaiting b n j) r t
Post-IsWaiting b n j r t w =
    Post-both (IsIdle b) (IsWaiting b n j) r t w (IsWaiting-weaken b n j t.conn w)

pub KeepsLink-IsWaiting :
    (apply : M (Unit {0})) (b n j : Bool) (s : State)
    → KeepsLink apply
    → IsWaiting b n j s.conn
    → IsWaiting b n j (apply s).1.conn
KeepsLink-IsWaiting apply b n j s k w = record {
  waiting = k.started s ∙ w.waiting;
  mode = k.mode s ∙ w.mode;
  contexts = subst HasContexts (sym (k.consumers s)) w.contexts;
  nc = λ e. ap is_some (k.nc s) ∙ w.nc e;
  js = λ e. ap is_some (k.js s) ∙ w.js e;
}

module _ (client : Client) (m : Messaging) (b : Bool) where
  pub call-Ensures :
      (n j : Bool) (c : Call)
      → Ensures (IsIdle b) (IsWaiting b n j) (call client c) (IsWaiting b n j)
  unfolding call
  call-Ensures n j c s w = Post-IsWaiting b n j (client.answer s.calls c) _ w

  abbrev pub Kept : {A : Type 0} → Bool → Bool → M A → Type 0
  Kept n j a = Ensures (IsIdle b) (IsWaiting b n j) a (IsWaiting b n j)

  pub wrapped_call-Ensures :
      (n j : Bool) (before : String) (c : Call) → Kept n j (wrap_error before "" (call client c))
  wrapped_call-Ensures n j before c =
      wrap_error-Ensures (IsIdle b) (IsWaiting b n j) (IsWaiting b n j) before "" (call client c)
        (call-Ensures n j c)

  not_nil-Ensures : (n j : Bool) (o : Option Handle) → Kept n j (not_nil o)
  not_nil-Ensures n j none s w = IsWaiting-weaken b n j s.conn w
  not_nil-Ensures n j (some h) s w = w

  bind-Kept :
      {A B : Type 0} (n j : Bool) (a : M A) (f : A → M B)
      → Kept n j a
      → ((x : A) → Kept n j (f x))
      → Kept n j (a >>= f)
  bind-Kept n j a f h k =
      bind-Ensures (IsIdle b) (IsWaiting b n j) (IsWaiting b n j) (IsWaiting b n j) a f h k

  ensure_stream-Ensures : (n j : Bool) (name : String) → Kept n j (ensure_stream client name)
  unfolding ensure_stream
  ensure_stream-Ensures n j name =
      bind-Kept n j get_conn _ (λ s w. w)
        (λ c. bind-Kept n j (not_nil c.js) _ (not_nil-Ensures n j c.js) (λ js. call-Ensures n j _))

  start_group-Ensures : (n j : Bool) (g : List ConsumerConfig) → Kept n j (start_group client m g)
  unfolding start_group
  start_group-Ensures n j [] = λ s w. IsWaiting-weaken b n j s.conn w
  start_group-Ensures n j (first ∷ rest) =
      bind-Kept n j _ _
        (wrap_error-Ensures (IsIdle b) (IsWaiting b n j) (IsWaiting b n j) _ "" _
          (ensure_stream-Ensures n j first.stream))
        (λ stream.
          bind-Kept n j get_conn _ (λ s w. w)
            (λ c. bind-Kept n j _ _ (wrapped_call-Ensures n j _ _) (λ cons.
              bind-Kept n j _ _ (wrapped_call-Ensures n j _ _) (λ ctx s w. record {
                waiting = w.waiting;
                mode = w.mode;
                contexts =
                    All-append (λ o. is_some o ≡ true) s.conn.consumers (some ctx ∷ []) w.contexts
                      (refl, tt);
                nc = w.nc;
                js = w.js;
              }))))

  start_groups-Ensures :
      (n j : Bool) (gs : List (List ConsumerConfig)) → Kept n j (start_groups client m gs)
  unfolding start_groups
  start_groups-Ensures n j [] = λ s w. w
  start_groups-Ensures n j (g ∷ gs) =
      bind-Kept n j (start_group client m g) _ (start_group-Ensures n j g)
        (λ _. start_groups-Ensures n j gs)

  -- Also, nothing is pending.
  abbrev pub IsServed : Bool → Bool → Connection → Type 0
  IsServed n j c = IsWaiting b n j c × (c.pending_js_consumers ≡ [])

  pub start_pending-Ensures :
      (n j : Bool)
      → Ensures (IsIdle b) (IsWaiting b n j) (start_pending_js_consumers client m) (IsServed n j)
  unfolding start_pending_js_consumers
  start_pending-Ensures n j =
      bind-Ensures (IsIdle b) (IsWaiting b n j) (IsWaiting b n j) (IsServed n j) get_conn _
        (λ s w. w)
        (λ c.
          bind-Ensures (IsIdle b) (IsWaiting b n j) (IsWaiting b n j) (IsServed n j)
            (start_groups client m (grouped c.pending_js_consumers)) _ (start_groups-Ensures n j _)
            (λ _ s w. (
              record {
                waiting = w.waiting;
                mode = w.mode;
                contexts = w.contexts;
                nc = w.nc;
                js = w.js;
              },
              refl,
            )))

  abbrev pub AllKeepLink : List Setup → Type 0
  AllKeepLink = All (λ f. KeepsLink f.apply)

  pub run_setups-Ensures :
      (n j : Bool) (opts : List Setup) → AllKeepLink opts → Kept n j (run_setups opts)
  unfolding run_setups
  run_setups-Ensures n j [] k = λ s w. w
  run_setups-Ensures n j (f ∷ opts) k =
      bind-Kept n j _ _
        (wrap_error-Ensures (IsIdle b) (IsWaiting b n j) (IsWaiting b n j) _ "" f.apply (λ s w.
          Post-IsWaiting b n j (f.apply s).0 (f.apply s).1
            (KeepsLink-IsWaiting f.apply b n j s k.0 w)))
        (λ _. run_setups-Ensures n j opts k.1)
