-- ===== src/Connection/Tracking.antt =====
-- The consume contexts of a connection, as those that its calls to the NATS client have opened.
pub mod Starting
use go_messaging_nats.Base.{
  String, Bool, true, false, List, [], ◌∷◌, ◌++◌, Option, none, some, ◌≡◌, refl, sym, ap, ◌∙◌, All,
  append-nil, append_assoc, arith, if◌then◌else◌,
}
use go_messaging_nats.Errors.{Handle, Result, ok, err, panic}
use go_messaging_nats.Messaging.{Messaging}
use go_messaging_nats.Config.{ConsumerConfig}
use go_messaging_nats.Consumer.{JsConsumer}
use go_messaging_nats.Connection.{Connection, State, Client, Call, close_connection, consume}
use go_messaging_nats.Connection.Monad.{
  M, bind_result, ◌>>=◌, get_conn, modify_conn, not_nil, wrapped, wrap_error, cleaned, or_cleanup,
  call, call_void,
}
use go_messaging_nats.Connection.Stream.{ensure_stream}
use go_messaging_nats.Connection.Consumers.{start_group, start_groups, start_pending_js_consumers}
use go_messaging_nats.Connection.Closing.{contexts}
use go_messaging_nats.Connection.Start.{
  Setup, run_setups, start, start_collecting, start_connected, open_jet_stream, finish_start,
  run_connected, with_default_span_name,
}

-- The consume context that a call has opened, given its answer.
abbrev pub opened_by : Call → Result Handle → List Handle
opened_by (consume k consumer) (ok ctx) = ctx ∷ []
opened_by _ _ = []

-- The consume contexts that the calls have opened, after the calls of `before`.
abbrev pub opened : Client → List Call → List Call → List Handle
opened client before [] = []
opened client before (c ∷ cs) =
    opened_by c (client.answer before c) ++ opened client (before ++ c ∷ []) cs

contexts-append : (cs ds : List (Option Handle)) → contexts (cs ++ ds) ≡ contexts cs ++ contexts ds
contexts-append [] ds = refl
contexts-append (none ∷ cs) ds = contexts-append cs ds
contexts-append (some h ∷ cs) ds = ap (◌∷◌ h) (contexts-append cs ds)

opened-snoc :
    (client : Client) (before cs : List Call) (c : Call)
    → opened client before (cs ++ c ∷ [])
      ≡ opened client before cs ++ opened_by c (client.answer (before ++ cs) c)
opened-snoc client before [] c =
    append-nil (opened_by c (client.answer before c))
    ∙ ap (λ l. opened_by c (client.answer l c)) (sym (append-nil before))
opened-snoc client before (b ∷ cs) c =
    ap (λ l. opened_by b (client.answer before b) ++ l)
      (opened-snoc client (before ++ b ∷ []) cs c
        ∙ ap (λ l. opened client (before ++ b ∷ []) cs ++ opened_by c (client.answer l c))
            (append_assoc before (b ∷ []) cs))
    ∙ sym (append_assoc (opened_by b (client.answer before b)) _ _)

-- A call that opens no context.
abbrev pub OpensNone : Call → Type 0
OpensNone c = (r : Result Handle) → opened_by c r ≡ []

module _ (client : Client) where
  -- The connection holds the contexts that were opened, in the order of opening.
  abbrev pub IsTracked : State → Type 0
  IsTracked s = contexts s.conn.consumers ≡ opened client [] s.calls

  pub record Tracks {A : Type 0} (m : M A) : Type 0 where
    pub keeps : (s : State) → IsTracked s → IsTracked (m s).1

  bind_result-Tracks :
      {A B : Type 0} (r : Result A) (t : State) (f : A → M B)
      → IsTracked t
      → ((a : A) → Tracks (f a))
      → IsTracked (bind_result r t f).1
  bind_result-Tracks (ok a) t f w k = (k a).keeps t w
  bind_result-Tracks (err e) t f w k = w
  bind_result-Tracks panic t f w k = w

  pub bind-Tracks :
      {A B : Type 0} (m : M A) (f : A → M B)
      → Tracks m
      → ((a : A) → Tracks (f a))
      → Tracks (m >>= f)
  bind-Tracks m f h k = record {
    keeps = λ s w. bind_result-Tracks (m s).0 (m s).1 f (h.keeps s w) k;
  }

  pub not_nil-Tracks : (o : Option Handle) → Tracks (not_nil o)
  not_nil-Tracks none = record { keeps = λ s w. w }
  not_nil-Tracks (some h) = record { keeps = λ s w. w }

  cleaned-Tracks :
      {A : Type 0} (m : M (Unit {0})) (r : Result A) (t : State)
      → Tracks m
      → IsTracked t
      → IsTracked (cleaned m r t).1
  cleaned-Tracks m (ok a) t h w = w
  cleaned-Tracks m (err e) t h w = h.keeps t w
  cleaned-Tracks m panic t h w = w

  pub or_cleanup-Tracks :
      {A : Type 0} (m : M (Unit {0})) (n : M A) → Tracks m → Tracks n → Tracks (or_cleanup m n)
  or_cleanup-Tracks m n h k = record {
    keeps = λ s w. cleaned-Tracks m (n s).0 (n s).1 h (k.keeps s w);
  }

  pub wrap_error-Tracks :
      {A : Type 0} (before after : String) (m : M A) → Tracks m → Tracks (wrap_error before after m)
  wrap_error-Tracks before after m h = record { keeps = h.keeps }

  pub modify-Tracks :
      (f : Connection → Connection)
      → ((c : Connection) → (f c).consumers ≡ c.consumers)
      → Tracks (modify_conn f)
  modify-Tracks f e = record { keeps = λ s w. ap contexts (e s.conn) ∙ w }

  pub get_conn-Tracks : Tracks get_conn
  get_conn-Tracks = record { keeps = λ s w. w }

  opens_none_lem :
      (s : State) (c : Call)
      → OpensNone c
      → IsTracked s
      → contexts s.conn.consumers ≡ opened client [] (s.calls ++ c ∷ [])
  opens_none_lem s c n w =
      w
      ∙ sym (
          opened-snoc client [] s.calls c
          ∙ ap (λ l. opened client [] s.calls ++ l) (n _)
          ∙ append-nil (opened client [] s.calls))

  pub call-Tracks : (c : Call) → OpensNone c → Tracks (call client c)
  unfolding call
  call-Tracks c n = record { keeps = λ s w. opens_none_lem s c n w }

  pub call_void-Tracks : (c : Call) → OpensNone c → Tracks (call_void c)
  unfolding call_void
  call_void-Tracks c n = record { keeps = λ s w. opens_none_lem s c n w }

  pub if-Tracks :
      {A : Type 0} (b : Bool) (m n : M A) → Tracks m → Tracks n → Tracks (if b then m else n)
  if-Tracks true m n h k = h
  if-Tracks false m n h k = k

  -- The context that the client answers with is kept.
  pub consume-Tracks :
      (cons : Handle) (consumer : JsConsumer) (before : String)
      → Tracks (do
        ctx ← wrap_error before "" (call client (consume cons consumer))
        modify_conn (λ c. record c { consumers = c.consumers ++ some ctx ∷ [] }))
  unfolding call
  consume-Tracks cons consumer before = record {
    keeps = λ s w. kept s w (client.answer s.calls (consume cons consumer)) refl;
  }
    where
      opened_after :
          (s : State) (r : Result Handle)
          → client.answer s.calls (consume cons consumer) ≡ r
          → opened client [] (s.calls ++ consume cons consumer ∷ [])
            ≡ opened client [] s.calls ++ opened_by (consume cons consumer) r
      opened_after s r e =
          opened-snoc client [] s.calls (consume cons consumer)
          ∙ ap (λ r. opened client [] s.calls ++ opened_by (consume cons consumer) r) e

      kept :
          (s : State)
          → IsTracked s
          → (r : Result Handle) → client.answer s.calls (consume cons consumer) ≡ r
          → IsTracked
              (bind_result
                (wrapped before "" r)
                (record s { calls = s.calls ++ consume cons consumer ∷ [] })
                (λ ctx. modify_conn (λ c. record c { consumers = c.consumers ++ some ctx ∷ [] }))).1
      kept s w (ok ctx) e =
          contexts-append s.conn.consumers (some ctx ∷ [])
          ∙ ap (λ l. l ++ ctx ∷ []) w
          ∙ sym (opened_after s (ok ctx) e)
      kept s w (err x) e =
          w ∙ sym (opened_after s (err x) e ∙ append-nil (opened client [] s.calls))
      kept s w panic e = w ∙ sym (opened_after s panic e ∙ append-nil (opened client [] s.calls))

  pub ensure_stream-Tracks : (name : String) → Tracks (ensure_stream client name)
  unfolding ensure_stream
  ensure_stream-Tracks name =
      bind-Tracks _ _ get_conn-Tracks
        (λ c. bind-Tracks _ _ (not_nil-Tracks c.js) (λ js. call-Tracks _ (λ r. refl)))
