-- ===== src/Connection/Closing.antt =====
-- What Close does on every connection.
use go_messaging_nats.Base.{
  Bool, true, false, List, [], ◌∷◌, ◌++◌, map, Option, none, some, ◌≡◌, refl, sym, ap, ◌∙◌,
  if◌then◌else◌, not, append-nil, append_assoc, ◌⊎◌, inl, inr,
}
use go_messaging_nats.Errors.{Handle, Result, ok, err, panic}
use go_messaging_nats.Connection.{State, Client, Call, stop, drain}
use go_messaging_nats.Connection.Monad.{pure, bind_result, call, call_void, ◌>>=◌}
use go_messaging_nats.Connection.Start.{stop_all, close, drained}

-- The consume contexts that there are.
abbrev pub contexts : List (Option Handle) → List Handle
contexts [] = []
contexts (none ∷ cs) = contexts cs
contexts (some h ∷ cs) = h ∷ contexts cs

with_calls :
    (s : State) {l k : List Call}
    → l ≡ k
    → ◌≡◌ {A = Result (Unit {0}) × State}
        (ok tt, record s { calls = l })
        (ok tt, record s { calls = k })
with_calls s e = λ i. (ok tt, record s { calls = e i })

abbrev pub drain_result : Result Handle → Result (Unit {0})
drain_result (ok _) = ok tt
drain_result (err e) = err e
drain_result panic = panic

stop_all_lem :
    (cs : List (Option Handle)) (s : State)
    → stop_all cs s ≡ (ok tt, record s { calls = s.calls ++ map stop (contexts cs) })
unfolding stop_all call_void
stop_all_lem [] s = with_calls s (sym (append-nil s.calls))
stop_all_lem (none ∷ cs) s = stop_all_lem cs s
stop_all_lem (some h ∷ cs) s =
    stop_all_lem cs (record s { calls = s.calls ++ stop h ∷ [] })
    ∙ with_calls s (append_assoc s.calls (stop h ∷ []) (map stop (contexts cs)))

bind_result-pure :
    (r : Result Handle) (t : State) → bind_result r t (λ _ u. (ok tt, u)) ≡ (drain_result r, t)
bind_result-pure (ok a) t = refl
bind_result-pure (err e) t = refl
bind_result-pure panic t = refl

drained_lem :
    (client : Client) (cs : List (Option Handle)) (nc : Handle) (s : State)
    → drained client cs (some nc) s ≡ (
      drain_result (client.answer (s.calls ++ map stop (contexts cs)) (drain nc)),
      record s { calls = s.calls ++ (map stop (contexts cs) ++ drain nc ∷ []) },
    )
unfolding drained call
drained_lem client cs nc s =
    (λ i.
      bind_result (stop_all_lem cs s i).0 (stop_all_lem cs s i).1
        (λ _. call client (drain nc) >>= λ _ u. (ok tt, u)))
    ∙ bind_result-pure (client.answer (s.calls ++ map stop (contexts cs)) (drain nc)) _
    ∙ (λ i. (
      drain_result (client.answer (s.calls ++ map stop (contexts cs)) (drain nc)),
      record s { calls = append_assoc s.calls (map stop (contexts cs)) (drain nc ∷ []) i },
    ))

-- Close of a started connection stops every consumer that has a context, in the order in which they
-- were started, then drains the connection, and returns the result of draining; on any other
-- connection it makes no call and changes nothing.
pub close_lem :
    (client : Client) (s : State)
    → ((nc : Handle)
        → (s.conn.started ≡ true) × (s.conn.nc ≡ some nc)
        → close client s ≡ (
          drain_result (client.answer (s.calls ++ map stop (contexts s.conn.consumers)) (drain nc)),
          record s { calls = s.calls ++ (map stop (contexts s.conn.consumers) ++ drain nc ∷ []) },
        ))
      × ((s.conn.started ≡ false) ⊎ (s.conn.nc ≡ none) → close client s ≡ (ok tt, s))
unfolding close drained
close_lem client s = (
  (λ nc h.
      (λ i. (if not (h.0 i) then pure tt else drained client s.conn.consumers (h.1 i)) s)
      ∙ drained_lem client s.conn.consumers nc s),
  elim [
    | inl fresh ↦
        λ i. (if not (fresh i) then pure tt else drained client s.conn.consumers s.conn.nc) s
    | inr missing ↦
        (λ i.
          (if not s.conn.started then pure tt else drained client s.conn.consumers (missing i)) s)
        ∙ idle s.conn.started
  ],
)
  where
    idle :
        (b : Bool)
        → (if not b then pure tt else drained client s.conn.consumers none) s ≡ (ok tt, s)
    idle true = refl
    idle false = refl

-- Close leaves the connection itself alone.
stop_all-conn : (cs : List (Option Handle)) (s : State) → (stop_all cs s).1.conn ≡ s.conn
stop_all-conn cs s = ap (λ r. r.1.conn) (stop_all_lem cs s)

drained-conn :
    (client : Client) (cs : List (Option Handle)) (o : Option Handle) (s : State)
    → (drained client cs o s).1.conn ≡ s.conn
unfolding drained
drained-conn client cs none s = refl
drained-conn client cs (some nc) s = ap (λ r. r.1.conn) (drained_lem client cs nc s)

drained-conn_if :
    (client : Client) (cs : List (Option Handle)) (o : Option Handle) (s : State) (b : Bool)
    → ((if b then pure tt else drained client cs o) s).1.conn ≡ s.conn
drained-conn_if client cs o s true = refl
drained-conn_if client cs o s false = drained-conn client cs o s

pub close-conn : (client : Client) (s : State) → (close client s).1.conn ≡ s.conn
unfolding close
close-conn client s = drained-conn_if client s.conn.consumers s.conn.nc s (not s.conn.started)
