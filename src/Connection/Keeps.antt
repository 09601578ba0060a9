-- ===== src/Connection/Keeps.antt =====
-- Methods that leave the declared topology, the service's name and the mode of a connection alone, and
-- the publishers, and the parts of a successful run.
use go_messaging_nats.Base.{String, List, [], ◌∷◌, Option, none, some, ◌≡◌, refl, ◌∙◌, arith}
use go_messaging_nats.Errors.{Handle, Result, ok, err, panic}
use go_messaging_nats.Messaging.{Messaging}
use go_messaging_nats.Config.{ConsumerConfig}
use go_messaging_nats.Connection.{State, Client, Call}
use go_messaging_nats.Connection.Monad.{
  M, bind_result, ◌>>=◌, get_conn, modify_conn, not_nil, wrapped, cleaned, or_cleanup, call,
  call_void,
}
use go_messaging_nats.Connection.Groups.{grouped}
use go_messaging_nats.Connection.Stream.{ensure_stream}
use go_messaging_nats.Connection.Consumers.{start_group, start_groups, start_pending_js_consumers}

pub record Same (s t : State) : Type 0 where
  pub topology : t.conn.topology ≡ s.conn.topology
  pub service : t.conn.service_name ≡ s.conn.service_name
  pub mode : t.conn.collect_mode ≡ s.conn.collect_mode
  pub publishers : t.publishers ≡ s.publishers

abbrev pub Keeps : {A : Type 0} → M A → Type 0
Keeps m = (s : State) → Same s (m s).1

Same-refl : (s : State) → Same s s
Same-refl s = record { topology = refl; service = refl; mode = refl; publishers = refl }

pub Same-trans : {s t u : State} → Same s t → Same t u → Same s u
Same-trans a b = record {
  topology = b.topology ∙ a.topology;
  service = b.service ∙ a.service;
  mode = b.mode ∙ a.mode;
  publishers = b.publishers ∙ a.publishers;
}

bind_result-Same :
    {A B : Type 0} (r : Result A) (s t : State) (f : A → M B)
    → Same s t
    → ((a : A) → Keeps (f a))
    → Same s (bind_result r t f).1
bind_result-Same (ok a) s t f h k = Same-trans h (k a t)
bind_result-Same (err e) s t f h k = h
bind_result-Same panic s t f h k = h

pub bind-Keeps :
    {A B : Type 0} (m : M A) (f : A → M B) → Keeps m → ((a : A) → Keeps (f a)) → Keeps (m >>= f)
bind-Keeps m f h k s = bind_result-Same (m s).0 s (m s).1 f (h s) k

pub call-Keeps : (client : Client) (c : Call) → Keeps (call client c)
unfolding call
call-Keeps client c s = record { topology = refl; service = refl; mode = refl; publishers = refl }

pub call_void-Keeps : (c : Call) → Keeps (call_void c)
unfolding call_void
call_void-Keeps c s = record { topology = refl; service = refl; mode = refl; publishers = refl }

not_nil-Keeps : (o : Option Handle) → Keeps (not_nil o)
not_nil-Keeps none s = Same-refl s
not_nil-Keeps (some h) s = Same-refl s

pub get_conn-Keeps : Keeps get_conn
get_conn-Keeps s = Same-refl s

cleaned-Same :
    {A : Type 0} (cleanup : M (Unit {0})) (r : Result A) (s t : State)
    → Same s t
    → Keeps cleanup
    → Same s (cleaned cleanup r t).1
cleaned-Same cleanup (ok a) s t h k = h
cleaned-Same cleanup (err e) s t h k = Same-trans h (k t)
cleaned-Same cleanup panic s t h k = h

pub or_cleanup-Keeps :
    {A : Type 0} (cleanup : M (Unit {0})) (m : M A)
    → Keeps cleanup
    → Keeps m
    → Keeps (or_cleanup cleanup m)
or_cleanup-Keeps cleanup m k h s = cleaned-Same cleanup (m s).0 s (m s).1 (h s) k

module _ (client : Client) (m : Messaging) where
  start_group-Keeps : (g : List ConsumerConfig) → Keeps (start_group client m g)
  unfolding start_group ensure_stream call
  start_group-Keeps [] s = Same-refl s
  start_group-Keeps (first ∷ rest) s = ground arith

  start_groups-Keeps : (gs : List (List ConsumerConfig)) → Keeps (start_groups client m gs)
  unfolding start_groups
  start_groups-Keeps [] s = Same-refl s
  start_groups-Keeps (g ∷ gs) s =
      bind_result-Same (start_group client m g s).0 s (start_group client m g s).1
        (λ _. start_groups client m gs) (start_group-Keeps g s) (λ _. start_groups-Keeps gs)

  pub start_pending_js_consumers-Keeps : Keeps (start_pending_js_consumers client m)
  unfolding start_pending_js_consumers
  start_pending_js_consumers-Keeps s =
      let gs = grouped s.conn.pending_js_consumers in
      bind_result-Same (start_groups client m gs s).0 s (start_groups client m gs s).1
        (λ _. modify_conn λ c. record c { pending_js_consumers = [] }) (start_groups-Keeps gs s)
        (λ _ t. record { topology = refl; service = refl; mode = refl; publishers = refl })

-- The parts of a run that succeeds.
pub bind_result-eq-ok :
    {A B : Type 0} (r : Result A) (t : State) (f : A → M B) {b : B}
    → (bind_result r t f).0 ≡ ok b
    → (a : A) × (r ≡ ok a) × (bind_result r t f ≡ f a t)
bind_result-eq-ok (ok a) t f h = (a, refl, refl)
bind_result-eq-ok (err e) t f h = cc
bind_result-eq-ok panic t f h = cc

pub wrapped-eq-ok :
    {A : Type 0} (before after : String) (r : Result A) {a : A}
    → wrapped before after r ≡ ok a
    → r ≡ ok a
wrapped-eq-ok before after (ok a) h = h
wrapped-eq-ok before after (err e) h = cc
wrapped-eq-ok before after panic h = cc

pub cleaned-eq-ok :
    {A : Type 0} (cleanup : M (Unit {0})) (r : Result A) (s : State) {a : A}
    → (cleaned cleanup r s).0 ≡ ok a
    → (r ≡ ok a) × (cleaned cleanup r s ≡ (r, s))
cleaned-eq-ok cleanup (ok a) s h = (h, refl)
cleaned-eq-ok cleanup (err e) s h = cc
cleaned-eq-ok cleanup panic s h = cc
