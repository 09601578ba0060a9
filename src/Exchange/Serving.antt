-- ===== src/Exchange/Serving.antt =====
-- What the server has been asked for when setup functions for consumers have run in a Start that
-- succeeded.
use mathlib.Core.List.{Memᴰ}
use go_messaging_nats.Base.{
  String, List, ◌++◌, ◌≡◌, sym, ap, ◌∙◌, subst, false, true, All, is_some, arith,
}
use go_messaging_nats.Errors.{ok}
use go_messaging_nats.Config.{ConsumerConfig}
use go_messaging_nats.Routing.Matching.{Matches}
use go_messaging_nats.Connection.{Connection, State, Client, Call}
use go_messaging_nats.Connection.Groups.Settings.{HasSubject}
use go_messaging_nats.Connection.Groups.Members.{Agrees}
use go_messaging_nats.Connection.Requested.{Request, requests}
use go_messaging_nats.Connection.Subscribed.{Serves, start_pending-Serves}
use go_messaging_nats.Connection.Start.{start, run_setups, with_default_span_name}
use go_messaging_nats.Connection.Stages.{Staged, start-Staged}
use go_messaging_nats.Setup.Registrations.{
  Registration, registering, registered_by, HasRegistered, run_setups-HasRegistered,
}
use go_messaging_nats.Consumer
use go_messaging_nats.Consumer.{handled, JsConsumer, Run}
use go_messaging_nats.Consumer.Settlement.{calls}

-- All consumers that are registered before the pending ones are started.
abbrev pub all_registered : State → List Registration → List ConsumerConfig
all_registered s rs = s.conn.pending_js_consumers ++ registered_by rs s.conn.service_name

-- The calls of a start that succeeded include a request that serves the registration.
pub record StartsServing (client : Client) (env : Consumer.Env) (key : String)
    (cfg : ConsumerConfig) (t : State) : Type 0 where
  pub earlier : List Call
  pub made : List Call
  pub calls : t.calls ≡ earlier ++ made
  pub request : Request
  pub asked : Memᴰ request (requests made)
  pub conn : Connection
  pub span : is_some conn.span_name_fn ≡ true
  pub serves : Serves client env.messaging key cfg conn request

default-is_some : (c : Connection) → is_some (with_default_span_name c).span_name_fn ≡ true
default-is_some c = ground arith

default-pending :
    (c : Connection)
    → ((with_default_span_name c).pending_js_consumers ≡ c.pending_js_consumers)
      × ((with_default_span_name c).service_name ≡ c.service_name)
default-pending c = ground arith

module _ (client : Client) (env : Consumer.Env) (rs : List Registration) (s : State) where
  registered_lem :
      (v : Staged client env.messaging
        (registering rs)
        (record s { conn = with_default_span_name s.conn })
        (start client env.messaging (registering rs) s).1)
      → HasRegistered rs v.linked (run_setups (registering rs) v.linked).1
      → (run_setups (registering rs) v.linked).1.conn.pending_js_consumers ≡ all_registered s rs
  registered_lem v h =
      let (pending, service) = default-pending s.conn in
      h.pending
      ∙ (λ i. (v.kept.pending ∙ pending) i ++ registered_by rs ((v.kept.service ∙ service) i))

  pub start-StartsServing :
      (key : String) (cfg : ConsumerConfig)
      → s.conn.started ≡ false
      → s.conn.collect_mode ≡ false
      → (start client env.messaging (registering rs) s).0 ≡ ok tt
      → Memᴰ cfg (all_registered s rs)
      → Matches env.messaging key cfg.routing_key
      → All (Agrees env.messaging key cfg) (all_registered s rs)
      → All (HasSubject env.messaging) (all_registered s rs)
      → StartsServing client env key cfg (start client env.messaging (registering rs) s).1
  start-StartsServing key cfg fresh live e mem matches alone have_subjects =
      let v = start-Staged client env.messaging (registering rs) s fresh live e in
      let h = run_setups-HasRegistered rs v.linked v.ran in
      let u = (run_setups (registering rs) v.linked).1 in
      let same = sym (registered_lem v h) in
      let (made, request, calls, asked, serves) =
        start_pending-Serves client env.messaging key cfg u (subst (Memᴰ cfg) same mem) matches
          (subst (All (Agrees env.messaging key cfg)) same alone)
          (subst (All (HasSubject env.messaging)) same have_subjects) v.served in
      record {
        earlier = u.calls;
        made = made;
        calls = v.calls ∙ calls;
        request = request;
        asked = asked;
        conn = u.conn;
        span = h.span (ap is_some v.kept.span ∙ default-is_some s.conn);
        serves = serves;
      }
