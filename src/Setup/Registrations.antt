-- ===== src/Setup/Registrations.antt =====
-- Setup functions together with the consumers that they register.
use go_messaging_nats.Base.{
  String, Bool, true, List, [], ◌∷◌, ◌++◌, ◌≡◌, refl, sym, ap, ◌∙◌, is_some, append-nil,
  append_assoc, arith,
}
use go_messaging_nats.Base.Text.{concat}
use go_messaging_nats.Errors.{Handle, Error, Result, ok}
use go_messaging_nats.Messaging.{Messaging}
use go_messaging_nats.Nats.{Bytes, Context}
use go_messaging_nats.Naming.{stream_name}
use go_messaging_nats.Config.{ConsumerConfig, ConsumerOptions, new_consumer_config}
use go_messaging_nats.Handler.{GoType, EventHandler, ConsumableEvent, new_wrapped_handler}
use go_messaging_nats.Connection.{State, Client}
use go_messaging_nats.Connection.Monad.{M, wrapped, call, add_endpoint}
use go_messaging_nats.Connection.Stream.{ensure_stream}
use go_messaging_nats.Connection.Start.{Setup, run_setups}
use go_messaging_nats.Connection.Consumers.{
  start_js_consumer, start_core_consumer, start_request_response_consumer, subscribe_to,
}
use go_messaging_nats.Connection.Keeps.{bind_result-eq-ok, wrapped-eq-ok}
use go_messaging_nats.Setup.Consumers.{
  consume_stream, service_request_consumer, service_response_consumer, request_response_handler,
}
use go_messaging_nats.Setup.Publishers.{stream_publisher, wire_stream, service_publisher}

-- A run adds these configurations for the service, and does not unset the function for span names.
pub record Registers (apply : M (Unit {0})) (configs : String → List ConsumerConfig) : Type 0 where
  pub adds :
      (s : State)
      → (apply s).0 ≡ ok tt
      → (apply s).1.conn.pending_js_consumers
        ≡ s.conn.pending_js_consumers ++ configs s.conn.service_name
  pub service : (s : State) → (apply s).1.conn.service_name ≡ s.conn.service_name
  pub span :
      (s : State)
      → is_some s.conn.span_name_fn ≡ true
      → is_some (apply s).1.conn.span_name_fn ≡ true

pub record Registration : Type 0 where
  pub setup : Setup
  pub configs : String → List ConsumerConfig
  pub correct : Registers setup.apply configs

abbrev pub registering : List Registration → List Setup
registering [] = []
registering (r ∷ rs) = r.setup ∷ registering rs

-- All consumers that the setup functions register, in their order.
abbrev pub registered_by : List Registration → String → List ConsumerConfig
registered_by [] service = []
registered_by (r ∷ rs) service = r.configs service ++ registered_by rs service

pub record HasRegistered (rs : List Registration) (s t : State) : Type 0 where
  pub pending :
      t.conn.pending_js_consumers
      ≡ s.conn.pending_js_consumers ++ registered_by rs s.conn.service_name
  pub span : is_some s.conn.span_name_fn ≡ true → is_some t.conn.span_name_fn ≡ true

HasRegistered-cons :
    (r : Registration) (rs : List Registration) (s t : State)
    → (r.setup.apply s).0 ≡ ok tt
    → HasRegistered rs (r.setup.apply s).1 t
    → HasRegistered (r ∷ rs) s t
HasRegistered-cons r rs s t e h = record {
  pending =
      h.pending
      ∙ (rw (r.correct.adds s e, r.correct.service s)
          (append_assoc s.conn.pending_js_consumers (r.configs s.conn.service_name)
            (registered_by rs s.conn.service_name)));
  span = λ named. h.span (r.correct.span s named);
}

pub run_setups-HasRegistered :
    (rs : List Registration) (s : State)
    → (run_setups (registering rs) s).0 ≡ ok tt
    → HasRegistered rs s (run_setups (registering rs) s).1
unfolding run_setups
run_setups-HasRegistered [] s e = record {
  pending = sym (append-nil s.conn.pending_js_consumers);
  span = λ named. named;
}
run_setups-HasRegistered (r ∷ rs) s e =
    let text = concat ("setup function <" ∷ r.setup.name ∷ "> failed: " ∷ []) in
    let (a, first, rest) =
      bind_result-eq-ok (wrapped text "" (r.setup.apply s).0) (r.setup.apply s).1
        (λ _. run_setups (registering rs)) e in
    rw rest (
      HasRegistered-cons r rs s _ (wrapped-eq-ok text "" _ first)
        (run_setups-HasRegistered rs (r.setup.apply s).1 (sym (ap (λ x. x.0) rest) ∙ e)))

abbrev pub no_configs : String → List ConsumerConfig
no_configs service = []

-- The configuration, if the options are accepted.
abbrev pub configured : Result ConsumerConfig → List ConsumerConfig
configured (ok cfg) = cfg ∷ []
configured _ = []

module _ (client : Client) (m : Messaging) where
  pub stream_publisher-Registers :
      (stream : String) (publisher : Handle)
      → Registers (stream_publisher client m stream publisher) no_configs
  unfolding stream_publisher wire_stream add_endpoint ensure_stream call
  stream_publisher-Registers stream publisher = record {
    adds = λ s e. ground (arith, append-nil s.conn.pending_js_consumers);
    service = λ s. ground arith;
    span = λ s named. ground arith;
  }

  pub service_publisher-Registers :
      (target : String) (publisher : Handle)
      → Registers (service_publisher client target publisher) no_configs
  unfolding service_publisher add_endpoint
  service_publisher-Registers target publisher = record {
    adds = λ s e. ground (arith, append-nil s.conn.pending_js_consumers);
    service = λ s. ground arith;
    span = λ s named. ground arith;
  }

  module _ (error_text : Error → String) {T : Type 0} (t : GoType T) where
    -- What a consumer of a stream registers for a service.
    abbrev pub stream_config :
        Bool
        → String
        → String
        → EventHandler T
        → List ConsumerOptions
        → String
        → List ConsumerConfig
    stream_config ephemeral stream key handler opts service = configured (
        new_consumer_config (stream_name m stream) key ephemeral
          (new_wrapped_handler error_text t handler) service opts)

    pub consume_stream-Registers :
        (ephemeral : Bool) (stream key : String) (handler : EventHandler T)
        (opts : List ConsumerOptions)
        → Registers
            (consume_stream client m error_text ephemeral t stream key handler opts)
            (stream_config ephemeral stream key handler opts)
    unfolding consume_stream start_js_consumer add_endpoint
    consume_stream-Registers ephemeral stream key handler opts = record {
      adds = λ s e. ground arith;
      service = λ s. ground arith;
      span = λ s named. ground arith;
    }

    pub service_request_consumer-Registers :
        (key : String) (handler : EventHandler T) (opts : List ConsumerOptions)
        → Registers (service_request_consumer client m error_text t key handler opts) no_configs
    unfolding service_request_consumer start_core_consumer subscribe_to call add_endpoint
    service_request_consumer-Registers key handler opts = record {
      adds = λ s e. ground (arith, append-nil s.conn.pending_js_consumers);
      service = λ s. ground arith;
      span = λ s named. ground arith;
    }

    pub request_response_handler-Registers :
        {R : Type 0} (marshal : R → Result Bytes) (key : String)
        (handler : Context → ConsumableEvent T → Result R)
        → Registers (request_response_handler client m error_text t marshal key handler) no_configs
    unfolding request_response_handler start_request_response_consumer subscribe_to call
        add_endpoint
    request_response_handler-Registers marshal key handler = record {
      adds = λ s e. ground (arith, append-nil s.conn.pending_js_consumers);
      service = λ s. ground arith;
      span = λ s named. ground arith;
    }

    pub service_response_consumer-Registers :
        (target key : String) (handler : EventHandler T) (opts : List ConsumerOptions)
        → Registers
            (service_response_consumer client m error_text t target key handler opts)
            no_configs
    unfolding service_response_consumer add_endpoint
    service_response_consumer-Registers target key handler opts = record {
      adds = λ s e. sym (append-nil s.conn.pending_js_consumers);
      service = λ s. refl;
      span = λ s named. named;
    }
