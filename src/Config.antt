-- ===== src/Config.antt =====
-- consumerConfig and its options (consumer.go), and the connection-level settings of setup.go.
use go_messaging_nats.Base.{String, Bool, List, [], ◌∷◌, Option, none, if◌then◌else◌, ◌==◌}
use go_messaging_nats.Base.Int.{ℤ, pos, is_negative}
use go_messaging_nats.Errors.{
  sentinel, wrap, negative_max_deliver, empty_suffix, Result, ok, err, panic, ◌>>=◌,
}
use go_messaging_nats.Handler.{WrappedHandler}
use go_messaging_nats.Naming.{consumer_name, consumer_name_with_suffix}

-- A time.Duration, in nanoseconds.
abbrev pub Duration : Type 0
Duration = ℤ

pub record StreamConfig : Type 0 where
  pub max_age : Duration
  pub max_bytes : ℤ
  pub max_msgs : ℤ

-- A nil slice is `none`.
pub record ConsumerDefaults : Type 0 where
  pub max_deliver : ℤ
  pub back_off : Option (List Duration)

pub record ConsumerConfig : Type 0 where
  pub stream : String
  pub routing_key : String
  pub consumer_name : String
  pub ephemeral : Bool
  pub handler : WrappedHandler
  pub suffix : String
  pub max_deliver : ℤ
  pub back_off : Option (List Duration)

-- The option's error, or the changed configuration.
abbrev pub ConsumerOptions : Type 0
ConsumerOptions = ConsumerConfig → Result ConsumerConfig

unfoldable pub add_consumer_name_suffix : String → ConsumerOptions
add_consumer_name_suffix suffix config =
    if suffix == "" then err (sentinel empty_suffix) else ok (record config { suffix = suffix })

unfoldable pub with_max_deliver : ℤ → ConsumerOptions
with_max_deliver n config =
    if is_negative n then err (negative_max_deliver n) else ok (record config { max_deliver = n })

unfoldable pub with_back_off : Option (List Duration) → ConsumerOptions
with_back_off durations config = ok (record config { back_off = durations })

apply_options : ConsumerConfig → List ConsumerOptions → Result ConsumerConfig
apply_options cfg [] = ok cfg
apply_options cfg (f ∷ opts) = elim (f cfg) [
  | ok cfg' ↦ apply_options cfg' opts
  | err e ↦ err (wrap "consumer option failed: " e "")
  | panic ↦ panic
]

-- The name of a consumer: none for an ephemeral one.
named : String → ConsumerConfig → ConsumerConfig
named service_name cfg = if cfg.ephemeral then cfg else record cfg {
  consumer_name =
      if cfg.suffix == ""
      then consumer_name service_name
      else consumer_name_with_suffix service_name cfg.suffix;
}

unfoldable pub new_consumer_config :
    String → String → Bool → WrappedHandler → String → List ConsumerOptions → Result ConsumerConfig
unfolding apply_options named
new_consumer_config stream routing_key ephemeral handler service_name opts = do
  cfg ←
      apply_options
        (record {
          stream = stream;
          routing_key = routing_key;
          consumer_name = "";
          ephemeral = ephemeral;
          handler = handler;
          suffix = "";
          max_deliver = pos 0;
          back_off = none;
        })
        opts
  ok (named service_name cfg)
