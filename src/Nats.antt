-- ===== src/Nats.antt =====
-- The NATS client as this program uses it: message headers and messages, and OpenTelemetry's
-- propagators, which read and write headers.
pub mod Lookups
use go_messaging_nats.Base.{String, List, [], ◌∷◌, Option, none, some, ◌≡◌, ◌==◌, if◌then◌else◌, ℕ}
use go_messaging_nats.Base.GoMap.{GoMap, lookup}
use go_messaging_nats.Errors.{Handle}

abbrev pub Bytes : Type 0
Bytes = List ℕ

abbrev pub Context : Type 0
Context = Handle

-- nats.Header, a map from keys to lists of values.
abbrev pub NatsHeader : Type 0
NatsHeader = GoMap (List String)

pub record HeaderOps : Type 0 where
  pub set : NatsHeader → String → String → NatsHeader
  pub get : NatsHeader → String → String

abbrev pub first_value : Option (List String) → String
first_value none = ""
first_value (some []) = ""
first_value (some (v ∷ vs)) = v

-- nats.go documents: Set replaces the values of one key, Get returns the first value or the empty
-- text, and keys are case-sensitive.
pub record IsHeaderOps (ops : HeaderOps) : Type 0 where
  pub lookup-set :
      (h : NatsHeader) (k j v : String)
      → lookup j (ops.set h k v) ≡ (if k == j then some (v ∷ []) else lookup j h)
  pub get-lookup : (h : NatsHeader) (k : String) → ops.get h k ≡ first_value (lookup k h)

-- A message from JetStream has no reply subject that the program reads.
pub record Message : Type 0 where
  pub subject : String
  pub reply : String
  pub header : NatsHeader
  pub payload : Bytes

-- What a propagator writes into a carrier, and how it reads one.
pub record Propagator : Type 0 where
  pub inject : Context → GoMap String
  pub extract : Context → GoMap String → Context
