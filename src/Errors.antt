-- ===== src/Errors.antt =====
-- Errors as values (connection.go, headers.go, outbox_adapter.go), `errors.Is`, and the results of
-- functions that return an error or panic.
use go_messaging_nats.Base.{ℕ, String, Bool, true, false}
use go_messaging_nats.Base.Int.{ℤ}

-- A value of a foreign type (a connection, a channel, a context, …) of which the program only
-- knows the identity.
abbrev pub Handle : Type 0
Handle = ℕ

-- The errors that are compared by identity.
pub data Sentinel : Type 0 where
  already_started empty_suffix no_message_type_for_route_key : Sentinel
  empty_header_key publisher_not_wired parse_json : Sentinel

abbrev pub same_sentinel : Sentinel → Sentinel → Bool
same_sentinel already_started already_started = true
same_sentinel empty_suffix empty_suffix = true
same_sentinel no_message_type_for_route_key no_message_type_for_route_key = true
same_sentinel empty_header_key empty_header_key = true
same_sentinel publisher_not_wired publisher_not_wired = true
same_sentinel parse_json parse_json = true
same_sentinel _ _ = false

-- `wrap a e b` is fmt.Errorf with the one verb %w, between the texts a and b.
pub data Error : Type 0 where
  sentinel : Sentinel → Error
  message : String → Error
  negative_max_deliver : ℤ → Error
  nonpositive_request_timeout : ℤ → Error
  foreign : Handle → Error
  wrap : String → Error → String → Error

-- errors.Is
abbrev pub is_error : Error → Sentinel → Bool
is_error (sentinel t) s = same_sentinel t s
is_error (wrap a e b) s = is_error e s
is_error _ s = false

pub data Result {ℓ} (A : Type ℓ) : Type ℓ where
  ok : A → Result A
  err : Error → Result A
  panic : Result A

infixl 5 ◌>>=◌ ◌>>◌
abbrev pub ◌>>=◌ {ℓ κ} : {A : Type ℓ} {B : Type κ} → Result A → (A → Result B) → Result B
ok a >>= f = f a
err e >>= f = err e
panic >>= f = panic

abbrev pub ◌>>◌ {ℓ} : {B : Type ℓ} → Result (Unit {0}) → Result B → Result B
m >> k = m >>= λ _. k

abbrev pub is_ok {ℓ} : {A : Type ℓ} → Result A → Bool
is_ok (ok a) = true
is_ok _ = false
