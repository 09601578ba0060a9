-- ===== src/Connection/Contracts.antt =====
-- What a run guarantees of the connection: one property if it succeeds, another if it fails.
use go_messaging_nats.Base.{String}
use go_messaging_nats.Errors.{Result, ok, err, panic}
use go_messaging_nats.Connection.{Connection, State, Call}
use go_messaging_nats.Connection.Monad.{
  M, bind_result, ◌>>=◌, wrapped, wrap_error, cleaned, or_cleanup, call_void,
}

module _ (F : Connection → Type 0) where
  -- A result and the state after it: `Q` holds after a success, `F` after an error or a panic.
  abbrev pub Post : {A : Type 0} → (Connection → Type 0) → Result A → State → Type 0
  Post Q (ok a) t = Q t.conn
  Post Q (err e) t = F t.conn
  Post Q panic t = F t.conn

  abbrev pub Ensures : {A : Type 0} → (Connection → Type 0) → M A → (Connection → Type 0) → Type 0
  Ensures P m Q = (s : State) → P s.conn → Post Q (m s).0 (m s).1

  bind_result-Post :
      {A B : Type 0} (Q R : Connection → Type 0) (r : Result A) (t : State) (f : A → M B)
      → Post Q r t
      → ((a : A) → Ensures Q (f a) R)
      → Post R (bind_result r t f).0 (bind_result r t f).1
  bind_result-Post Q R (ok a) t f p k = k a t p
  bind_result-Post Q R (err e) t f p k = p
  bind_result-Post Q R panic t f p k = p

  pub bind-Ensures :
      {A B : Type 0} (P Q R : Connection → Type 0) (m : M A) (f : A → M B)
      → Ensures P m Q
      → ((a : A) → Ensures Q (f a) R)
      → Ensures P (m >>= f) R
  bind-Ensures P Q R m f h k s p = bind_result-Post Q R (m s).0 (m s).1 f (h s p) k

  wrapped-Post :
      {A : Type 0} (Q : Connection → Type 0) (before after : String) (r : Result A) (t : State)
      → Post Q r t
      → Post Q (wrapped before after r) t
  wrapped-Post Q before after (ok a) t p = p
  wrapped-Post Q before after (err e) t p = p
  wrapped-Post Q before after panic t p = p

  pub wrap_error-Ensures :
      {A : Type 0} (P Q : Connection → Type 0) (before after : String) (m : M A)
      → Ensures P m Q
      → Ensures P (wrap_error before after m) Q
  wrap_error-Ensures P Q before after m h s p = wrapped-Post Q before after (m s).0 (m s).1 (h s p)

  cleaned-Post :
      {A : Type 0} (Q : Connection → Type 0) (c : Call) (r : Result A) (t : State)
      → Post Q r t
      → Post Q (cleaned (call_void c) r t).0 (cleaned (call_void c) r t).1
  unfolding call_void
  cleaned-Post Q c (ok a) t p = p
  cleaned-Post Q c (err e) t p = p
  cleaned-Post Q c panic t p = p

  -- A cleanup that is a call of the client leaves the connection as it is.
  pub or_cleanup-Ensures :
      {A : Type 0} (P Q : Connection → Type 0) (c : Call) (m : M A)
      → Ensures P m Q
      → Ensures P (or_cleanup (call_void c) m) Q
  or_cleanup-Ensures P Q c m h s p = cleaned-Post Q c (m s).0 (m s).1 (h s p)

  -- A result whose connection has both properties, whether it is a success or not.
  pub Post-both :
      {A : Type 0} (Q : Connection → Type 0) (r : Result A) (t : State)
      → Q t.conn
      → F t.conn
      → Post Q r t
  Post-both Q (ok a) t q f = q
  Post-both Q (err e) t q f = f
  Post-both Q panic t q f = f
