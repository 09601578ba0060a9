-- ===== src/Connection/Monad.antt =====
-- Methods of a connection change the state and return an error, also after a change.
use go_messaging_nats.Base.{String, [], ◌∷◌, ◌++◌, Option, none, some}
use go_messaging_nats.Errors.{Handle, Error, Result, ok, err, panic, wrap}
use go_messaging_nats.Messaging.{Endpoint}
use go_messaging_nats.Connection.{Connection, State, Call, Client}

abbrev pub M : Type 0 → Type 0
M A = State → Result A × State

abbrev pub pure : {A : Type 0} → A → M A
pure a s = (ok a, s)

abbrev pub throw : {A : Type 0} → Error → M A
throw e s = (err e, s)

abbrev pub bind_result : {A B : Type 0} → Result A → State → (A → M B) → Result B × State
bind_result (ok a) s f = f a s
bind_result (err e) s f = (err e, s)
bind_result panic s f = (panic, s)

infixl 5 ◌>>=◌ ◌>>◌
abbrev pub ◌>>=◌ : {A B : Type 0} → M A → (A → M B) → M B
◌>>=◌ m f s = bind_result (m s).0 (m s).1 f

abbrev pub ◌>>◌ : {B : Type 0} → M (Unit {0}) → M B → M B
m >> k = m >>= λ _. k

abbrev pub lift : {A : Type 0} → Result A → M A
lift r s = (r, s)

abbrev pub get_conn : M Connection
get_conn s = (ok s.conn, s)

abbrev pub modify_conn : (Connection → Connection) → M (Unit {0})
modify_conn f s = (ok tt, record s { conn = f s.conn })

-- A method call on a nil pointer panics.
abbrev pub not_nil : Option Handle → M Handle
not_nil none s = (panic, s)
not_nil (some h) s = (ok h, s)

abbrev pub wrapped : {A : Type 0} → String → String → Result A → Result A
wrapped before after (ok a) = ok a
wrapped before after (err e) = err (wrap before e after)
wrapped before after panic = panic

-- fmt.Errorf("before%wafter", err)
abbrev pub wrap_error : {A : Type 0} → String → String → M A → M A
wrap_error before after m s = (wrapped before after (m s).0, (m s).1)

abbrev pub cleaned : {A : Type 0} → M (Unit {0}) → Result A → State → Result A × State
cleaned cleanup (ok a) s = (ok a, s)
cleaned cleanup (err e) s = (err e, (cleanup s).1)
cleaned cleanup panic s = (panic, s)

-- If `m` fails, `cleanup` is run before the error is returned.
abbrev pub or_cleanup : {A : Type 0} → M (Unit {0}) → M A → M A
or_cleanup cleanup m s = cleaned cleanup (m s).0 (m s).1

module _ (client : Client) where
  -- A call that returns an error or a value.
  unfoldable pub call : Call → M Handle
  call c s = (client.answer s.calls c, record s { calls = s.calls ++ c ∷ [] })

-- A call that returns nothing.
unfoldable pub call_void : Call → M (Unit {0})
call_void c s = (ok tt, record s { calls = s.calls ++ c ∷ [] })

unfoldable pub add_endpoint : Endpoint → M (Unit {0})
add_endpoint ep =
    modify_conn λ c. record c {
      topology = record (c.topology) { endpoints = c.topology.endpoints ++ ep ∷ [] };
    }
