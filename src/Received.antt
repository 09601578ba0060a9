-- ===== src/Received.antt =====
-- The messages that a service of cmd/tck-adapter/main.go has received: handlers that run at the same
-- time append to one slice, and Received copies it, under one mutex.
pub mod Guarded
pub mod Stepped
pub mod Work
pub mod Progress
pub mod Runs
pub mod Alone
use go_messaging_nats.Base.{
  ℕ, suc, zero, String, Bool, true, false, List, [], ◌∷◌, ◌++◌, Option, none, some, length, ◌≡◌,
  if◌then◌else◌,
}
use go_messaging_nats.Messaging.{Metadata, DeliveryInfo}
use go_messaging_nats.Errors.{Result, ok}
use go_messaging_nats.Nats.{Bytes}
use go_messaging_nats.Handler.{ConsumableEvent}

-- tck.ReceivedMessageWire
pub record ReceivedMessage : Type 0 where
  pub routing_key : String
  pub payload : Bytes
  pub metadata : Metadata
  pub delivery_info : DeliveryInfo

-- The message that a handler appends.
unfoldable pub capture : ConsumableEvent Bytes → ReceivedMessage
capture event = record {
  routing_key = event.delivery_info.key;
  payload = event.payload;
  metadata = event.metadata;
  delivery_info = event.delivery_info;
}

-- The variables that the closures of StartService share: the mutex and the slice.
pub record Shared : Type 0 where
  pub locked : Bool
  pub received : List ReceivedMessage

-- copy(result, received), where `result` has the given length; `none` is the zero value that make
-- leaves where nothing is copied to.
unfoldable pub copy_to : ℕ → List ReceivedMessage → List (Option ReceivedMessage)
copy_to zero received = []
copy_to (suc n) [] = none ∷ copy_to n []
copy_to (suc n) (m ∷ received) = some m ∷ copy_to n received

-- A call of captureHandler or rrHandler, or of Received, between two accesses to what is shared, with
-- the local variables that are live there.
pub data Caller : Type 0 where
  called : ConsumableEvent Bytes → Caller  -- before mu.Lock()
  entered : ConsumableEvent Bytes → Caller
  loaded : ConsumableEvent Bytes → List ReceivedMessage → Caller  -- append has read the slice
  stored : ConsumableEvent Bytes → Caller  -- before the deferred mu.Unlock()
  returned : ConsumableEvent Bytes → Caller
  asking : Caller  -- before mu.Lock() of Received
  sizing : Caller
  made : ℕ → Caller  -- make has given the result a length
  copied : List (Option ReceivedMessage) → Caller
  answered : List (Option ReceivedMessage) → Caller

-- An access of captureHandler, and of rrHandler, which makes the same ones.
abbrev pub capture_access : Shared → Caller → Option (Shared × Caller)
capture_access m (called event) =
    if m.locked then none else some (record m { locked = true }, entered event)
capture_access m (entered event) = some (m, loaded event m.received)
capture_access m (loaded event slice) =
    some (record m { received = slice ++ capture event ∷ [] }, stored event)
capture_access m (stored event) = some (record m { locked = false }, returned event)
capture_access m _ = none

-- An access of Received.
abbrev pub received_access : Shared → Caller → Option (Shared × Caller)
received_access m asking = if m.locked then none else some (record m { locked = true }, sizing)
received_access m sizing = some (m, made (length m.received))
received_access m (made n) = some (m, copied (copy_to n m.received))
received_access m (copied result) = some (record m { locked = false }, answered result)
received_access m _ = none

abbrev pub is_receiving : Caller → Bool
is_receiving asking = true
is_receiving sizing = true
is_receiving (made n) = true
is_receiving (copied result) = true
is_receiving (answered result) = true
is_receiving _ = false

-- The next access of a caller; `none` if it waits for the mutex or has returned.
unfoldable pub access : Shared → Caller → Option (Shared × Caller)
access m caller = if is_receiving caller then received_access m caller else capture_access m caller

-- The accesses of a caller, `n` of them at most, when no other caller comes between.
run_alone : ℕ → Shared → Caller → Shared × Caller
unfolding access
run_alone zero m caller = (m, caller)
run_alone (suc n) m caller = elim (access m caller) [
  | none ↦ (m, caller)
  | some r ↦ run_alone n r.0 r.1
]

-- What captureHandler returns; none while the call has not returned.
abbrev result_of : Caller → Option (Result (Unit {0}))
result_of (returned event) = some (ok tt)
result_of _ = none

-- A whole call of captureHandler: the mutex and the slice after it, and its result.
unfoldable pub capture_call : ConsumableEvent Bytes → Shared → Shared × Option (Result (Unit {0}))
unfolding run_alone
capture_call event m = let r = run_alone 4 m (called event) in (r.0, result_of r.1)

-- The mutex is free, and nothing has been received.
abbrev pub unused : Shared
unused = record { locked = false; received = [] }

pub record System : Type 0 where
  pub shared : Shared
  pub callers : List Caller

-- One of the callers makes its next access; which one is open.
pub data Step (s t : System) : Type 0 where
  pick :
      (before after : List Caller) (a b : Caller)
      → s.callers ≡ before ++ a ∷ after
      → access s.shared a ≡ some (t.shared, b)
      → t.callers ≡ before ++ b ∷ after
      → Step s t

pub data Reach (s : System) : System → Type 0 where
  here : Reach s s
  next : {t u : System} → Reach s t → Step t u → Reach s u

-- A service that has just started, with the calls that will be made.
abbrev pub started : List Caller → System
started callers = record { shared = record { locked = false; received = [] }; callers = callers }
