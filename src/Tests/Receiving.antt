-- ===== src/Tests/Receiving.antt =====
-- A handler and a call of Received that run at the same time.
use mathlib.Core.List.{Permᴰ}
use Prim.Native.Nat.{◌*◌}
use go_messaging_nats.Base.{◌≤◌, ◌<◌, Bool, true, false, List, [], ◌∷◌, some, length, ◌≡◌, refl}
use go_messaging_nats.Nats.{Bytes}
use go_messaging_nats.Handler.{ConsumableEvent}
use go_messaging_nats.Received.{
  ReceivedMessage, capture, Caller, called, entered, loaded, stored, returned, asking, sizing, made,
  copied, answered, access, copy_to, System, Step, pick, Reach, here, next, started,
}
use go_messaging_nats.Received.Guarded.{IsGuarded}
use go_messaging_nats.Received.Work.{steps, messages}
use go_messaging_nats.Received.Runs.{started-IsGuarded, started-ends}

abbrev event : ConsumableEvent Bytes
event = record {
  metadata = 0;
  delivery_info = record { destination = "orders"; source = "audit"; key = "a"; headers = [] };
  payload = [];
}

abbrev callers : List Caller
callers = called event ∷ asking ∷ []

abbrev state : Bool → List ReceivedMessage → Caller → Caller → System
state locked received a b = record {
  shared = record { locked = locked; received = received };
  callers = a ∷ b ∷ [];
}

abbrev one : List ReceivedMessage
one = capture event ∷ []

-- The first caller, and the second one, goes on.
first :
    {s : System} (l l' : Bool) (r r' : List ReceivedMessage) (a a' b : Caller)
    → access (record { locked = l; received = r }) a
      ≡ some (record { locked = l'; received = r' }, a')
    → Reach s (state l r a b)
    → Reach s (state l' r' a' b)
first l l' r r' a a' b e reached = next reached (pick [] (b ∷ []) a a' refl e refl)

second :
    {s : System} (l l' : Bool) (r r' : List ReceivedMessage) (a b b' : Caller)
    → access (record { locked = l; received = r }) b
      ≡ some (record { locked = l'; received = r' }, b')
    → Reach s (state l r a b)
    → Reach s (state l' r' a b')
second l l' r r' a b b' e reached = next reached (pick (a ∷ []) [] b b' refl e refl)

abbrev finished : Caller
finished = answered (some (capture event) ∷ [])

-- The handler locks, appends and unlocks; then Received does.
run : Reach (started callers) (state false one (returned event) finished)
unfolding access copy_to
run =
    second true false one one (returned event) (copied (some (capture event) ∷ [])) finished refl (
      second true true one one (returned event) (made 1) (copied (some (capture event) ∷ [])) refl (
        second true true one one (returned event) sizing (made 1) refl (
          second false true one one (returned event) asking sizing refl (
            first true false one one (stored event) (returned event) asking refl (
              first true true [] one (loaded event []) (stored event) asking refl (
                first true true [] [] (entered event) (loaded event []) asking refl
                  (first false true [] [] (called event) (entered event) asking refl here)))))))

started-IsGuarded_example : IsGuarded (state false one (returned event) finished)
started-IsGuarded_example =
    started-IsGuarded callers (state false one (returned event) finished) (tt, (tt, tt)) run

started-ends_example :
    (steps run ≤ 4 * length callers)
    × (steps run < 4 * length callers
        → (u : System) × Step (state false one (returned event) finished) u)
    × (steps run ≡ 4 * length callers → Permᴰ one (messages callers))
started-ends_example =
    started-ends callers (state false one (returned event) finished) (tt, (tt, tt)) run
