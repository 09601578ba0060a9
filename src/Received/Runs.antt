-- ===== src/Received/Runs.antt =====
-- Runs of the callers, in any order of their accesses.
use mathlib.Core.List.{Permᴰ}
use Prim.Native.Nat.{◌*◌}
use go_messaging_nats.Base.{◌≤◌, ◌<◌, List, [], ◌∷◌, length, ◌≡◌, refl, ◌∙◌, subst, All, arith}
use go_messaging_nats.Received.{
  Caller, called, entered, loaded, stored, returned, asking, sizing, made, copied, answered, System,
  Step, Reach, started,
}
use go_messaging_nats.Received.Guarded.{total, IsGuarded}
use go_messaging_nats.Received.Stepped.{Reach-IsGuarded}
use go_messaging_nats.Received.Work.{remaining, messages, steps, Reach-remaining, finished-messages}
use go_messaging_nats.Received.Progress.{progress}

-- A call that has not begun.
abbrev pub IsWaiting : Caller → Type 0
IsWaiting (called event) = Unit
IsWaiting asking = Unit
IsWaiting _ = ⊥

waiting-IsGuarded : (callers : List Caller) → All IsWaiting callers → IsGuarded (started callers)
waiting-IsGuarded [] w = record { exclusive = refl; complete = Permᴰ.nil; fresh = tt }
waiting-IsGuarded (called event ∷ callers) w =
    let v = waiting-IsGuarded callers w.1 in
    record { exclusive = omega (arith, v.exclusive); complete = v.complete; fresh = (tt, v.fresh) }
waiting-IsGuarded (asking ∷ callers) w =
    let v = waiting-IsGuarded callers w.1 in
    record { exclusive = omega (arith, v.exclusive); complete = v.complete; fresh = (tt, v.fresh) }
waiting-IsGuarded (entered event ∷ callers) w = elim w.0 [ ]
waiting-IsGuarded (loaded event slice ∷ callers) w = elim w.0 [ ]
waiting-IsGuarded (stored event ∷ callers) w = elim w.0 [ ]
waiting-IsGuarded (returned event ∷ callers) w = elim w.0 [ ]
waiting-IsGuarded (sizing ∷ callers) w = elim w.0 [ ]
waiting-IsGuarded (made n ∷ callers) w = elim w.0 [ ]
waiting-IsGuarded (copied result ∷ callers) w = elim w.0 [ ]
waiting-IsGuarded (answered result ∷ callers) w = elim w.0 [ ]

-- However the handlers and the calls of Received are interleaved: one of them at most is between Lock
-- and Unlock; the slice holds the messages of exactly the handlers that have appended, each once; and
-- every result of Received is the list of what was received first.
pub started-IsGuarded :
    (callers : List Caller) (t : System)
    → All IsWaiting callers
    → Reach (started callers) t
    → IsGuarded t
started-IsGuarded callers t w r = Reach-IsGuarded r (waiting-IsGuarded callers w)

waiting-remaining : (cs : List Caller) → All IsWaiting cs → total remaining cs ≡ 4 * length cs
waiting-remaining [] w = omega arith
waiting-remaining (called event ∷ cs) w = omega (arith, waiting-remaining cs w.1)
waiting-remaining (asking ∷ cs) w = omega (arith, waiting-remaining cs w.1)
waiting-remaining (entered event ∷ cs) w = elim w.0 [ ]
waiting-remaining (loaded event slice ∷ cs) w = elim w.0 [ ]
waiting-remaining (stored event ∷ cs) w = elim w.0 [ ]
waiting-remaining (returned event ∷ cs) w = elim w.0 [ ]
waiting-remaining (sizing ∷ cs) w = elim w.0 [ ]
waiting-remaining (made n ∷ cs) w = elim w.0 [ ]
waiting-remaining (copied result ∷ cs) w = elim w.0 [ ]
waiting-remaining (answered result ∷ cs) w = elim w.0 [ ]

-- Every run of the handlers and the calls of Received ends, after four accesses of each: it can go on
-- exactly until that many accesses have been made, whichever caller makes the next. When it cannot go
-- on, the slice holds the messages of all handlers, each once: none is lost and none is doubled.
pub started-ends :
    (callers : List Caller) (t : System)
    → All IsWaiting callers
    → (r : Reach (started callers) t)
    → (steps r ≤ 4 * length callers)
      × (steps r < 4 * length callers → (u : System) × Step t u)
      × (steps r ≡ 4 * length callers → Permᴰ t.shared.received (messages callers))
started-ends callers t w r =
    let v = started-IsGuarded callers t w r in
    let (sum, same) = Reach-remaining r in
    let all = waiting-remaining callers w in
    (
      omega (arith, sum, all),
      (λ less. progress t v (omega (arith, sum, all, less))),
      (λ done.
          subst (Permᴰ t.shared.received)
            (finished-messages t.callers (omega (arith, sum, all, done)) ∙ same) v.complete),
    )
