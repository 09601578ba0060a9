-- ===== src/Received/Progress.antt =====
-- As long as a call has not returned, one can go on.

use native.Mathlib.Decide.{dec_lt}
use go_messaging_nats.Base.{
  ℕ, ◌<◌, true, false, List, [], ◌∷◌, ◌++◌, some, ◌≡◌, refl, ap, arith, Bool-cases, inl, inr,
}
use go_messaging_nats.Received.{
  Shared, Caller, called, entered, loaded, stored, returned, asking, sizing, made, copied, answered,
  access, System, Step, pick,
}
use go_messaging_nats.Received.Guarded.{inside, total, held, IsGuarded}
use go_messaging_nats.Received.Work.{remaining}

-- A caller with a positive weight.
record Found (w : Caller → ℕ) (cs : List Caller) : Type 0 where
  before : List Caller
  found : Caller
  after : List Caller
  split : cs ≡ before ++ found ∷ after
  weighs : 0 < w found

find : (w : Caller → ℕ) (cs : List Caller) → 0 < total w cs → Found w cs
find w [] h = absurd (omega arith)
find w (c ∷ cs) h = elim (dec_lt 0 (w c)) [
  | yes heavy ↦ record { before = []; found = c; after = cs; split = refl; weighs = heavy }
  | no light ↦
      let f = find w cs (omega arith) in
      record {
        before = c ∷ f.before;
        found = f.found;
        after = f.after;
        split = ap (◌∷◌ c) f.split;
        weighs = f.weighs;
      }
]

abbrev CanMove : Shared → Caller → Type 0
CanMove m a = (m' : Shared) × (b : Caller) × (access m a ≡ some (m', b))

inside-CanMove : (m : Shared) (a : Caller) → 0 < inside a → CanMove m a
unfolding access
inside-CanMove m (entered event) h = (_, _, refl)
inside-CanMove m (loaded event slice) h = (_, _, refl)
inside-CanMove m (stored event) h = (_, _, refl)
inside-CanMove m sizing h = (_, _, refl)
inside-CanMove m (made n) h = (_, _, refl)
inside-CanMove m (copied result) h = (_, _, refl)
inside-CanMove m (called event) h = absurd (omega arith)
inside-CanMove m (returned event) h = absurd (omega arith)
inside-CanMove m asking h = absurd (omega arith)
inside-CanMove m (answered result) h = absurd (omega arith)

unlocked-CanMove : (m : Shared) (a : Caller) → m.locked ≡ false → 0 < remaining a → CanMove m a
unfolding access
unlocked-CanMove m (called event) e h = (record m { locked = true }, entered event, rw (e, access))
unlocked-CanMove m asking e h = (record m { locked = true }, sizing, rw (e, access))
unlocked-CanMove m (entered event) e h = (_, _, refl)
unlocked-CanMove m (loaded event slice) e h = (_, _, refl)
unlocked-CanMove m (stored event) e h = (_, _, refl)
unlocked-CanMove m sizing e h = (_, _, refl)
unlocked-CanMove m (made n) e h = (_, _, refl)
unlocked-CanMove m (copied result) e h = (_, _, refl)
unlocked-CanMove m (returned event) e h = absurd (omega arith)
unlocked-CanMove m (answered result) e h = absurd (omega arith)

found-Step :
    (s : System) (w : Caller → ℕ) (f : Found w s.callers)
    → CanMove s.shared f.found
    → (t : System) × Step s t
found-Step s w f (m', b, e) = (
  record { shared = m'; callers = f.before ++ b ∷ f.after },
  pick f.before f.after f.found b f.split e refl,
)

-- No deadlock: as long as a call has not returned, one can go on.
pub progress : (s : System) → IsGuarded s → 0 < total remaining s.callers → (t : System) × Step s t
progress s v h = elim (Bool-cases s.shared.locked) [
  | inl taken ↦
      let owner = find inside s.callers (omega (arith, v.exclusive, ap held taken)) in
      found-Step s inside owner (inside-CanMove s.shared owner.found owner.weighs)
  | inr free ↦
      let f = find remaining s.callers h in
      found-Step s remaining f (unlocked-CanMove s.shared f.found free f.weighs)
]
