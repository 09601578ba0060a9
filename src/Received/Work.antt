-- ===== src/Received/Work.antt =====
-- How many accesses the callers have yet to make, and which messages they append in the end.

use go_messaging_nats.Base.{
  ℕ, suc, ◌+◌, List, [], ◌∷◌, ◌++◌, some, ◌≡◌, refl, sym, ap, ◌∙◌, append_assoc, arith,
}
use go_messaging_nats.Received.{
  ReceivedMessage, capture, Shared, Caller, called, entered, loaded, stored, returned, asking,
  sizing, made, copied, answered, access, System, Step, pick, Reach, here, next,
}
use go_messaging_nats.Received.Guarded.{total, total-append, appended}

-- The accesses that a caller has yet to make.
abbrev pub remaining : Caller → ℕ
remaining (called event) = 4
remaining (entered event) = 3
remaining (loaded event slice) = 2
remaining (stored event) = 1
remaining (returned event) = 0
remaining asking = 4
remaining sizing = 3
remaining (made n) = 2
remaining (copied result) = 1
remaining (answered result) = 0

-- The message that a caller appends sooner or later.
abbrev pub message_of : Caller → List ReceivedMessage
message_of (called event) = capture event ∷ []
message_of (entered event) = capture event ∷ []
message_of (loaded event slice) = capture event ∷ []
message_of (stored event) = capture event ∷ []
message_of (returned event) = capture event ∷ []
message_of _ = []

abbrev pub messages : List Caller → List ReceivedMessage
messages [] = []
messages (c ∷ cs) = message_of c ++ messages cs

messages-append : (cs ds : List Caller) → messages (cs ++ ds) ≡ messages cs ++ messages ds
messages-append [] ds = refl
messages-append (c ∷ cs) ds =
    ap (λ l. message_of c ++ l) (messages-append cs ds)
    ∙ sym (append_assoc (message_of c) (messages cs) (messages ds))

access-remaining :
    (m m' : Shared) (a b : Caller)
    → access m a ≡ some (m', b)
    → (suc (remaining b) ≡ remaining a) × (message_of b ≡ message_of a)
unfolding access
access-remaining m m' (called event) b e = ground arith
access-remaining m m' asking b e = ground arith
access-remaining m m' a b e = ground arith

Step-remaining :
    {s t : System}
    → Step s t
    → (suc (total remaining t.callers) ≡ total remaining s.callers)
      × (messages t.callers ≡ messages s.callers)
Step-remaining {s} {t} (pick before after a b here_is e there) =
    let (less, same) = access-remaining s.shared t.shared a b e in
    (
      omega (
        arith,
        less,
        ap (total remaining) here_is,
        ap (total remaining) there,
        total-append remaining before (a ∷ after),
        total-append remaining before (b ∷ after),
      ),
      ap messages there
          ∙ messages-append before (b ∷ after)
          ∙ ap (λ l. messages before ++ (l ++ messages after)) same
          ∙ sym (messages-append before (a ∷ after))
          ∙ sym (ap messages here_is),
    )

abbrev pub steps : {s t : System} → Reach s t → ℕ
steps here = 0
steps (next r st) = suc (steps r)

pub Reach-remaining :
    {s t : System} (r : Reach s t)
    → (total remaining t.callers + steps r ≡ total remaining s.callers)
      × (messages t.callers ≡ messages s.callers)
Reach-remaining here = (omega arith, refl)
Reach-remaining (next r st) =
    let (less, same) = Step-remaining st in
    let (sum, kept) = Reach-remaining r in (omega (arith, less, sum), same ∙ kept)

-- Callers with nothing left to do have appended all their messages.
pub finished-messages : (cs : List Caller) → total remaining cs ≡ 0 → appended cs ≡ messages cs
finished-messages [] e = refl
finished-messages (returned event ∷ cs) e =
    ap (◌∷◌ (capture event)) (finished-messages cs (omega arith))
finished-messages (answered result ∷ cs) e = finished-messages cs (omega arith)
finished-messages (called event ∷ cs) e = absurd (omega arith)
finished-messages (entered event ∷ cs) e = absurd (omega arith)
finished-messages (loaded event slice ∷ cs) e = absurd (omega arith)
finished-messages (stored event ∷ cs) e = absurd (omega arith)
finished-messages (asking ∷ cs) e = absurd (omega arith)
finished-messages (sizing ∷ cs) e = absurd (omega arith)
finished-messages (made n ∷ cs) e = absurd (omega arith)
finished-messages (copied result ∷ cs) e = absurd (omega arith)
