-- ===== src/Received/Guarded.antt =====
-- What holds of the callers and the slice in every state.
use mathlib.Core.List.{Permᴰ}
use mathlib.Core.Option.{some-injective}
use go_messaging_nats.Base.{
  ℕ, ◌+◌, ◌≤◌, Bool, true, false, List, [], ◌∷◌, ◌++◌, map, Option, some, length, ◌≡◌, refl, sym,
  ap, ◌∙◌, subst, All, append_assoc, append-nil, arith, Bool-cases, inl, inr,
}
use go_messaging_nats.Received.{
  ReceivedMessage, capture, Shared, copy_to, Caller, called, entered, loaded, stored, returned,
  asking, sizing, made, copied, answered, access, System,
}

-- Between Lock and Unlock.
abbrev pub inside : Caller → ℕ
inside (entered event) = 1
inside (loaded event slice) = 1
inside (stored event) = 1
inside sizing = 1
inside (made n) = 1
inside (copied result) = 1
inside _ = 0

abbrev pub total : (Caller → ℕ) → List Caller → ℕ
total w [] = 0
total w (c ∷ cs) = w c + total w cs

pub total-append :
    (w : Caller → ℕ) (cs ds : List Caller) → total w (cs ++ ds) ≡ total w cs + total w ds
total-append w [] ds = omega arith
total-append w (c ∷ cs) ds = omega (arith, total-append w cs ds)

-- The messages of the handlers that have appended.
abbrev pub appended_by : Caller → List ReceivedMessage
appended_by (stored event) = capture event ∷ []
appended_by (returned event) = capture event ∷ []
appended_by _ = []

abbrev pub appended : List Caller → List ReceivedMessage
appended [] = []
appended (c ∷ cs) = appended_by c ++ appended cs

pub appended-append : (cs ds : List Caller) → appended (cs ++ ds) ≡ appended cs ++ appended ds
appended-append [] ds = refl
appended-append (c ∷ cs) ds =
    ap (λ l. appended_by c ++ l) (appended-append cs ds)
    ∙ sym (append_assoc (appended_by c) (appended cs) (appended ds))

-- The result holds what was received first.
abbrev pub IsSnapshot : List (Option ReceivedMessage) → List ReceivedMessage → Type 0
IsSnapshot result received =
    (rest : List ReceivedMessage) × (first : List ReceivedMessage) × (result ≡ map some first)
    × (received ≡ first ++ rest)

-- What the locals of a caller say about the slice.
abbrev pub IsFresh : List ReceivedMessage → Caller → Type 0
IsFresh received (loaded event slice) = slice ≡ received
IsFresh received (made n) = n ≡ length received
IsFresh received (copied result) = IsSnapshot result received
IsFresh received (answered result) = IsSnapshot result received
IsFresh received _ = Unit

abbrev pub held : Bool → ℕ
held true = 1
held false = 0

pub held-le : (locked : Bool) → held locked ≤ 1
held-le true = omega arith
held-le false = omega arith

pub record IsGuarded (s : System) : Type 0 where
  pub exclusive : total inside s.callers ≡ held s.shared.locked
  pub complete : Permᴰ s.shared.received (appended s.callers)
  pub fresh : All (IsFresh s.shared.received) s.callers

copy_all :
    (received : List ReceivedMessage) → copy_to (length received) received ≡ map some received
unfolding copy_to
copy_all [] = refl
copy_all (m ∷ received) = ap (◌∷◌ (some m)) (copy_all received)

-- What a caller that is not inside knows stays true when the slice grows.
IsFresh-append :
    (received : List ReceivedMessage) (m : ReceivedMessage) (c : Caller)
    → inside c ≡ 0
    → IsFresh received c
    → IsFresh (received ++ m ∷ []) c
IsFresh-append received m (answered result) e (rest, first, r, f) =
    (rest ++ m ∷ [], first, r, ap (λ l. l ++ m ∷ []) f ∙ append_assoc first rest (m ∷ []))
IsFresh-append received m (loaded event slice) e h = absurd (omega arith)
IsFresh-append received m (made n) e h = absurd (omega arith)
IsFresh-append received m (copied result) e h = absurd (omega arith)
IsFresh-append received m (called event) e h = tt
IsFresh-append received m (entered event) e h = tt
IsFresh-append received m (stored event) e h = tt
IsFresh-append received m (returned event) e h = tt
IsFresh-append received m asking e h = tt
IsFresh-append received m sizing e h = tt

pub All-IsFresh-append :
    (received : List ReceivedMessage) (m : ReceivedMessage) (cs : List Caller)
    → total inside cs ≡ 0
    → All (IsFresh received) cs
    → All (IsFresh (received ++ m ∷ [])) cs
All-IsFresh-append received m [] e h = tt
All-IsFresh-append received m (c ∷ cs) e h = (
  IsFresh-append received m c (omega arith) h.0,
  All-IsFresh-append received m cs (omega arith) h.1,
)

pub All-middle {ℓ} :
    {A : Type 0} (P : A → Type ℓ) (xs : List A) (x : A) (ys : List A)
    → All P (xs ++ x ∷ ys)
    → P x × All P xs × All P ys
All-middle P [] x ys h = (h.0, tt, h.1)
All-middle P (y ∷ xs) x ys h =
    let (here_is, left, right) = All-middle P xs x ys h.1 in (here_is, (h.0, left), right)

-- What an access does to the slice: nothing, or it appends the caller's message.
pub data Effect (m : Shared) (a : Caller) (m' : Shared) (b : Caller) : Type 0 where
  quiet : m'.received ≡ m.received → appended_by b ≡ appended_by a → Effect m a m' b
  grown :
      (message : ReceivedMessage)
      → m'.received ≡ m.received ++ message ∷ []
      → appended_by a ≡ []
      → appended_by b ≡ message ∷ []
      → inside a ≡ 1
      → Effect m a m' b

module _ (m m' : Shared) (b : Caller) where
  moved :
      {n : Shared} {c : Caller}
      → ◌≡◌ {A = Option (Shared × Caller)} (some (n, c)) (some (m', b))
      → IsFresh n.received c
      → IsFresh m'.received b
  moved {n} {c} e h =
      subst (λ (r : Shared × Caller). IsFresh (r.0).received r.1) (some-injective (n, c) (m', b) e)
        h

  pub access-inside :
      (a : Caller)
      → access m a ≡ some (m', b)
      → inside a ≤ held m.locked
      → inside a + held m'.locked ≡ inside b + held m.locked
  unfolding access
  access-inside (called event) e h = ground arith
  access-inside asking e h = ground arith
  access-inside a e h = ground arith

  pub access-Effect :
      (a : Caller) → access m a ≡ some (m', b) → IsFresh m.received a → Effect m a m' b
  unfolding access
  access-Effect (loaded event slice) e h =
      grown (capture event) (ground arith) refl (ground arith) refl
  access-Effect (called event) e h = quiet (ground arith) (ground arith)
  access-Effect a e h = quiet (ground arith) (ground arith)

  pub access-IsFresh :
      (a : Caller) → access m a ≡ some (m', b) → IsFresh m.received a → IsFresh m'.received b
  unfolding access
  access-IsFresh (loaded event slice) e h = moved e tt
  access-IsFresh (entered event) e h = moved e refl
  access-IsFresh (stored event) e h = moved e tt
  access-IsFresh sizing e h = moved e refl
  access-IsFresh (made n) e h = moved e (
    [],
    m.received,
    ap (λ k. copy_to k m.received) h ∙ copy_all m.received,
    sym (append-nil m.received),
  )
  access-IsFresh (copied result) e h = moved e h
  access-IsFresh (returned event) e h = cc
  access-IsFresh (answered result) e h = cc
  access-IsFresh (called event) e h = elim (Bool-cases m.locked) [
    | inl taken ↦ cc (rw (taken, access) at e)
    | inr free ↦ moved (rw (free, access) at e) tt
  ]
  access-IsFresh asking e h = elim (Bool-cases m.locked) [
    | inl taken ↦ cc (rw (taken, access) at e)
    | inr free ↦ moved (rw (free, access) at e) tt
  ]
