-- ===== src/Setup/Assigning.antt =====
-- Setup functions together with the publishers that they wire.
use go_messaging_nats.Base.{
  suc, ◌≤◌, ◌<◌, false, List, [], ◌∷◌, ◌≡◌, ◌≢◌, refl, sym, ap, ◌∙◌, subst, All, arith,
}
use go_messaging_nats.Base.Text.{concat}
use go_messaging_nats.Errors.{Handle, ok}
use go_messaging_nats.Connection.{State, Publisher, new_publisher}
use go_messaging_nats.Connection.Monad.{M, wrapped}
use go_messaging_nats.Connection.Start.{Setup, run_setups}
use go_messaging_nats.Connection.Keeps.{bind_result-eq-ok, wrapped-eq-ok}

-- A run changes no publisher.
pub record Leaves (apply : M (Unit {0})) : Type 0 where
  pub publishers : (s : State) → (apply s).1.publishers ≡ s.publishers
  pub mode : (s : State) → (apply s).1.conn.collect_mode ≡ s.conn.collect_mode

-- A run that succeeds on a live connection gives one new publisher the property, and changes no other.
pub record Wires (apply : M (Unit {0})) (h : Handle) (P : Publisher → Type 0) : Type 0 where
  pub own :
      (s : State)
      → s.conn.collect_mode ≡ false
      → s.publishers h ≡ new_publisher
      → (apply s).0 ≡ ok tt
      → P ((apply s).1.publishers h)
  pub others :
      (s : State)
      → s.conn.collect_mode ≡ false
      → (apply s).0 ≡ ok tt
      → (o : Handle) → h ≢ o
      → (apply s).1.publishers o ≡ s.publishers o
  pub mode : (s : State) → (apply s).1.conn.collect_mode ≡ s.conn.collect_mode

module _ {L : Type 0} (P : L → Publisher → Type 0) where
  pub data Wiring : Type 0 where
    leaves : (f : Setup) → Leaves f.apply → Wiring
    wires : (f : Setup) (h : Handle) (l : L) → Wires f.apply h (P l) → Wiring

  abbrev pub setup_in : Wiring → Setup
  setup_in (leaves f k) = f
  setup_in (wires f h l k) = f

  abbrev pub setups_in : List Wiring → List Setup
  setups_in [] = []
  setups_in (w ∷ ws) = setup_in w ∷ setups_in ws

  -- The publishers that are wired, with what they are for.
  abbrev pub owned : List Wiring → List (Handle × L)
  owned [] = []
  owned (leaves f k ∷ ws) = owned ws
  owned (wires f h l k ∷ ws) = (h, l) ∷ owned ws

  -- Each publisher is newer than those before it, from `n` on.
  abbrev pub IsAscending : Handle → List Wiring → Type 0
  IsAscending n [] = Unit
  IsAscending n (leaves f k ∷ ws) = IsAscending n ws
  IsAscending n (wires f h l k ∷ ws) = (n ≤ h) × IsAscending (suc h) ws

  -- After a run on `s`, with publishers from `n` on that are new.
  pub record IsAssigned (n : Handle) (ws : List Wiring) (s t : State) : Type 0 where
    pub assigned : All (λ (w : Handle × L). P w.1 (t.publishers w.0)) (owned ws)
    pub older : (o : Handle) → o < n → t.publishers o ≡ s.publishers o

  IsAssigned-Leaves :
      (f : Setup) (k : Leaves f.apply) (n : Handle) (ws : List Wiring) (s t : State)
      → IsAssigned n ws (f.apply s).1 t
      → IsAssigned n (leaves f k ∷ ws) s t
  IsAssigned-Leaves f k n ws s t v = record {
    assigned = v.assigned;
    older = λ o less. v.older o less ∙ ap (λ p. p o) (k.publishers s);
  }

  IsAssigned-Wires :
      (f : Setup) (h : Handle) (l : L) (k : Wires f.apply h (P l)) (n : Handle) (ws : List Wiring)
      (s t : State)
      → s.conn.collect_mode ≡ false
      → n ≤ h
      → s.publishers h ≡ new_publisher
      → (f.apply s).0 ≡ ok tt
      → IsAssigned (suc h) ws (f.apply s).1 t
      → IsAssigned n (wires f h l k ∷ ws) s t
  IsAssigned-Wires f h l k n ws s t live from blank done v = record {
    assigned = (subst (P l) (sym (v.older h (omega arith))) (k.own s live blank done), v.assigned);
    older = λ o less.
        v.older o (omega (arith, less, from))
        ∙ k.others s live done o (λ same. omega (arith, less, from, same));
  }

  pub run_setups-IsAssigned :
      (ws : List Wiring) (n : Handle) (s : State)
      → s.conn.collect_mode ≡ false
      → IsAscending n ws
      → ((o : Handle) → n ≤ o → s.publishers o ≡ new_publisher)
      → (run_setups (setups_in ws) s).0 ≡ ok tt
      → IsAssigned n ws s (run_setups (setups_in ws) s).1
  unfolding run_setups
  run_setups-IsAssigned [] n s live up blank e = record { assigned = tt; older = λ o less. refl }
  run_setups-IsAssigned (leaves f k ∷ ws) n s live up blank e =
      let text = concat ("setup function <" ∷ f.name ∷ "> failed: " ∷ []) in
      let (a, first, rest) =
        bind_result-eq-ok (wrapped text "" (f.apply s).0) (f.apply s).1
          (λ _. run_setups (setups_in ws)) e in
      rw rest (
        IsAssigned-Leaves f k n ws s _ (
          run_setups-IsAssigned ws n (f.apply s).1 (k.mode s ∙ live) up
            (λ o from. ap (λ p. p o) (k.publishers s) ∙ blank o from)
            (sym (ap (λ x. x.0) rest) ∙ e)))
  run_setups-IsAssigned (wires f h l k ∷ ws) n s live up blank e =
      let text = concat ("setup function <" ∷ f.name ∷ "> failed: " ∷ []) in
      let (a, first, rest) =
        bind_result-eq-ok (wrapped text "" (f.apply s).0) (f.apply s).1
          (λ _. run_setups (setups_in ws)) e in
      let done = wrapped-eq-ok text "" _ first in
      rw rest (
        IsAssigned-Wires f h l k n ws s _ live up.0 (blank h up.0) done (
          run_setups-IsAssigned ws (suc h) (f.apply s).1 (k.mode s ∙ live) up.1
            (λ o from.
              k.others s live done o (λ same. omega (arith, from, same))
              ∙ blank o (omega (arith, from, up.0)))
            (sym (ap (λ x. x.0) rest) ∙ e)))
