-- ===== src/Metrics/Registering.antt =====
-- What InitMetrics registers, and when it fails.
use go_messaging_nats.Base.{List, [], ◌∷◌, ◌++◌, ◌≡◌, refl, ap, ◌∙◌, All, ◌⊎◌, inl, inr}
use go_messaging_nats.Errors.{Error, ok, err}
use go_messaging_nats.Metrics.{
  Collector, Registration, registered, already_registered, refused, MetricsOption, collectors,
  register_all, init_metrics,
}

-- The registerer takes the collector, or has it already.
abbrev pub IsTaken : Registration → Type 0
IsTaken (refused e) = ⊥
IsTaken _ = Unit {0}

-- The registerer refuses a collector with `e` and takes all before it.
abbrev pub IsRefusedAt : (Collector → Registration) → List Collector → Collector → Error → Type 0
IsRefusedAt answer before c e = All (λ b. IsTaken (answer b)) before × (answer c ≡ refused e)

taken_cases : (r : Registration) → IsTaken r → (r ≡ registered) ⊎ (r ≡ already_registered)
taken_cases registered h = inl refl
taken_cases already_registered h = inr refl
taken_cases (refused e) h = absurd h

module _ (answer : Collector → Registration) where
  register_all-cons :
      (c : Collector) (cs : List Collector)
      → IsTaken (answer c)
      → register_all answer (c ∷ cs) ≡ (c ∷ (register_all answer cs).0, (register_all answer cs).1)
  unfolding register_all
  register_all-cons c cs h = elim (taken_cases (answer c) h) [
    | inl e ↦ rw (e, register_all) refl
    | inr e ↦ rw (e, register_all) refl
  ]

  register_all-taken :
      (cs : List Collector)
      → All (λ c. IsTaken (answer c)) cs
      → register_all answer cs ≡ (cs, ok tt)
  unfolding register_all
  register_all-taken [] h = refl
  register_all-taken (c ∷ cs) h =
      register_all-cons c cs h.0 ∙ ap (λ r. (c ∷ r.0, r.1)) (register_all-taken cs h.1)

  register_all-refused :
      (before after : List Collector) (c : Collector) (e : Error)
      → IsRefusedAt answer before c e
      → register_all answer (before ++ c ∷ after) ≡ (before ++ c ∷ [], err e)
  unfolding register_all
  register_all-refused [] after c e h = rw h.1 refl
  register_all-refused (b ∷ before) after c e h =
      register_all-cons b (before ++ c ∷ after) h.0.0
      ∙ ap (λ r. (b ∷ r.0, r.1)) (register_all-refused before after c e (h.0.1, h.1))

  -- InitMetrics tries to register every collector and succeeds, if the registerer takes each of them
  -- or has it already; at the first collector that it refuses, InitMetrics stops and returns the
  -- registerer's error.
  pub init_metrics_lem :
      (opts : List MetricsOption)
      → (All (λ c. IsTaken (answer c)) collectors
          → ((init_metrics answer opts).tried ≡ collectors)
            × ((init_metrics answer opts).result ≡ ok tt))
        × ((before after : List Collector) (c : Collector) (e : Error)
            → collectors ≡ before ++ c ∷ after
            → IsRefusedAt answer before c e
            → ((init_metrics answer opts).tried ≡ before ++ c ∷ [])
              × ((init_metrics answer opts).result ≡ err e))
  unfolding init_metrics
  init_metrics_lem opts = (
    (λ h. let r = register_all-taken collectors h in (ap (λ x. x.0) r, ap (λ x. x.1) r)),
    (λ before after c e split h.
        let r = ap (register_all answer) split ∙ register_all-refused before after c e h in
        (ap (λ x. x.0) r, ap (λ x. x.1) r)),
  )
