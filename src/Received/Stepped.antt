-- ===== src/Received/Stepped.antt =====
-- An access of one caller keeps what holds in every state.
use mathlib.Core.List.{Permᴰ}
use mathlib.Core.List.Permᴰ
use go_messaging_nats.Base.{
  ℕ, ◌+◌, ◌≤◌, List, [], ◌∷◌, ◌++◌, some, ◌≡◌, refl, sym, ap, ◌∙◌, subst, All, All-append,
  append-nil, arith,
}
use go_messaging_nats.Received.{
  ReceivedMessage, Caller, access, System, Step, pick, Reach, here, next,
}
use go_messaging_nats.Received.Guarded.{
  inside, total, total-append, appended_by, appended, appended-append, IsFresh, held, held-le,
  IsGuarded, All-IsFresh-append, All-middle, Effect, quiet, grown, access-inside, access-Effect,
  access-IsFresh,
}

module _ (s t : System) (v : IsGuarded s) (before after : List Caller) (a b : Caller)
    (here_is : s.callers ≡ before ++ a ∷ after) (there : t.callers ≡ before ++ b ∷ after)
    (e : access s.shared a ≡ some (t.shared, b)) where
  abbrev others : ℕ
  others = total inside before + total inside after

  at_source : inside a + others ≡ held s.shared.locked
  at_source =
      omega (arith, ap (total inside) here_is, total-append inside before (a ∷ after), v.exclusive)

  stepped-exclusive : total inside t.callers ≡ held t.shared.locked
  stepped-exclusive = omega (
    arith,
    ap (total inside) there,
    total-append inside before (b ∷ after),
    at_source,
    access-inside s.shared t.shared b a e (omega (arith, at_source)),
  )

  split_fresh : All (IsFresh s.shared.received) (before ++ a ∷ after)
  split_fresh = subst (All (IsFresh s.shared.received)) here_is v.fresh

  own_effect : Effect s.shared a t.shared b
  own_effect = access-Effect s.shared t.shared b a e (All-middle _ before a after split_fresh).0

  own_fresh : IsFresh t.shared.received b
  own_fresh = access-IsFresh s.shared t.shared b a e (All-middle _ before a after split_fresh).0

  stepped-fresh : Effect s.shared a t.shared b → All (IsFresh t.shared.received) t.callers
  stepped-fresh (quiet same gain) =
      let (_, left, right) = All-middle _ before a after split_fresh in
      let keep = λ (r : List ReceivedMessage). All (IsFresh r) in
      subst (All (IsFresh t.shared.received)) (sym there) (
        All-append (IsFresh t.shared.received) before (b ∷ after)
          (subst (λ r. keep r before) (sym same) left)
          (own_fresh, subst (λ r. keep r after) (sym same) right))
  stepped-fresh (grown message more none_before gain alone) =
      let (_, left, right) = All-middle _ before a after split_fresh in
      let keep = λ (r : List ReceivedMessage). All (IsFresh r) in
      let few : held s.shared.locked ≤ 1 = held-le s.shared.locked in
      let r = s.shared.received in
      subst (All (IsFresh t.shared.received)) (sym there) (
        All-append (IsFresh t.shared.received) before (b ∷ after)
          (subst (λ r. keep r before) (sym more)
            (All-IsFresh-append r message before (omega (arith, at_source)) left))
          (
            own_fresh,
            subst (λ r. keep r after) (sym more)
                (All-IsFresh-append r message after (omega (arith, at_source)) right),
          ))

  appended-source : appended s.callers ≡ appended before ++ (appended_by a ++ appended after)
  appended-source = ap appended here_is ∙ appended-append before (a ∷ after)

  appended-target : appended t.callers ≡ appended before ++ (appended_by b ++ appended after)
  appended-target = ap appended there ∙ appended-append before (b ∷ after)

  stepped-complete : Effect s.shared a t.shared b → Permᴰ t.shared.received (appended t.callers)
  stepped-complete (quiet same gain) =
      let equal : appended s.callers ≡ appended t.callers =
        appended-source
        ∙ ap (λ l. appended before ++ (l ++ appended after)) (sym gain)
        ∙ sym appended-target in
      subst (λ l. Permᴰ l (appended t.callers)) (sym same) (subst (Permᴰ _) equal v.complete)
  stepped-complete (grown message more none_before gain alone) =
      let r = s.shared.received in
      let without : appended s.callers ≡ appended before ++ appended after =
        appended-source ∙ ap (λ l. appended before ++ (l ++ appended after)) none_before in
      let with_it : appended t.callers ≡ appended before ++ message ∷ appended after =
        appended-target ∙ ap (λ l. appended before ++ (l ++ appended after)) gain in
      subst (λ l. Permᴰ l (appended t.callers)) (sym more)
        (subst (Permᴰ (r ++ message ∷ [])) (sym with_it) (
          Permᴰ.trans (Permᴰ.middle message r []) (
            Permᴰ.trans
              (Permᴰ.cons refl (
                subst (λ l. Permᴰ l (appended before ++ appended after)) (sym (append-nil r))
                  (subst (Permᴰ r) without v.complete)))
              (Permᴰ.symm (Permᴰ.middle message (appended before) (appended after))))))

  stepped-IsGuarded : IsGuarded t
  stepped-IsGuarded = record {
    exclusive = stepped-exclusive;
    complete = stepped-complete own_effect;
    fresh = stepped-fresh own_effect;
  }

Step-IsGuarded : {s t : System} → Step s t → IsGuarded s → IsGuarded t
Step-IsGuarded {s} {t} (pick before after a b here_is e there) v =
    stepped-IsGuarded s t v before after a b here_is there e

pub Reach-IsGuarded : {s t : System} → Reach s t → IsGuarded s → IsGuarded t
Reach-IsGuarded here v = v
Reach-IsGuarded (next r st) v = Step-IsGuarded st (Reach-IsGuarded r v)
