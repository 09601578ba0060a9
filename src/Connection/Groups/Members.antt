-- ===== src/Connection/Groups/Members.antt =====
-- Where a registration is found in the groups, and what its group's handlers do with a routing key.
use mathlib.Core.List.{Memᴰ}
use mathlib.Core.List.Memᴰ
use go_messaging_nats.Base.{
  String, Bool, true, List, [], ◌∷◌, Option, none, some, ◌≡◌, refl, sym, ap, ◌∙◌, subst, All,
  All-map, select, not, is_some, ◌==◌, eq_iff, if◌then◌else◌, Bool-cases, inl, inr, ◌⊎◌,
}
use go_messaging_nats.Base.GoMap.{lookup, HasDistinctKeys}
use go_messaging_nats.Messaging.{Messaging}
use go_messaging_nats.Handler.{WrappedHandler}
use go_messaging_nats.Config.{ConsumerConfig}
use go_messaging_nats.Routing.Matching.{Matches, IsOnlyMatch}
use go_messaging_nats.Connection.Groups.{consumer_group_key, group_handlers}
use go_messaging_nats.Connection.Groups.Refines.{distinct, group_keys, has_key}
use go_messaging_nats.Connection.Groups.Settings.{last_handler, group_handlers_lem}

select-Memᴰ :
    {A : Type 0} (p : A → Bool) (x : A) (xs : List A)
    → Memᴰ x xs
    → p x ≡ true
    → Memᴰ x (select p xs)
select-Memᴰ p x [] mem h = elim mem [ ]
select-Memᴰ p x (y ∷ xs) (Memᴰ.head e) h = rw (sym (ap p e) ∙ h) (Memᴰ.head e)
select-Memᴰ p x (y ∷ xs) (Memᴰ.tail mem) h = elim (Bool-cases (p y)) [
  | inl kept ↦ rw kept (Memᴰ.tail (select-Memᴰ p x xs mem h))
  | inr dropped ↦ rw dropped (select-Memᴰ p x xs mem h)
]

All-select-true {ℓ} :
    {A : Type 0} (P : A → Type ℓ) (p : A → Bool) (xs : List A)
    → All P xs
    → All (λ x. P x × (p x ≡ true)) (select p xs)
All-select-true P p [] h = tt
All-select-true P p (x ∷ xs) h = elim (Bool-cases (p x)) [
  | inl kept ↦ rw kept ((h.0, kept), All-select-true P p xs h.1)
  | inr dropped ↦ rw dropped (All-select-true P p xs h.1)
]

pub All-Memᴰ {ℓ} : {A : Type 0} (P : A → Type ℓ) (x : A) (xs : List A) → All P xs → Memᴰ x xs → P x
All-Memᴰ P x [] h mem = elim mem [ ]
All-Memᴰ P x (y ∷ xs) h (Memᴰ.head e) = subst P (sym e) h.0
All-Memᴰ P x (y ∷ xs) h (Memᴰ.tail mem) = All-Memᴰ P x xs h.1 mem

distinct-Memᴰ : (k : String) (ks : List String) → Memᴰ k ks → Memᴰ k (distinct ks)
distinct-Memᴰ k [] mem = elim mem [ ]
distinct-Memᴰ k (j ∷ ks) (Memᴰ.head e) = Memᴰ.head e
distinct-Memᴰ k (j ∷ ks) (Memᴰ.tail mem) = elim (Bool-cases (k == j)) [
  | inl same ↦ Memᴰ.head ((eq_iff k j).0 same)
  | inr other ↦
      Memᴰ.tail
        (select-Memᴰ (λ i. not (i == j)) k (distinct ks) (distinct-Memᴰ k ks mem) (ap not other))
]

-- Every registration of the routing key has the handler.
abbrev HasHandler : String → WrappedHandler → ConsumerConfig → Type 0
HasHandler k f d = d.routing_key ≡ k → d.handler ≡ f

last_handler_agreed :
    (k : String) (f : WrappedHandler) (found : Option WrappedHandler) (cs : List ConsumerConfig)
    → All (HasHandler k f) cs
    → found ≡ some f
    → last_handler k found cs ≡ some f
last_handler_agreed k f found [] h e = e
last_handler_agreed k f found (d ∷ cs) h e = elim (Bool-cases (d.routing_key == k)) [
  | inl same ↦ rw same (
      last_handler_agreed k f (some d.handler) cs h.1
        (ap some (h.0 ((eq_iff d.routing_key k).0 same))))
  | inr other ↦ rw other (last_handler_agreed k f found cs h.1 e)
]

last_handler-Memᴰ :
    (k : String) (f : WrappedHandler) (found : Option WrappedHandler) (cs : List ConsumerConfig)
    (cfg : ConsumerConfig)
    → All (HasHandler k f) cs
    → Memᴰ cfg cs
    → cfg.routing_key ≡ k
    → last_handler k found cs ≡ some f
last_handler-Memᴰ k f found [] cfg h mem e = elim mem [ ]
last_handler-Memᴰ k f found (d ∷ cs) cfg h (Memᴰ.head same) e =
    let is_key : d.routing_key ≡ k = sym (ap (λ (c : ConsumerConfig). c.routing_key) same) ∙ e in
    rw ((eq_iff d.routing_key k).1 is_key)
      (last_handler_agreed k f (some d.handler) cs h.1 (ap some (h.0 is_key)))
last_handler-Memᴰ k f found (d ∷ cs) cfg h (Memᴰ.tail mem) e =
    last_handler-Memᴰ k f (if d.routing_key == k then some d.handler else found) cs cfg h.1 mem e

-- A handler is that of some registration.
last_handler-source :
    (q : String) (found : Option WrappedHandler) (cs : List ConsumerConfig)
    → is_some (last_handler q found cs) ≡ true
    → (is_some found ≡ true) ⊎ ((d : ConsumerConfig) × Memᴰ d cs × (d.routing_key ≡ q))
last_handler-source q found [] h = inl h
last_handler-source q found (d ∷ cs) h = elim (Bool-cases (d.routing_key == q)) [
  | inl same ↦ inr (d, Memᴰ.head refl, (eq_iff d.routing_key q).0 same)
  | inr other ↦ elim (last_handler-source q found cs (rw other at h)) [
    | inl before ↦ inl before
    | inr (c, mem, e) ↦ inr (c, Memᴰ.tail mem, e)
  ]
]

-- A registration that takes the routing key within the group of `cfg` is as good as `cfg`.
abbrev pub Agrees : Messaging → String → ConsumerConfig → ConsumerConfig → Type 0
Agrees m key cfg d =
    consumer_group_key d ≡ consumer_group_key cfg
    → Matches m key d.routing_key
    → (d.routing_key ≡ cfg.routing_key) × (d.handler ≡ cfg.handler)

-- The group's handlers have the registration's handler, under the only pattern that matches.
pub record Takes (m : Messaging) (key : String) (cfg : ConsumerConfig) (group : List ConsumerConfig)
    : Type 0 where
  pub distinct_keys : HasDistinctKeys (group_handlers [] group)
  pub registered : lookup cfg.routing_key (group_handlers [] group) ≡ some cfg.handler
  pub only : IsOnlyMatch m key (group_handlers [] group) cfg.routing_key

abbrev pub group_of : List ConsumerConfig → ConsumerConfig → List ConsumerConfig
group_of cs cfg = select (has_key (consumer_group_key cfg)) cs

module _ (m : Messaging) (key : String) (cs : List ConsumerConfig) (cfg : ConsumerConfig)
    (mem : Memᴰ cfg cs) where
  pub group_of-Memᴰ : Memᴰ cfg (group_of cs cfg)
  group_of-Memᴰ =
      select-Memᴰ _ cfg cs mem ((eq_iff (consumer_group_key cfg) (consumer_group_key cfg)).1 refl)

  pub group_keys-Memᴰ : Memᴰ (consumer_group_key cfg) (distinct (group_keys cs))
  group_keys-Memᴰ =
      distinct-Memᴰ (consumer_group_key cfg) (group_keys cs) (Memᴰ.map consumer_group_key mem)

  module _ (matches : Matches m key cfg.routing_key) (alone : All (Agrees m key cfg) cs) where
    agreed :
        All
          (λ d. Agrees m key cfg d × (has_key (consumer_group_key cfg) d ≡ true))
          (group_of cs cfg)
    agreed = All-select-true (Agrees m key cfg) _ cs alone

    group_agrees :
        (d : ConsumerConfig)
        → Memᴰ d (group_of cs cfg)
        → Matches m key d.routing_key
        → (d.routing_key ≡ cfg.routing_key) × (d.handler ≡ cfg.handler)
    group_agrees d found =
        let (agrees, same) = All-Memᴰ _ d (group_of cs cfg) agreed found in
        agrees ((eq_iff (consumer_group_key d) (consumer_group_key cfg)).0 same)

    handlers_agree : All (HasHandler cfg.routing_key cfg.handler) (group_of cs cfg)
    handlers_agree =
        All-map (group_of cs cfg)
          (λ d h e.
            (h.0 ((eq_iff (consumer_group_key d) (consumer_group_key cfg)).0 h.1)
              (subst (Matches m key) (sym e) matches)).1)
          agreed

    only_match : IsOnlyMatch m key (group_handlers [] (group_of cs cfg)) cfg.routing_key
    only_match q hit found =
        let same = (group_handlers_lem [] (group_of cs cfg) q tt).0 in
        elim (last_handler-source q none (group_of cs cfg) (ap is_some (sym same) ∙ found)) [
          | inl nothing ↦ cc
          | inr (d, is_in, e) ↦ sym e ∙ (group_agrees d is_in (subst (Matches m key) (sym e) hit)).0
        ]

    pub group_of-Takes : Takes m key cfg (group_of cs cfg)
    group_of-Takes =
        let (same, distinct_keys) = group_handlers_lem [] (group_of cs cfg) cfg.routing_key tt in
        record {
          distinct_keys = distinct_keys;
          registered =
              same
              ∙ last_handler-Memᴰ cfg.routing_key cfg.handler none (group_of cs cfg) cfg
                  handlers_agree group_of-Memᴰ refl;
          only = only_match;
        }
