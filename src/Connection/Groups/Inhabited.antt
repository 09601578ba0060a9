-- ===== src/Connection/Groups/Inhabited.antt =====
-- No group of the grouping loop is empty.
use go_messaging_nats.Base.{
  Bool, true, false, List, [], ◌∷◌, map, All, All-map, All-select, select, eq_refl, if◌then◌else◌,
}
use go_messaging_nats.Config.{ConsumerConfig}
use go_messaging_nats.Connection.Groups.{grouped, consumer_group_key}
use go_messaging_nats.Connection.Groups.Refines.{grouped_lem, distinct, group_keys, has_key}

-- A group has a configuration.
abbrev pub IsGroup : List ConsumerConfig → Type 0
IsGroup [] = ⊥
IsGroup (cfg ∷ g) = Unit

IsGroup-cons :
    (b : Bool) (cfg : ConsumerConfig) (g : List ConsumerConfig)
    → IsGroup g
    → IsGroup (if b then cfg ∷ g else g)
IsGroup-cons true cfg g h = tt
IsGroup-cons false cfg g h = h

distinct-IsGroup :
    (cs : List ConsumerConfig)
    → All (λ k. IsGroup (select (has_key k) cs)) (distinct (group_keys cs))
distinct-IsGroup [] = tt
distinct-IsGroup (cfg ∷ cs) = (
  rw (eq_refl (consumer_group_key cfg)) tt,
  All-select _ _ (distinct (group_keys cs)) (
      All-map (distinct (group_keys cs))
        (λ k h. IsGroup-cons (has_key k cfg) cfg (select (has_key k) cs) h) (distinct-IsGroup cs)),
)

All-mapped :
    {A B : Type 0} (P : B → Type 0) (f : A → B) (xs : List A)
    → All (λ x. P (f x)) xs
    → All P (map f xs)
All-mapped P f [] h = tt
All-mapped P f (x ∷ xs) h = (h.0, All-mapped P f xs h.1)

pub grouped-IsGroup : (cs : List ConsumerConfig) → All IsGroup (grouped cs)
grouped-IsGroup cs = rw (grouped_lem cs) (
    All-mapped IsGroup (λ k. select (has_key k) cs) (distinct (group_keys cs))
      (distinct-IsGroup cs))
