-- ===== src/Connection/Groups/Refines.antt =====
-- The grouping loop against its specification: one group for each distinct pair of stream and
-- consumer name, in the order of first occurrence, with all its configurations in order.
use mathlib.Core.Path.{fun_ext}
use go_messaging_nats.Base.{
  String, List, [], ◌∷◌, ◌++◌, none, some, or_default, map, if◌then◌else◌, Bool, true, false, ◌≡◌,
  refl, sym, ap, ◌∙◌, ◌==◌, not, select, select-append, any, arith, eq_iff, append_assoc,
  append-nil, map-append, ◌||◌, Bool-cases, inl, inr,
}
use go_messaging_nats.Base.GoMap.{lookup, insert, lookup-insert}
use go_messaging_nats.Config.{ConsumerConfig}
use go_messaging_nats.Connection.Groups.{
  consumer_group_key, Groups, empty, add_to_group, group_all, grouped,
}

-- The texts without repetitions, each at its first occurrence.
abbrev pub distinct : List String → List String
distinct [] = []
distinct (k ∷ ks) = k ∷ select (λ j. not (j == k)) (distinct ks)

abbrev pub has_key : String → ConsumerConfig → Bool
has_key k cfg = consumer_group_key cfg == k

abbrev pub group_keys : List ConsumerConfig → List String
group_keys = map consumer_group_key

eq_comm : (j k : String) → (j == k) ≡ (k == j)
eq_comm j k = ground (arith, eq_iff j k, eq_iff k j)

any-snoc {ℓ} :
    {A : Type ℓ} (p : A → Bool) (xs : List A) (x : A) → any p (xs ++ x ∷ []) ≡ (any p xs || p x)
any-snoc p [] x = ground arith
any-snoc p (y ∷ xs) x = rw (any-snoc p xs x) (ground arith)

distinct-snoc :
    (ks : List String) (k : String)
    → distinct (ks ++ k ∷ [])
      ≡ (if any (λ j. j == k) ks then distinct ks else distinct ks ++ k ∷ [])
distinct-snoc [] k = refl
distinct-snoc (j ∷ ks) k = rw (distinct-snoc ks k) (elim (Bool-cases (j == k)) [
  | inl same ↦ elim (Bool-cases (any (λ i. i == k) ks)) [
    | inl old ↦ rw (old, same)
    | inr new ↦
        rw (new, select-append, same, sym (eq_comm j k) ∙ same)
          (ap (◌∷◌ j) (append-nil (select (λ i. not (i == j)) (distinct ks))))
  ]
  | inr other ↦ elim (Bool-cases (any (λ i. i == k) ks)) [
    | inl old ↦ rw (old, other)
    | inr new ↦ rw (new, select-append, other, sym (eq_comm j k) ∙ other)
  ]
])

-- What the maps of the loop hold once the configurations `done` are grouped.
record IsGrouping (done : List ConsumerConfig) (gs : Groups) : Type 0 where
  order : gs.order ≡ distinct (group_keys done)
  groups :
      (k : String)
      → lookup k gs.groups
        ≡ (if any (λ j. j == k) (group_keys done) then some (select (has_key k) done) else none)

-- No configuration has a key that does not occur.
select-has_key :
    (k : String) (done : List ConsumerConfig)
    → any (λ j. j == k) (group_keys done) ≡ false
    → select (has_key k) done ≡ []
select-has_key k [] h = refl
select-has_key k (cfg ∷ done) h = ground (arith, select-has_key k done)

module _ (done : List ConsumerConfig) (gs : Groups) (cfg : ConsumerConfig)
    (v : IsGrouping done gs) where
  abbrev is_old : Bool
  is_old = any (λ j. j == consumer_group_key cfg) (group_keys done)

  group_keys-snoc : group_keys (done ++ cfg ∷ []) ≡ group_keys done ++ consumer_group_key cfg ∷ []
  group_keys-snoc = map-append consumer_group_key done (cfg ∷ [])

  old_order : is_old ≡ true → distinct (group_keys (done ++ cfg ∷ [])) ≡ distinct (group_keys done)
  old_order old = rw (group_keys-snoc, distinct-snoc, old)

  new_order :
      is_old ≡ false
      → distinct (group_keys (done ++ cfg ∷ []))
        ≡ distinct (group_keys done) ++ consumer_group_key cfg ∷ []
  new_order new = rw (group_keys-snoc, distinct-snoc, new)

  -- The specification after one more configuration, at the key `k`.
  spec-snoc :
      (k : String)
      → (if any (λ j. j == k) (group_keys (done ++ cfg ∷ []))
          then some (select (has_key k) (done ++ cfg ∷ []))
          else none)
        ≡ (if consumer_group_key cfg == k
            then some (select (has_key k) done ++ cfg ∷ [])
            else if any (λ j. j == k) (group_keys done)
            then some (select (has_key k) done)
            else none)
  spec-snoc k =
      rw (group_keys-snoc, any-snoc, select-append (has_key k) done (cfg ∷ []))
        (ground (arith, append-nil (select (has_key k) done)))

  insert_groups :
      (configs : List ConsumerConfig) (k : String)
      → configs ≡ select (has_key (consumer_group_key cfg)) done ++ cfg ∷ []
      → lookup k (insert (consumer_group_key cfg) configs gs.groups) ≡ (
          if any (λ j. j == k) (group_keys (done ++ cfg ∷ []))
          then some (select (has_key k) (done ++ cfg ∷ []))
          else none)
  insert_groups configs k e =
      rw (lookup-insert (consumer_group_key cfg) k configs gs.groups, spec-snoc k)
        (elim (Bool-cases (consumer_group_key cfg == k)) [
          | inl same ↦
              let to_k = (eq_iff (consumer_group_key cfg) k).0 same in
              rw same (ap some (e ∙ ap (λ j. select (has_key j) done ++ cfg ∷ []) to_k))
          | inr other ↦ rw other (v.groups k)
        ])

  add_to_group-IsGrouping : IsGrouping (done ++ cfg ∷ []) (add_to_group gs cfg)
  unfolding add_to_group
  add_to_group-IsGrouping = elim (Bool-cases is_old) [
    | inl old ↦
        let found : lookup (consumer_group_key cfg) gs.groups
            ≡ some (select (has_key (consumer_group_key cfg)) done) =
          v.groups (consumer_group_key cfg) ∙ (rw old) in
        rw (found, add_to_group)
          (record { order = v.order ∙ sym (old_order old); groups = λ k. insert_groups _ k refl })
    | inr new ↦
        let missing : lookup (consumer_group_key cfg) gs.groups ≡ none =
          v.groups (consumer_group_key cfg) ∙ (rw new) in
        rw (missing, add_to_group)
          (record {
            order = rw v.order (sym (new_order new));
            groups = λ k.
                insert_groups (cfg ∷ []) k (rw (select-has_key (consumer_group_key cfg) done new));
          })
  ]

group_all-IsGrouping :
    (done : List ConsumerConfig) (gs : Groups) (pending : List ConsumerConfig)
    → IsGrouping done gs
    → IsGrouping (done ++ pending) (group_all gs pending)
unfolding group_all
group_all-IsGrouping done gs [] v = rw append-nil v
group_all-IsGrouping done gs (cfg ∷ pending) v = rw (← append_assoc done (cfg ∷ []) pending) (
    group_all-IsGrouping (done ++ cfg ∷ []) (add_to_group gs cfg) pending
      (add_to_group-IsGrouping done gs cfg v))

empty-IsGrouping : IsGrouping [] empty
empty-IsGrouping = record { order = refl; groups = λ k. refl }

-- The pending consumers are grouped by stream and consumer name: there is one group for each
-- distinct group key, in the order of first registration, and it holds exactly the configurations
-- with that key, in the order of registration.
pub grouped_lem :
    (pending : List ConsumerConfig)
    → grouped pending ≡ map (λ k. select (has_key k) pending) (distinct (group_keys pending))
unfolding grouped
grouped_lem pending = rw (v.order, fun_ext configs)
  where
    v : IsGrouping pending (group_all empty pending)
    v = group_all-IsGrouping [] empty pending empty-IsGrouping

    configs :
        (k : String)
        → or_default (lookup k (group_all empty pending).groups) [] ≡ select (has_key k) pending
    configs k = rw (v.groups k) (elim (Bool-cases (any (λ j. j == k) (group_keys pending))) [
      | inl old ↦ rw old
      | inr new ↦ rw (new, select-has_key k pending new)
    ])
