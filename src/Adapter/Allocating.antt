-- ===== src/Adapter/Allocating.antt =====
-- What one intent adds to the publishers that the loop over the intents of cmd/tck-adapter/main.go
-- allocates.
use mathlib.Core.List.{Memᴰ}
use mathlib.Core.Option.{some-injective}
use go_messaging_nats.Base.{
  suc, String, List, [], ◌∷◌, ◌++◌, some, ◌≡◌, refl, sym, ap, ◌∙◌, arith, Bool-cases, inl, inr, ◌⊎◌,
  append_assoc, ◌==◌, eq_iff,
}
use go_messaging_nats.Base.GoMap.{lookup, insert, lookup-insert}
use go_messaging_nats.Errors.{Handle}
use go_messaging_nats.Naming.{default_event_stream_name}
use go_messaging_nats.Connection.{Publisher}
use go_messaging_nats.Connection.Start.{Setup}
use go_messaging_nats.Setup.Assigning.{
  Leaves, Wires, Wiring, leaves, wires, setups_in, owned, IsAscending,
}
use go_messaging_nats.Setup.Assigned.{PublishesTo, Requests}
use go_messaging_nats.Intents.{
  SetupIntent, Kind, event_publish, stream_publish, request_publish, kind_of,
}
use go_messaging_nats.Adapter.{Kit, Plan}

module _ (kit : Kit) where
  -- What a publishing intent demands of its publisher.
  abbrev pub Demanded : SetupIntent → Kind → Publisher → Type 0
  Demanded i event_publish p = PublishesTo kit.messaging default_event_stream_name p
  Demanded i stream_publish p = PublishesTo kit.messaging i.exchange p
  Demanded i request_publish p = Requests i.target_service p
  Demanded i _ p = ⊥

  abbrev pub Label : Type 0
  Label = SetupIntent × Kind

  abbrev pub Demand : Label → Publisher → Type 0
  Demand l p = Demanded l.0 l.1 p

  -- The intent for which a publisher has been allocated.
  pub record IsAllocated (intents : List SetupIntent) (ws : List (Wiring Demand)) (pk : String)
      (h : Handle) : Type 0 where
    pub i : SetupIntent
    pub kind : Kind
    pub listed : Memᴰ i intents
    pub covered : kind_of i ≡ some kind
    pub keyed : kit.publisher_key i ≡ pk
    pub owner : Memᴰ {A = Handle × Label} (h, (i, kind)) (owned Demand ws)

  pub record HasWirings (intents : List SetupIntent) (plan plan' : Plan) : Type 0 where
    pub wirings : List (Wiring Demand)
    pub setups : plan'.setups ≡ plan.setups ++ setups_in Demand wirings
    pub ascending : IsAscending Demand plan.next wirings
    pub named :
        (pk : String) (h : Handle)
        → lookup pk plan'.publishers ≡ some h
        → (lookup pk plan.publishers ≡ some h) ⊎ IsAllocated intents wirings pk h

  IsAllocated-Leaves :
      (i : SetupIntent) (intents : List SetupIntent) (ws : List (Wiring Demand)) (pk : String)
      (h : Handle) (f : Setup) (k : Leaves f.apply)
      → IsAllocated intents ws pk h
      → IsAllocated (i ∷ intents) (leaves f k ∷ ws) pk h
  IsAllocated-Leaves i intents ws pk h f k a = record {
    i = a.i;
    kind = a.kind;
    listed = Memᴰ.tail a.listed;
    covered = a.covered;
    keyed = a.keyed;
    owner = a.owner;
  }

  pub HasWirings-Leaves :
      (i : SetupIntent) (intents : List SetupIntent) (plan plan' : Plan) (f : Setup)
      → Leaves f.apply
      → HasWirings intents (record plan { setups = plan.setups ++ f ∷ [] }) plan'
      → HasWirings (i ∷ intents) plan plan'
  HasWirings-Leaves i intents plan plan' f k v = record {
    wirings = leaves f k ∷ v.wirings;
    setups = v.setups ∙ append_assoc plan.setups (f ∷ []) (setups_in Demand v.wirings);
    ascending = v.ascending;
    named = λ pk h e. elim (v.named pk h e) [
      | inl before ↦ inl before
      | inr a ↦ inr (IsAllocated-Leaves i intents v.wirings pk h f k a)
    ];
  }

  pub HasWirings-Wires :
      (i : SetupIntent) (kind : Kind) (intents : List SetupIntent) (plan plan' : Plan) (f : Setup)
      → kind_of i ≡ some kind
      → Wires f.apply plan.next (Demanded i kind)
      → (keys : List String)
      → HasWirings intents
          (record {
            setups = plan.setups ++ f ∷ [];
            publishers = insert (kit.publisher_key i) plan.next plan.publishers;
            publisher_keys = keys;
            next = suc plan.next;
          })
          plan'
      → HasWirings (i ∷ intents) plan plan'
  HasWirings-Wires i kind intents plan plan' f covered k keys v = record {
    wirings = wires f plan.next (i, kind) k ∷ v.wirings;
    setups = v.setups ∙ append_assoc plan.setups (f ∷ []) (setups_in Demand v.wirings);
    ascending = (omega arith, v.ascending);
    named = λ pk h e. elim (v.named pk h e) [
      | inl before ↦ inserted pk h before
      | inr a ↦ inr (record {
        i = a.i;
        kind = a.kind;
        listed = Memᴰ.tail a.listed;
        covered = a.covered;
        keyed = a.keyed;
        owner = Memᴰ.tail a.owner;
      })
    ];
  }
    where
      ws : List (Wiring Demand)
      ws = wires f plan.next (i, kind) k ∷ v.wirings

      inserted :
          (pk : String) (h : Handle)
          → lookup pk (insert (kit.publisher_key i) plan.next plan.publishers) ≡ some h
          → (lookup pk plan.publishers ≡ some h) ⊎ IsAllocated (i ∷ intents) ws pk h
      inserted pk h e = elim (Bool-cases (kit.publisher_key i == pk)) [
        | inl own ↦
            let same : plan.next ≡ h =
              some-injective _ _
                (rw (lookup-insert (kit.publisher_key i) pk plan.next plan.publishers, own) at e) in
            inr (record {
              i = i;
              kind = kind;
              listed = Memᴰ.head refl;
              covered = covered;
              keyed = (eq_iff (kit.publisher_key i) pk).0 own;
              owner = Memᴰ.head (ap (λ (o : Handle). (o, (i, kind))) (sym same));
            })
        | inr other ↦
            inl (rw (lookup-insert (kit.publisher_key i) pk plan.next plan.publishers, other) at e)
      ]

  -- An intent to publish a response only adds its key.
  pub HasWirings-key :
      (i : SetupIntent) (intents : List SetupIntent) (plan plan' : Plan) (keys : List String)
      → HasWirings intents (record plan { publisher_keys = keys }) plan'
      → HasWirings (i ∷ intents) plan plan'
  HasWirings-key i intents plan plan' keys v = record {
    wirings = v.wirings;
    setups = v.setups;
    ascending = v.ascending;
    named = λ pk h e. elim (v.named pk h e) [
      | inl before ↦ inl before
      | inr a ↦ inr (record {
        i = a.i;
        kind = a.kind;
        listed = Memᴰ.tail a.listed;
        covered = a.covered;
        keyed = a.keyed;
        owner = a.owner;
      })
    ];
  }
