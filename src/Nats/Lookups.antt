-- ===== src/Nats/Lookups.antt =====
-- Reading a header back after a write, from the documented laws of nats.Header.
use go_messaging_nats.Base.{String, [], ◌∷◌, ◌≡◌, refl, ◌≢◌, ◌==◌, if◌then◌else◌, arith, eq_iff}
use go_messaging_nats.Base.GoMap.{lookup, insert, lookup-insert}
use go_messaging_nats.Nats.{NatsHeader, HeaderOps, IsHeaderOps, first_value}

module _ (ops : HeaderOps) (laws : IsHeaderOps ops) where
  pub get-set :
      (h : NatsHeader) (k j v : String)
      → ops.get (ops.set h k v) j ≡ (if k == j then v else ops.get h j)
  get-set h k j v =
      ground
        (arith, laws.get-lookup (ops.set h k v) j, laws.get-lookup h j, laws.lookup-set h k j v)

  pub get-set_self : (h : NatsHeader) (k v : String) → ops.get (ops.set h k v) k ≡ v
  get-set_self h k v = ground (arith, get-set h k k v, eq_iff k k)

  pub get-set_ne :
      (h : NatsHeader) (k j v : String) → j ≢ k → ops.get (ops.set h k v) j ≡ ops.get h j
  get-set_ne h k j v ne = ground (arith, get-set h k j v, eq_iff k j)

-- A header map with the documented behaviour: the laws can be met.
abbrev pub map_ops : HeaderOps
map_ops = record { set = λ h k v. insert k (v ∷ []) h; get = λ h k. first_value (lookup k h) }

pub map_ops-IsHeaderOps : IsHeaderOps map_ops
map_ops-IsHeaderOps = record {
  lookup-set = λ h k j v. lookup-insert k j (v ∷ []) h;
  get-lookup = λ h k. refl;
}
