-- ===== src/Tracing/Carriers.antt =====
-- injectToHeaders and extractToContext (tracing.go): what a propagator writes is what one reads.
use go_messaging_nats.Base.{
  String, List, [], ◌∷◌, Option, none, some, ◌≡◌, refl, sym, ap, ◌∙◌, ◌==◌, if◌then◌else◌, false,
  Bool-cases, inl, inr, arith, eq_iff, is_some, or_default, Option-cases, any, All, All-map,
}
use go_messaging_nats.Base.GoMap.{
  GoMap, lookup, insert, lookup-insert, keys, any-keys, HasDistinctKeys,
}
use go_messaging_nats.Base.GoMap.Order.{IsOrderOf, order-SameLookups}
use go_messaging_nats.Nats.{Context, NatsHeader, HeaderOps, IsHeaderOps, Propagator, first_value}
use go_messaging_nats.Nats.Lookups.{get-set_ne}
use go_messaging_nats.Tracing.{
  set_all, carry, inject_to_headers, extract_to_context, propagator_or_global,
}

-- The propagator reads no key of a carrier but these, as its Fields method documents.
abbrev pub ReadsOnly : Propagator → List String → Type 0
ReadsOnly q fields =
    (ctx : Context) (c d : GoMap String)
    → All (λ k. lookup k c ≡ lookup k d) fields
    → q.extract ctx c ≡ q.extract ctx d

-- A value that is written over what was there.
abbrev over : Option String → Option (List String) → Option (List String)
over none base = base
over (some v) base = some (v ∷ [])

over_missing :
    (o : Option String) (base : Option (List String)) → is_some o ≡ false → over o base ≡ base
over_missing none base h = refl
over_missing (some v) base h = cc

abbrev first : Option (List String) → Option String
first none = none
first (some vs) = some (first_value (some vs))

first-over : (o : Option String) → first (over o none) ≡ o
first-over none = refl
first-over (some v) = refl

first_lem :
    (o : Option (List String)) → (if is_some o then some (first_value o) else none) ≡ first o
first_lem none = refl
first_lem (some vs) = refl

module _ (ops : HeaderOps) (laws : IsHeaderOps ops) where
  pub get-set_all :
      (global : Propagator) (nh : NatsHeader) (carrier : GoMap String) (k : String)
      → lookup k carrier ≡ none
      → ops.get (set_all ops global nh carrier) k ≡ ops.get nh k
  unfolding set_all
  get-set_all global nh [] k absent = refl
  get-set_all global nh ((j, v) ∷ carrier) k absent = elim (Bool-cases (j == k)) [
    | inl same ↦ cc (rw (same, lookup) at absent)
    | inr other ↦
        get-set_all global (ops.set nh j v) carrier k (rw (other, lookup) at absent)
        ∙ get-set_ne ops laws nh j k v (λ e. cc (sym ((eq_iff j k).1 (sym e)) ∙ other))
  ]

  lookup-set_all :
      (global : Propagator) (nh : NatsHeader) (carrier : GoMap String) (k : String)
      → HasDistinctKeys carrier
      → lookup k (set_all ops global nh carrier) ≡ over (lookup k carrier) (lookup k nh)
  unfolding set_all
  lookup-set_all global nh [] k d = refl
  lookup-set_all global nh ((j, v) ∷ carrier) k d =
      lookup-set_all global (ops.set nh j v) carrier k d.1 ∙ (elim (Bool-cases (j == k)) [
        | inl same ↦
            let set : lookup k (ops.set nh j v) ≡ some (v ∷ []) =
              laws.lookup-set nh j k v ∙ (rw same) in
            let once = ap (λ i. is_some (lookup i carrier)) (sym ((eq_iff j k).0 same)) ∙ d.0 in
            rw (set, same) (over_missing (lookup k carrier) (some (v ∷ [])) once)
        | inr differ ↦
            let kept : lookup k (ops.set nh j v) ≡ lookup k nh =
              laws.lookup-set nh j k v ∙ (rw differ) in
            rw (kept, differ)
      ])

  -- Each key of the carrier is written over the header, and the others are left.
  pub get-set_all_over :
      (global : Propagator) (nh : NatsHeader) (carrier : GoMap String) (k : String)
      → HasDistinctKeys carrier
      → ops.get (set_all ops global nh carrier) k ≡ or_default (lookup k carrier) (ops.get nh k)
  get-set_all_over global nh carrier k d =
      laws.get-lookup (set_all ops global nh carrier) k
      ∙ ap first_value (lookup-set_all global nh carrier k d)
      ∙ (elim (Option-cases (lookup k carrier)) [
        | inl absent ↦ rw absent (sym (laws.get-lookup nh k))
        | inr (v, found) ↦ rw found refl
      ])

  lookup-carry :
      (global : Propagator) (nh : NatsHeader) (ks : List String) (carrier : GoMap String)
      (k : String)
      → lookup k (carry ops global nh ks carrier)
        ≡ (if any (λ j. j == k) ks then some (ops.get nh k) else lookup k carrier)
  unfolding carry
  lookup-carry global nh [] carrier k = refl
  lookup-carry global nh (j ∷ ks) carrier k =
      lookup-carry global nh ks (insert j (ops.get nh j) carrier) k
      ∙ (ground (arith, lookup-insert j k (ops.get nh j) carrier, eq_iff j k))

  lookup-carry_all :
      (global : Propagator) (nh order : NatsHeader) (k : String)
      → HasDistinctKeys nh
      → IsOrderOf nh order
      → lookup k (carry ops global nh (keys order) []) ≡ first (lookup k nh)
  lookup-carry_all global nh order k d walk =
      lookup-carry global nh (keys order) [] k
      ∙ ap (λ b. if b then some (ops.get nh k) else none)
          (any-keys order k ∙ ap is_some (sym ((order-SameLookups nh order walk d).same k)))
      ∙ (rw (laws.get-lookup nh k) (first_lem (lookup k nh)))

  -- A trace context survives the message. The reader's propagator looks at the given fields only,
  -- none of which is among the headers before the call, and the writer's propagator writes a carrier
  -- of distinct keys. Then, under the documented behaviour of a header map and for every order in
  -- which the sent headers are walked, what extract_to_context makes of the headers that
  -- inject_to_headers wrote is what the reader extracts from the writer's own carrier.
  pub extract_to_context-inject_to_headers :
      (writer reader : Propagator) (p q : Option Propagator) (ctx base : Context)
      (headers order : NatsHeader) (fields : List String)
      → ReadsOnly (propagator_or_global q reader) fields
      → HasDistinctKeys ((propagator_or_global p writer).inject ctx)
      → All (λ k. lookup k headers ≡ none) fields
      → HasDistinctKeys (inject_to_headers ops writer ctx headers p)
      → IsOrderOf (inject_to_headers ops writer ctx headers p) order
      → extract_to_context ops reader base (inject_to_headers ops writer ctx headers p) order q
        ≡ (propagator_or_global q reader).extract base ((propagator_or_global p writer).inject ctx)
  unfolding inject_to_headers extract_to_context
  extract_to_context-inject_to_headers writer reader p q ctx base headers order fields reads d clear
        sent walk =
      let carrier = (propagator_or_global p writer).inject ctx in
      reads base _ carrier (
        All-map fields
          (λ k missing.
            lookup-carry_all reader (set_all ops writer headers carrier) order k sent walk
            ∙ ap first
                (lookup-set_all writer headers carrier k d ∙ ap (over (lookup k carrier)) missing)
            ∙ first-over (lookup k carrier))
          clear)
