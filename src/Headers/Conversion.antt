-- ===== src/Headers/Conversion.antt =====
-- toNATSHeaders and fromNATSHeaders (headers.go), one after the other.
use go_messaging_nats.Base.{
  String, List, [], ◌∷◌, Option, none, some, ◌≡◌, refl, sym, ap, ◌∙◌, ◌≢◌, ◌==◌, if◌then◌else◌,
  false, Bool-cases, inl, inr, arith, eq_iff, is_some, any,
}
use go_messaging_nats.Base.GoMap.{
  GoMap, lookup, insert, lookup-insert, keys, any-keys, HasDistinctKeys,
}
use go_messaging_nats.Base.GoMap.Order.{IsOrderOf, order-SameLookups}
use go_messaging_nats.Messaging.{Value, text, other, Headers}
use go_messaging_nats.Nats.{NatsHeader, HeaderOps, IsHeaderOps, first_value}
use go_messaging_nats.Headers.{to_nats_headers, from_nats_headers, set_texts, get_all}

-- A text value; other values are dropped.
abbrev pub only_text : Option Value → Option Value
only_text (some (text s)) = some (text s)
only_text _ = none

abbrev stored : Option Value → Option (List String) → Option (List String)
stored (some (text s)) base = some (s ∷ [])
stored _ base = base

abbrev pub loaded : Option (List String) → Option Value
loaded none = none
loaded (some vs) = some (text (first_value (some vs)))

loaded_given :
    (o : Option (List String)) (v : String) → first_value o ≡ v → v ≢ "" → loaded o ≡ some (text v)
loaded_given none v e given = absurd (given (sym e))
loaded_given (some vs) v e given = ap (λ s. some (text s)) e

loaded-stored : (o : Option Value) → loaded (stored o none) ≡ only_text o
loaded-stored none = refl
loaded-stored (some (text s)) = refl
loaded-stored (some (other v)) = refl

stored-missing :
    (o : Option Value) (base : Option (List String)) → is_some o ≡ false → stored o base ≡ base
stored-missing none base h = refl
stored-missing (some v) base h = cc

module _ (ops : HeaderOps) (laws : IsHeaderOps ops) where
  lookup-get_all :
      (nh : NatsHeader) (ks : List String) (h : Headers) (k : String)
      → lookup k (get_all ops nh ks h)
        ≡ (if any (λ j. j == k) ks then some (text (ops.get nh k)) else lookup k h)
  unfolding get_all
  lookup-get_all nh [] h k = refl
  lookup-get_all nh (j ∷ ks) h k =
      lookup-get_all nh ks (insert j (text (ops.get nh j)) h) k
      ∙ (ground (arith, lookup-insert j k (text (ops.get nh j)) h, eq_iff j k))

  lookup-set_texts :
      (nh : NatsHeader) (entries : GoMap Value) (k : String)
      → HasDistinctKeys entries
      → lookup k (set_texts ops nh entries) ≡ stored (lookup k entries) (lookup k nh)
  unfolding set_texts
  lookup-set_texts nh [] k d = refl
  lookup-set_texts nh ((j, text s) ∷ entries) k d =
      lookup-set_texts (ops.set nh j s) entries k d.1 ∙ (elim (Bool-cases (j == k)) [
        | inl same ↦
            let set : lookup k (ops.set nh j s) ≡ some (s ∷ []) =
              laws.lookup-set nh j k s ∙ (rw same) in
            let once = ap (λ i. is_some (lookup i entries)) (sym ((eq_iff j k).0 same)) ∙ d.0 in
            rw (set, same) (stored-missing (lookup k entries) (some (s ∷ [])) once)
        | inr differ ↦
            let kept : lookup k (ops.set nh j s) ≡ lookup k nh =
              laws.lookup-set nh j k s ∙ (rw differ) in
            rw (kept, differ)
      ])
  lookup-set_texts nh ((j, other v) ∷ entries) k d =
      lookup-set_texts nh entries k d.1 ∙ (elim (Bool-cases (j == k)) [
        | inl same ↦
            let once = ap (λ i. is_some (lookup i entries)) (sym ((eq_iff j k).0 same)) ∙ d.0 in
            rw same (stored-missing (lookup k entries) (lookup k nh) once)
        | inr differ ↦ rw differ
      ])

  loaded_lem :
      (nh : NatsHeader) (k : String)
      → (if is_some (lookup k nh) then some (text (ops.get nh k)) else none) ≡ loaded (lookup k nh)
  loaded_lem nh k = rw (laws.get-lookup nh k) (by_cases (lookup k nh))
    where
      by_cases :
          (o : Option (List String))
          → (if is_some o then some (text (first_value o)) else none) ≡ loaded o
      by_cases none = refl
      by_cases (some vs) = refl

  -- Every NATS header is read as its first value.
  pub lookup-from_nats_headers :
      (nh order : NatsHeader) (k : String)
      → HasDistinctKeys nh
      → IsOrderOf nh order
      → lookup k (from_nats_headers ops nh order) ≡ loaded (lookup k nh)
  unfolding from_nats_headers
  lookup-from_nats_headers nh order k d walk =
      lookup-get_all nh (keys order) [] k
      ∙ ap (λ b. if b then some (text (ops.get nh k)) else none)
          (any-keys order k ∙ ap is_some (sym ((order-SameLookups nh order walk d).same k)))
      ∙ loaded_lem nh k

  -- A header with a value is found with this value.
  pub lookup-from_nats_headers_given :
      (nh order : NatsHeader) (k v : String)
      → HasDistinctKeys nh
      → IsOrderOf nh order
      → ops.get nh k ≡ v
      → v ≢ ""
      → lookup k (from_nats_headers ops nh order) ≡ some (text v)
  lookup-from_nats_headers_given nh order k v d walk e given =
      lookup-from_nats_headers nh order k d walk
      ∙ loaded_given (lookup k nh) v (sym (laws.get-lookup nh k) ∙ e) given

  -- Headers that are written to a NATS message and read back are the same texts under the same keys,
  -- and values that are no texts are gone, in every order in which the two maps are walked. Maps have
  -- distinct keys, and NATS headers behave as documented.
  pub from_nats_headers-to_nats_headers :
      (headers entries : GoMap Value) (order : NatsHeader) (k : String)
      → HasDistinctKeys headers
      → IsOrderOf headers entries
      → HasDistinctKeys (to_nats_headers ops entries)
      → IsOrderOf (to_nats_headers ops entries) order
      → lookup k (from_nats_headers ops (to_nats_headers ops entries) order)
        ≡ only_text (lookup k headers)
  unfolding to_nats_headers
  from_nats_headers-to_nats_headers headers entries order k d walk nd back =
      let first = order-SameLookups headers entries walk d in
      lookup-from_nats_headers (to_nats_headers ops entries) order k nd back
      ∙ ap loaded (lookup-set_texts [] entries k first.distinct)
      ∙ loaded-stored (lookup k entries)
      ∙ ap only_text (sym (first.same k))
