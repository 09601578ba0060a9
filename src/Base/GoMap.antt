-- ===== src/Base/GoMap.antt =====
-- Go maps with text keys, as association lists whose order is not observable.
pub mod Order
use mathlib.Core.Path.{◌≡◌, refl}
use mathlib.Core.Bool.{false}
use mathlib.Core.List.{List, [], ◌∷◌}
use mathlib.Core.Option.{Option, none, some}
use Prim.Native.String.{String}
use native.Mathlib.Omega.{arith}
use text.Mathlib.Text.{◌==◌}
use text.Mathlib.TextEquality.{eq_iff}
use go_messaging_nats.Base.Lists.{any}
use go_messaging_nats.Base.Logic.{if◌then◌else◌, is_some}

abbrev pub GoMap {ℓ} : Type ℓ → Type ℓ
GoMap V = List (String × V)

abbrev pub keys {ℓ} : {V : Type ℓ} → GoMap V → List String
keys [] = []
keys ((k, v) ∷ m) = k ∷ keys m

module _ {ℓ} {V : Type ℓ} where
  -- m[k], with the comma-ok form.
  abbrev pub lookup : String → GoMap V → Option V
  lookup k [] = none
  lookup k ((j, v) ∷ m) = if j == k then some v else lookup k m

  -- m[k] = v; a new key comes last.
  abbrev pub insert : String → V → GoMap V → GoMap V
  insert key value [] = (key, value) ∷ []
  insert key value ((other, old) ∷ others) =
      let rest = insert key value others in
      if other == key then (key, value) ∷ others else (other, old) ∷ rest

  pub lookup-insert :
      (key sought : String) (value : V) (entries : GoMap V)
      → lookup sought (insert key value entries)
        ≡ (if key == sought then some value else lookup sought entries)
  lookup-insert key sought value [] = refl
  lookup-insert key sought value ((other, old) ∷ others) =
      let rest = lookup-insert key sought value others in
      ground (arith, eq_iff key sought, eq_iff other key, eq_iff other sought, rest)

  -- Each key occurs once.
  abbrev pub HasDistinctKeys : GoMap V → Type 0
  HasDistinctKeys [] = Unit
  HasDistinctKeys ((k, v) ∷ m) = (is_some (lookup k m) ≡ false) × HasDistinctKeys m

  pub insert-HasDistinctKeys :
      (k : String) (v : V) (m : GoMap V) → HasDistinctKeys m → HasDistinctKeys (insert k v m)
  insert-HasDistinctKeys k v [] h = (refl, tt)
  insert-HasDistinctKeys k v ((j, w) ∷ m) h =
      ground
        (arith, eq_iff j k, eq_iff k j, lookup-insert k j v m, insert-HasDistinctKeys k v m h.1)

-- A key occurs among the keys exactly if it is found.
pub any-keys {ℓ} :
    {V : Type ℓ} (m : GoMap V) (k : String) → any (λ j. j == k) (keys m) ≡ is_some (lookup k m)
any-keys [] k = refl
any-keys ((j, v) ∷ m) k = ground (arith, any-keys m k)
