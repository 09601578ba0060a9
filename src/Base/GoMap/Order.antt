-- ===== src/Base/GoMap/Order.antt =====
-- The iteration order of a Go map is any permutation of its entries, and does not change lookups.
use mathlib.Core.Path.{◌≡◌, refl, sym, ap, subst, ◌∙◌}
use mathlib.Core.List.{◌∷◌, Permᴰ}
use mathlib.Core.Option.{some}
use Prim.Native.String.{String}
use native.Mathlib.Omega.{arith}
use text.Mathlib.Text.{◌==◌}
use text.Mathlib.TextEquality.{eq_iff}
use go_messaging_nats.Base.Logic.{if◌then◌else◌, is_some}
use go_messaging_nats.Base.GoMap.{GoMap, lookup, HasDistinctKeys}

module _ {ℓ} {V : Type ℓ} where
  -- `order` lists the entries of `m` as one run of `range m` meets them.
  abbrev pub IsOrderOf : GoMap V → GoMap V → Type ℓ
  IsOrderOf m order = Permᴰ m order

  lookup_head :
      (k : String) (a b : String × V) (m n : GoMap V)
      → a ≡ b
      → lookup k m ≡ lookup k n
      → lookup k (a ∷ m) ≡ lookup k (b ∷ n)
  lookup_head k a b m n e h = λ i. if (e i).0 == k then some (e i).1 else h i

  lookup_swap :
      (k : String) (a b : String × V) (m : GoMap V)
      → HasDistinctKeys (a ∷ b ∷ m)
      → lookup k (a ∷ b ∷ m) ≡ lookup k (b ∷ a ∷ m)
  lookup_swap k (i, v) (j, w) m h = ground (arith, eq_iff i k, eq_iff j k, eq_iff j i)

  swap-HasDistinctKeys :
      (a b : String × V) (m : GoMap V) → HasDistinctKeys (a ∷ b ∷ m) → HasDistinctKeys (b ∷ a ∷ m)
  swap-HasDistinctKeys (i, v) (j, w) m h = ground (arith, eq_iff i j, eq_iff j i)

  -- The same lookups, and distinct keys again.
  pub record SameLookups (m n : GoMap V) : Type ℓ where
    pub distinct : HasDistinctKeys n
    pub same : (k : String) → lookup k m ≡ lookup k n

  pub order-SameLookups : (m n : GoMap V) → Permᴰ m n → HasDistinctKeys m → SameLookups m n
  order-SameLookups _ _ Permᴰ.nil h = record { distinct = tt; same = λ k. refl }
  order-SameLookups _ _ (Permᴰ.cons {a = a} {b = b} {l₁ = l₁} {l₂ = l₂} e p) h =
      let rest = order-SameLookups l₁ l₂ p h.1 in
      record {
        distinct =
            subst {A = GoMap V} HasDistinctKeys (λ i. e i ∷ l₂)
              (sym (ap is_some (rest.same a.0)) ∙ h.0, rest.distinct);
        same = λ k. lookup_head k a b l₁ l₂ e (rest.same k);
      }
  order-SameLookups _ _ (Permᴰ.swap {a = a} {b = b} {a' = a'} {b' = b'} {l = l} e f) h = record {
    distinct =
        subst {A = GoMap V} HasDistinctKeys (λ i. f i ∷ e i ∷ l) (swap-HasDistinctKeys a b l h);
    same = λ k. lookup_swap k a b l h ∙ (λ i. lookup k (f i ∷ e i ∷ l));
  }
  order-SameLookups _ _ (Permᴰ.trans {l₁ = l₁} {l₂ = l₂} {l₃ = l₃} p q) h =
      let first = order-SameLookups l₁ l₂ p h in
      let second = order-SameLookups l₂ l₃ q first.distinct in
      record { distinct = second.distinct; same = λ k. first.same k ∙ second.same k }
