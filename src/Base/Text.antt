-- ===== src/Base/Text.antt =====
-- Texts cut at a separator: `strings.Index(s, ".")` with the slices before and after it.
use Prim.Native.Nat.{ℕ}
use Prim.Native.Char.{Char, code}
use Prim.Native.String.{String, [], ◌∷◌, ◌++◌}
use mathlib.Core.Path.{◌≡◌, refl, sym, ap, ◌∙◌}
use mathlib.Core.Logic.{◌≢◌, ite, if_pos, if_neg}
use mathlib.Core.List.{List}
use mathlib.Core.Option.{Option, none, some}
use native.Mathlib.Decide.{ℕ_discrete}
use text.Mathlib.TextLemmas.{nil-append, cons-append, cons-eq-cons}

-- The text after the first character with code `c`; `none` if it does not occur.
abbrev pub after_first : ℕ → String → Option String
after_first c [] = none
after_first c (d ∷ s) = ite (ℕ_discrete (code d) c) (some s) (after_first c s)

-- The character does not occur.
abbrev pub Lacks : ℕ → String → Type 0
Lacks c [] = Unit {0}
Lacks c (d ∷ s) = (code d ≢ c) × Lacks c s

-- The cut at the first separator gives back what was joined, if the first part lacks it.
pub after_first-append :
    (d : Char) (s t : String) → Lacks (code d) s → after_first (code d) (s ++ (d ∷ t)) ≡ some t
after_first-append d [] t h = rw (nil-append, if_pos (ℕ_discrete (code d) (code d)) refl)
after_first-append d (e ∷ s) t h =
    rw (cons-append, if_neg (ℕ_discrete (code e) (code d)) h.0) (after_first-append d s t h.1)

-- Two joined texts are equal only if their parts are, where the first parts lack the separator.
pub join_injective :
    (d : Char) (s₁ s₂ t₁ t₂ : String)
    → Lacks (code d) s₁
    → Lacks (code d) s₂
    → s₁ ++ (d ∷ t₁) ≡ s₂ ++ (d ∷ t₂)
    → (s₁ ≡ s₂) × (t₁ ≡ t₂)
join_injective d [] [] t₁ t₂ h₁ h₂ e =
    (refl, (cons-eq-cons.0 (sym (nil-append _) ∙ e ∙ nil-append _)).1)
join_injective d [] (c ∷ s₂) t₁ t₂ h₁ h₂ e =
    absurd (h₂.0 (ap code (sym (cons-eq-cons.0 (sym (nil-append _) ∙ e ∙ cons-append _ _ _)).0)))
join_injective d (c ∷ s₁) [] t₁ t₂ h₁ h₂ e =
    absurd (h₁.0 (ap code (cons-eq-cons.0 (sym (cons-append _ _ _) ∙ e ∙ nil-append _)).0))
join_injective d (b ∷ s₁) (c ∷ s₂) t₁ t₂ h₁ h₂ e =
    let both = cons-eq-cons.0 (sym (cons-append _ _ _) ∙ e ∙ cons-append _ _ _) in
    let rest = join_injective d s₁ s₂ t₁ t₂ h₁.1 h₂.1 both.1 in (λ i. both.0 i ∷ rest.0 i, rest.1)

-- The texts written one after another, as `+` and fmt.Sprintf with %s do.
abbrev pub concat : List String → String
concat List.[] = ""
concat (List.◌∷◌ s List.[]) = s
concat (List.◌∷◌ s (List.◌∷◌ t ts)) = s ++ concat (List.◌∷◌ t ts)
