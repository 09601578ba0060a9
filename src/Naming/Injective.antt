-- ===== src/Naming/Injective.antt =====
-- Names that are built from parts determine the parts.
use Prim.Native.String.{◌++◌, ◌∷◌}
use Prim.Native.Char.{Char}
use text.Mathlib.TextLemmas.{cons-append, append_cancel_left}
use go_messaging_nats.Base.{String, ◌≡◌, sym, ◌∙◌}
use go_messaging_nats.Base.Text.{Lacks, join_injective}
use go_messaging_nats.Naming.{service_request_subject}

abbrev dot : Char
dot = "."

cons_form : (d : Char) (s r k : String) → s ++ ((d ∷ r) ++ k) ≡ s ++ (d ∷ (r ++ k))
cons_form d s r k = rw cons-append

-- Two requests have one subject only if service and routing key agree, for services whose names
-- have no dot.
pub service_request_subject_injective :
    (s₁ s₂ k₁ k₂ : String)
    → Lacks b'.' s₁
    → Lacks b'.' s₂
    → service_request_subject s₁ k₁ ≡ service_request_subject s₂ k₂
    → (s₁ ≡ s₂) × (k₁ ≡ k₂)
unfolding service_request_subject
service_request_subject_injective s₁ s₂ k₁ k₂ h₁ h₂ e =
    let joined =
      join_injective dot s₁ s₂ ("request." ++ k₁) ("request." ++ k₂) h₁ h₂
        (sym (cons_form dot s₁ "request." k₁) ∙ e ∙ cons_form dot s₂ "request." k₂) in
    (joined.0, append_cancel_left "request." k₁ k₂ joined.1)
