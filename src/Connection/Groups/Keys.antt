-- ===== src/Connection/Groups/Keys.antt =====
-- Group keys and what they stand for.
use Prim.Native.Char.{Char}
use Prim.Native.String.{◌++◌, ◌∷◌}
use text.Mathlib.TextLemmas.{cons-append, nil-append}
use go_messaging_nats.Base.{String, ◌≡◌, sym, ◌∙◌}
use go_messaging_nats.Base.Text.{Lacks, join_injective}
use go_messaging_nats.Config.{ConsumerConfig}
use go_messaging_nats.Connection.Groups.{consumer_group_key}

abbrev colon : Char
colon = ":"

colon_form : (s k : String) → s ++ (":" ++ k) ≡ s ++ (colon ∷ k)
colon_form s k = rw cons-append (rw nil-append)

-- Two configurations have the same group key only if they have the same stream and the same consumer
-- name, for streams whose names have no colon.
pub consumer_group_key_injective :
    (a b : ConsumerConfig)
    → Lacks b':' a.stream
    → Lacks b':' b.stream
    → consumer_group_key a ≡ consumer_group_key b
    → (a.stream ≡ b.stream) × (a.consumer_name ≡ b.consumer_name)
unfolding consumer_group_key
consumer_group_key_injective a b h k e =
    join_injective colon a.stream b.stream a.consumer_name b.consumer_name h k
      (sym (colon_form a.stream a.consumer_name) ∙ e ∙ colon_form b.stream b.consumer_name)
