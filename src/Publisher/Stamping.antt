-- ===== src/Publisher/Stamping.antt =====
-- The CloudEvents headers of a published message.
use go_messaging_nats.Base.{
  String, List, [], ◌∷◌, ◌≡◌, sym, ◌≢◌, ◌==◌, if◌then◌else◌, arith, ap, ◌∙◌, All,
}
use go_messaging_nats.Messaging.{Messaging, AllDistinct}
use go_messaging_nats.Nats.{NatsHeader, HeaderOps, IsHeaderOps}
use go_messaging_nats.Nats.Lookups.{get-set_self, get-set_ne}
use go_messaging_nats.Connection.{Publisher}
use go_messaging_nats.Publisher.{
  Env, Attempt, content_type, set_default, message_id, defaulted, stamped,
}

-- The value, or a default if it is empty.
abbrev pub or_else : String → String → String
or_else a b = if a == "" then b else a

abbrev pub ce_keys : Messaging → List String
ce_keys m =
    m.ce_spec_version ∷ m.ce_type ∷ m.ce_source ∷ m.ce_data_content_type ∷ m.ce_time ∷ m.ce_id ∷ []

-- `out` has the CloudEvents headers of a publication with routing key `key`, whose caller gave `h`.
pub record IsStamped (env : Env) (p : Publisher) (key : String) (a : Attempt) (h out : NatsHeader)
    : Type 0 where
  pub spec_version :
      env.header_ops.get out env.messaging.ce_spec_version
      ≡ or_else
          (env.header_ops.get h env.messaging.ce_spec_version)
          env.messaging.ce_spec_version_value
  pub type_of_event :
      env.header_ops.get out env.messaging.ce_type
      ≡ or_else (env.header_ops.get h env.messaging.ce_type) key
  pub source :
      env.header_ops.get out env.messaging.ce_source
      ≡ or_else (env.header_ops.get h env.messaging.ce_source) p.service_name
  pub data_content_type :
      env.header_ops.get out env.messaging.ce_data_content_type
      ≡ or_else (env.header_ops.get h env.messaging.ce_data_content_type) content_type
  pub time :
      env.header_ops.get out env.messaging.ce_time
      ≡ or_else (env.header_ops.get h env.messaging.ce_time) a.now
  pub id :
      env.header_ops.get out env.messaging.ce_id
      ≡ or_else (env.header_ops.get h env.messaging.ce_id) a.uuid
  pub others :
      (j : String)
      → All (λ k. j ≢ k) (ce_keys env.messaging)
      → env.header_ops.get out j ≡ env.header_ops.get h j

module _ (ops : HeaderOps) (laws : IsHeaderOps ops) where
  default_self :
      (h : NatsHeader) (k v : String) → ops.get (set_default ops k v h) k ≡ or_else (ops.get h k) v
  unfolding set_default
  default_self h k v = ground (arith, get-set_self ops laws h k v)

  default_ne :
      (h : NatsHeader) (k j v : String) → j ≢ k → ops.get (set_default ops k v h) j ≡ ops.get h j
  unfolding set_default
  default_ne h k j v ne = ground (arith, get-set_ne ops laws h k j v ne)

module _ (env : Env) (laws : IsHeaderOps env.header_ops)
    (d : AllDistinct (ce_keys env.messaging)) where
  back : {x y : String} → x ≢ y → y ≢ x
  back n e = n (sym e)

  ne :
      {h : NatsHeader} {k j : String} (v : String)
      → j ≢ k
      → env.header_ops.get (set_default env.header_ops k v h) j ≡ env.header_ops.get h j
  ne {h} {k} {j} v n = default_ne env.header_ops laws h k j v n

  set_ne :
      {h : NatsHeader} {k j : String} (v : String)
      → j ≢ k
      → env.header_ops.get (env.header_ops.set h k v) j ≡ env.header_ops.get h j
  set_ne {h} {k} {j} v n = get-set_ne env.header_ops laws h k j v n

  -- The effect of the five defaults at one key.
  defaulted_others :
      (p : Publisher) (key : String) (a : Attempt) (h : NatsHeader) (j : String)
      → j ≢ env.messaging.ce_spec_version
      → j ≢ env.messaging.ce_type
      → j ≢ env.messaging.ce_source
      → j ≢ env.messaging.ce_data_content_type
      → j ≢ env.messaging.ce_time
      → env.header_ops.get (defaulted env p key a h) j ≡ env.header_ops.get h j
  unfolding defaulted
  defaulted_others p key a h j n₁ n₂ n₃ n₄ n₅ =
      default_ne env.header_ops laws _ _ j _ n₅
      ∙ default_ne env.header_ops laws _ _ j _ n₄
      ∙ default_ne env.header_ops laws _ _ j _ n₃
      ∙ default_ne env.header_ops laws _ _ j _ n₂
      ∙ default_ne env.header_ops laws _ _ j _ n₁

  -- Stamping sets every CloudEvents header, and no other.
  pub stamped-IsStamped :
      (p : Publisher) (key : String) (a : Attempt) (h : NatsHeader)
      → IsStamped env p key a h (stamped env p key a h)
  unfolding stamped defaulted message_id
  stamped-IsStamped p key a h = record {
    spec_version =
        set_ne _ d.0.1.1.1.1.0
        ∙ ne _ d.0.1.1.1.0
        ∙ ne _ d.0.1.1.0
        ∙ ne _ d.0.1.0
        ∙ ne _ d.0.0
        ∙ default_self env.header_ops laws _ _ _;
    type_of_event =
        set_ne _ d.1.0.1.1.1.0
        ∙ ne _ d.1.0.1.1.0
        ∙ ne _ d.1.0.1.0
        ∙ ne _ d.1.0.0
        ∙ default_self env.header_ops laws _ _ _
        ∙ ap (λ x. or_else x key) (ne _ (back d.0.0));
    source =
        set_ne _ d.1.1.0.1.1.0
        ∙ ne _ d.1.1.0.1.0
        ∙ ne _ d.1.1.0.0
        ∙ default_self env.header_ops laws _ _ _
        ∙ ap (λ x. or_else x p.service_name) (ne _ (back d.1.0.0) ∙ ne _ (back d.0.1.0));
    data_content_type =
        set_ne _ d.1.1.1.0.1.0
        ∙ ne _ d.1.1.1.0.0
        ∙ default_self env.header_ops laws _ _ _
        ∙ ap (λ x. or_else x content_type)
            (ne _ (back d.1.1.0.0) ∙ ne _ (back d.1.0.1.0) ∙ ne _ (back d.0.1.1.0));
    time =
        set_ne _ d.1.1.1.1.0.0
        ∙ default_self env.header_ops laws _ _ _
        ∙ ap (λ x. or_else x a.now)
            (ne _ (back d.1.1.1.0.0)
              ∙ ne _ (back d.1.1.0.1.0)
              ∙ ne _ (back d.1.0.1.1.0)
              ∙ ne _ (back d.0.1.1.1.0));
    id =
        get-set_self env.header_ops laws _ _ _
        ∙ ap (λ x. or_else x a.uuid)
            (defaulted_others p key a h env.messaging.ce_id (back d.0.1.1.1.1.0)
              (back d.1.0.1.1.1.0) (back d.1.1.0.1.1.0) (back d.1.1.1.0.1.0) (back d.1.1.1.1.0.0));
    others = λ j n.
        get-set_ne env.header_ops laws _ _ j _ n.1.1.1.1.1.0
        ∙ defaulted_others p key a h j n.0 n.1.0 n.1.1.0 n.1.1.1.0 n.1.1.1.1.0;
  }
