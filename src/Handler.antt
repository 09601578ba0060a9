-- ===== src/Handler.antt =====
-- consumable_event.go, handler.go, and TypeMappingHandler of setup_consumer.go: typed handlers as
-- functions of a raw event.
use go_messaging_nats.Base.{String, Option, none, some, [], ◌∷◌, if◌then◌else◌, ◌==◌, Bool, true}
use go_messaging_nats.Base.Text.{concat}
use go_messaging_nats.Errors.{
  Error, sentinel, message, wrap, parse_json, no_message_type_for_route_key, Result, ok, err, panic,
  ◌>>=◌,
}
use go_messaging_nats.Messaging.{Metadata, DeliveryInfo}
use go_messaging_nats.Nats.{Bytes, Context}

pub record UnmarshalEvent : Type 0 where
  pub metadata : Metadata
  pub delivery_info : DeliveryInfo
  pub payload : Bytes

pub record ConsumableEvent (T : Type 0) : Type 0 where
  pub metadata : Metadata
  pub delivery_info : DeliveryInfo
  pub payload : T

abbrev pub EventHandler : Type 0 → Type 0
EventHandler T = Context → ConsumableEvent T → Result (Unit {0})

abbrev pub WrappedHandler : Type 0
WrappedHandler = Context → UnmarshalEvent → Result (Unit {0})

-- What reflect and encoding/json say of a type parameter. `dynamic` is the name of the dynamic
-- type of its zero value, `none` for an interface type; `assert` is the assertion x.(T) on raw
-- JSON, `none` where it panics; `unmarshal` fails with the decoder's error.
pub record GoType (T : Type 0) : Type 0 where
  pub name : String
  pub dynamic : Option String
  pub assert : Bytes → Option T
  pub unmarshal : Bytes → Result T

-- fmt.Errorf("%w: %v", spec.ErrParseJSON, err)
abbrev pub parse_error {ℓ} : {A : Type ℓ} → (Error → String) → Result A → Result A
parse_error error_text (ok a) = ok a
parse_error error_text (err e) =
    err (wrap "" (sentinel parse_json) (concat (": " ∷ error_text e ∷ [])))
parse_error error_text panic = panic

abbrev pub or_panic {ℓ} : {A : Type ℓ} → Option A → Result A
or_panic none = panic
or_panic (some a) = ok a

abbrev pub is_raw : Option String → Bool
is_raw none = true
is_raw (some name) = name == "json.RawMessage"

-- reflect.Type, as the mapper uses it: the decoder into a new value of the type's Elem(), which
-- panics on a type that has none.
pub record ReflectType (Any : Type 0) : Type 0 where
  pub elem : Option (Bytes → Result Any)

abbrev pub TypeMapper : Type 0 → Type 0
TypeMapper Any = String → Option (ReflectType Any)

module _ (error_text : Error → String) where
  -- The event that the wrapped handler is called with.
  abbrev pub decoded_event : {T : Type 0} → GoType T → UnmarshalEvent → Result (ConsumableEvent T)
  decoded_event t event = do
    payload ←
        (if is_raw t.dynamic
          then or_panic (t.assert event.payload)
          else parse_error error_text (t.unmarshal event.payload))
    ok (record {
      metadata = event.metadata;
      delivery_info = event.delivery_info;
      payload = payload;
    })

  unfoldable pub new_wrapped_handler : {T : Type 0} → GoType T → EventHandler T → WrappedHandler
  new_wrapped_handler t handler ctx event = do decoded ← decoded_event t event; handler ctx decoded

  -- The conversion of a payload of type `any` to raw JSON fails with a panic, as `raw` says.
  unfoldable pub type_mapping_handler :
      {Any : Type 0}
      → (raw : Any → Option Bytes) → EventHandler Any
      → Option (TypeMapper Any)
      → EventHandler Any
  type_mapping_handler raw handler none ctx event = err (message "TypeMapper is nil")
  type_mapping_handler raw handler (some routing_key_to_type) ctx event =
      elim (routing_key_to_type event.delivery_info.key) [
        | none ↦ err (sentinel no_message_type_for_route_key)
        | some typ ↦ do
          unmarshal ← or_panic typ.elem
          bytes ← or_panic (raw event.payload)
          payload ← parse_error error_text (unmarshal bytes)
          handler ctx (record event { payload = payload })
      ]
