-- ===== src/Headers.antt =====
-- headers.go: message headers, their validation, and their conversion.
pub mod Conversion
use go_messaging_nats.Base.{String, List, [], ◌∷◌, if◌then◌else◌, ◌==◌}
use go_messaging_nats.Base.GoMap.{GoMap, insert, keys}
use go_messaging_nats.Base.Text.{concat}
use go_messaging_nats.Errors.{Result, ok, err, sentinel, message, empty_header_key}
use go_messaging_nats.Messaging.{Headers, Value, text, other}
use go_messaging_nats.Nats.{NatsHeader, HeaderOps}

pub record Header : Type 0 where
  pub key : String
  pub value : String

abbrev pub header_service : String
header_service = "service"

abbrev pub reserved_header_keys : List String
reserved_header_keys = header_service ∷ []

check_reserved : List String → String → Result (Unit {0})
check_reserved [] key = ok tt
check_reserved (reserved ∷ others) key =
    let rest = check_reserved others key in
    if reserved == key
    then err (
        message
          (concat ("reserved key " ∷ reserved ∷ " used, please change to use another one" ∷ [])))
    else rest

unfoldable pub validate_key : Header → Result (Unit {0})
unfolding check_reserved
validate_key h =
    if h.key == ""
    then err (sentinel empty_header_key)
    else check_reserved reserved_header_keys h.key

module _ (ops : HeaderOps) where
  -- The loop over the map, in the order in which it meets the entries.
  set_texts : NatsHeader → GoMap Value → NatsHeader
  set_texts nh [] = nh
  set_texts nh ((k, text s) ∷ entries) = set_texts (ops.set nh k s) entries
  set_texts nh ((k, other v) ∷ entries) = set_texts nh entries

  unfoldable pub to_nats_headers : GoMap Value → NatsHeader
  unfolding set_texts
  to_nats_headers entries = set_texts [] entries

  get_all : NatsHeader → List String → Headers → Headers
  get_all nh [] h = h
  get_all nh (k ∷ ks) h = get_all nh ks (insert k (text (ops.get nh k)) h)

  -- The loop runs over the keys of the map in the order of `order`.
  unfoldable pub from_nats_headers : (nh order : NatsHeader) → Headers
  unfolding get_all
  from_nats_headers nh order = get_all nh (keys order) []
