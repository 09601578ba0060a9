-- ===== src/Tests/HeaderMaps.antt =====
-- Header maps that are converted.
use mathlib.Core.List.{Permᴰ}
use go_messaging_nats.Base.{[], ◌∷◌, some, ◌≡◌, refl}
use go_messaging_nats.Base.GoMap.{GoMap, lookup, HasDistinctKeys}
use go_messaging_nats.Base.GoMap.Order.{IsOrderOf}
use go_messaging_nats.Messaging.{Value, text, other}
use go_messaging_nats.Nats.{NatsHeader}
use go_messaging_nats.Nats.Lookups.{map_ops, map_ops-IsHeaderOps}
use go_messaging_nats.Headers.{to_nats_headers, from_nats_headers}
use go_messaging_nats.Headers.Conversion.{from_nats_headers-to_nats_headers}

-- Two texts, and a value that is none.
abbrev headers : GoMap Value
headers = ("a", text "1") ∷ ("b", other 3) ∷ ("c", text "2") ∷ []

abbrev walked : GoMap Value
walked = ("b", other 3) ∷ ("a", text "1") ∷ ("c", text "2") ∷ []

abbrev back : NatsHeader
back = ("c", "2" ∷ []) ∷ ("a", "1" ∷ []) ∷ []

written-HasDistinctKeys : HasDistinctKeys (to_nats_headers map_ops walked)
unfolding to_nats_headers
written-HasDistinctKeys = (refl, (refl, tt))

written-IsOrderOf : IsOrderOf (to_nats_headers map_ops walked) back
unfolding to_nats_headers
written-IsOrderOf = Permᴰ.swap refl refl

from_nats_headers-to_nats_headers_example :
    lookup "a" (from_nats_headers map_ops (to_nats_headers map_ops walked) back) ≡ some (text "1")
from_nats_headers-to_nats_headers_example =
    from_nats_headers-to_nats_headers map_ops map_ops-IsHeaderOps headers walked back "a"
      (refl, (refl, (refl, tt))) (Permᴰ.swap refl refl) written-HasDistinctKeys written-IsOrderOf
