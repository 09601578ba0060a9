-- ===== src/Connection/Stream.antt =====
-- ensureStream of connection.go.
use go_messaging_nats.Base.{String, [], ◌∷◌, or_default}
use go_messaging_nats.Base.GoMap.{lookup}
use go_messaging_nats.Errors.{Handle}
use go_messaging_nats.Naming.{stream_subjects}
use go_messaging_nats.Connection.{Connection, Client, StreamSettings, create_or_update_stream}
use go_messaging_nats.Connection.Monad.{M, ◌>>=◌, get_conn, not_nil, call}

-- The override of a stream replaces the defaults as a whole.
unfoldable pub stream_settings : Connection → String → StreamSettings
stream_settings c name =
    let sc = or_default (lookup name c.stream_configs) c.stream_defaults in
    record {
      name = name;
      subjects = stream_subjects name ∷ [];
      max_age = sc.max_age;
      max_bytes = sc.max_bytes;
      max_msgs = sc.max_msgs;
    }

unfoldable pub ensure_stream : Client → String → M Handle
ensure_stream client name = do
  c ← get_conn
  js ← not_nil c.js
  call client (create_or_update_stream js (stream_settings c name))
