-- ===== src/Adapter/Main.antt =====
-- main of cmd/tck-adapter/main.go. The environment and adapterutil.Serve, which calls StartService
-- for each service that the conformance kit asks for, are arguments.
use go_messaging_nats.Base.{String, List, [], ◌∷◌, if◌then◌else◌, ◌==◌}
use go_messaging_nats.Base.Text.{concat}
use go_messaging_nats.Errors.{Result, ok, err, panic}
use go_messaging_nats.Connection.{Call}
use go_messaging_nats.Intents.{SetupIntent}
use go_messaging_nats.Adapter.{Kit, ServiceState, start_service}

-- natsServiceManager, whose method StartService is start_service.
pub record NatsServiceManager : Type 0 where
  pub url : String

-- How the process ends: by log.Fatal with a text, by a panic, or by a return from main.
pub data Exit : Type 0 where
  fatal : String → Exit
  panicked : Exit
  returned : Exit

-- adapterutil.Serve, with the name of the transport, the broker's URL and StartService.
abbrev pub Serve : Type 0
Serve =
    String
    → String
    → (String → List SetupIntent → Result ServiceState × List Call)
    → Result (Unit {0})

unfoldable pub served : Kit → Result (Unit {0}) → Exit
served kit (ok _) = returned
served kit (err e) = fatal (concat ("adapter: " ∷ kit.error_text e ∷ []))
served kit panic = panicked

unfoldable pub main : Kit → (String → String) → Serve → Exit
unfolding served
main kit getenv serve =
    let nats_url = getenv "NATS_URL" in
    let mgr : NatsServiceManager = record { url = nats_url } in
    if nats_url == ""
    then fatal "NATS_URL environment variable is required"
    else served kit (serve "nats" nats_url (start_service kit mgr.url))
