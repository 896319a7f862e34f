-- ===== src/App/Examples.antt =====
-- A test of the routes: a request with the administrator's token.
use thchaos_backend.Prelude.{some, [], ◌≡◌, ◌≢◌, ◌⊎◌}
use thchaos_backend.Prelude.Dict.{lookup}
use thchaos_backend.Config.{Settings, default_settings}
use thchaos_backend.Hub.State.{Hub}
use thchaos_backend.Hub.Lifetime.{init}
use thchaos_backend.Hub.Metrics.{metrics}
use thchaos_backend.App.{
  reply, not_found, describe_room, room_state, read_metrics, room_state-guarded,
}

abbrev settings : Settings
settings = record default_settings { admin_token = "admin" }

abbrev hub : Hub
hub = init settings (record { events = []; vote_attempts = [] })

room_state-guarded_example :
    (((hub.settings.admin_token ≡ "") ⊎ (some "admin" ≢ some hub.settings.admin_token))
      × (room_state "main" (some "admin") hub ≡ not_found)
      × (read_metrics (λ x. x) (some "admin") hub ≡ not_found))
    ⊎ ((hub.settings.admin_token ≢ "")
        × (some "admin" ≡ some hub.settings.admin_token)
        × (room_state "main" (some "admin") hub ≡ describe_room (lookup "main" hub.rooms))
        × (read_metrics (λ x. x) (some "admin") hub ≡ reply (metrics (λ x. x) hub)))
room_state-guarded_example = room_state-guarded (λ x. x) "main" (some "admin") hub
