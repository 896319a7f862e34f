-- ===== src/Hub/Lifetime.antt =====
-- server/hub.py: the start and the end of the hub. `_sweep` calls `expire_pending` after each wait.
pub mod Close
use thchaos_backend.Prelude.{
  ℕ, String, Bool, true, false, not, Option, none, some, List, [], ◌∷◌, any, all, ◌≡◌, refl, arith,
  nat_eq, ◌==◌, Bool-cases, inl, inr,
}
use thchaos_backend.Prelude.Dict.{lookup}
use thchaos_backend.Config.{Settings}
use thchaos_backend.Storage.{Database, open_store}
use thchaos_backend.Storage.Drain.{aclose}
use thchaos_backend.Connection.{Client, new_link, is_same}
use thchaos_backend.Hub.State.{Hub, done, M, ◌>>=◌, ◌>>◌, modify, gets, for_each, room_at}
use thchaos_backend.Hub.Rooms.{drop_connection}
use thchaos_backend.Hub.Session.{World, close_connection}
use thchaos_backend.Hub.Current.{IsCurrent}
use thchaos_backend.Hub.Current.Reach.{Reaches, Reaches-IsCurrent}

-- `Hub(settings)`, on the tables that the file holds.
unfoldable pub init : Settings → Database → Hub
init settings db = record {
  settings = settings;
  store = open_store db settings.audit_queue_size;
  rooms = [];
  connections = [];
  links = λ id. new_link 0;
  forward_ms = [];
  ack_ms = [];
  ack_timeouts = 0;
  next_serial = 0;
  next_client = 0;
}

-- Every connection of the list is dropped.
abbrev pub drop_all : List Client → M (Unit {0})
drop_all cs = for_each cs drop_connection

-- `close`: the closing tasks of `gather` run one after the other, and `fails` tells which of the
-- store's last transactions fail.
unfoldable pub close : World → (ℕ → Bool) → M (Unit {0})
unfolding aclose
close w fails = do
  cs ← gets (λ h. h.connections)
  drop_all cs
  for_each cs (λ c. modify (close_connection w c))
  modify (λ h. record h { store = aclose fails h.store })

init-IsCurrent : (settings : Settings) (db : Database) → IsCurrent (init settings db)
unfolding init open_store room_at lookup
init-IsCurrent settings db = record { open_store = refl; casts = λ k cast_id p e. absurd (cc) }

-- From the start of the hub, on any settings and any file, each pending cast of each room has the
-- generation of its room, the game instance of the room's game and the round of its active vote,
-- whatever steps the hub takes.
pub life-IsCurrent :
    (settings : Settings) (db : Database) (h : Hub) → Reaches (init settings db) h → IsCurrent h
life-IsCurrent settings db h steps =
    Reaches-IsCurrent (init settings db) h steps (init-IsCurrent settings db)
