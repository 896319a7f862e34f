-- ===== src/Hub/Session/Whole.antt =====
-- server/hub.py: `handle` as a whole: how it ends, and what it leaves behind.
use thchaos_backend.Prelude.{true, false, Option, ◌≡◌, ◌⊎◌}
use thchaos_backend.Protocol.Envelope.{Envelope, Frame}
use thchaos_backend.Connection.{Client, abort, is_client}
use thchaos_backend.Hub.State.{Hub, done, room_at, update_link}
use thchaos_backend.Hub.Rooms.{drop_connection}
use thchaos_backend.Hub.Current.Reach.{Reaches}
use thchaos_backend.Hub.Session.{World, waiting, Handled, turned_away, attended}
use thchaos_backend.Hub.Session.Leave.{IsAbsent}

-- The hub `h` that a session of the connection ends in, just before the wait for its sending task.
abbrev pub after_leave : Client → Hub → Hub
after_leave c h = update_link c.id abort (drop_connection c h).1

-- The connection is closed, is not among the hub's connections and is not the game of its room, nor
-- among the room's Bots unless it was the game.
abbrev pub IsLeft : Client → Hub → Hub → Type 0
IsLeft c h k =
    ((k.links c.id).is_closed ≡ true)
    × IsAbsent c k.connections
    × (is_client (room_at k c.room_id).game c ≡ false)
    × ((is_client (room_at h c.room_id).game c ≡ true) ⊎ IsAbsent c (room_at k c.room_id).bots)

-- A session of some connection has ended, from a state that the hub has reached.
abbrev pub HasLeft : World → Hub → Hub → Type 0
HasLeft w h k =
    (c : Client) × (g : Hub) × Reaches h g
    × (k ≡ w.ended c (after_leave c g))
    × IsLeft c g (after_leave c g)

-- How `handle` ends: turned away, waiting, or with its connection gone.
abbrev pub EndsWell : World → Hub → Handled × Hub → Type 0
EndsWell w h out =
    ((sent : Option Frame) × (out.0 ≡ turned_away sent))
    ⊎ (out.0 ≡ attended (done waiting))
    ⊎ HasLeft w h out.1
