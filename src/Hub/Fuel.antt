-- ===== src/Hub/Fuel.antt =====
-- The fuel of `_drop`: a connection that is not its room's game is dropped without a further drop.
pub mod Enough
pub mod Housed
pub mod Game
pub mod Bot
pub mod Steps
pub mod Reach
mod Examples
use thchaos_backend.Prelude.{false, Option, none, some, ◌≡◌, refl}
use thchaos_backend.Prelude.Dict.{lookup}
use thchaos_backend.Connection.{Client, is_client}
use thchaos_backend.Hub.State.{RoomRuntime, Hub, M, or_new, room_at}
use thchaos_backend.Hub.Rooms.{discard, drop_from, drop_with}

drop_from-other :
    (inner later : Client → M (Unit {0})) (c : Client) (o : Option RoomRuntime) (h : Hub)
    → is_client (or_new c.room_id o).game c ≡ false
    → drop_from inner c o h ≡ drop_from later c o h
drop_from-other inner later c none h e = refl
drop_from-other inner later c (some r) h e = rw e refl

-- If a connection is not the game of its room, then `_drop` does not use its inner one.
pub drop_with-drop_with :
    (inner later : Client → M (Unit {0})) (c : Client) (h : Hub)
    → is_client (room_at h c.room_id).game c ≡ false
    → drop_with inner c h ≡ drop_with later c h
unfolding drop_with room_at
drop_with-drop_with inner later c h e =
    drop_from-other inner later c (lookup c.room_id h.rooms) (discard c h) e
