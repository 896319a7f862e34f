-- ===== src/Hub/Fuel/Reach.antt =====
-- server/hub.py: the fuel of `_drop` is enough in every state that the hub reaches from its start.
use thchaos_backend.Prelude.{String, subst, none, ◌≡◌}
use thchaos_backend.Prelude.Dict.{lookup}
use thchaos_backend.Config.{Settings}
use thchaos_backend.Storage.{Database}
use thchaos_backend.Connection.{Client}
use thchaos_backend.Hub.State.{Hub, done, M, room_at, update_link}
use thchaos_backend.Hub.Rooms.{drop_connection, drop_with}
use thchaos_backend.Hub.Writer.{begin_run}
use thchaos_backend.Hub.Quiet.{send-Keeps}
use thchaos_backend.Hub.Stable.{record_message-Keeps}
use thchaos_backend.Hub.Current.{Current, Nowhere, drop_connection-Runs}
use thchaos_backend.Hub.Current.Reach.{
  Reaches, here, authenticated, registered, dispatched, expired, dropped, started, began, ended,
  stopped, took, gathered, wrote, sent, recorded, joined, aborted,
}
use thchaos_backend.Hub.Lifetime.{init, life-IsCurrent}
use thchaos_backend.Hub.Fuel.Enough.{drop-drop_with}
use thchaos_backend.Hub.Fuel.Housed.{Housed, Quiet-Housed, drop-Housed}
use thchaos_backend.Hub.Fuel.Steps.{
  Stable-Housed, authenticate-Housed, register-Housed, dispatch-Housed, expire_pending-Housed,
  begin_send-Housed, end_send-Housed, stop-Housed,
}

Reaches-Housed : {h k : Hub} (rid : String) → Reaches h k → Housed rid h → Housed rid k
unfolding room_at begin_run update_link
Reaches-Housed rid here x = x
Reaches-Housed rid (authenticated path session e p s) x =
    (authenticate-Housed rid path session e p).at _ (Reaches-Housed rid s x)
Reaches-Housed rid (registered c s) x = (register-Housed rid c).at _ (Reaches-Housed rid s x)
Reaches-Housed rid (dispatched fingerprint c e p now w before after s) x =
    (dispatch-Housed rid fingerprint c e p now w (λ g y. Reaches-Housed rid (before g) y)
        (λ g y. Reaches-Housed rid (after g) y)).at
      _ (Reaches-Housed rid s x)
Reaches-Housed rid (expired now s) x = (expire_pending-Housed rid now).at _ (Reaches-Housed rid s x)
Reaches-Housed rid (dropped c s) x = (drop-Housed rid c).at _ (Reaches-Housed rid s x)
Reaches-Housed rid (started c s) x = Reaches-Housed rid s x
Reaches-Housed rid (began c now s) x = begin_send-Housed rid c now _ (Reaches-Housed rid s x)
Reaches-Housed rid (ended o now s) x = (end_send-Housed rid o now).at _ (Reaches-Housed rid s x)
Reaches-Housed rid (stopped c s) x = (stop-Housed rid c).at _ (Reaches-Housed rid s x)
Reaches-Housed rid (took s) x = Reaches-Housed rid s x
Reaches-Housed rid (gathered s) x = Reaches-Housed rid s x
Reaches-Housed rid (wrote fails s) x = Reaches-Housed rid s x
Reaches-Housed rid (sent c p i s) x =
    (send-Keeps (Quiet-Housed rid) c p i none).at _ (Reaches-Housed rid s x)
Reaches-Housed rid (recorded c e s) x =
    (record_message-Keeps (Stable-Housed rid) c e).at _ (Reaches-Housed rid s x)
Reaches-Housed rid (joined c s) x = Reaches-Housed rid s x
Reaches-Housed rid (aborted c s) x = Reaches-Housed rid s x

init-Housed : (settings : Settings) (db : Database) (rid : String) → Housed rid (init settings db)
unfolding init room_at lookup
init-Housed settings db rid = (tt, λ x p e. absurd (cc))

-- From the start of the hub, on any settings and any file, and after whatever steps of the hub, each
-- room's Bots and the origins of its pending casts are connections of the room. `_drop` of any
-- connection, with the fuel that the handlers give it, never comes to the end of its fuel: it does
-- the same as one with any action in that place, and returns without an exception.
pub reached-drop :
    (settings : Settings) (db : Database) (h : Hub) (c : Client) (bottom : Client → M (Unit {0}))
    → Reaches (init settings db) h
    → Housed c.room_id h
      × (drop_connection c h ≡ drop_with (drop_with bottom) c h)
      × ((drop_with (drop_with bottom) c h).0 ≡ done tt)
reached-drop settings db h c bottom steps =
    let housed = Reaches-Housed c.room_id steps (init-Housed settings db c.room_id) in
    let same = drop-drop_with 0 bottom c h housed in
    let returned =
      ((drop_connection-Runs Current Nowhere c).at h (life-IsCurrent settings db h steps)).0 in
    (housed, same, subst (λ o. o.0 ≡ done tt) same returned)
