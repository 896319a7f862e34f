-- ===== src/Hub/Current/Steps.antt =====
-- The hub's other steps under the invariant of Hub/Current: dispatch, registration, the sweep of
-- due casts and the end of a connection.
use thchaos_backend.Prelude.{
  ℕ, ◌+◌, leb, String, Option, none, some, [], ◌∷◌, ◌≡◌, refl, string_eq, nat_eq, inl, inr, ◌⊎◌,
  eq_refl,
}
use thchaos_backend.Prelude.Dict.{Dict}
use thchaos_backend.Protocol.Errors.{round_result_unknown, plain_error, auth_game_already_connected}
use thchaos_backend.Protocol.Payloads.{ClientRole, Payload, HelloPayload}
use thchaos_backend.Protocol.Envelope.{Envelope}
use thchaos_backend.Storage.{Job, record_event}
use thchaos_backend.Storage.Queue.{enqueue-open}
use thchaos_backend.Connection.{Client, PendingCast, Link, new_link, shut}
use thchaos_backend.Hub.State.{
  RoomRuntime, Hub, ◌>>◌, modify, gets, guard, room, room_at, update_room, update_link,
}
use thchaos_backend.Hub.Rooms.{drop_connection}
use thchaos_backend.Hub.Bot.{Wait}
use thchaos_backend.Hub.Dispatch.{
  handle_role, dispatch, count_timeout, expire_cast, expire_casts, expire_rooms, expire_pending,
  register, register_role, is_free, game_joined, bot_joined, accept, authenticate,
}
use thchaos_backend.Hub.Writer.{stop}
use thchaos_backend.Hub.Actions.{
  Keeps, Keeps-pure, Keeps-modify, Keeps-bind, Keeps-then, Keeps-if, Keeps-observe, Keeps-of-Runs,
  action_rules, room_at-update_room,
}
use thchaos_backend.Hub.Stable.{Stable, dispatch-Keeps, authenticate-Keeps}
use thchaos_backend.Hub.Casts.{Holds, Casts-update, enqueued-Runs}
use thchaos_backend.Hub.Casts.Resolve.{resolve_one-Runs}
use thchaos_backend.Hub.Current.{
  Current, Nowhere, IsCurrent, drop_connection-Runs, IsCurrent-update, IsCurrent-beside,
}
use thchaos_backend.Hub.Current.Game.{handle_game-Keeps, room-Keeps}
use thchaos_backend.Hub.Current.Bot.{IsCalm, handle_bot-Keeps}

pub linked-IsCurrent :
    (id : ℕ) (f : Link → Link) (h : Hub) → IsCurrent h → IsCurrent (update_link id f h)
unfolding update_link room_at
linked-IsCurrent id f h x = record { open_store = x.open_store; casts = x.casts }

pub Stable-IsCurrent : Stable IsCurrent
unfolding record_event
Stable-IsCurrent = record {
  linked = linked-IsCurrent;
  audited = λ e h x.
      (enqueued-Runs {B = Current} {S = Nowhere} _ h
        (enqueue-open (Job.event _) h.store x.open_store) x).1;
  cached = λ k f h x.
      IsCurrent-update k (λ r. record r { messages = f r.messages }) h
        (λ r. (refl, refl, refl, refl)) x;
  found = λ k h x. (room-Keeps k).at h x;
}

handle_role-Keeps :
    (w : Wait) (before : IsCalm w.before) (after : IsCalm w.after) (role : ClientRole) (c : Client)
    (e : Envelope) (p : Payload) (now : ℕ)
    → Keeps IsCurrent (handle_role role c e p now w)
handle_role-Keeps w before after ClientRole.game c e p now = handle_game-Keeps c e p now
handle_role-Keeps w before after ClientRole.bot c e p now =
    handle_bot-Keeps w before after c e p now

pub dispatch-IsCurrent :
    (fingerprint : Envelope → String) (c : Client) (e : Envelope) (p : Payload) (now : ℕ) (w : Wait)
    → IsCalm w.before
    → IsCalm w.after
    → Keeps IsCurrent (dispatch fingerprint c e p now w)
dispatch-IsCurrent fingerprint c e p now w before after =
    dispatch-Keeps Stable-IsCurrent fingerprint c e p now w
      (handle_role-Keeps w before after c.role c e p now)

pub authenticate-IsCurrent :
    (path session : String) (e : Envelope) (p : HelloPayload)
    → Keeps IsCurrent (authenticate path session e p)
unfolding accept
authenticate-IsCurrent path session e p = authenticate-Keeps path session e p (
    Keeps-modify (accept e.seq) (λ h x.
      linked-IsCurrent h.next_client (λ _. new_link e.seq) _
        (IsCurrent-beside (λ k. record k { next_client = k.next_client + 1 }) (λ k. (refl, refl)) h
          x)))

timeout-Keeps : Keeps IsCurrent (modify count_timeout)
timeout-Keeps = Keeps-modify count_timeout (IsCurrent-beside count_timeout (λ h. (refl, refl)))

expire_cast-Keeps :
    (k : String) (now : ℕ) (x : String) (p : PendingCast) → Keeps IsCurrent (expire_cast k now x p)
unfolding expire_cast
expire_cast-Keeps k now x p =
    Keeps-if (leb p.deadline now) _ _
      (Keeps-then (modify count_timeout) _ timeout-Keeps (
        Keeps-of-Runs (
          resolve_one-Runs drop_connection (drop_connection-Runs Current) Nowhere k x "ack_timeout"
            round_result_unknown)))
      (Keeps-pure tt)

expire_casts-Keeps :
    (k : String) (now : ℕ) (d : Dict PendingCast) → Keeps IsCurrent (expire_casts k now d)
unfolding expire_casts
expire_casts-Keeps k now [] = Keeps-pure tt
expire_casts-Keeps k now ((x, p) ∷ d) =
    Keeps-then _ _ (expire_cast-Keeps k now x p) (expire_casts-Keeps k now d)

expire_rooms-Keeps : (now : ℕ) (d : Dict RoomRuntime) → Keeps IsCurrent (expire_rooms now d)
unfolding expire_rooms
expire_rooms-Keeps now [] = Keeps-pure tt
expire_rooms-Keeps now ((k, x) ∷ d) =
    Keeps-bind (gets (λ h. (room_at h k).pending_casts)) _ (Keeps-observe _ _)
      (λ casts. Keeps-then _ _ (expire_casts-Keeps k now casts) (expire_rooms-Keeps now d))

pub expire_pending-IsCurrent : (now : ℕ) → Keeps IsCurrent (expire_pending now)
unfolding expire_pending
expire_pending-IsCurrent now =
    Keeps-bind (gets (λ h. h.rooms)) _ (Keeps-observe _ _) (λ d. expire_rooms-Keeps now d)

pub drop_connection-IsCurrent : (c : Client) → Keeps IsCurrent (drop_connection c)
drop_connection-IsCurrent c = Keeps-of-Runs (drop_connection-Runs Current Nowhere c)

pub stop-IsCurrent : (c : Client) → Keeps IsCurrent (stop c)
unfolding stop
stop-IsCurrent c =
    Keeps-then (modify (update_link c.id shut)) (drop_connection c)
      (Keeps-modify (update_link c.id shut) (linked-IsCurrent c.id shut))
      (drop_connection-IsCurrent c)

-- A room without a game has no casts, so that its game can join.
joined-IsCurrent :
    (c : Client) (h : Hub)
    → (room_at h c.room_id).game ≡ none
    → IsCurrent h
    → IsCurrent (update_room c.room_id (game_joined c) h)
joined-IsCurrent c h free x =
    Casts-update {B = Current} {S = Nowhere} c.room_id (game_joined c) h x
      (λ v cast_id p e. at p (v cast_id p e))
  where
    at : (p : PendingCast) {T : Type 0} → Holds Current c.room_id (room_at h c.room_id) p ⊎ ⊥ → T
    at p (inl (n, (g, game, i), v)) = absurd (cc)
    at p (inr y) = absurd y

bot_joined-Keeps : (c : Client) → Keeps IsCurrent (modify (update_room c.room_id (bot_joined c)))
bot_joined-Keeps c =
    Keeps-modify (update_room c.room_id (bot_joined c))
      (λ h x. IsCurrent-update c.room_id (bot_joined c) h (λ r. (refl, refl, refl, refl)) x)

register_bot-Keeps :
    (c : Client) (r : RoomRuntime) → Keeps IsCurrent (register_role ClientRole.bot c r)
register_bot-Keeps c r = search (action_rules, bot_joined-Keeps)

-- `r` is the room as it is.
register_role-IsCurrent :
    (role : ClientRole) (c : Client) (r : RoomRuntime) (h : Hub)
    → (room_at h c.room_id).game ≡ r.game
    → IsCurrent h
    → IsCurrent (register_role role c r h).1
register_role-IsCurrent ClientRole.game c r h e x = at r.game e
  where
    at :
        (o : Option Client)
        → (room_at h c.room_id).game ≡ o
        → IsCurrent
            ((guard (is_free o) (plain_error auth_game_already_connected "该房间已有游戏端连接")
                >> modify (update_room c.room_id (game_joined c)))
              h).1
    at none e = joined-IsCurrent c h e x
    at (some g) e = x
register_role-IsCurrent ClientRole.bot c r h e x = (register_bot-Keeps c r).at h x

same_room :
    (k : String) (h : Hub) → (room_at (update_room k (λ r. r) h) k).game ≡ (room_at h k).game
same_room k h = rw (room_at-update_room k k (λ r. r) h, eq_refl k) refl

pub register-IsCurrent : (c : Client) → Keeps IsCurrent (register c)
unfolding register room
register-IsCurrent c = record {
  at = λ h x.
      register_role-IsCurrent c.role c (room_at h c.room_id) (update_room c.room_id (λ r. r) h)
        (same_room c.room_id h) ((room-Keeps c.room_id).at h x);
}
