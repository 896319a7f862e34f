-- ===== src/Hub/Rooms.antt =====
-- server/hub.py: sending, resolving pending casts, and dropping a connection. `_drop` and
-- `_resolve` call one another; `drop` takes fuel, and what it calls takes the inner `_drop` as an
-- argument.
use thchaos_backend.Prelude.{
  ℕ, zero, suc, ◌+◌, String, false, not, Option, none, some, keep, if◌then◌else◌, nat_eq,
}
use thchaos_backend.Prelude.Dict.{lookup, remove, keys, map_values}
use thchaos_backend.Protocol.Errors.{
  ErrorCode, round_result_unknown, round_game_offline, ProtocolError, cast_error, to_payload,
}
use thchaos_backend.Protocol.Payloads.{Payload, GamePhase, StateReason, game_state}
use thchaos_backend.Storage.{AuditStore, StatusRow, queue_vote_status}
use thchaos_backend.Connection
use thchaos_backend.Connection.{Client, PendingCast, CastHooks, is_same, is_client}
use thchaos_backend.Hub.State.{
  RoomRuntime, Hub, done, connection_error, store_closing, M, pure, ◌>>=◌, ◌>>◌, catch, modify,
  gets, for_each, room_at, update_room, update_link,
}

-- Texts that are put together.
unfoldable pub text_append : String → String → String
text_append String.[] t = t
text_append (String.◌∷◌ c s) t = String.◌∷◌ c (text_append s t)

-- `connection.send(…)`.
unfoldable pub send : Client → Payload → Option String → Option CastHooks → M (Unit {0})
unfolding update_link
send c payload instance_id hooks h =
    let (sent, link) = Connection.send c payload instance_id hooks (h.links c.id) in
    (if sent then done tt else connection_error, update_link c.id (λ _. link) h)

-- `room.game.game_instance_id if room.game else None`.
abbrev pub game_instance : RoomRuntime → Option String
game_instance r = elim r.game [ none ↦ none | some g ↦ g.game_instance_id ]

-- The effect of an enqueued record on the hub.
abbrev pub enqueued : Option AuditStore → M (Unit {0})
enqueued none h = (store_closing, h)
enqueued (some s) h = (done tt, record h { store = s })

-- `self.store.queue_vote_status(…)`.
unfoldable pub report : StatusRow → M (Unit {0})
report u h = enqueued (queue_vote_status u h.store) h

-- `_status`.
unfoldable pub status : String → String → PendingCast → String → M (Unit {0})
unfolding report
status rid cast_id p text = report (record {
  status = text;
  room_id = rid;
  game_instance_id = p.instance_id;
  round_id = p.round_id;
  cast_id = cast_id;
})

-- The status text and the error that a resolved cast gets.
abbrev pub resolved_status : PendingCast → String → String
resolved_status p reason = text_append (if p.attempted then "unknown:" else "not_sent:") reason

abbrev pub resolved_error : PendingCast → String → ErrorCode → ProtocolError
resolved_error p cast_id code =
    cast_error (if p.attempted then round_result_unknown else code)
      (if p.attempted then "投票结果未知，请以游戏快照为准" else "投票未发送，轮次或连接已变化") cast_id

-- What `_drop` does where the connection is the room's game.
abbrev pub game_left : RoomRuntime → RoomRuntime
game_left r = record r {
  game = none;
  is_ready = false;
  generation = r.generation + 1;
  active_vote = none;
  latest_snapshot = none;
  state = game_state GamePhase.offline StateReason.offline;
}

-- `room.pending_casts.pop(cast_id)`.
abbrev pub forget_cast : String → RoomRuntime → RoomRuntime
forget_cast cast_id r = record r { pending_casts = remove cast_id r.pending_casts }

-- The arguments: the inner `_drop`, then those of the source.
module _ (inner : Client → M (Unit {0})) where
  unfoldable pub send_error :
      Option Client → ProtocolError → Option String → Option String → M (Unit {0})
  unfolding send
  send_error none e in_reply_to cast_id = pure tt
  send_error (some c) e in_reply_to cast_id =
      catch (send c (Payload.error (to_payload e in_reply_to cast_id)) none none) (inner c)

  unfoldable pub broadcast : String → Payload → M (Unit {0})
  broadcast rid payload = do
    r ← gets (λ h. room_at h rid)
    for_each r.bots (λ b. catch (send b payload (game_instance r) none) (inner b))

  abbrev pub resolve_pending :
      String → String → String → ErrorCode → Option PendingCast → M (Unit {0})
  resolve_pending rid cast_id reason code none = pure tt
  resolve_pending rid cast_id reason code (some p) = do
    modify (update_room rid (forget_cast cast_id))
    status rid cast_id p (resolved_status p reason)
    send_error p.origin (resolved_error p cast_id code) (some p.message_id) none

  -- `_resolve`.
  unfoldable pub resolve : String → String → String → ErrorCode → M (Unit {0})
  resolve rid cast_id reason code = do
    p ← gets (λ h. lookup cast_id (room_at h rid).pending_casts)
    resolve_pending rid cast_id reason code p

  -- `_resolve_all`.
  unfoldable pub resolve_all : String → String → ErrorCode → M (Unit {0})
  resolve_all rid reason code = do
    ids ← gets (λ h. keys (room_at h rid).pending_casts)
    for_each ids (λ cast_id. resolve rid cast_id reason code)

  -- The Bots are told that their game has gone.
  unfoldable pub tell_offline : Client → M (Unit {0})
  tell_offline c = do
    r ← gets (λ h. room_at h c.room_id)
    for_each r.bots (λ b.
        catch
          (send b
            (Payload.game_offline (record {
              room_id = r.room_id;
              game_instance_id = c.game_instance_id;
              reason = "game_disconnected";
            }))
            c.game_instance_id none)
          (inner b))

  unfoldable pub drop_game : Client → M (Unit {0})
  drop_game c = do
    modify (update_room c.room_id game_left)
    resolve_all c.room_id "game_offline" round_game_offline
    tell_offline c

-- `if pending.origin is connection: pending.origin = None`.
abbrev pub forget_origin : Client → PendingCast → PendingCast
forget_origin c p = if is_client p.origin c then record p { origin = none } else p

-- And where it is not.
abbrev pub bot_left : Client → RoomRuntime → RoomRuntime
bot_left c r = record r {
  bots = keep (λ b. not (is_same b c)) r.bots;
  pending_casts = map_values (forget_origin c) r.pending_casts;
}

abbrev pub drop_from : (Client → M (Unit {0})) → Client → Option RoomRuntime → M (Unit {0})
drop_from inner c none = pure tt
drop_from inner c (some r) =
    if is_client r.game c then drop_game inner c else modify (update_room c.room_id (bot_left c))

-- `self.connections.discard(connection)`.
abbrev pub discard : Client → Hub → Hub
discard c h = record h { connections = keep (λ d. not (is_same d c)) h.connections }

-- `_drop`, above the inner one.
unfoldable pub drop_with : (Client → M (Unit {0})) → Client → M (Unit {0})
drop_with inner c = do
  modify (discard c)
  r ← gets (λ h. lookup c.room_id h.rooms)
  drop_from inner c r

unfoldable pub drop : ℕ → Client → M (Unit {0})
drop zero c = pure tt
drop (suc fuel) c = drop_with (drop fuel) c

-- `_drop` of a game drops the Bots that cannot be told; such a drop makes no further one.
abbrev pub drop_connection : Client → M (Unit {0})
drop_connection = drop 2
