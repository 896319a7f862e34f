-- ===== src/Hub/Dispatch.antt =====
-- server/hub.py: `_authenticate`, `_register`, `_dispatch`, `_record` and `_expire_pending`.
-- `_fingerprint`, a hash of the type and the payload, is a parameter.
use thchaos_backend.Prelude.{
  ℕ, ◌+◌, String, Bool, true, false, not, ◌&&◌, ◌||◌, Option, none, some, List, [], ◌∷◌, ◌++◌, drop,
  keep, length, ltb, leb, if◌then◌else◌, ◌==◌, nat_eq, string_eq, option_eq,
}
use thchaos_backend.Prelude.Dict.{Dict}
use thchaos_backend.Protocol.Errors.{
  protocol_origin_mismatch, protocol_seq_regression, protocol_seq_gap,
  protocol_already_authenticated, protocol_malformed_message, round_duplicate_vote,
  round_result_unknown, auth_invalid_token, auth_role_mismatch, auth_game_already_connected,
  server_overloaded, plain_error, cast_error,
}
use thchaos_backend.Protocol.Payloads.{
  ClientRole, Payload, HelloPayload, GamePhase, StateReason, game_state, role_value,
}
use thchaos_backend.Protocol.Envelope.{
  MessageType, message_type_value, Envelope, Json, null, number, text, object, Members, end, member,
}
use thchaos_backend.Config.{token_room}
use thchaos_backend.Storage.{valid_json, EventRow, record_event}
use thchaos_backend.Connection.{Client, PendingCast, new_link}
use thchaos_backend.Hub.State.{
  MessageKey, RoomRuntime, Hub, M, pure, raise, ◌>>=◌, ◌>>◌, modify, gets, guard, room, room_at,
  update_room, update_link,
}
use thchaos_backend.Hub.Rooms.{enqueued, resolve, drop_connection, text_append}
use thchaos_backend.Hub.Game.{or_empty, handle_game}
use thchaos_backend.Hub.Bot.{rate_limit, handle_bot, Wait}

-- `type in HEARTBEATS`.
abbrev pub is_heartbeat : MessageType → Bool
is_heartbeat MessageType.heartbeat_ping = true
is_heartbeat MessageType.heartbeat_pong = true
is_heartbeat _ = false

abbrev pub is_hello : MessageType → Bool
is_hello MessageType.hello = true
is_hello _ = false

abbrev pub is_game_sync : MessageType → Bool
is_game_sync MessageType.game_sync = true
is_game_sync _ = false

abbrev pub is_game_role : ClientRole → Bool
is_game_role ClientRole.game = true
is_game_role ClientRole.bot = false

abbrev text_or_null : Option String → Json
text_or_null none = null
text_or_null (some s) = text s

-- `envelope.model_dump(mode="json")`.
unfoldable pub model_dump : Envelope → Members
model_dump e = member "version" (number e.version) (
    member "type" (text (message_type_value e.message_type)) (
      member "message_id" (text e.message_id) (
        member "room_id" (text e.room_id) (
          member "game_instance_id" (text_or_null e.game_instance_id) (
            member "seq" (number e.seq)
              (member "sent_at" (text e.sent_at) (member "payload" (object e.payload) end)))))))

-- `_record`.
unfoldable pub record_message : Client → Envelope → M (Unit {0})
unfolding model_dump
record_message c e =
    if is_heartbeat e.message_type then pure tt else λ h. enqueued (record_event row h.store) h
  where
    row : EventRow
    row = record {
      room_id = c.room_id;
      game_instance_id = e.game_instance_id;
      source_role = role_value c.role;
      message_id = e.message_id;
      message_type = message_type_value e.message_type;
      seq = e.seq;
      body = valid_json (object (model_dump e));
    }

-- The new connection's changing part, and the next identity.
unfoldable pub accept : ℕ → Hub → Hub
unfolding update_link
accept seq h =
    update_link h.next_client (λ _. new_link seq) (record h { next_client = h.next_client + 1 })

-- `_authenticate`: `path` is `websocket.url.path`, `session` the new session's identifier.
unfoldable pub authenticate : String → String → Envelope → HelloPayload → M Client
authenticate path session e p = do
  h ← gets (λ h. h)
  guard (not (token_room h.settings p.token (role_value p.role) == none))
      (plain_error auth_invalid_token "Token 无效")
  guard
      (token_room h.settings p.token (role_value p.role) == some p.room_id
        && e.room_id == p.room_id
        && e.game_instance_id == p.game_instance_id)
      (plain_error protocol_origin_mismatch "握手身份不一致")
  guard (path == text_append "/ws/" (role_value p.role))
      (plain_error auth_role_mismatch "连接路径与角色不一致")
  guard (not (is_game_role p.role && or_empty p.game_instance_id == ""))
      (plain_error auth_role_mismatch "游戏端必须带 game_instance_id")
  modify (accept e.seq)
  pure (record {
    id = h.next_client;
    role = p.role;
    room_id = p.room_id;
    client_id = p.client_id;
    game_instance_id = p.game_instance_id;
    session_id = session;
    queue_limit = h.settings.outbound_queue_size;
    send_timeout = h.settings.send_timeout;
  })

abbrev pub is_free : Option Client → Bool
is_free none = true
is_free (some g) = false

-- The room's change where its game registers.
abbrev pub game_joined : Client → RoomRuntime → RoomRuntime
game_joined c r = record r {
  game = some c;
  is_ready = not r.has_connected;
  has_connected = true;
  state = game_state GamePhase.title StateReason.sync;
  generation = r.generation + 1;
}

-- `room.bots.add(connection)`; a new connection is in no set.
abbrev pub bot_joined : Client → RoomRuntime → RoomRuntime
bot_joined c r = record r { bots = r.bots ++ c ∷ [] }

abbrev pub register_role : ClientRole → Client → RoomRuntime → M (Unit {0})
register_role ClientRole.game c r = do
  guard (is_free r.game) (plain_error auth_game_already_connected "该房间已有游戏端连接")
  modify (update_room c.room_id (game_joined c))
register_role ClientRole.bot c r = do
  h ← gets (λ h. h)
  guard (ltb (length r.bots) h.settings.max_bots_per_room)
      (plain_error server_overloaded "该房间 Bot 连接数已满")
  modify (update_room c.room_id (bot_joined c))

-- `_register`.
unfoldable pub register : Client → M (Unit {0})
register c = do r ← room c.room_id; register_role c.role c r

-- The cache of handled messages.
abbrev pub same_key : MessageKey → MessageKey → Bool
same_key a b = a.role == b.role && a.instance_id == b.instance_id && a.message_id == b.message_id

unfoldable pub find_message : MessageKey → List (MessageKey × String) → Option String
find_message k [] = none
find_message k ((j, digest) ∷ ms) = if same_key j k then some digest else find_message k ms

-- The assignment, `move_to_end`, and the removal of the oldest entry beyond 4096.
unfoldable pub remember :
    MessageKey → String → List (MessageKey × String) → List (MessageKey × String)
remember k digest ms =
    let moved = keep (λ m. not (same_key m.0 k)) ms ++ (k, digest) ∷ [] in
    if ltb 4096 (length moved) then drop 1 moved else moved

-- `_message_key`.
abbrev pub message_key : Client → Envelope → MessageKey
message_key c e = record {
  role = role_value c.role;
  instance_id = or_empty e.game_instance_id;
  message_id = e.message_id;
}

-- A message with a known key and content: `true` where it is handled all the same.
abbrev pub replayed_payload : RoomRuntime → Envelope → Payload → M Bool
replayed_payload r e (Payload.vote_cast p) =
    raise (cast_error round_duplicate_vote "投票消息已处理过" p.cast_id)
replayed_payload r e _ = pure (is_game_sync e.message_type && not r.is_ready)

abbrev pub replayed : RoomRuntime → Envelope → Payload → String → String → M Bool
replayed r e payload digest old =
    if not (old == digest)
    then raise (plain_error protocol_malformed_message "message_id 不能复用于不同消息")
    else replayed_payload r e payload

abbrev pub is_fresh : Client → RoomRuntime → Envelope → Payload → String → M Bool
is_fresh c r e payload digest =
    if is_heartbeat e.message_type
    then pure true
    else elim (find_message (message_key c e) r.messages) [
      | none ↦ pure true
      | some old ↦ replayed r e payload digest old
    ]

-- The rate limit of a Bot's casts.
abbrev pub limit_casts : Client → Payload → ℕ → M (Unit {0})
limit_casts c (Payload.vote_cast p) now =
    if is_game_role c.role then pure tt else rate_limit c p now
limit_casts c _ now = pure tt

-- The checks of `_dispatch` before the handlers.
unfoldable pub admit : Client → Envelope → Payload → ℕ → M (Unit {0})
admit c e payload now = do
  guard (e.room_id == c.room_id) (plain_error protocol_origin_mismatch "room_id 与连接不一致")
  seq ← gets (λ h. (h.links c.id).inbound_seq)
  guard (e.seq == seq + 1) (
      plain_error (if leb e.seq seq then protocol_seq_regression else protocol_seq_gap)
        "入站 seq 必须连续")
  modify (update_link c.id (λ l. record l { inbound_seq = e.seq }))
  guard (not (is_hello e.message_type)) (plain_error protocol_already_authenticated "连接已认证")
  guard (not (is_game_role c.role) || e.game_instance_id == c.game_instance_id)
      (plain_error protocol_origin_mismatch "game_instance_id 与连接不一致")
  limit_casts c payload now

abbrev pub handle_role : ClientRole → Client → Envelope → Payload → ℕ → Wait → M (Unit {0})
handle_role ClientRole.game c e payload now w = handle_game c e payload now
handle_role ClientRole.bot c e payload now w = handle_bot c e payload now w

abbrev pub remember_message : Client → Envelope → String → M (Unit {0})
remember_message c e digest =
    if is_heartbeat e.message_type
    then pure tt
    else modify (
        update_room c.room_id
          (λ r. record r { messages = remember (message_key c e) digest r.messages }))

-- The handler, the audit record and the cache.
unfoldable pub process : Client → Envelope → Payload → String → ℕ → Wait → M (Unit {0})
process c e payload digest now w = do
  handle_role c.role c e payload now w
  record_message c e
  remember_message c e digest

-- `_dispatch`.
unfoldable pub dispatch :
    (Envelope → String) → Client → Envelope → Payload → ℕ → Wait → M (Unit {0})
dispatch fingerprint c e payload now w = do
  admit c e payload now
  r ← room c.room_id
  fresh ← is_fresh c r e payload (fingerprint e)
  if fresh then process c e payload (fingerprint e) now w else pure tt

-- `self.ack_timeouts += 1`.
abbrev pub count_timeout : Hub → Hub
count_timeout h = record h { ack_timeouts = h.ack_timeouts + 1 }

-- One pending cast of the inner loop of `_expire_pending`.
unfoldable pub expire_cast : String → ℕ → String → PendingCast → M (Unit {0})
expire_cast rid now cast_id p =
    if leb p.deadline now
    then (do
      modify count_timeout
      resolve drop_connection rid cast_id "ack_timeout" round_result_unknown)
    else pure tt

-- The inner loop, over a copy of the pending casts.
unfoldable pub expire_casts : String → ℕ → Dict PendingCast → M (Unit {0})
expire_casts rid now [] = pure tt
expire_casts rid now ((cast_id, p) ∷ casts) =
    expire_cast rid now cast_id p >> expire_casts rid now casts

unfoldable pub expire_rooms : ℕ → Dict RoomRuntime → M (Unit {0})
expire_rooms now [] = pure tt
expire_rooms now ((rid, r) ∷ rooms) = do
  casts ← gets (λ h. (room_at h rid).pending_casts)
  expire_casts rid now casts
  expire_rooms now rooms

-- `_expire_pending`.
unfoldable pub expire_pending : ℕ → M (Unit {0})
unfolding expire_rooms expire_casts
expire_pending now = do rooms ← gets (λ h. h.rooms); expire_rooms now rooms
