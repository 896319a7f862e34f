-- ===== src/Hub/Game.antt =====
-- server/hub.py: `_handle_game`, what the room's game may send. `now` is `time.monotonic()`.
use thchaos_backend.Prelude.{
  ℕ, ◌+◌, ◌-◌, String, Bool, true, false, not, ◌&&◌, ◌||◌, Option, none, some, List, [], ◌∷◌, ◌++◌,
  drop, length, leb, if◌then◌else◌, ◌==◌, nat_eq, string_eq, option_eq,
}
use thchaos_backend.Prelude.Dict.{lookup}
use thchaos_backend.Protocol.Errors.{
  protocol_origin_mismatch, protocol_not_authenticated, protocol_direction_not_allowed,
  round_result_unknown, round_stale, round_closed, plain_error,
}
use thchaos_backend.Protocol.Payloads.{
  Payload, GameStatePayload, GameSyncPayload, VoteOpenedPayload, VoteSnapshotPayload,
  VoteAckPayload, VoteClosedPayload, ack_reason_value,
}
use thchaos_backend.Protocol.Envelope.{Envelope}
use thchaos_backend.Connection.{Client, PendingCast, is_client}
use thchaos_backend.Hub.State.{
  RoomRuntime, Hub, M, pure, raise, ◌>>=◌, ◌>>◌, catch, modify, guard, room, update_room,
}
use thchaos_backend.Hub.Rooms.{
  send, report, broadcast, forget_cast, resolve_all, drop_connection, text_append,
}

-- `a or ""`.
abbrev pub or_empty : Option String → String
or_empty none = ""
or_empty (some s) = s

-- `samples.append(x)` on a `deque(maxlen=1024)`.
unfoldable pub push_sample : ℕ → List ℕ → List ℕ
push_sample x xs = drop (length xs + 1 - 1024) (xs ++ x ∷ [])

abbrev pub is_round : Option VoteOpenedPayload → ℕ → Bool
is_round none n = false
is_round (some v) n = n == v.round_id

abbrev pub is_closed_round : Option ℕ → ℕ → Bool
is_closed_round none n = false
is_closed_round (some last) n = leb n last

abbrev pub is_past_round : Option VoteOpenedPayload → ℕ → Bool
is_past_round none n = false
is_past_round (some v) n = leb n v.round_id

abbrev pub next_generation : RoomRuntime → RoomRuntime
next_generation r = record r { generation = r.generation + 1 }

-- The assignments of `game.sync`, `vote.opened`, `vote.closed`, `vote.snapshot` and
-- `game.state_changed`, and of a resolved cast.
abbrev pub synced : GameSyncPayload → RoomRuntime → RoomRuntime
synced p r = record r {
  state = p.state;
  active_vote = p.active_vote;
  latest_snapshot = p.latest_snapshot;
  last_closed_round = p.last_closed_round;
  is_ready = true;
}

abbrev pub opened : VoteOpenedPayload → RoomRuntime → RoomRuntime
opened p r = record r { active_vote = some p; latest_snapshot = none }

abbrev pub closed : VoteClosedPayload → RoomRuntime → RoomRuntime
closed p r = record r {
  generation = r.generation + 1;
  active_vote = none;
  latest_snapshot = none;
  last_closed_round = some p.round_id;
}

abbrev pub snapped : VoteSnapshotPayload → RoomRuntime → RoomRuntime
snapped p r = record r { latest_snapshot = some p }

abbrev pub restated : GameStatePayload → RoomRuntime → RoomRuntime
restated p r = record r { state = p }

-- `game.sync`.
unfoldable pub handle_sync : Client → GameSyncPayload → M (Unit {0})
handle_sync c p = do
  modify (update_room c.room_id next_generation)
  resolve_all drop_connection c.room_id "sync" round_result_unknown
  modify (update_room c.room_id (synced p))
  broadcast drop_connection c.room_id (Payload.game_sync p)

-- `vote.opened`, after its checks.
unfoldable pub change_round : Client → VoteOpenedPayload → M (Unit {0})
change_round c p = do
  modify (update_room c.room_id next_generation)
  resolve_all drop_connection c.room_id "round_changed" round_stale
  modify (update_room c.room_id (opened p))
  broadcast drop_connection c.room_id (Payload.vote_opened p)

-- `vote.opened`.
unfoldable pub handle_opened : Client → RoomRuntime → VoteOpenedPayload → M (Unit {0})
handle_opened c r p = do
  guard (not (is_closed_round r.last_closed_round p.round_id))
      (plain_error round_stale "不能重新开启已关闭的轮次")
  guard (not (is_past_round r.active_vote p.round_id))
      (plain_error round_stale "新轮次必须大于当前轮次，同步请使用 game.sync")
  change_round c p

-- `vote.snapshot`.
unfoldable pub handle_snapshot : Client → RoomRuntime → VoteSnapshotPayload → M (Unit {0})
handle_snapshot c r p = if not (is_round r.active_vote p.round_id) then pure tt else do
  modify (update_room c.room_id (snapped p))
  broadcast drop_connection c.room_id (Payload.vote_snapshot p)

-- The acknowledgement is about the cast, and the cast has been sent.
abbrev pub is_ack_of : Client → VoteAckPayload → PendingCast → Bool
is_ack_of c p cast = not (
    not (some cast.instance_id == c.game_instance_id)
    || not (cast.round_id == p.round_id)
    || not (cast.choice == p.choice)
    || not cast.attempted)

abbrev pub send_ack : Client → VoteAckPayload → Option Client → M (Unit {0})
send_ack c p none = pure tt
send_ack c p (some origin) =
    catch (send origin (Payload.vote_ack p) c.game_instance_id none) (drop_connection origin)

-- `self.ack_ms.append(…)`.
abbrev pub count_ack : ℕ → PendingCast → Hub → Hub
count_ack now cast h = record h { ack_ms = push_sample (now - cast.created_at) h.ack_ms }

abbrev pub ack_pending : Client → VoteAckPayload → ℕ → Option PendingCast → M (Unit {0})
ack_pending c p now none = pure tt
ack_pending c p now (some cast) = do
  guard (is_ack_of c p cast) (plain_error protocol_origin_mismatch "ACK 与投票不一致")
  modify (update_room c.room_id (forget_cast p.cast_id))
  modify (count_ack now cast)
  send_ack c p cast.origin

-- The status that the game's verdict leaves.
abbrev pub ack_status : VoteAckPayload → String
ack_status p = if p.counted then "accepted" else text_append "rejected:" (ack_reason_value p.reason)

-- `vote.ack`.
unfoldable pub handle_ack : Client → RoomRuntime → VoteAckPayload → ℕ → M (Unit {0})
handle_ack c r p now = do
  ack_pending c p now (lookup p.cast_id r.pending_casts)
  report (record {
    status = ack_status p;
    room_id = r.room_id;
    game_instance_id = or_empty c.game_instance_id;
    round_id = p.round_id;
    cast_id = p.cast_id;
  })

-- `vote.closed`, after its check.
unfoldable pub close_round : Client → VoteClosedPayload → M (Unit {0})
close_round c p = do
  modify (update_room c.room_id (closed p))
  resolve_all drop_connection c.room_id "round_closed" round_closed
  broadcast drop_connection c.room_id (Payload.vote_closed p)

-- `vote.closed`.
unfoldable pub handle_closed : Client → RoomRuntime → VoteClosedPayload → M (Unit {0})
handle_closed c r p = do
  guard (is_round r.active_vote p.round_id) (plain_error round_stale "关闭消息不属于当前轮次")
  close_round c p

-- The messages that are not heartbeats, by their type. `r` is the room on entry.
unfoldable pub game_message : Client → RoomRuntime → ℕ → Payload → M (Unit {0})
game_message c r now (Payload.game_sync p) = handle_sync c p
game_message c r now (Payload.game_state_changed p) = do
  modify (update_room c.room_id (restated p))
  broadcast drop_connection c.room_id (Payload.game_state_changed p)
game_message c r now (Payload.vote_opened p) = handle_opened c r p
game_message c r now (Payload.vote_snapshot p) = handle_snapshot c r p
game_message c r now (Payload.vote_ack p) = handle_ack c r p now
game_message c r now (Payload.vote_closed p) = handle_closed c r p
game_message c r now (Payload.effect_resolved p) =
    broadcast drop_connection c.room_id (Payload.effect_resolved p)
game_message c r now _ = raise (plain_error protocol_direction_not_allowed "游戏端消息方向不允许")

-- `room.ready or envelope.type == GAME_SYNC`.
abbrev pub is_expected : RoomRuntime → Payload → Bool
is_expected r (Payload.game_sync p) = true
is_expected r _ = r.is_ready

-- From the heartbeats on.
unfoldable pub answer_game : Client → RoomRuntime → ℕ → Payload → M (Unit {0})
answer_game c r now (Payload.heartbeat_ping p) = send c (Payload.heartbeat_pong p) none none
answer_game c r now (Payload.heartbeat_pong p) = pure tt
answer_game c r now payload = do
  guard (is_expected r payload) (plain_error protocol_not_authenticated "游戏端必须先发送 game.sync")
  game_message c r now payload

-- `_handle_game`.
unfoldable pub handle_game : Client → Envelope → Payload → ℕ → M (Unit {0})
handle_game c e payload now = do
  r ← room c.room_id
  guard (is_client r.game c && e.game_instance_id == c.game_instance_id)
      (plain_error protocol_origin_mismatch "game_instance_id 与连接不一致")
  answer_game c r now payload
