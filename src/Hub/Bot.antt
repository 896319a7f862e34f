-- ===== src/Hub/Bot.antt =====
-- server/hub.py: what a Bot may send. `_handle_bot` waits for the database in a thread; the other
-- tasks that run meanwhile are an argument of the model. Times are in milliseconds.
use thchaos_backend.Prelude.{
  ℕ, ◌+◌, ◌-◌, String, Bool, true, false, not, ◌&&◌, Option, none, some, List, [], ◌∷◌, ◌++◌,
  length, ltb, leb, if◌then◌else◌, ◌==◌, nat_eq, string_eq, option_eq,
}
use thchaos_backend.Prelude.Dict.{insert}
use thchaos_backend.Protocol.Errors.{
  protocol_rate_limited, protocol_direction_not_allowed, round_game_offline,
  round_game_instance_mismatch, round_not_open, round_stale, round_duplicate_vote, protocol_error,
  plain_error, cast_error,
}
use thchaos_backend.Protocol.Payloads.{Payload, VoteCastPayload, VoteOpenedPayload}
use thchaos_backend.Protocol.Envelope.{Envelope}
use thchaos_backend.Storage.{VoteRow, Recorded, returned, failed, record_vote}
use thchaos_backend.Connection.{Client, PendingCast, CastHooks, is_client}
use thchaos_backend.Hub.State.{
  RoomRuntime, Hub, done, database_error, M, pure, raise, ◌>>=◌, ◌>>◌, catch, modify, gets, guard,
  room, room_at, update_room, update_link,
}
use thchaos_backend.Hub.Rooms.{send, status, resolve, drop_connection}
use thchaos_backend.Hub.Game.{or_empty}

-- The loop of `_rate_limit`: it drops entries from the front that are a second old.
unfoldable pub recent : ℕ → List ℕ → List ℕ
recent now [] = []
recent now (t ∷ ts) = if leb 1000 (now - t) then recent now ts else t ∷ ts

unfoldable pub rate_limit : Client → VoteCastPayload → ℕ → M (Unit {0})
unfolding recent update_link
rate_limit c p now = do
  modify (update_link c.id (λ l. record l { cast_timestamps = recent now l.cast_timestamps }))
  h ← gets (λ h. h)
  guard (ltb (length (h.links c.id).cast_timestamps) h.settings.max_casts_per_second) (
      protocol_error protocol_rate_limited "投票提交过于频繁" (("retry_after_ms", "1000") ∷ []) none
        (some p.cast_id))
  modify (update_link c.id (λ l. record l { cast_timestamps = l.cast_timestamps ++ now ∷ [] }))

-- What the first part of `_handle_bot` reads before it waits.
pub record CastStart : Type 0 where
  pub game : Client
  pub active : VoteOpenedPayload
  pub generation : ℕ
  pub started : ℕ

-- `game is None or game.closed` is false, and the game.
abbrev pub online_game : Hub → Option Client → String → M Client
online_game h none cast_id = raise (cast_error round_game_offline "游戏端未连接" cast_id)
online_game h (some g) cast_id =
    if (h.links g.id).is_closed
    then raise (cast_error round_game_offline "游戏端未连接" cast_id)
    else pure g

-- `not room.ready or active is None` is false, and the active vote.
abbrev pub open_vote : Bool → Option VoteOpenedPayload → String → M VoteOpenedPayload
open_vote true (some v) cast_id = pure v
open_vote true none cast_id = raise (cast_error round_not_open "当前没有开放投票" cast_id)
open_vote false v cast_id = raise (cast_error round_not_open "当前没有开放投票" cast_id)

-- The checks before the database is asked.
unfoldable pub start_cast : Client → Envelope → VoteCastPayload → ℕ → M CastStart
start_cast c e p now = do
  r ← gets (λ h. room_at h c.room_id)
  h ← gets (λ h. h)
  game ← online_game h r.game p.cast_id
  guard (e.game_instance_id == game.game_instance_id)
      (cast_error round_game_instance_mismatch "游戏实例已变化" p.cast_id)
  active ← open_vote r.is_ready r.active_vote p.cast_id
  guard (p.round_id == active.round_id) (cast_error round_stale "投票轮次已过期" p.cast_id)
  pure (record { game = game; active = active; generation = r.generation; started = now })

abbrev pub vote_row : Client → VoteCastPayload → CastStart → VoteRow
vote_row c p s = record {
  room_id = c.room_id;
  game_instance_id = or_empty s.game.game_instance_id;
  round_id = p.round_id;
  cast_id = p.cast_id;
  voter_id = p.voter_id;
  choice = p.choice;
  status = "reserved";
}

abbrev pub recorded : Recorded → M Bool
recorded (returned b) h = (done b, h)
recorded failed h = (database_error, h)

-- `await self.store.record_vote(…)`: the transaction alone.
unfoldable pub reserve_vote : Bool → VoteRow → M Bool
reserve_vote fails row h =
    let (result, db) = record_vote fails row h.store.database in
    recorded result (record h { store = record h.store { database = db } })

abbrev pub new_cast : Client → Envelope → VoteCastPayload → CastStart → Hub → PendingCast
new_cast c e p s h = record {
  serial = h.next_serial;
  origin = some c;
  instance_id = or_empty s.game.game_instance_id;
  round_id = p.round_id;
  choice = p.choice;
  generation = s.generation;
  created_at = s.started;
  deadline = s.started + h.settings.ack_timeout;
  message_id = e.message_id;
  attempted = false;
}

-- Nothing that the cast depends on has changed during the wait.
abbrev pub is_unchanged : Client → CastStart → PendingCast → ℕ → Hub → Bool
is_unchanged c s cast now h =
    let r = room_at h c.room_id in
    is_client r.game s.game
    && not (h.links s.game.id).is_closed
    && not (h.links c.id).is_closed
    && r.generation == s.generation
    && ltb now cast.deadline

abbrev pub stale_unless : Bool → M (Unit {0}) → VoteCastPayload → M (Unit {0})
stale_unless true report p = pure tt
stale_unless false report p = report >> raise (cast_error round_stale "投票保存期间连接或轮次已变化" p.cast_id)

-- `room.pending_casts[cast_id] = pending`.
abbrev pub add_cast : String → PendingCast → RoomRuntime → RoomRuntime
add_cast cast_id cast r = record r { pending_casts = insert cast_id cast r.pending_casts }

-- The identity of a new object is used up.
abbrev pub next_serial_taken : Hub → Hub
next_serial_taken h = record h { next_serial = h.next_serial + 1 }

abbrev pub cast_hooks : Client → VoteCastPayload → CastStart → PendingCast → CastHooks
cast_hooks c p s cast = record {
  room_id = c.room_id;
  game = s.game;
  generation = s.generation;
  cast_id = p.cast_id;
  pending = cast;
}

-- The message to the game, or the end of the cast and of the game's connection.
unfoldable pub forward : Client → VoteCastPayload → CastStart → PendingCast → M (Unit {0})
forward c p s cast =
    catch (send s.game (Payload.vote_cast p) s.game.game_instance_id (some (cast_hooks c p s cast)))
      (do
        resolve drop_connection c.room_id p.cast_id "send_failed" round_game_offline
        drop_connection s.game)

-- The rest, from the result of the transaction on.
unfoldable pub finish_cast :
    Client → Envelope → VoteCastPayload → CastStart → Bool → ℕ → M (Unit {0})
finish_cast c e p s inserted now = do
  guard inserted (cast_error round_duplicate_vote "投票消息已处理过" p.cast_id)
  cast ← gets (new_cast c e p s)
  modify next_serial_taken
  fresh ← gets (is_unchanged c s cast now)
  stale_unless fresh (status c.room_id p.cast_id cast "not_sent:state_changed") p
  modify (update_room c.room_id (add_cast p.cast_id cast))
  forward c p s cast

-- What happens around the transaction: the other tasks' steps before and after it, whether the
-- database raises, and the clock when the wait is over.
pub record Wait : Type 0 where
  pub before : Hub → Hub
  pub after : Hub → Hub
  pub fails : Bool
  pub woken : ℕ

-- `vote.cast`.
unfoldable pub handle_cast : Client → Envelope → VoteCastPayload → ℕ → Wait → M (Unit {0})
handle_cast c e p now w = do
  s ← start_cast c e p now
  modify w.before
  inserted ← reserve_vote w.fails (vote_row c p s)
  modify w.after
  finish_cast c e p s inserted w.woken

unfoldable pub bot_message : Client → Envelope → ℕ → Wait → Payload → M (Unit {0})
bot_message c e now w (Payload.heartbeat_ping p) = send c (Payload.heartbeat_pong p) none none
bot_message c e now w (Payload.heartbeat_pong p) = pure tt
bot_message c e now w (Payload.vote_cast p) = handle_cast c e p now w
bot_message c e now w _ = raise (plain_error protocol_direction_not_allowed "Bot 只能发送 vote.cast")

-- `_handle_bot`.
unfoldable pub handle_bot : Client → Envelope → Payload → ℕ → Wait → M (Unit {0})
handle_bot c e payload now w = do _ ← room c.room_id; bot_message c e now w payload
