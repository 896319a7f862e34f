-- ===== src/Hub/Session.antt =====
-- server/hub.py: `handle`, the session of one WebSocket, and `close`. The messages that arrive are
-- a list; where it ends, the session waits for the next. What the other tasks of the process do
-- while the session waits is a parameter at each wait.
pub mod Reach
pub mod Leave
pub mod Handshakes
pub mod Whole
mod Examples
use thchaos_backend.Prelude.{
  ℕ, String, Bool, true, false, not, Option, none, some, List, [], ◌∷◌, map, ◌==◌, nat_eq,
  if◌then◌else◌,
}
use thchaos_backend.Protocol.Errors.{
  protocol_not_authenticated, protocol_seq_regression, protocol_malformed_message,
  server_internal_error, ProtocolError, protocol_error, plain_error, to_payload,
}
use thchaos_backend.Protocol.Payloads.{
  ClientRole, Payload, HelloPayload, AuthenticatedPayload, ProtocolInfoPayload, GameSyncPayload,
}
use thchaos_backend.Protocol.Envelope.{
  Envelope, Frame, make_envelope, message_types, message_type_value,
}
use thchaos_backend.Protocol.Parse.{Parsed, ok, raised, Codec, str, parse_message}
use thchaos_backend.Connection.{Client, abort}
use thchaos_backend.Hub.State.{
  RoomRuntime, Hub, Outcome, done, protocol, connection_error, store_closing, database_error,
  timeout_error, M, pure, raise, ◌>>=◌, ◌>>◌, modify, gets, for_each, room_at, update_link,
}
use thchaos_backend.Hub.Rooms.{game_instance, send, send_error, drop_connection}
use thchaos_backend.Hub.Bot.{Wait}
use thchaos_backend.Hub.Dispatch.{
  authenticate, dispatch, is_game_role, is_hello, record_message, register,
}

-- A message of the WebSocket: its end, a frame without text, or a text.
pub data Message : Type 0 where
  disconnect binary : Message
  text : String → Message

-- What `_receive` does: it raises `WebSocketDisconnect` or a `ProtocolError`, or returns a text.
pub data Received : Type 0 where
  hung_up : Received
  refused : ProtocolError → Received
  received : String → Received

-- `_receive`.
unfoldable pub receive : Message → Received
receive disconnect = hung_up
receive binary = refused (plain_error protocol_malformed_message "只接受文本帧")
receive (text s) = received s

-- The library and the other tasks: the JSON library and the models, the fingerprint, the wait of
-- `flush` (`false` for its `TimeoutError`), and the wait for a connection's sending task.
pub record World : Type 0 where
  pub codec : Codec
  pub fingerprint : Envelope → String
  pub flush : Client → Hub → Bool × Hub
  pub ended : Client → Hub → Hub

-- A WebSocket up to its first message; `none` where none comes within the handshake's time.
pub record Handshake : Type 0 where
  pub path : String
  pub session : String
  pub server_time : String
  pub before : Hub → Hub
  pub first : Option Message

-- A later message, with what the other tasks do before it comes.
pub record Arrival : Type 0 where
  pub before : Hub → Hub
  pub message : Message
  pub now : ℕ
  pub wait : Wait

-- What the first message leads to: the end, an error, with the envelope where there is one, or a
-- hello.
pub data Greeting : Type 0 where
  gone : Greeting
  unwelcome : Option Envelope → ProtocolError → Greeting
  greeted : Envelope → HelloPayload → Greeting

abbrev pub hello_payload : Payload → Option HelloPayload
hello_payload (Payload.hello p) = some p
hello_payload _ = none

abbrev pub greet_hello : Envelope → Option HelloPayload → Greeting
greet_hello e none = unwelcome (some e) (plain_error protocol_not_authenticated "第一条消息必须是 hello")
greet_hello e (some p) =
    if e.seq == 1
    then greeted e p
    else unwelcome (some e) (plain_error protocol_seq_regression "hello 的 seq 必须为 1")

abbrev pub greet_parsed : Parsed (Envelope × Payload) → Greeting
greet_parsed (raised e) = unwelcome none e
greet_parsed (ok (e, p)) = greet_hello e (if is_hello e.message_type then hello_payload p else none)

-- The handshake up to `_authenticate`.
unfoldable pub greet : Codec → ℕ → Option Message → Greeting
unfolding receive
greet codec limit none = unwelcome none (plain_error protocol_not_authenticated "等待 hello 超时")
greet codec limit (some m) = elim (receive m) [
  | hung_up ↦ gone
  | refused e ↦ unwelcome none e
  | received s ↦ greet_parsed (parse_message codec none limit (str s))
]

-- The error frame to a WebSocket that has no connection.
unfoldable pub refusal : Option Envelope → ProtocolError → Frame
unfolding make_envelope
refusal none e = make_envelope "unauthenticated" none 1 (Payload.error (to_payload e none none))
refusal (some first) e =
    make_envelope first.room_id none 1 (Payload.error (to_payload e (some first.message_id) none))

-- `_send_server_state`.
unfoldable pub send_server_state : Client → RoomRuntime → M (Unit {0})
send_server_state bot r = do
  send bot
      (Payload.protocol_info
        (record { version = 1; message_types = map message_type_value message_types }))
      (game_instance r) none
  send bot
      (Payload.game_sync (record {
        state = r.state;
        active_vote = r.active_vote;
        latest_snapshot = r.latest_snapshot;
        last_closed_round = r.last_closed_round;
      }))
      (game_instance r) none

-- `self.connections.add(connection)`.
abbrev pub add_connection : Client → Hub → Hub
add_connection c h = record h { connections = c ∷ h.connections }

-- `room.ready and connection.role == ClientRole.BOT`.
abbrev pub is_resumed : Client → RoomRuntime → Bool
is_resumed c r = if is_game_role c.role then false else r.is_ready

-- The answer to a hello.
abbrev pub welcome : Client → String → RoomRuntime → AuthenticatedPayload
welcome c server_time r = record {
  session_id = c.session_id;
  role = c.role;
  room_id = c.room_id;
  game_instance_id = c.game_instance_id;
  server_time = server_time;
  resumed = is_resumed c r;
}

-- From the start of the connection to the loop.
unfoldable pub enter : Client → String → Envelope → M (Unit {0})
enter c server_time first = do
  modify (add_connection c)
  register c
  r ← gets (λ h. room_at h c.room_id)
  send c (Payload.authenticated (welcome c server_time r)) (game_instance r) none
  if is_game_role c.role then pure tt else send_server_state c r
  record_message c first

-- A session that waits for a message, or has ended.
pub data Ending : Type 0 where
  waiting left : Ending

abbrev pub cast_of : Payload → Option String
cast_of (Payload.vote_cast p) = some p.cast_id
cast_of _ = none

-- `except ProtocolError`, of the outcomes of the loop's body: `true` where the loop goes on.
abbrev pub recover : (ProtocolError → M Bool) → Outcome (Unit {0}) → M Bool
recover handler (done a) h = (done true, h)
recover handler (protocol e) h = handler e h
recover handler connection_error h = (connection_error, h)
recover handler store_closing h = (store_closing, h)
recover handler database_error h = (database_error, h)
recover handler timeout_error h = (timeout_error, h)

-- An exception of the `finally` block takes the place of another outcome.
abbrev pub replaced : Outcome Ending → Outcome (Unit {0}) → Outcome Ending
replaced o (done a) = o
replaced o (protocol e) = protocol e
replaced o connection_error = connection_error
replaced o store_closing = store_closing
replaced o database_error = database_error
replaced o timeout_error = timeout_error

module _ (w : World) where
  -- `await connection.flush()`.
  unfoldable pub flush : Client → M (Unit {0})
  flush c h = let (joined, k) = w.flush c h in (if joined then done tt else timeout_error, k)

  -- The handler of the loop: a fatal error ends the session.
  unfoldable pub complain : Client → Option String → Option String → ProtocolError → M Bool
  complain c in_reply_to cast_id e = do
    send_error drop_connection (some c) e in_reply_to cast_id
    if e.fatal then (do flush c; pure false) else pure true

  abbrev pub answer : Client → Arrival → Parsed (Envelope × Payload) → M Bool
  answer c a (raised e) h = complain c none none e h
  answer c a (ok (e, p)) h =
      let out = dispatch w.fingerprint c e p a.now a.wait h in
      recover (complain c (some e.message_id) (cast_of p)) out.0 out.1

  -- One round of the loop, once a message has come.
  unfoldable pub turn : Client → Arrival → M Bool
  unfolding receive complain
  turn c a h = elim (receive a.message) [
    | hung_up ↦ pure false h
    | refused e ↦ complain c none none e h
    | received s ↦ answer c a (parse_message w.codec none h.settings.max_frame_bytes (str s)) h
  ]

  -- The loop.
  unfoldable pub converse : Client → List Arrival → M Ending
  converse c [] = do
    is_closed ← gets (λ h. (h.links c.id).is_closed)
    pure (if is_closed then left else waiting)
  converse c (a ∷ arrivals) = do
    is_closed ← gets (λ h. (h.links c.id).is_closed)
    if is_closed then pure left else (do
      modify a.before
      goes_on ← turn c a
      if goes_on then converse c arrivals else pure left)

  -- `except Exception`: its own `flush` may time out.
  unfoldable pub crash : Client → M Ending
  crash c = do
    send_error drop_connection (some c)
        (protocol_error server_internal_error "服务器内部错误" [] (some true) none) none none
    modify (λ h. (w.flush c h).1)
    pure left

  -- The outer `except` clauses, of the outcomes of the session.
  abbrev pub settle : Client → Outcome Ending → M Ending
  settle c (done e) = pure e
  settle c (protocol e) = do send_error drop_connection (some c) e none none; flush c; pure left
  settle c connection_error = crash c
  settle c store_closing = crash c
  settle c database_error = crash c
  settle c timeout_error = crash c

  -- `ClientConnection.close`, up to the wait for the sending task and its end.
  unfoldable pub close_connection : Client → Hub → Hub
  unfolding update_link abort
  close_connection c h = w.ended c (update_link c.id abort h)

  -- The `finally` block.
  unfoldable pub leave : Client → M (Unit {0})
  leave c = do drop_connection c; modify (close_connection c)

  -- It runs unless the session waits.
  abbrev pub finish : Client → Outcome Ending → M Ending
  finish c (done waiting) h = (done waiting, h)
  finish c o h = let out = leave c h in (replaced o out.0, out.1)

  -- The session of a connection that `_authenticate` has made.
  unfoldable pub attend : Client → String → Envelope → List Arrival → M Ending
  attend c server_time first arrivals h =
      let out = (enter c server_time first >> converse c arrivals) h in
      let settled = settle c out.0 out.1 in finish c settled.0 settled.1

-- How `handle` ends: without a connection, with the frame that it sends then, or after a session.
pub data Handled : Type 0 where
  turned_away : Option Frame → Handled
  attended : Outcome Ending → Handled

abbrev pub admitted :
    World → Handshake → Envelope → List Arrival → Outcome Client → Hub → Handled × Hub
admitted w k e arrivals (done c) h =
    let out = attend w c k.server_time e arrivals h in (attended out.0, out.1)
admitted w k e arrivals (protocol error) h = (turned_away (some (refusal (some e) error)), h)
admitted w k e arrivals connection_error h = (turned_away none, h)
admitted w k e arrivals store_closing h = (turned_away none, h)
admitted w k e arrivals database_error h = (turned_away none, h)
admitted w k e arrivals timeout_error h = (turned_away none, h)

abbrev pub welcomed : World → Handshake → List Arrival → Greeting → Hub → Handled × Hub
welcomed w k arrivals gone h = (turned_away none, h)
welcomed w k arrivals (unwelcome first e) h = (turned_away (some (refusal first e)), h)
welcomed w k arrivals (greeted e p) h =
    let out = authenticate k.path k.session e p h in admitted w k e arrivals out.0 out.1

-- `handle`.
unfoldable pub handle : World → Handshake → List Arrival → Hub → Handled × Hub
unfolding greet
handle w k arrivals h =
    let g = k.before h in welcomed w k arrivals (greet w.codec g.settings.max_frame_bytes k.first) g
