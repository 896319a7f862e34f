-- ===== src/Protocol/Envelope.antt =====
-- protocol/envelope.py: message types, the envelope and the types that each role may send.
use thchaos_backend.Prelude.{
  ℕ, String, Bool, true, false, Option, none, some, List, [], ◌∷◌, ◌==◌, string_eq,
}
use thchaos_backend.Protocol.Payloads.{ClientRole, game, bot, Payload}

abbrev pub protocol_version : ℕ
protocol_version = 1

abbrev pub max_frame_bytes : ℕ
max_frame_bytes = 16384

-- The names of the message types, and of the payloads under them, are the same.
pub data MessageType : Type 0 where
  hello authenticated error heartbeat_ping heartbeat_pong protocol_info : MessageType
  game_sync game_state_changed game_offline vote_opened vote_cast vote_ack : MessageType
  vote_snapshot vote_closed effect_resolved : MessageType

-- `type.value`.
unfoldable pub message_type_value : MessageType → String
message_type_value MessageType.hello = "hello"
message_type_value MessageType.authenticated = "authenticated"
message_type_value MessageType.error = "error"
message_type_value MessageType.heartbeat_ping = "heartbeat.ping"
message_type_value MessageType.heartbeat_pong = "heartbeat.pong"
message_type_value MessageType.protocol_info = "protocol.info"
message_type_value MessageType.game_sync = "game.sync"
message_type_value MessageType.game_state_changed = "game.state_changed"
message_type_value MessageType.game_offline = "game.offline"
message_type_value MessageType.vote_opened = "vote.opened"
message_type_value MessageType.vote_cast = "vote.cast"
message_type_value MessageType.vote_ack = "vote.ack"
message_type_value MessageType.vote_snapshot = "vote.snapshot"
message_type_value MessageType.vote_closed = "vote.closed"
message_type_value MessageType.effect_resolved = "effect.resolved"

-- `for item in MessageType`, in the order of declaration.
abbrev pub message_types : List MessageType
message_types =
    MessageType.hello ∷ MessageType.authenticated ∷ MessageType.error ∷ MessageType.heartbeat_ping
    ∷ MessageType.heartbeat_pong ∷ MessageType.protocol_info ∷ MessageType.game_sync
    ∷ MessageType.game_state_changed ∷ MessageType.game_offline ∷ MessageType.vote_opened
    ∷ MessageType.vote_cast ∷ MessageType.vote_ack ∷ MessageType.vote_snapshot
    ∷ MessageType.vote_closed ∷ MessageType.effect_resolved ∷ []

-- The type under which `PAYLOAD_MODELS` names the payload's model.
unfoldable pub type_of : Payload → MessageType
type_of (Payload.hello p) = MessageType.hello
type_of (Payload.authenticated p) = MessageType.authenticated
type_of (Payload.error p) = MessageType.error
type_of (Payload.heartbeat_ping p) = MessageType.heartbeat_ping
type_of (Payload.heartbeat_pong p) = MessageType.heartbeat_pong
type_of (Payload.protocol_info p) = MessageType.protocol_info
type_of (Payload.game_sync p) = MessageType.game_sync
type_of (Payload.game_state_changed p) = MessageType.game_state_changed
type_of (Payload.game_offline p) = MessageType.game_offline
type_of (Payload.vote_opened p) = MessageType.vote_opened
type_of (Payload.vote_cast p) = MessageType.vote_cast
type_of (Payload.vote_ack p) = MessageType.vote_ack
type_of (Payload.vote_snapshot p) = MessageType.vote_snapshot
type_of (Payload.vote_closed p) = MessageType.vote_closed
type_of (Payload.effect_resolved p) = MessageType.effect_resolved

-- `type in allowed_message_types(role)`.
unfoldable pub is_allowed : ClientRole → MessageType → Bool
is_allowed game MessageType.hello = true
is_allowed game MessageType.heartbeat_ping = true
is_allowed game MessageType.heartbeat_pong = true
is_allowed game MessageType.game_sync = true
is_allowed game MessageType.game_state_changed = true
is_allowed game MessageType.vote_opened = true
is_allowed game MessageType.vote_ack = true
is_allowed game MessageType.vote_snapshot = true
is_allowed game MessageType.vote_closed = true
is_allowed game MessageType.effect_resolved = true
is_allowed bot MessageType.hello = true
is_allowed bot MessageType.heartbeat_ping = true
is_allowed bot MessageType.heartbeat_pong = true
is_allowed bot MessageType.vote_cast = true
is_allowed _ _ = false

-- JSON values: `negative n` is the integer -(n + 1), and a float is its text. An object keeps the
-- order of its members.
mutual
  pub data Json : Type 0 where
    null : Json
    flag : Bool → Json
    number negative : ℕ → Json
    float : String → Json
    text : String → Json
    array : Items → Json
    object : Members → Json

  pub data Items : Type 0 where
    nil : Items
    cons : Json → Items → Items

  pub data Members : Type 0 where
    end : Members
    member : String → Json → Members → Members

-- `data.get(key)`: of a repeated member Python keeps the last.
unfoldable pub get : String → Members → Option Json
get k end = none
get k (member j v rest) =
    let later = get k rest in elim later [ some w ↦ some w | none ↦ found (j == k) v ]
  where
    found : Bool → Json → Option Json
    found true w = some w
    found false w = none

-- `{key: value for key, value in members.items() if key != k}`.
unfoldable pub without : String → Members → Members
without k end = end
without k (member j v rest) =
    let later = without k rest in elim (j == k) [ true ↦ later | false ↦ member j v later ]

-- `Envelope`. `payload` is the object as it was received.
pub record Envelope : Type 0 where
  pub version : ℕ
  pub message_type : MessageType
  pub message_id : String
  pub room_id : String
  pub game_instance_id : Option String
  pub seq : ℕ
  pub sent_at : String
  pub payload : Members

-- A sent frame: `make_envelope` keeps the payload model's content.
pub record Frame : Type 0 where
  pub room_id : String
  pub game_instance_id : Option String
  pub seq : ℕ
  pub payload : Payload

-- `make_envelope`, without the random message id and the time stamp.
unfoldable pub make_envelope : String → Option String → ℕ → Payload → Frame
make_envelope room_id game_instance_id seq payload = record {
  room_id = room_id;
  game_instance_id = game_instance_id;
  seq = seq;
  payload = payload;
}
