-- ===== src/Protocol/Payloads.antt =====
-- protocol/payloads.py: the enums, the payload models and their model validators.
use thchaos_backend.Protocol.Errors.{ErrorPayload}
use thchaos_backend.Prelude.{ℕ, String, Bool, false, Option, none, List}

pub data ClientRole : Type 0 where
  game bot : ClientRole

pub data GamePhase : Type 0 where
  offline title waiting voting replay : GamePhase

pub data VoteAckStatus : Type 0 where
  accepted rejected : VoteAckStatus

pub data VoteAckReason : Type 0 where
  accepted disabled not_voting wrong_round bad_choice bad_voter duplicate full : VoteAckReason

pub data VoteCloseReason : Type 0 where
  winner tie_all no_votes_random cancelled : VoteCloseReason

pub data EffectStatus : Type 0 where
  applied rejected : EffectStatus

pub data StateReason : Type 0 where
  stage_entered stage_left paused resumed offline sync : StateReason

-- `role.value`.
unfoldable pub role_value : ClientRole → String
role_value game = "game"
role_value bot = "bot"

-- `reason.value`.
unfoldable pub ack_reason_value : VoteAckReason → String
ack_reason_value VoteAckReason.accepted = "accepted"
ack_reason_value disabled = "disabled"
ack_reason_value not_voting = "not_voting"
ack_reason_value wrong_round = "wrong_round"
ack_reason_value bad_choice = "bad_choice"
ack_reason_value bad_voter = "bad_voter"
ack_reason_value duplicate = "duplicate"
ack_reason_value full = "full"

pub record HelloPayload : Type 0 where
  pub role : ClientRole
  pub client_id : String
  pub client_version : String
  pub token : String
  pub room_id : String
  pub game_instance_id : Option String

pub record AuthenticatedPayload : Type 0 where
  pub session_id : String
  pub role : ClientRole
  pub room_id : String
  pub game_instance_id : Option String
  pub server_time : String
  pub resumed : Bool

pub record HeartbeatPayload : Type 0 where
  pub nonce : String

pub record GameStatePayload : Type 0 where
  pub phase : GamePhase
  pub stage : Option ℕ
  pub difficulty : Option ℕ
  pub is_paused : Bool
  pub is_replay : Bool
  pub live_run : Bool
  pub game_time_ms : ℕ
  pub remaining_ms : ℕ
  pub reason : StateReason

-- `GameStatePayload(phase=…, reason=…)` with the defaults of the other fields.
abbrev pub game_state : GamePhase → StateReason → GameStatePayload
game_state phase reason = record {
  phase = phase;
  stage = none;
  difficulty = none;
  is_paused = false;
  is_replay = false;
  live_run = false;
  game_time_ms = 0;
  remaining_ms = 0;
  reason = reason;
}

pub record VoteOption : Type 0 where
  pub choice : ℕ
  pub event_id : ℕ
  pub event_key : String
  pub name : String
  pub description : String

pub record VoteOpenedPayload : Type 0 where
  pub round_id : ℕ
  pub options : List VoteOption
  pub vote_duration_ms : ℕ
  pub remaining_ms : ℕ
  pub stage : Option ℕ
  pub difficulty : Option ℕ
  pub is_paused : Bool

pub record VoteCastPayload : Type 0 where
  pub cast_id : String
  pub round_id : ℕ
  pub choice : ℕ
  pub voter_id : String
  pub source_group_id : String
  pub source_message_id : String

pub record VoteAckPayload : Type 0 where
  pub cast_id : String
  pub round_id : ℕ
  pub choice : ℕ
  pub status : VoteAckStatus
  pub reason : VoteAckReason
  pub counted : Bool

pub record VoteCount : Type 0 where
  pub choice : ℕ
  pub event_id : ℕ
  pub event_key : String
  pub name : String
  pub description : String
  pub votes : ℕ

pub record VoteSnapshotPayload : Type 0 where
  pub round_id : ℕ
  pub phase : GamePhase
  pub options : List VoteCount
  pub total_votes : ℕ
  pub unique_voters : ℕ
  pub remaining_ms : ℕ
  pub is_paused : Bool

pub record VoteClosedPayload : Type 0 where
  pub round_id : ℕ
  pub reason : VoteCloseReason
  pub winner_event_ids : List ℕ
  pub winner_choices : List ℕ
  pub winning_votes : ℕ
  pub total_votes : ℕ
  pub final_options : List VoteCount

pub record GameSyncPayload : Type 0 where
  pub state : GameStatePayload
  pub active_vote : Option VoteOpenedPayload
  pub latest_snapshot : Option VoteSnapshotPayload
  pub last_closed_round : Option ℕ

pub record EffectResolvedPayload : Type 0 where
  pub round_id : ℕ
  pub command_id : String
  pub event_id : ℕ
  pub event_key : String
  pub status : EffectStatus
  pub result_code : String
  pub applied_game_time_ms : ℕ

pub record ConnectionStatusPayload : Type 0 where
  pub room_id : String
  pub game_instance_id : Option String
  pub reason : String

pub record ProtocolInfoPayload : Type 0 where
  pub version : ℕ
  pub message_types : List String

-- A payload with the message type that it comes under: `PAYLOAD_MODELS` gives each type one
-- model, and the two heartbeats share theirs.
pub data Payload : Type 0 where
  hello : HelloPayload → Payload
  authenticated : AuthenticatedPayload → Payload
  error : ErrorPayload → Payload
  heartbeat_ping heartbeat_pong : HeartbeatPayload → Payload
  protocol_info : ProtocolInfoPayload → Payload
  game_sync : GameSyncPayload → Payload
  game_state_changed : GameStatePayload → Payload
  game_offline : ConnectionStatusPayload → Payload
  vote_opened : VoteOpenedPayload → Payload
  vote_cast : VoteCastPayload → Payload
  vote_ack : VoteAckPayload → Payload
  vote_snapshot : VoteSnapshotPayload → Payload
  vote_closed : VoteClosedPayload → Payload
  effect_resolved : EffectResolvedPayload → Payload
