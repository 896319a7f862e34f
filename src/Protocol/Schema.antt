-- ===== src/Protocol/Schema.antt =====
-- protocol/types.py, payloads.py and errors.py: the constraints on the fields of the models.
-- `uuid.UUID` is a parameter: whether a text is the normal form of a UUID of version 4.
pub mod Texts
pub mod Errors
mod Examples
use thchaos_backend.Prelude.{
  ℕ, String, Bool, true, ◌&&◌, Option, none, some, List, length, all, codes, leb, ◌==◌, nat_eq,
}
use thchaos_backend.Protocol.Schema.Texts.{
  is_text, any_char, is_short_identifier, is_client_version, is_short_text, is_group_id,
  is_raw_message_id, is_nonce, is_event_key, is_reason_key,
}
use thchaos_backend.Protocol.Errors.{ErrorPayload}
use thchaos_backend.Protocol.Types.{
  in_range, is_round_id, is_choice, is_event_id, is_count, max_json_safe_int, validate_voter_id,
  validate_command_id,
}
use thchaos_backend.Protocol.Payloads.{
  Payload, HelloPayload, AuthenticatedPayload, GameStatePayload, GameSyncPayload, VoteOption,
  VoteOpenedPayload, VoteCastPayload, VoteAckPayload, VoteCount, VoteSnapshotPayload,
  VoteClosedPayload, EffectResolvedPayload, ConnectionStatusPayload, ProtocolInfoPayload,
}
use thchaos_backend.Protocol.Validators.{
  validate_status, validate_choices, validate_totals, validate_outcome,
}

-- A field that may be `None`.
abbrev pub is_optional {ℓ} : {A : Type ℓ} → (A → Bool) → Option A → Bool
is_optional p none = true
is_optional p (some a) = p a

-- `Millis`, `PositiveMillis`, `GameTimeMs`, `StageNumber` and `Difficulty`.
abbrev pub is_millis : ℕ → Bool
is_millis = in_range 0 3600000

abbrev pub is_positive_millis : ℕ → Bool
is_positive_millis = in_range 1 3600000

abbrev pub is_game_time_ms : ℕ → Bool
is_game_time_ms = in_range 0 max_json_safe_int

abbrev pub is_stage_number : ℕ → Bool
is_stage_number = in_range 0 999

abbrev pub is_difficulty : ℕ → Bool
is_difficulty = in_range 0 7

-- `str = Field(default="", max_length=512)`.
abbrev pub is_description : String → Bool
is_description s = leb (length (codes s)) 512

unfoldable pub check_hello : HelloPayload → Bool
unfolding is_short_identifier is_client_version
check_hello p =
    is_short_identifier p.client_id
    && is_client_version p.client_version
    && is_text 1 256 any_char p.token
    && is_short_identifier p.room_id
    && is_optional is_short_identifier p.game_instance_id

unfoldable pub check_authenticated : AuthenticatedPayload → Bool
unfolding is_short_identifier is_nonce
check_authenticated p =
    is_nonce p.session_id
    && is_short_identifier p.room_id
    && is_optional is_short_identifier p.game_instance_id

unfoldable pub check_state : GameStatePayload → Bool
check_state p =
    is_optional is_stage_number p.stage
    && is_optional is_difficulty p.difficulty
    && is_game_time_ms p.game_time_ms
    && is_millis p.remaining_ms

unfoldable pub check_option : VoteOption → Bool
unfolding is_event_key is_short_text
check_option o =
    is_choice o.choice
    && is_event_id o.event_id
    && is_event_key o.event_key
    && is_short_text o.name
    && is_description o.description

unfoldable pub check_opened : VoteOpenedPayload → Bool
unfolding check_option validate_choices
check_opened p =
    is_round_id p.round_id
    && length p.options == 3
    && all check_option p.options
    && is_positive_millis p.vote_duration_ms
    && is_positive_millis p.remaining_ms
    && is_optional is_stage_number p.stage
    && is_optional is_difficulty p.difficulty
    && validate_choices p

unfoldable pub check_count : VoteCount → Bool
unfolding is_event_key is_short_text
check_count o =
    is_choice o.choice
    && is_event_id o.event_id
    && is_event_key o.event_key
    && is_short_text o.name
    && is_description o.description
    && is_count o.votes

unfoldable pub check_snapshot : VoteSnapshotPayload → Bool
unfolding check_count validate_totals
check_snapshot p =
    is_round_id p.round_id
    && length p.options == 3
    && all check_count p.options
    && is_count p.total_votes
    && is_count p.unique_voters
    && is_millis p.remaining_ms
    && validate_totals p

unfoldable pub check_sync : GameSyncPayload → Bool
unfolding check_state check_opened check_snapshot
check_sync p =
    check_state p.state
    && is_optional check_opened p.active_vote
    && is_optional check_snapshot p.latest_snapshot
    && is_optional is_round_id p.last_closed_round

-- `1 <= len(xs) <= 3`.
abbrev is_some_winners : List ℕ → Bool
is_some_winners xs = leb 1 (length xs) && leb (length xs) 3

unfoldable pub check_closed : VoteClosedPayload → Bool
unfolding check_count validate_outcome
check_closed p =
    is_round_id p.round_id
    && is_some_winners p.winner_event_ids
    && all is_event_id p.winner_event_ids
    && is_some_winners p.winner_choices
    && all is_choice p.winner_choices
    && is_count p.winning_votes
    && is_count p.total_votes
    && length p.final_options == 3
    && all check_count p.final_options
    && validate_outcome p

unfoldable pub check_effect : EffectResolvedPayload → Bool
unfolding is_event_key is_short_text validate_command_id
check_effect p =
    is_round_id p.round_id
    && validate_command_id (codes p.command_id)
    && is_event_id p.event_id
    && is_event_key p.event_key
    && is_short_text p.result_code
    && is_game_time_ms p.applied_game_time_ms

unfoldable pub check_status : ConnectionStatusPayload → Bool
unfolding is_short_identifier is_short_text
check_status p =
    is_short_identifier p.room_id
    && is_optional is_short_identifier p.game_instance_id
    && is_short_text p.reason

unfoldable pub check_info : ProtocolInfoPayload → Bool
unfolding is_short_text
check_info p =
    in_range 1 255 p.version && leb 1 (length p.message_types) && all is_short_text p.message_types

module _ (is_uuid4 : String → Bool) where
  unfoldable pub check_cast : VoteCastPayload → Bool
  unfolding validate_voter_id is_group_id is_raw_message_id
  check_cast p =
      is_uuid4 p.cast_id
      && is_round_id p.round_id
      && is_choice p.choice
      && validate_voter_id p.voter_id
      && is_group_id p.source_group_id
      && is_raw_message_id p.source_message_id

  unfoldable pub check_ack : VoteAckPayload → Bool
  unfolding validate_status
  check_ack p =
      is_uuid4 p.cast_id && is_round_id p.round_id && is_choice p.choice && validate_status p

  -- `HumanText`, and an entry of `details`.
  abbrev pub is_detail : String × String → Bool
  is_detail (key, value) = is_reason_key key && is_text 1 200 any_char value

  unfoldable pub check_error : ErrorPayload → Bool
  unfolding is_reason_key
  check_error p =
      is_text 1 200 any_char p.message
      && is_optional is_uuid4 p.in_reply_to
      && is_optional (is_text 1 64 any_char) p.cast_id
      && leb (length p.details) 8
      && all is_detail p.details

  -- The model that `PAYLOAD_MODELS` names, with its fields and its validator.
  unfoldable pub check_payload : Payload → Bool
  unfolding check_hello check_authenticated check_error is_nonce check_info check_sync check_state
      check_status check_opened check_cast check_ack check_snapshot check_closed check_effect
  check_payload (Payload.hello p) = check_hello p
  check_payload (Payload.authenticated p) = check_authenticated p
  check_payload (Payload.error p) = check_error p
  check_payload (Payload.heartbeat_ping p) = is_nonce p.nonce
  check_payload (Payload.heartbeat_pong p) = is_nonce p.nonce
  check_payload (Payload.protocol_info p) = check_info p
  check_payload (Payload.game_sync p) = check_sync p
  check_payload (Payload.game_state_changed p) = check_state p
  check_payload (Payload.game_offline p) = check_status p
  check_payload (Payload.vote_opened p) = check_opened p
  check_payload (Payload.vote_cast p) = check_cast p
  check_payload (Payload.vote_ack p) = check_ack p
  check_payload (Payload.vote_snapshot p) = check_snapshot p
  check_payload (Payload.vote_closed p) = check_closed p
  check_payload (Payload.effect_resolved p) = check_effect p
