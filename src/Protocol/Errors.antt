-- ===== src/Protocol/Errors.antt =====
-- protocol/errors.py: the error codes, the error payload and the parse-time exceptions.
use thchaos_backend.Prelude.{
  ℕ, zero, suc, String, Bool, true, false, Option, none, some, List, [], take, ◌==◌, string_eq,
  if◌then◌else◌,
}

pub data ErrorCode : Type 0 where
  protocol_version_unsupported protocol_malformed_message : ErrorCode
  protocol_unknown_message_type protocol_unknown_field protocol_not_authenticated : ErrorCode
  protocol_already_authenticated protocol_direction_not_allowed : ErrorCode
  protocol_origin_mismatch protocol_seq_gap protocol_seq_regression : ErrorCode
  protocol_rate_limited protocol_message_too_large : ErrorCode
  auth_invalid_token auth_role_mismatch auth_room_not_found : ErrorCode
  auth_game_already_connected auth_session_replaced : ErrorCode
  round_unknown round_not_open round_closed round_option_mismatch : ErrorCode
  round_duplicate_vote round_game_offline round_stale : ErrorCode
  round_game_instance_mismatch round_result_unknown : ErrorCode
  server_internal_error server_overloaded : ErrorCode

-- `code.value`.
unfoldable pub error_code_value : ErrorCode → String
error_code_value protocol_version_unsupported = "protocol.version_unsupported"
error_code_value protocol_malformed_message = "protocol.malformed_message"
error_code_value protocol_unknown_message_type = "protocol.unknown_message_type"
error_code_value protocol_unknown_field = "protocol.unknown_field"
error_code_value protocol_not_authenticated = "protocol.not_authenticated"
error_code_value protocol_already_authenticated = "protocol.already_authenticated"
error_code_value protocol_direction_not_allowed = "protocol.direction_not_allowed"
error_code_value protocol_origin_mismatch = "protocol.origin_mismatch"
error_code_value protocol_seq_gap = "protocol.seq_gap"
error_code_value protocol_seq_regression = "protocol.seq_regression"
error_code_value protocol_rate_limited = "protocol.rate_limited"
error_code_value protocol_message_too_large = "protocol.message_too_large"
error_code_value auth_invalid_token = "auth.invalid_token"
error_code_value auth_role_mismatch = "auth.role_mismatch"
error_code_value auth_room_not_found = "auth.room_not_found"
error_code_value auth_game_already_connected = "auth.game_already_connected"
error_code_value auth_session_replaced = "auth.session_replaced"
error_code_value round_unknown = "round.unknown"
error_code_value round_not_open = "round.not_open"
error_code_value round_closed = "round.closed"
error_code_value round_option_mismatch = "round.option_mismatch"
error_code_value round_duplicate_vote = "round.duplicate_vote"
error_code_value round_game_offline = "round.game_offline"
error_code_value round_stale = "round.stale"
error_code_value round_game_instance_mismatch = "round.game_instance_mismatch"
error_code_value round_result_unknown = "round.result_unknown"
error_code_value server_internal_error = "server.internal_error"
error_code_value server_overloaded = "server.overloaded"

-- `code in RETRYABLE_ERROR_CODES`.
unfoldable pub is_retryable : ErrorCode → Bool
is_retryable protocol_rate_limited = true
is_retryable server_internal_error = true
is_retryable server_overloaded = true
is_retryable _ = false

-- `code in FATAL_ERROR_CODES`.
unfoldable pub is_fatal : ErrorCode → Bool
is_fatal protocol_version_unsupported = true
is_fatal protocol_unknown_message_type = true
is_fatal protocol_malformed_message = true
is_fatal protocol_unknown_field = true
is_fatal protocol_origin_mismatch = true
is_fatal protocol_seq_regression = true
is_fatal protocol_message_too_large = true
is_fatal protocol_not_authenticated = true
is_fatal auth_invalid_token = true
is_fatal auth_role_mismatch = true
is_fatal auth_room_not_found = true
is_fatal auth_game_already_connected = true
is_fatal auth_session_replaced = true
is_fatal server_overloaded = true
is_fatal _ = false

pub record ErrorPayload : Type 0 where
  pub code : ErrorCode
  pub message : String
  pub in_reply_to : Option String
  pub cast_id : Option String
  pub fatal : Bool
  pub retryable : Bool
  pub details : List (String × String)

pub record ProtocolError : Type 0 where
  pub code : ErrorCode
  pub message : String
  pub details : List (String × String)
  pub fatal : Bool
  pub cast_id : Option String

-- `ProtocolError(code, message, cast_id=…)`: `fatal` is looked up unless the caller gives it.
abbrev pub protocol_error :
    ErrorCode → String → List (String × String) → Option Bool → Option String → ProtocolError
protocol_error code message details fatal cast_id = record {
  code = code;
  message = message;
  details = details;
  fatal = elim fatal [ none ↦ is_fatal code | some b ↦ b ];
  cast_id = cast_id;
}

-- `ProtocolError(code, message)`.
abbrev pub plain_error : ErrorCode → String → ProtocolError
plain_error code message = protocol_error code message [] none none

-- `ProtocolError(code, message, cast_id=cast_id)`.
abbrev pub cast_error : ErrorCode → String → String → ProtocolError
cast_error code message cast_id = protocol_error code message [] none (some cast_id)

-- `MessageValidationError(message, code=…)`; `none` is the default code.
abbrev pub message_validation_error : String → Option ErrorCode → ProtocolError
message_validation_error message none = plain_error protocol_malformed_message message
message_validation_error message (some code) = plain_error code message

abbrev pub unknown_message_type_error : String → ProtocolError
unknown_message_type_error = plain_error protocol_unknown_message_type

abbrev pub direction_error : String → ProtocolError
direction_error = plain_error protocol_direction_not_allowed

abbrev pub message_too_large_error : String → ProtocolError
message_too_large_error = plain_error protocol_message_too_large

-- `s[:n]`.
unfoldable pub text_prefix : ℕ → String → String
text_prefix zero s = ""
text_prefix (suc n) String.[] = ""
text_prefix (suc n) (String.◌∷◌ c s) = String.◌∷◌ c (text_prefix n s)

-- Python's `a or b` on texts that may be missing: the empty text is false.
abbrev pub or_text : Option String → Option String → Option String
or_text none b = b
or_text (some a) b = if a == "" then b else some a

unfoldable pub to_payload : ProtocolError → Option String → Option String → ErrorPayload
to_payload e in_reply_to cast_id = record {
  code = e.code;
  message =
      if text_prefix 200 e.message == ""
      then error_code_value e.code
      else text_prefix 200 e.message;
  in_reply_to = in_reply_to;
  cast_id = or_text cast_id e.cast_id;
  fatal = e.fatal;
  retryable = is_retryable e.code;
  details = take 8 e.details;
}
