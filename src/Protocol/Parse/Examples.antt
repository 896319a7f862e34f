-- ===== src/Protocol/Parse/Examples.antt =====
-- A test of the parser, with a codec of one message.
use Prim.Native.String.{len}
use thchaos_backend.Prelude.{◌≤◌, String, true, none, some, ◌≡◌, refl}
use thchaos_backend.Protocol.Payloads.{ClientRole, Payload}
use thchaos_backend.Protocol.Envelope.{
  MessageType, Envelope, number, text, object, end, member, get,
}
use thchaos_backend.Protocol.Parse.{ok, valid, Codec, str, decode_raw, may_send, parse_message}
use thchaos_backend.Protocol.Parse.Accepted.{parse_message-ok}

abbrev ping : Envelope
ping = record {
  version = 1;
  message_type = MessageType.heartbeat_ping;
  message_id = "m";
  room_id = "main";
  game_instance_id = none;
  seq = 1;
  sent_at = "2026-01-01T00:00:00Z";
  payload = end;
}

abbrev ping_payload : Payload
ping_payload = Payload.heartbeat_ping (record { nonce = "n" })

-- It reads every text as the one message.
abbrev fixed : Codec
fixed = record {
  decode = λ bs. none;
  loads =
      λ s. some (object (member "version" (number 1) (member "type" (text "heartbeat.ping") end)));
  validate_envelope = λ s. valid ping;
  validate_payload = λ t ms. valid ping_payload;
}

ping_parsed : parse_message fixed (some ClientRole.bot) 16384 (str "{}") ≡ ok (ping, ping_payload)
unfolding parse_message get
ping_parsed = refl

parse_message-ok_example :
    (s : String) × (decode_raw fixed 16384 (str "{}") ≡ ok s)
    × (len s ≤ 16384)
    × (fixed.validate_envelope s ≡ valid ping)
    × (may_send (some ClientRole.bot) MessageType.heartbeat_ping ≡ true)
    × (fixed.validate_payload MessageType.heartbeat_ping end ≡ valid ping_payload)
parse_message-ok_example =
    parse_message-ok fixed (some ClientRole.bot) 16384 (str "{}") ping ping_payload ping_parsed
