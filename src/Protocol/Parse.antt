-- ===== src/Protocol/Parse.antt =====
-- protocol/envelope.py: `parse_message`. Text decoding, the JSON parser and the model library are
-- parameters. Of an error text with inserted values only a fixed part is kept.
pub mod Accepted
mod Examples
use Prim.Native.String.{len}
use thchaos_backend.Prelude.{
  ℕ, String, Bool, true, false, not, ◌&&◌, Option, none, some, List, ◌≡◌, ◌⊎◌, inl, inr, refl,
  arith, ltb, leb, length, ◌==◌, nat_eq, string_eq, any, map, if◌then◌else◌, ◌≤◌, Bool-cases,
  Option-cases,
}
use thchaos_backend.Protocol.Errors.{
  protocol_version_unsupported, protocol_malformed_message, protocol_unknown_field, ProtocolError,
  message_validation_error, unknown_message_type_error, direction_error, message_too_large_error,
}
use thchaos_backend.Protocol.Payloads.{ClientRole, Payload}
use thchaos_backend.Protocol.Envelope.{
  MessageType, message_types, message_type_value, type_of, is_allowed, Json, null, flag, number,
  negative, float, text, array, object, Members, get, Envelope, protocol_version,
}

pub data Parsed {ℓ} (A : Type ℓ) : Type ℓ where
  ok : A → Parsed A
  raised : ProtocolError → Parsed A

infixl 5 ◌>>=◌ ◌>>◌
abbrev pub ◌>>=◌ {ℓ κ} : {A : Type ℓ} {B : Type κ} → Parsed A → (A → Parsed B) → Parsed B
ok a >>= f = f a
raised e >>= f = raised e

abbrev pub ◌>>◌ {ℓ} : {B : Type ℓ} → Parsed (Unit {0}) → Parsed B → Parsed B
m >> k = m >>= λ _. k

abbrev pub guard : Bool → ProtocolError → Parsed (Unit {0})
guard true e = ok tt
guard false e = raised e

abbrev pub or_raise {ℓ} : {A : Type ℓ} → Option A → ProtocolError → Parsed A
or_raise none e = raised e
or_raise (some a) e = ok a

-- What a model's validation returns: the value, or the kinds of its errors (`item["type"]`).
pub data Validation {ℓ} (A : Type ℓ) : Type ℓ where
  valid : A → Validation A
  invalid : List String → Validation A

-- `bytes.decode`, `json.loads` and the two calls of `model_validate_json`.
pub record Codec : Type 0 where
  pub decode : List ℕ → Option String
  pub loads : String → Option Json
  pub validate_envelope : String → Validation Envelope
  pub validate_payload : MessageType → Members → Validation Payload

-- A frame as the transport hands it over.
pub data Raw : Type 0 where
  bytes : List ℕ → Raw
  str : String → Raw

unfoldable pub validation_error : List String → String → ProtocolError
validation_error kinds message = message_validation_error message (
    some (
      if any (λ k. k == "extra_forbidden") kinds
      then protocol_unknown_field
      else protocol_malformed_message))

abbrev validated {ℓ} : {A : Type ℓ} → String → Validation A → Parsed A
validated message (valid a) = ok a
validated message (invalid kinds) = raised (validation_error kinds message)

-- The first lines: the size of raw bytes, and their decoding.
unfoldable pub decode_raw : Codec → ℕ → Raw → Parsed String
decode_raw c limit (bytes bs) = do
  guard (leb (length bs) limit) (message_too_large_error "消息超过大小限制")
  or_raise (c.decode bs) (message_validation_error "消息必须是 UTF-8 文本" none)
decode_raw c limit (str s) = ok s

unfoldable pub as_object : Json → Option Members
as_object (object ms) = some ms
as_object _ = none

-- `type(data.get("version")) is int and data["version"] != PROTOCOL_VERSION`.
unfoldable pub is_other_version : Option Json → Bool
is_other_version (some (number n)) = not (n == protocol_version)
is_other_version (some (negative n)) = true
is_other_version _ = false

-- `isinstance(data.get("type"), str) and data["type"] not in MessageType._value2member_map_`.
unfoldable pub is_unknown_type : Option Json → Bool
unfolding message_type_value
is_unknown_type (some (text t)) = not (any (λ m. message_type_value m == t) message_types)
is_unknown_type _ = false

-- `role is None or type in allowed_message_types(role)`.
unfoldable pub may_send : Option ClientRole → MessageType → Bool
unfolding is_allowed
may_send none t = true
may_send (some role) t = is_allowed role t

unfoldable pub parse_message : Codec → Option ClientRole → ℕ → Raw → Parsed (Envelope × Payload)
unfolding decode_raw as_object is_other_version is_unknown_type may_send validation_error
parse_message c role limit raw = do
  s ← decode_raw c limit raw
  guard (leb (len s) limit) (message_too_large_error "消息超过大小限制")
  json ← or_raise (c.loads s) (message_validation_error "消息不是合法 JSON" none)
  members ← or_raise (as_object json) (message_validation_error "消息顶层必须是 JSON 对象" none)
  guard (not (is_other_version (get "version" members)))
      (message_validation_error "协议版本不支持" (some protocol_version_unsupported))
  guard (not (is_unknown_type (get "type" members))) (unknown_message_type_error "未知消息类型")
  envelope ← validated "信封字段不合法" (c.validate_envelope s)
  guard (may_send role envelope.message_type) (direction_error "不允许发送")
  payload ← validated "payload 字段不合法" (c.validate_payload envelope.message_type envelope.payload)
  ok (envelope, payload)
