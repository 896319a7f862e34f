-- ===== src/Protocol/Schema/Examples.antt =====
-- Tests of the constraints on fields, and the answer to a Bot's vote for a round that has ended.
use thchaos_backend.Prelude.{
  ℕ, ◌≤◌, ◌↔◌, String, Bool, true, false, none, some, [], ◌∷◌, codes, length, all, nat_eq, ◌==◌,
  ◌≡◌, refl,
}
use thchaos_backend.Protocol.Errors.{ProtocolError, round_closed, protocol_error, to_payload}
use thchaos_backend.Protocol.Types.{validate_command_id}
use thchaos_backend.Protocol.Decimal.{print_number, validate_command_id_iff}
use thchaos_backend.Protocol.Schema.Texts.{
  is_event_key, is_key_body, is_key_tail, is_reason_key, is_nonce,
}
use thchaos_backend.Protocol.Schema.{is_detail, check_error}
use thchaos_backend.Protocol.Schema.Errors.{to_payload-check_error}

key_good : is_event_key "resource.bomb.add" ≡ true
unfolding is_event_key is_key_body is_key_tail
key_good = refl

key_no_dot : is_event_key "resource" ≡ false
unfolding is_event_key is_key_body is_key_tail
key_no_dot = refl

key_two_dots : is_event_key "resource..add" ≡ false
unfolding is_event_key is_key_body is_key_tail
key_two_dots = refl

key_last_dot : is_event_key "resource.add." ≡ false
unfolding is_event_key is_key_body is_key_tail
key_last_dot = refl

reason_digit : is_reason_key "1st" ≡ false
unfolding is_reason_key
reason_digit = refl

nonce_short : is_nonce "abcdefg" ≡ false
unfolding is_nonce
nonce_short = refl

-- A test in place of the one for UUIDs: the length of their normal form.
abbrev has_uuid_length : String → Bool
has_uuid_length s = length (codes s) == 36

abbrev late : ProtocolError
late = protocol_error round_closed "" (("round_id", "7") ∷ []) none (some "own")

abbrev request : String
request = "3f2b8c1e-5d4a-4e6f-9a7b-0c1d2e3f4a5b"

late_details : all (is_detail has_uuid_length) late.details ≡ true
unfolding is_reason_key
late_details = refl

to_payload-check_error_example :
    check_error has_uuid_length (to_payload late (some request) none) ≡ true
to_payload-check_error_example =
    to_payload-check_error has_uuid_length late (some request) none refl refl refl late_details

validate_command_id_iff_example : (validate_command_id (codes "6217451873653358593") ≡ true) ↔ (
    (n : ℕ) × (1 ≤ n) × (n ≤ 18446744073709551615) × (codes "6217451873653358593" ≡ print_number n))
validate_command_id_iff_example = validate_command_id_iff (codes "6217451873653358593")
