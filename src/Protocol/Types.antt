-- ===== src/Protocol/Types.antt =====
-- protocol/types.py: the bounds and the validators of the protocol's scalar values.
use thchaos_backend.Prelude.{
  ℕ, ◌+◌, ◌-◌, ◌*◌, String, Bool, true, false, not, ◌&&◌, ◌||◌, List, [], ◌∷◌, codes, length, all,
  any, ltb, leb, ◌==◌, nat_eq, if◌then◌else◌,
}

abbrev pub max_json_safe_int : ℕ
max_json_safe_int = 9007199254740991

abbrev pub option_count : ℕ
option_count = 3

-- `Field(ge=lo, le=hi)`.
abbrev pub in_range : ℕ → ℕ → ℕ → Bool
in_range lo hi n = leb lo n && leb n hi

abbrev pub is_round_id : ℕ → Bool
is_round_id = in_range 1 max_json_safe_int

abbrev pub is_choice : ℕ → Bool
is_choice = in_range 1 option_count

abbrev pub is_event_id : ℕ → Bool
is_event_id = in_range 1 65535

abbrev pub is_seq : ℕ → Bool
is_seq = in_range 1 max_json_safe_int

abbrev pub is_count : ℕ → Bool
is_count = in_range 0 4294967295

-- `_validate_voter_id`: `true` where it returns its argument, `false` where it raises.
unfoldable pub validate_voter_id : String → Bool
validate_voter_id value =
    if length (codes value) == 0
    then false
    else if ltb 63 (length (codes value))
    then false
    else if any (λ ch. ltb ch 0x21 || ltb 0x7e ch) (codes value)
    then false
    else true

abbrev pub is_digit : ℕ → Bool
is_digit c = leb b'0' c && leb c b'9'

-- `int(value)` on ASCII digits.
unfoldable pub decimal : ℕ → List ℕ → ℕ
decimal acc [] = acc
decimal acc (c ∷ cs) = decimal (acc * 10 + (c - b'0')) cs

abbrev pub has_leading_zero : List ℕ → Bool
has_leading_zero (c ∷ d ∷ cs) = c == b'0'
has_leading_zero _ = false

-- `_validate_command_id`. `isascii() and isdigit()` holds of the non-empty texts of ASCII digits.
unfoldable pub validate_command_id : List ℕ → Bool
unfolding decimal
validate_command_id value =
    if not (ltb 0 (length value) && all is_digit value)
    then false
    else if has_leading_zero value
    then false
    else if decimal 0 value == 0
    then false
    else if ltb 0xffff_ffff_ffff_ffff (decimal 0 value)
    then false
    else true
