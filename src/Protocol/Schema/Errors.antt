-- ===== src/Protocol/Schema/Errors.antt =====
-- protocol/errors.py: the payload of every error satisfies its model.
use thchaos_backend.Prelude.{
  ℕ, zero, suc, ◌≤◌, String, Bool, true, false, Option, none, some, List, [], ◌∷◌, length, all,
  take, codes, ◌==◌, string_eq, if◌then◌else◌, ◌≡◌, refl, arith, Bool-cases, inl, inr,
}
use thchaos_backend.Protocol.Errors.{
  ErrorCode, ProtocolError, error_code_value, text_prefix, or_text, to_payload,
}
use thchaos_backend.Protocol.Schema.Texts.{is_text, any_char}
use thchaos_backend.Protocol.Schema.{is_optional, is_detail, check_error}

all_any : (cs : List ℕ) → all any_char cs ≡ true
all_any [] = refl
all_any (c ∷ cs) = all_any cs

text_prefix-length : (n : ℕ) (s : String) → length (codes (text_prefix n s)) ≤ n
unfolding text_prefix
text_prefix-length zero s = omega arith
text_prefix-length (suc n) String.[] = omega arith
text_prefix-length (suc n) (String.◌∷◌ c s) = omega (arith, text_prefix-length n s)

is_text-short :
    (n : ℕ) (s : String) → (s == "") ≡ false → length (codes s) ≤ n → is_text 1 n any_char s ≡ true
is_text-short n String.[] e h = absurd (cc)
is_text-short n (String.◌∷◌ c s) e h = rw (all_any (codes s)) (ground arith)

code-short : (code : ErrorCode) → is_text 1 200 any_char (error_code_value code) ≡ true
unfolding error_code_value
code-short ErrorCode.protocol_version_unsupported = refl
code-short ErrorCode.protocol_malformed_message = refl
code-short ErrorCode.protocol_unknown_message_type = refl
code-short ErrorCode.protocol_unknown_field = refl
code-short ErrorCode.protocol_not_authenticated = refl
code-short ErrorCode.protocol_already_authenticated = refl
code-short ErrorCode.protocol_direction_not_allowed = refl
code-short ErrorCode.protocol_origin_mismatch = refl
code-short ErrorCode.protocol_seq_gap = refl
code-short ErrorCode.protocol_seq_regression = refl
code-short ErrorCode.protocol_rate_limited = refl
code-short ErrorCode.protocol_message_too_large = refl
code-short ErrorCode.auth_invalid_token = refl
code-short ErrorCode.auth_role_mismatch = refl
code-short ErrorCode.auth_room_not_found = refl
code-short ErrorCode.auth_game_already_connected = refl
code-short ErrorCode.auth_session_replaced = refl
code-short ErrorCode.round_unknown = refl
code-short ErrorCode.round_not_open = refl
code-short ErrorCode.round_closed = refl
code-short ErrorCode.round_option_mismatch = refl
code-short ErrorCode.round_duplicate_vote = refl
code-short ErrorCode.round_game_offline = refl
code-short ErrorCode.round_stale = refl
code-short ErrorCode.round_game_instance_mismatch = refl
code-short ErrorCode.round_result_unknown = refl
code-short ErrorCode.server_internal_error = refl
code-short ErrorCode.server_overloaded = refl

take-length : {A : Type 0} (n : ℕ) (xs : List A) → length (take n xs) ≤ n
take-length zero xs = omega arith
take-length (suc n) [] = omega arith
take-length (suc n) (x ∷ xs) = omega (arith, take-length n xs)

all-take :
    {A : Type 0} (p : A → Bool) (n : ℕ) (xs : List A) → all p xs ≡ true → all p (take n xs) ≡ true
all-take p zero xs e = refl
all-take p (suc n) [] e = refl
all-take p (suc n) (x ∷ xs) e = ground (arith, all-take p n xs)

-- The two sources of a cast's identifier.
or_text-optional :
    (p : String → Bool) (a b : Option String)
    → is_optional p a ≡ true
    → is_optional p b ≡ true
    → is_optional p (or_text a b) ≡ true
or_text-optional p none b e f = f
or_text-optional p (some a) b e f = elim (Bool-cases (a == "")) [ inl d ↦ rw d f | inr d ↦ rw d e ]

-- If the identifiers that an error's answer names satisfy their types and so do the error's details,
-- however many they are, then the payload of the answer satisfies its model, whatever the error's
-- message is.
pub to_payload-check_error :
    (is_uuid4 : String → Bool) (e : ProtocolError) (in_reply_to cast_id : Option String)
    → is_optional is_uuid4 in_reply_to ≡ true
    → is_optional (is_text 1 64 any_char) cast_id ≡ true
    → is_optional (is_text 1 64 any_char) e.cast_id ≡ true
    → all (is_detail is_uuid4) e.details ≡ true
    → check_error is_uuid4 (to_payload e in_reply_to cast_id) ≡ true
unfolding check_error to_payload
to_payload-check_error is_uuid4 e in_reply_to cast_id reply own other details =
    rw
      (
        message,
        reply,
        or_text-optional (is_text 1 64 any_char) cast_id e.cast_id own other,
        all-take (is_detail is_uuid4) 8 e.details details,
      )
      (ground (arith, take-length 8 e.details))
  where
    message :
        is_text 1 200 any_char (
          if text_prefix 200 e.message == ""
          then error_code_value e.code
          else text_prefix 200 e.message)
        ≡ true
    message = elim (Bool-cases (text_prefix 200 e.message == "")) [
      | inl d ↦ rw d (code-short e.code)
      | inr d ↦
          rw d (is_text-short 200 (text_prefix 200 e.message) d (text_prefix-length 200 e.message))
    ]
