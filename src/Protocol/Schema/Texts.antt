-- ===== src/Protocol/Schema/Texts.antt =====
-- protocol/types.py and payloads.py: the constraints on texts. A pattern is a test of the codes of a
-- text.
use thchaos_backend.Prelude.{
  ℕ, String, Bool, true, false, not, ◌&&◌, ◌||◌, List, [], ◌∷◌, length, all, codes, leb, ◌==◌,
  nat_eq, if◌then◌else◌,
}
use thchaos_backend.Config.{is_identifier_char}

-- `StringConstraints(min_length=lo, max_length=hi, pattern=r"^[…]+$")`.
abbrev pub is_text : ℕ → ℕ → (ℕ → Bool) → String → Bool
is_text lo hi char s = leb lo (length (codes s)) && leb (length (codes s)) hi && all char (codes s)

abbrev pub any_char : ℕ → Bool
any_char c = true

-- The classes `[!-~]`, `[0-9]` and `[a-z0-9_]`.
abbrev is_visible_char : ℕ → Bool
is_visible_char c = leb b'!' c && leb c b'~'

abbrev is_number_char : ℕ → Bool
is_number_char c = leb b'0' c && leb c b'9'

abbrev is_small_letter : ℕ → Bool
is_small_letter c = leb b'a' c && leb c b'z'

abbrev is_key_char : ℕ → Bool
is_key_char c = is_small_letter c || is_number_char c || c == b'_'

unfoldable pub is_short_identifier : String → Bool
is_short_identifier = is_text 1 64 is_identifier_char

unfoldable pub is_client_version : String → Bool
is_client_version = is_text 1 32 is_visible_char

unfoldable pub is_short_text : String → Bool
is_short_text = is_text 1 256 any_char

unfoldable pub is_group_id : String → Bool
is_group_id = is_text 1 32 is_number_char

unfoldable pub is_raw_message_id : String → Bool
is_raw_message_id = is_text 1 64 is_visible_char

-- `Nonce` and `SessionId`.
unfoldable pub is_nonce : String → Bool
is_nonce = is_text 8 64 is_identifier_char

-- `(\.[a-z0-9_]+)+` from a dot on; `fresh` tells that no character follows the last dot yet.
unfoldable pub is_key_tail : Bool → List ℕ → Bool
is_key_tail fresh [] = not fresh
is_key_tail fresh (c ∷ cs) =
    let dot = is_key_tail true cs in
    let other = is_key_tail false cs in
    if c == b'.' then not fresh && dot else is_key_char c && other

-- `[a-z0-9_]*(\.[a-z0-9_]+)+`.
unfoldable pub is_key_body : List ℕ → Bool
unfolding is_key_tail
is_key_body [] = false
is_key_body (c ∷ cs) =
    let body = is_key_body cs in
    let tail = is_key_tail true cs in if c == b'.' then tail else is_key_char c && body

abbrev starts_small : (List ℕ → Bool) → List ℕ → Bool
starts_small rest [] = false
starts_small rest (c ∷ cs) = is_small_letter c && rest cs

unfoldable pub is_event_key : String → Bool
unfolding is_key_body
is_event_key s =
    leb 3 (length (codes s)) && leb (length (codes s)) 64 && starts_small is_key_body (codes s)

unfoldable pub is_reason_key : String → Bool
is_reason_key s =
    leb 1 (length (codes s))
    && leb (length (codes s)) 32
    && starts_small (all is_key_char) (codes s)
