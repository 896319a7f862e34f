-- ===== src/Config.antt =====
-- server/config.py: the settings, their validation and the token table. Time-outs are natural
-- numbers of milliseconds, so that the test for a finite number has nothing to do.
pub mod Tokens
pub mod Sources
pub mod Environment
mod Examples
use thchaos_backend.Prelude.{
  ℕ, String, Bool, true, false, not, ◌&&◌, ◌||◌, Option, none, some, List, [], ◌∷◌, codes, length,
  all, any, ltb, leb, ◌==◌, string_eq, nat_eq, if◌then◌else◌,
}
use thchaos_backend.Prelude.Dict.{Dict, lookup, insert}
use thchaos_backend.Protocol.Envelope.{Json, text, object, Members, end, member}

pub record Settings : Type 0 where
  pub host : String
  pub port : ℕ
  pub database_path : String
  pub game_tokens : Dict String
  pub bot_tokens : Dict String
  pub allow_dev_tokens : Bool
  pub max_frame_bytes : ℕ
  pub max_bots_per_room : ℕ
  pub admin_token : String
  pub max_casts_per_second : ℕ
  pub handshake_timeout : ℕ
  pub send_timeout : ℕ
  pub ack_timeout : ℕ
  pub outbound_queue_size : ℕ
  pub audit_queue_size : ℕ

-- `Settings()`, with the defaults of the class.
abbrev pub default_settings : Settings
default_settings = record {
  host = "127.0.0.1";
  port = 8765;
  database_path = "data/thchaos.sqlite3";
  game_tokens = ("dev-game-token", "main") ∷ [];
  bot_tokens = ("dev-bot-token", "main") ∷ [];
  allow_dev_tokens = true;
  max_frame_bytes = 16384;
  max_bots_per_room = 8;
  admin_token = "";
  max_casts_per_second = 200;
  handshake_timeout = 5000;
  send_timeout = 2000;
  ack_timeout = 15000;
  outbound_queue_size = 128;
  audit_queue_size = 4096;
}

-- The character class `[A-Za-z0-9_-]`.
abbrev pub is_identifier_char : ℕ → Bool
is_identifier_char c =
    (leb b'A' c && leb c b'Z')
    || (leb b'a' c && leb c b'z')
    || (leb b'0' c && leb c b'9')
    || c == b'_'
    || c == b'-'

-- `re.fullmatch(r"[A-Za-z0-9_-]{1,64}", room)`.
unfoldable pub is_identifier : String → Bool
is_identifier s =
    leb 1 (length (codes s)) && leb (length (codes s)) 64 && all is_identifier_char (codes s)

-- `len(token)` in 1..256.
unfoldable pub is_token : String → Bool
is_token t = leb 1 (length (codes t)) && leb (length (codes t)) 256

-- `k in d`.
unfoldable pub has_key : String → Dict String → Bool
has_key k [] = false
has_key k ((j, v) ∷ d) = j == k || has_key k d

-- `a.keys() & b.keys()`, as a truth value.
unfoldable pub share_key : Dict String → Dict String → Bool
unfolding has_key
share_key [] b = false
share_key ((k, v) ∷ a) b = has_key k b || share_key a b

-- The loop over one mapping's items.
unfoldable pub valid_tokens : Dict String → Bool
unfolding is_token is_identifier
valid_tokens [] = true
valid_tokens ((token, room) ∷ d) = is_token token && is_identifier room && valid_tokens d

-- `__post_init__`: `true` where it returns.
unfoldable pub post_init : Settings → Bool
unfolding share_key valid_tokens
post_init s =
    if not (
      ltb 0 s.max_frame_bytes
      && ltb 0 s.max_bots_per_room
      && ltb 0 s.max_casts_per_second
      && ltb 0 s.outbound_queue_size
      && ltb 0 s.audit_queue_size)
    then false
    else if not (ltb 0 s.handshake_timeout && ltb 0 s.send_timeout && ltb 0 s.ack_timeout)
    then false
    else if not (leb 1 s.port && leb s.port 65535)
    then false
    else if share_key s.game_tokens s.bot_tokens
    then false
    else valid_tokens s.game_tokens && valid_tokens s.bot_tokens

abbrev is_dev_token : String → Bool
is_dev_token t = t == "dev-game-token" || t == "dev-bot-token"

unfoldable pub token_room : Settings → String → String → Option String
token_room s token role =
    elim (lookup token (if role == "game" then s.game_tokens else s.bot_tokens)) [
      | none ↦ none
      | some room ↦ if not s.allow_dev_tokens && is_dev_token token then none else some room
    ]

-- The members of a JSON object as a dictionary: of a repeated name the last value is kept.
unfoldable pub to_dict : Members → Dict Json → Dict Json
to_dict end d = d
to_dict (member k v rest) d = to_dict rest (insert k v d)

-- The loop of `_token_map`; `none` is a `ValueError`.
unfoldable pub token_items : Dict Json → Dict String → Option (Dict String)
unfolding is_token
token_items [] result = some result
token_items ((token, text room) ∷ d) result =
    let rest = token_items d (insert token room result) in
    if not (is_token token) then none else if room == "" then none else rest
token_items ((token, _) ∷ d) result = none

-- Of the outcome of `json.loads`: the object has to have members.
unfoldable pub parsed_tokens : Option Json → Option (Dict String)
unfolding token_items to_dict
parsed_tokens (some (object (member k v rest))) = token_items (to_dict (member k v rest) []) []
parsed_tokens _ = none

-- `_token_map`, over the outcome of `json.loads` (`none` is its exception).
unfoldable pub token_map :
    (String → Option Json) → Option String → Dict String → Option (Dict String)
unfolding parsed_tokens
token_map loads none fallback = some fallback
token_map loads (some raw) fallback = if raw == "" then some fallback else parsed_tokens (loads raw)
