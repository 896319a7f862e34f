-- ===== src/Config/Examples.antt =====
-- Tests of the settings.
use thchaos_backend.Prelude.{
  ℕ, ◌⊎◌, Option, if◌then◌else◌, String, true, false, none, some, ◌≡◌, refl, ◌==◌, string_eq,
}
use thchaos_backend.Prelude.Dict.{lookup}
use thchaos_backend.Config.{
  default_settings, is_token, is_identifier, token_map, post_init, token_room,
}
use thchaos_backend.Config.Environment.{
  Environment, IsSourced, ◌>>=◌, allow_dev, from_env, from_env-token_room,
}
use thchaos_backend.Config.Tokens.{token_room-roles, token_room_sound}

abbrev dev_token : String
dev_token = "dev-game-token"

abbrev game_role : String
game_role = "game"

defaults_valid : post_init default_settings ≡ true
unfolding post_init
defaults_valid = refl

dev_game_room : token_room default_settings "dev-game-token" "game" ≡ some "main"
unfolding token_room lookup
dev_game_room = refl

token_room-roles_example : token_room default_settings "dev-game-token" "bot" ≡ none
token_room-roles_example =
    token_room-roles default_settings "dev-game-token" "main" defaults_valid dev_game_room

token_room_sound_example :
    (is_token dev_token ≡ true)
    × (is_identifier "main" ≡ true)
    × (default_settings.allow_dev_tokens ≡ false → (dev_token == "dev-game-token") ≡ false)
    × (default_settings.allow_dev_tokens ≡ false → (dev_token == "dev-bot-token") ≡ false)
token_room_sound_example =
    token_room_sound default_settings dev_token "game" "main" defaults_valid dev_game_room

-- An environment that sets nothing but what it allows.
abbrev digits : String → Option ℕ
digits s =
    if s == "8765"
    then some 8765
    else if s == "16384"
    then some 16384
    else if s == "200"
    then some 200
    else if s == "128"
    then some 128
    else if s == "4096"
    then some 4096
    else none

abbrev seconds : String → Option ℕ
seconds s =
    if s == "5"
    then some 5000
    else if s == "2"
    then some 2000
    else if s == "15"
    then some 15000
    else none

abbrev dev_environment : Environment
dev_environment = record {
  getenv = λ name. if name == "THCHAOS_ALLOW_DEV_TOKENS" then some "Yes" else none;
  lower = λ s. if s == "Yes" then "yes" else s;
  to_int = digits;
  to_millis = seconds;
  loads = λ s. none;
}

-- What is read is the defaults of the class.
dev_settings : from_env dev_environment ≡ some default_settings
unfolding from_env ◌>>=◌ allow_dev token_map post_init
dev_settings = refl

from_env-token_room_example :
    IsSourced dev_environment game_role dev_token "main"
    × (is_token dev_token ≡ true)
    × (is_identifier "main" ≡ true)
    × (((game_role == "game") ≡ false) ⊎ (token_room default_settings dev_token "bot" ≡ none))
    × ((allow_dev dev_environment ≡ true)
        ⊎ (((dev_token == "dev-game-token") ≡ false) × ((dev_token == "dev-bot-token") ≡ false)))
from_env-token_room_example =
    from_env-token_room dev_environment default_settings dev_token game_role "main" dev_settings
      dev_game_room
