-- ===== src/Config/Tokens.antt =====
-- What a valid configuration promises about tokens.
use thchaos_backend.Prelude.{
  String, true, false, none, some, [], ◌∷◌, ◌≡◌, arith, eq_iff, ◌==◌, string_eq,
}
use thchaos_backend.Prelude.Dict.{Dict, lookup}
use thchaos_backend.Config.{
  Settings, has_key, share_key, is_token, is_identifier, valid_tokens, post_init, token_room,
}

has_key-lookup :
    (k : String) (d : Dict String) (r : String) → lookup k d ≡ some r → has_key k d ≡ true
unfolding lookup has_key
has_key-lookup k [] r h = cc
has_key-lookup k ((j, v) ∷ d) r h = ground (arith, has_key-lookup k d r)

lookup-none : (k : String) (d : Dict String) → has_key k d ≡ false → lookup k d ≡ none
unfolding lookup has_key
lookup-none k [] h = cc
lookup-none k ((j, v) ∷ d) h = ground (arith, lookup-none k d)

lookup-share_key :
    (k : String) (a b : Dict String) (r : String)
    → share_key a b ≡ false
    → lookup k a ≡ some r
    → lookup k b ≡ none
unfolding lookup share_key
lookup-share_key k [] b r s h = cc
lookup-share_key k ((j, v) ∷ a) b r s h =
    ground (arith, eq_iff j k, lookup-none k b, lookup-share_key k a b r)

lookup-valid_tokens :
    (k : String) (d : Dict String) (r : String)
    → valid_tokens d ≡ true
    → lookup k d ≡ some r
    → (is_token k ≡ true) × (is_identifier r ≡ true)
unfolding lookup valid_tokens
lookup-valid_tokens k [] r v h = cc
lookup-valid_tokens k ((j, w) ∷ d) r v h = ground (arith, eq_iff j k, lookup-valid_tokens k d r)

-- Under a validated configuration a token that opens a room to the game opens none to a Bot.
pub token_room-roles :
    (s : Settings) (token room : String)
    → post_init s ≡ true
    → token_room s token "game" ≡ some room
    → token_room s token "bot" ≡ none
unfolding token_room post_init
token_room-roles s token room v h =
    ground (arith, lookup-share_key token s.game_tokens s.bot_tokens room)

-- Under a validated configuration an accepted token has 1 to 256 characters, the room is a
-- protocol identifier, and a development token is accepted only where the settings allow it.
pub token_room_sound :
    (s : Settings) (token role room : String)
    → post_init s ≡ true
    → token_room s token role ≡ some room
    → (is_token token ≡ true)
      × (is_identifier room ≡ true)
      × (s.allow_dev_tokens ≡ false → (token == "dev-game-token") ≡ false)
      × (s.allow_dev_tokens ≡ false → (token == "dev-bot-token") ≡ false)
unfolding token_room post_init
token_room_sound s token role room v h = ground (
  arith,
  lookup-valid_tokens token s.game_tokens room,
  lookup-valid_tokens token s.bot_tokens room,
)
