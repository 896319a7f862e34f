-- ===== src/Config/Environment.antt =====
-- server/config.py: `Settings.from_env`. The process environment and Python's readers of numbers are
-- a parameter. A number below zero counts as unreadable, since both raise a `ValueError`.
use thchaos_backend.Prelude.{
  not, ◌&&◌, sym, arith, ℕ, String, Bool, true, false, ◌||◌, Option, none, some, [], ◌∷◌, ◌==◌,
  string_eq, if◌then◌else◌, ◌≡◌, Bool-cases, inl, inr, ◌⊎◌, subst, ◌∙◌, refl, eq_iff,
}
use thchaos_backend.Prelude.Dict.{Dict, lookup}
use thchaos_backend.Protocol.Envelope.{Json}
use thchaos_backend.Config.{Settings, is_token, is_identifier, post_init, token_room, token_map}
use thchaos_backend.Config.Sources.{IsConfigured, IsUnset, token_map-sources}
use thchaos_backend.Config.Tokens.{token_room_sound, token_room-roles}

infixl 5 ◌>>=◌
unfoldable pub ◌>>=◌ {ℓ κ} : {A : Type ℓ} {B : Type κ} → Option A → (A → Option B) → Option B
none >>= f = none
some a >>= f = f a

-- `os.getenv`, `str.lower`, `int`, `float` (as milliseconds) and `json.loads`.
pub record Environment : Type 0 where
  pub getenv : String → Option String
  pub lower : String → String
  pub to_int : String → Option ℕ
  pub to_millis : String → Option ℕ
  pub loads : String → Option Json

-- `os.getenv(name, default)`.
abbrev or_default : Option String → String → String
or_default none default = default
or_default (some value) default = value

abbrev read : Environment → String → String → String
read e name default = or_default (e.getenv name) default

unfoldable pub allow_dev : Environment → Bool
allow_dev e =
    let value : String = e.lower (read e "THCHAOS_ALLOW_DEV_TOKENS" "0") in
    value == "1" || value == "true" || value == "yes"

abbrev fallback : Bool → String → Dict String
fallback allowed token = if allowed then (token, "main") ∷ [] else []

-- `cls(…)`: `none` where the validation raises.
abbrev validated : Settings → Option Settings
validated s = if post_init s then some s else none

unfoldable pub from_env : Environment → Option Settings
unfolding allow_dev
from_env e = do
  port ← e.to_int (read e "THCHAOS_PORT" "8765")
  game_tokens ←
      token_map e.loads (e.getenv "THCHAOS_GAME_TOKENS") (fallback (allow_dev e) "dev-game-token")
  bot_tokens ←
      token_map e.loads (e.getenv "THCHAOS_BOT_TOKENS") (fallback (allow_dev e) "dev-bot-token")
  max_frame_bytes ← e.to_int (read e "THCHAOS_MAX_FRAME_BYTES" "16384")
  max_casts_per_second ← e.to_int (read e "THCHAOS_MAX_CASTS_PER_SECOND" "200")
  handshake_timeout ← e.to_millis (read e "THCHAOS_HANDSHAKE_TIMEOUT" "5")
  send_timeout ← e.to_millis (read e "THCHAOS_SEND_TIMEOUT" "2")
  ack_timeout ← e.to_millis (read e "THCHAOS_ACK_TIMEOUT" "15")
  outbound_queue_size ← e.to_int (read e "THCHAOS_OUTBOUND_QUEUE_SIZE" "128")
  audit_queue_size ← e.to_int (read e "THCHAOS_AUDIT_QUEUE_SIZE" "4096")
  validated (record {
    host = read e "THCHAOS_HOST" "127.0.0.1";
    port = port;
    database_path = read e "THCHAOS_DATABASE" "data/thchaos.sqlite3";
    game_tokens = game_tokens;
    bot_tokens = bot_tokens;
    allow_dev_tokens = allow_dev e;
    max_frame_bytes = max_frame_bytes;
    max_bots_per_room = 8;
    admin_token = read e "THCHAOS_ADMIN_TOKEN" "";
    max_casts_per_second = max_casts_per_second;
    handshake_timeout = handshake_timeout;
    send_timeout = send_timeout;
    ack_timeout = ack_timeout;
    outbound_queue_size = outbound_queue_size;
    audit_queue_size = audit_queue_size;
  })

-- A result of a chain is the result of its last step.
bind-some :
    {A : Type 0} (o : Option A) (f : A → Option Settings) (s : Settings) (P : Type 0)
    → ((a : A) → o ≡ some a → f a ≡ some s → P)
    → (o >>= f) ≡ some s
    → P
unfolding ◌>>=◌
bind-some none f s P k e = absurd (cc)
bind-some (some a) f s P k e = k a refl e

-- What a role's tokens are read from, and its development token.
abbrev pub variable : String → String
variable role = if role == "game" then "THCHAOS_GAME_TOKENS" else "THCHAOS_BOT_TOKENS"

abbrev pub dev_token : String → String
dev_token role = if role == "game" then "dev-game-token" else "dev-bot-token"

-- What `from_env` says of the settings that it returns.
record IsRead (e : Environment) (s : Settings) : Type 0 where
  valid : post_init s ≡ true
  allowed : s.allow_dev_tokens ≡ allow_dev e
  game :
      token_map e.loads (e.getenv "THCHAOS_GAME_TOKENS") (fallback (allow_dev e) "dev-game-token")
      ≡ some s.game_tokens
  bot :
      token_map e.loads (e.getenv "THCHAOS_BOT_TOKENS") (fallback (allow_dev e) "dev-bot-token")
      ≡ some s.bot_tokens

validated_sound :
    (e : Environment) (t s : Settings)
    → t.allow_dev_tokens ≡ allow_dev e
    → token_map e.loads (e.getenv "THCHAOS_GAME_TOKENS") (fallback (allow_dev e) "dev-game-token")
      ≡ some t.game_tokens
    → token_map e.loads (e.getenv "THCHAOS_BOT_TOKENS") (fallback (allow_dev e) "dev-bot-token")
      ≡ some t.bot_tokens
    → validated t ≡ some s
    → IsRead e s
validated_sound e t s same game bot h = elim (Bool-cases (post_init t)) [
  | inl v ↦
      let found : some t ≡ some s = rw v at h in
      let same_settings : t ≡ s = cc in
      subst (IsRead e) same_settings (record { valid = v; allowed = same; game = game; bot = bot })
  | inr v ↦ let failed : none ≡ some s = rw v at h in absurd (cc)
]

from_env_sound : (e : Environment) (s : Settings) → from_env e ≡ some s → IsRead e s
unfolding from_env
from_env_sound e s = bind-some _ _ s _ (λ port _. bind-some _ _ s _ (λ game g.
    bind-some _ _ s _ (λ bot b. bind-some _ _ s _ (λ frame _. bind-some _ _ s _ (λ casts _.
      bind-some _ _ s _ (λ handshake _. bind-some _ _ s _ (λ send _. bind-some _ _ s _ (λ ack _.
        bind-some _ _ s _
          (λ outbound _. bind-some _ _ s _ (λ audit _. validated_sound e _ s refl g b))))))))))

-- The fallback has one token, where it has any.
fallback-lookup :
    (allowed : Bool) (dev token room : String)
    → lookup token (fallback allowed dev) ≡ some room
    → (allowed ≡ true) × (token ≡ dev) × (room ≡ "main")
unfolding lookup
fallback-lookup false dev token room e = absurd (cc)
fallback-lookup true dev token room e = elim (Bool-cases (dev == token)) [
  | inl same ↦
      let f : some "main" ≡ some room = rw same at e in
      let name : room ≡ "main" = cc in (refl, sym ((eq_iff dev token).0 same), name)
  | inr other ↦ let f : none ≡ some room = rw other at e in absurd (cc)
]

-- Where a token of a role comes from: the role's variable, or, where that is not set and the
-- environment allows it, the role's development token.
abbrev pub IsSourced : Environment → String → String → String → Type 0
IsSourced e role token room =
    IsConfigured e.loads (e.getenv (variable role)) token room
    ⊎ (IsUnset (e.getenv (variable role))
        × (allow_dev e ≡ true)
        × (token ≡ dev_token role)
        × (room ≡ "main"))

token_room-lookup :
    (s : Settings) (token role room : String)
    → token_room s token role ≡ some room
    → lookup token (if role == "game" then s.game_tokens else s.bot_tokens) ≡ some room
unfolding token_room
token_room-lookup s token role room e =
    at (lookup token (if role == "game" then s.game_tokens else s.bot_tokens)) e
  where
    at :
        (o : Option String)
        → (elim o [
          | none ↦ none
          | some r ↦
              if not s.allow_dev_tokens && (token == "dev-game-token" || token == "dev-bot-token")
              then none
              else some r
        ])
          ≡ some room
        → o ≡ some room
    at none f = absurd (cc)
    at (some r) f = ground (arith, f)

sourced :
    (e : Environment) (s : Settings) (token role room : String)
    → IsRead e s
    → token_room s token role ≡ some room
    → IsSourced e role token room
sourced e s token role room settings found =
    let held = token_room-lookup s token role room found in
    elim (Bool-cases (role == "game")) [
      | inl game ↦
          rw game
            (elim (token_map-sources e.loads _ _ s.game_tokens token room settings.game
              (rw game at held)) [
                | inl given ↦ inl given
                | inr (unset, dev) ↦
                    let (a, b, c) = fallback-lookup _ _ token room dev in inr (unset, a, b, c)
              ])
      | inr bot ↦
          rw bot
            (elim (token_map-sources e.loads _ _ s.bot_tokens token room settings.bot
              (rw bot at held)) [
                | inl given ↦ inl given
                | inr (unset, dev) ↦
                    let (a, b, c) = fallback-lookup _ _ token room dev in inr (unset, a, b, c)
              ])
    ]

-- If the settings are read from the environment and `token_room` gives a token a room in a role,
-- then the pair stands in the JSON object of that role's own variable, or the variable is missing or
-- empty, the environment allows development tokens, the token is that of the role and the room is
-- `main`. The token has from 1 to 256 characters, the room is a protocol identifier, and the token of
-- a game opens no room to a Bot; it is a development token only where the environment allows them.
pub from_env-token_room :
    (e : Environment) (s : Settings) (token role room : String)
    → from_env e ≡ some s
    → token_room s token role ≡ some room
    → IsSourced e role token room
      × (is_token token ≡ true)
      × (is_identifier room ≡ true)
      × (((role == "game") ≡ false) ⊎ (token_room s token "bot" ≡ none))
      × ((allow_dev e ≡ true)
          ⊎ (((token == "dev-game-token") ≡ false) × ((token == "dev-bot-token") ≡ false)))
from_env-token_room e s token role room h found =
    let settings = from_env_sound e s h in
    let (a, b, c, d) = token_room_sound s token role room settings.valid found in
    (
      sourced e s token role room settings found,
      a,
      b,
      elim (Bool-cases (role == "game")) [
        | inl game ↦ inr (
            token_room-roles s token room settings.valid
              (subst (λ r. token_room s token r ≡ some room) ((eq_iff role "game").0 game) found))
        | inr bot ↦ inl bot
      ],
      elim (Bool-cases (allow_dev e)) [
        | inl allowed ↦ inl allowed
        | inr refused ↦ inr (c (settings.allowed ∙ refused), d (settings.allowed ∙ refused))
      ],
    )
