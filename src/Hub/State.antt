-- ===== src/Hub/State.antt =====
-- server/hub.py: the hub's state, its rooms, and actions that may raise.
use thchaos_backend.Prelude.{
  ℕ, String, Bool, true, false, Option, none, some, List, [], ◌∷◌, ◌==◌, string_eq, nat_eq,
  if◌then◌else◌,
}
use thchaos_backend.Prelude.Dict.{Dict, lookup, insert}
use thchaos_backend.Protocol.Errors.{ProtocolError}
use thchaos_backend.Protocol.Payloads.{
  GameStatePayload, GamePhase, StateReason, game_state, VoteOpenedPayload, VoteSnapshotPayload,
}
use thchaos_backend.Config.{Settings}
use thchaos_backend.Storage.{AuditStore}
use thchaos_backend.Connection.{Client, PendingCast, Link}

-- `(role, game_instance_id or "", message_id)`.
pub record MessageKey : Type 0 where
  pub role : String
  pub instance_id : String
  pub message_id : String

pub record RoomRuntime : Type 0 where
  pub room_id : String
  pub game : Option Client
  pub bots : List Client
  pub state : GameStatePayload
  pub active_vote : Option VoteOpenedPayload
  pub latest_snapshot : Option VoteSnapshotPayload
  pub last_closed_round : Option ℕ
  pub is_ready : Bool
  pub has_connected : Bool
  pub generation : ℕ
  pub pending_casts : Dict PendingCast
  pub messages : List (MessageKey × String)

-- `RoomRuntime(room_id)`.
abbrev pub new_room : String → RoomRuntime
new_room room_id = record {
  room_id = room_id;
  game = none;
  bots = [];
  state = game_state GamePhase.offline StateReason.sync;
  active_vote = none;
  latest_snapshot = none;
  last_closed_round = none;
  is_ready = false;
  has_connected = false;
  generation = 0;
  pending_casts = [];
  messages = [];
}

-- `links` holds the changing part of each connection; `next_serial` and `next_client` are the
-- identities of the next objects.
pub record Hub : Type 0 where
  pub settings : Settings
  pub store : AuditStore
  pub rooms : Dict RoomRuntime
  pub connections : List Client
  pub links : ℕ → Link
  pub forward_ms : List ℕ
  pub ack_ms : List ℕ
  pub ack_timeouts : ℕ
  pub next_serial : ℕ
  pub next_client : ℕ

-- How a call ends: it returns, or raises a `ProtocolError`, a `ConnectionError`, the
-- `RuntimeError` of a closing store, an exception of the database, or a `TimeoutError`.
pub data Outcome {ℓ} (A : Type ℓ) : Type ℓ where
  done : A → Outcome A
  protocol : ProtocolError → Outcome A
  connection_error store_closing database_error timeout_error : Outcome A

-- An exception leaves the changes that were made before it.
abbrev pub M {ℓ} : Type ℓ → Type ℓ
M A = Hub → Outcome A × Hub

abbrev pub pure {ℓ} : {A : Type ℓ} → A → M A
pure a h = (done a, h)

abbrev pub raise {ℓ} : {A : Type ℓ} → ProtocolError → M A
raise e h = (protocol e, h)

abbrev pub continue {ℓ κ} : {A : Type ℓ} {B : Type κ} → Outcome A → (A → M B) → M B
continue (done a) f h = f a h
continue (protocol e) f h = (protocol e, h)
continue connection_error f h = (connection_error, h)
continue store_closing f h = (store_closing, h)
continue database_error f h = (database_error, h)
continue timeout_error f h = (timeout_error, h)

infixl 5 ◌>>=◌ ◌>>◌
abbrev pub ◌>>=◌ {ℓ κ} : {A : Type ℓ} {B : Type κ} → M A → (A → M B) → M B
◌>>=◌ m f h = continue (m h).0 f (m h).1

abbrev pub ◌>>◌ {ℓ} : {B : Type ℓ} → M (Unit {0}) → M B → M B
m >> k = m >>= λ _. k

abbrev pub rescue : Outcome (Unit {0}) → M (Unit {0}) → M (Unit {0})
rescue connection_error handler h = handler h
rescue (done a) handler h = (done a, h)
rescue (protocol e) handler h = (protocol e, h)
rescue store_closing handler h = (store_closing, h)
rescue database_error handler h = (database_error, h)
rescue timeout_error handler h = (timeout_error, h)

-- `try: m` with `except ConnectionError: handler`.
abbrev pub catch : M (Unit {0}) → M (Unit {0}) → M (Unit {0})
catch m handler h = rescue (m h).0 handler (m h).1

abbrev pub modify : (Hub → Hub) → M (Unit {0})
modify f h = (done tt, f h)

abbrev pub gets {ℓ} : {A : Type ℓ} → (Hub → A) → M A
gets f h = (done (f h), h)

-- `if not test: raise error`.
abbrev pub guard : Bool → ProtocolError → M (Unit {0})
guard true e = pure tt
guard false e = raise e

-- `for x in xs: body(x)`.
unfoldable pub for_each {ℓ} : {A : Type ℓ} → List A → (A → M (Unit {0})) → M (Unit {0})
for_each [] body = pure tt
for_each (x ∷ xs) body = body x >> for_each xs body

abbrev pub or_new : String → Option RoomRuntime → RoomRuntime
or_new rid none = new_room rid
or_new rid (some r) = r

-- The room under an identifier, which is made where it is missing.
unfoldable pub room_at : Hub → String → RoomRuntime
room_at h rid = or_new rid (lookup rid h.rooms)

unfoldable pub set_room : String → RoomRuntime → Hub → Hub
set_room rid r h = record h { rooms = insert rid r h.rooms }

-- Changes the room in place.
unfoldable pub update_room : String → (RoomRuntime → RoomRuntime) → Hub → Hub
unfolding set_room room_at
update_room rid f h = set_room rid (f (room_at h rid)) h

-- `Hub.room`.
unfoldable pub room : String → M RoomRuntime
unfolding update_room
room rid h = (done (room_at h rid), update_room rid (λ r. r) h)

unfoldable pub update_link : ℕ → (Link → Link) → Hub → Hub
update_link c f h = record h { links = λ d. if c == d then f (h.links c) else h.links d }
