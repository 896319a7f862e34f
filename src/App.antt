-- ===== src/App.antt =====
-- server/app.py: the routes over HTTP. A reply is the route's value or the status 404. The two
-- WebSocket routes call `handle`. `secrets.compare_digest` compares two texts.
mod Examples
use thchaos_backend.Prelude.{
  ℕ, String, Bool, true, false, not, ◌&&◌, Option, none, some, ◌==◌, string_eq, length,
  if◌then◌else◌, ◌≡◌, ◌≢◌, refl, arith, eq_iff, inl, inr, ◌⊎◌, Bool-cases, sym, ◌∙◌, ap,
}
use thchaos_backend.Prelude.Dict.{lookup}
use thchaos_backend.Config.{Settings}
use thchaos_backend.Protocol.Payloads.{GameStatePayload, VoteOpenedPayload, VoteSnapshotPayload}
use thchaos_backend.Connection.{Client}
use thchaos_backend.Hub.State.{RoomRuntime, Hub}
use thchaos_backend.Hub.Rooms.{game_instance}
use thchaos_backend.Hub.Game.{or_empty}
use thchaos_backend.Hub.Metrics.{Metrics, metrics}

pub data Reply {ℓ} (A : Type ℓ) : Type ℓ where
  reply : A → Reply A
  not_found : Reply A

-- `authorize`: `true` where it returns.
unfoldable pub authorize : Settings → Option String → Bool
authorize s token = not (s.admin_token == "") && or_empty token == s.admin_token

pub record Health : Type 0 where
  pub is_ok : Bool
  pub rooms : ℕ
  pub service : String

-- `GET /healthz`.
unfoldable pub healthz : Hub → Health
healthz h = record { is_ok = true; rooms = length h.rooms; service = "thchaos-backend" }

pub record RoomState : Type 0 where
  pub room_id : String
  pub game_online : Bool
  pub game_ready : Bool
  pub game_instance_id : Option String
  pub state : GameStatePayload
  pub active_vote : Option VoteOpenedPayload
  pub latest_snapshot : Option VoteSnapshotPayload

abbrev is_online : Option Client → Bool
is_online none = false
is_online (some c) = true

abbrev pub describe : RoomRuntime → RoomState
describe r = record {
  room_id = r.room_id;
  game_online = is_online r.game;
  game_ready = r.is_ready;
  game_instance_id = game_instance r;
  state = r.state;
  active_vote = r.active_vote;
  latest_snapshot = r.latest_snapshot;
}

abbrev pub describe_room : Option RoomRuntime → Reply RoomState
describe_room none = not_found
describe_room (some r) = reply (describe r)

-- `GET /rooms/{room_id}/state`.
unfoldable pub room_state : String → Option String → Hub → Reply RoomState
unfolding authorize
room_state room_id token h =
    if authorize h.settings token then describe_room (lookup room_id h.rooms) else not_found

-- `GET /metrics`.
unfoldable pub read_metrics : (ℕ → ℕ) → Option String → Hub → Reply Metrics
unfolding authorize metrics
read_metrics round token h =
    if authorize h.settings token then reply (metrics round h) else not_found

authorize-token :
    (s : Settings) (token : Option String)
    → ((authorize s token ≡ true) × (s.admin_token ≢ "") × (token ≡ some s.admin_token))
      ⊎ ((authorize s token ≡ false) × ((s.admin_token ≡ "") ⊎ (token ≢ some s.admin_token)))
unfolding authorize
authorize-token s token = elim (Bool-cases (s.admin_token == "")) [
  | inl off ↦ inr (rw off refl, inl ((eq_iff s.admin_token "").0 off))
  | inr on ↦ elim (Bool-cases (or_empty token == s.admin_token)) [
    | inl same ↦
        let set : s.admin_token ≢ "" = λ e. false_true (sym on ∙ (eq_iff s.admin_token "").1 e) in
        inl (
          rw (on, same) refl,
          set,
          named token set ((eq_iff (or_empty token) s.admin_token).0 same),
        )
    | inr other ↦ inr (
      rw (on, other) refl,
      inr (λ e. false_true (sym other ∙ (eq_iff (or_empty token) s.admin_token).1 (ap or_empty e))),
    )
  ]
]
  where
    false_true : false ≢ true
    false_true e = cc

    named :
        (token : Option String)
        → s.admin_token ≢ ""
        → or_empty token ≡ s.admin_token
        → token ≡ some s.admin_token
    named none set e = absurd (set (sym e))
    named (some t) set e = ap (λ x. some x) e

-- The two routes for the administrator answer 404 where no administrator's token is set or the
-- request has another one or none. Otherwise the metrics are those of the hub, and the state is
-- that of the room, or 404 where there is no such room.
pub room_state-guarded :
    (round : ℕ → ℕ) (room_id : String) (token : Option String) (h : Hub)
    → (((h.settings.admin_token ≡ "") ⊎ (token ≢ some h.settings.admin_token))
        × (room_state room_id token h ≡ not_found)
        × (read_metrics round token h ≡ not_found))
      ⊎ ((h.settings.admin_token ≢ "")
          × (token ≡ some h.settings.admin_token)
          × (room_state room_id token h ≡ describe_room (lookup room_id h.rooms))
          × (read_metrics round token h ≡ reply (metrics round h)))
unfolding room_state read_metrics
room_state-guarded round room_id token h = elim (authorize-token h.settings token) [
  | inl (allowed, set, same) ↦ inr (set, same, rw allowed refl, rw allowed refl)
  | inr (denied, why) ↦ inl (why, rw denied refl, rw denied refl)
]
