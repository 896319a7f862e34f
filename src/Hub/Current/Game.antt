-- ===== src/Hub/Current/Game.antt =====
-- A game's messages, its registration and the end of a connection, under the invariant of
-- Hub/Current.
use thchaos_backend.Prelude.{ℕ, String, Option, none, some, refl, string_eq, nat_eq}
use thchaos_backend.Protocol.Errors.{round_result_unknown, round_stale, round_closed}
use thchaos_backend.Protocol.Payloads.{
  Payload, GameStatePayload, GameSyncPayload, VoteOpenedPayload, VoteSnapshotPayload,
  VoteAckPayload, VoteClosedPayload,
}
use thchaos_backend.Protocol.Envelope.{Envelope}
use thchaos_backend.Storage.{StatusRow}
use thchaos_backend.Connection.{Client, PendingCast, CastHooks}
use thchaos_backend.Hub.State.{
  RoomRuntime, M, catch, modify, room, room_at, update_room, update_link,
}
use thchaos_backend.Hub.Rooms.{send, report, forget_cast, broadcast, drop_connection}
use thchaos_backend.Hub.Game.{
  next_generation, synced, opened, closed, snapped, restated, count_ack, ack_pending, send_ack,
  handle_sync, change_round, handle_opened, handle_snapshot, handle_ack, close_round, handle_closed,
  game_message, answer_game, handle_game,
}
use thchaos_backend.Hub.Actions.{
  Runs, Keeps, Keeps-pure, Keeps-raise, Keeps-modify, Keeps-of-Runs, action_rules,
}
use thchaos_backend.Hub.Casts.{catch-send-Runs, report-Runs}
use thchaos_backend.Hub.Casts.Resolve.{broadcast-Runs}
use thchaos_backend.Hub.Current.{
  Current, Nowhere, IsCurrent, drop_connection-Runs, replace-Runs, clear-Runs, IsCurrent-update,
  IsCurrent-forget, IsCurrent-beside,
}

-- From any hub whose casts are current and whose audit store is open, a `game.sync` returns
-- without an exception, and the casts of the hub are current afterwards.
pub handle_sync-Runs :
    (c : Client) (p : GameSyncPayload) → Runs IsCurrent (handle_sync c p) IsCurrent
unfolding handle_sync
handle_sync-Runs c p =
    replace-Runs c.room_id "sync" round_result_unknown next_generation (synced p)
      (Payload.game_sync p) (λ x. refl)

change_round-Keeps : (c : Client) (p : VoteOpenedPayload) → Keeps IsCurrent (change_round c p)
unfolding change_round
change_round-Keeps c p = Keeps-of-Runs (
    replace-Runs c.room_id "round_changed" round_stale next_generation (opened p)
      (Payload.vote_opened p) (λ x. refl))

close_round-Keeps : (c : Client) (p : VoteClosedPayload) → Keeps IsCurrent (close_round c p)
unfolding close_round
close_round-Keeps c p =
    Keeps-of-Runs
      (clear-Runs c.room_id "round_closed" round_closed (closed p) (Payload.vote_closed p))

told-Keeps : (k : String) (p : Payload) → Keeps IsCurrent (broadcast drop_connection k p)
told-Keeps k p =
    Keeps-of-Runs (broadcast-Runs drop_connection (drop_connection-Runs Current) Nowhere k p)

pub reported-Keeps : (u : StatusRow) → Keeps IsCurrent (report u)
reported-Keeps u = Keeps-of-Runs (report-Runs u)

snapped-Keeps :
    (k : String) (p : VoteSnapshotPayload) → Keeps IsCurrent (modify (update_room k (snapped p)))
snapped-Keeps k p =
    Keeps-modify (update_room k (snapped p))
      (λ h x. IsCurrent-update k (snapped p) h (λ r. (refl, refl, refl, refl)) x)

restated-Keeps :
    (k : String) (p : GameStatePayload) → Keeps IsCurrent (modify (update_room k (restated p)))
restated-Keeps k p =
    Keeps-modify (update_room k (restated p))
      (λ h x. IsCurrent-update k (restated p) h (λ r. (refl, refl, refl, refl)) x)

forgotten-Keeps : (k x : String) → Keeps IsCurrent (modify (update_room k (forget_cast x)))
forgotten-Keeps k x = Keeps-modify (update_room k (forget_cast x)) (IsCurrent-forget k x)

count_ack-Keeps : (now : ℕ) (cast : PendingCast) → Keeps IsCurrent (modify (count_ack now cast))
count_ack-Keeps now cast =
    Keeps-modify (count_ack now cast) (IsCurrent-beside (count_ack now cast) (λ h. (refl, refl)))

pub catch-send-Keeps :
    (c : Client) (p : Payload) (i : Option String) (k : Option CastHooks) (m : M (Unit {0}))
    → Runs IsCurrent m IsCurrent
    → Keeps IsCurrent (catch (send c p i k) m)
catch-send-Keeps c p i k m r = Keeps-of-Runs (catch-send-Runs c p i k m r)

pub send-Keeps :
    (c : Client) (p : Payload) (i : Option String) (k : Option CastHooks)
    → Keeps IsCurrent (send c p i k)
unfolding send update_link room_at
send-Keeps c p i k = record { at = λ h x. record { open_store = x.open_store; casts = x.casts } }

pub room-Keeps : (k : String) → Keeps IsCurrent (room k)
unfolding room
room-Keeps k = record {
  at = λ h x. IsCurrent-update k (λ r. r) h (λ r. (refl, refl, refl, refl)) x;
}

ruleset current_rules = (
  action_rules, told-Keeps, reported-Keeps, snapped-Keeps, restated-Keeps, forgotten-Keeps,
  count_ack-Keeps, change_round-Keeps, close_round-Keeps,
)

handle_opened-Keeps :
    (c : Client) (x : RoomRuntime) (p : VoteOpenedPayload) → Keeps IsCurrent (handle_opened c x p)
unfolding handle_opened
handle_opened-Keeps c x p = search current_rules

handle_closed-Keeps :
    (c : Client) (x : RoomRuntime) (p : VoteClosedPayload) → Keeps IsCurrent (handle_closed c x p)
unfolding handle_closed
handle_closed-Keeps c x p = search current_rules

handle_snapshot-Keeps :
    (c : Client) (x : RoomRuntime) (p : VoteSnapshotPayload)
    → Keeps IsCurrent (handle_snapshot c x p)
unfolding handle_snapshot
handle_snapshot-Keeps c x p = search current_rules

send_ack-Keeps :
    (c : Client) (p : VoteAckPayload) (o : Option Client) → Keeps IsCurrent (send_ack c p o)
send_ack-Keeps c p none = Keeps-pure tt
send_ack-Keeps c p (some origin) =
    catch-send-Keeps origin _ _ none (drop_connection origin)
      (drop_connection-Runs Current Nowhere origin)

ack_pending-Keeps :
    (c : Client) (p : VoteAckPayload) (now : ℕ) (o : Option PendingCast)
    → Keeps IsCurrent (ack_pending c p now o)
ack_pending-Keeps c p now none = Keeps-pure tt
ack_pending-Keeps c p now (some cast) = search (current_rules, send_ack-Keeps)

handle_ack-Keeps :
    (c : Client) (x : RoomRuntime) (p : VoteAckPayload) (now : ℕ)
    → Keeps IsCurrent (handle_ack c x p now)
unfolding handle_ack
handle_ack-Keeps c x p now = search (current_rules, ack_pending-Keeps)

game_message-Keeps :
    (c : Client) (x : RoomRuntime) (now : ℕ) (p : Payload)
    → Keeps IsCurrent (game_message c x now p)
unfolding game_message
game_message-Keeps c x now (Payload.game_sync p) = Keeps-of-Runs (handle_sync-Runs c p)
game_message-Keeps c x now (Payload.game_state_changed p) = search current_rules
game_message-Keeps c x now (Payload.vote_opened p) = handle_opened-Keeps c x p
game_message-Keeps c x now (Payload.vote_snapshot p) = handle_snapshot-Keeps c x p
game_message-Keeps c x now (Payload.vote_ack p) = handle_ack-Keeps c x p now
game_message-Keeps c x now (Payload.vote_closed p) = handle_closed-Keeps c x p
game_message-Keeps c x now (Payload.effect_resolved p) =
    told-Keeps c.room_id (Payload.effect_resolved p)
game_message-Keeps c x now _ = Keeps-raise _

answer_game-Keeps :
    (c : Client) (x : RoomRuntime) (now : ℕ) (p : Payload) → Keeps IsCurrent (answer_game c x now p)
unfolding answer_game
answer_game-Keeps c x now (Payload.heartbeat_ping p) = send-Keeps c _ none none
answer_game-Keeps c x now (Payload.heartbeat_pong p) = Keeps-pure tt
answer_game-Keeps c x now p = search (action_rules, game_message-Keeps)

pub handle_game-Keeps :
    (c : Client) (e : Envelope) (p : Payload) (now : ℕ) → Keeps IsCurrent (handle_game c e p now)
unfolding handle_game
handle_game-Keeps c e p now = search (action_rules, room-Keeps, answer_game-Keeps)
