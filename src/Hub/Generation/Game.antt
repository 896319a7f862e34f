-- ===== src/Hub/Generation/Game.antt =====
-- The generation of a room under a game's messages.
use thchaos_backend.Prelude.{ℕ, String, Option, none, some, refl, nat_eq}
use thchaos_backend.Protocol.Errors.{round_result_unknown, round_stale, round_closed}
use thchaos_backend.Protocol.Payloads.{
  Payload, GameStatePayload, GameSyncPayload, VoteOpenedPayload, VoteSnapshotPayload,
  VoteClosedPayload, VoteAckPayload,
}
use thchaos_backend.Protocol.Envelope.{Envelope}
use thchaos_backend.Storage.{StatusRow}
use thchaos_backend.Connection.{Client, PendingCast}
use thchaos_backend.Hub.State.{RoomRuntime, Hub, modify, room, room_at, update_room}
use thchaos_backend.Hub.Rooms.{report, forget_cast, broadcast, drop_connection}
use thchaos_backend.Hub.Game.{
  change_round, close_round, next_generation, synced, opened, closed, snapped, restated, count_ack,
  handle_sync, handle_opened, handle_snapshot, handle_ack, ack_pending, send_ack, handle_closed,
  game_message, answer_game, handle_game,
}
use thchaos_backend.Hub.Actions.{
  Keeps, Keeps-pure, Keeps-raise, Keeps-modify, Keeps-then, action_rules,
}
use thchaos_backend.Hub.Quiet.{catch-send-Keeps, report-Keeps, send-Keeps}
use thchaos_backend.Hub.Line.{Quiet-Line, Line}
use thchaos_backend.Hub.Generation.{
  Follows, Follows-change, Follows-update, drop-Follows, broadcast-Follows, broadcast-Changing,
  resolve_all-Changing, Changing-update,
}

module _ (r : RoomRuntime) (rid : String) where
  abbrev Goal : Hub → Type 0
  Goal = Line (Follows r) rid

  handle_sync-Follows : (c : Client) (p : GameSyncPayload) → Keeps Goal (handle_sync c p)
  unfolding handle_sync
  handle_sync-Follows c p =
      Follows-change r rid c.room_id next_generation _ (λ x. refl)
        (Keeps-then _ _ (resolve_all-Changing r rid c.room_id "sync" round_result_unknown) (
          Keeps-then _ _ (Changing-update r rid c.room_id (synced p) (λ x. refl))
            (broadcast-Changing r rid c.room_id (Payload.game_sync p))))

  change_round-Follows : (c : Client) (p : VoteOpenedPayload) → Keeps Goal (change_round c p)
  unfolding change_round
  change_round-Follows c p =
      Follows-change r rid c.room_id next_generation _ (λ x. refl)
        (Keeps-then _ _ (resolve_all-Changing r rid c.room_id "round_changed" round_stale) (
          Keeps-then _ _ (Changing-update r rid c.room_id (opened p) (λ x. refl))
            (broadcast-Changing r rid c.room_id (Payload.vote_opened p))))

  close_round-Follows : (c : Client) (p : VoteClosedPayload) → Keeps Goal (close_round c p)
  unfolding close_round
  close_round-Follows c p =
      Follows-change r rid c.room_id (closed p) _ (λ x. refl)
        (Keeps-then _ _ (resolve_all-Changing r rid c.room_id "round_closed" round_closed)
          (broadcast-Changing r rid c.room_id (Payload.vote_closed p)))

  handle_opened-Follows :
      (c : Client) (x : RoomRuntime) (p : VoteOpenedPayload) → Keeps Goal (handle_opened c x p)
  unfolding handle_opened
  handle_opened-Follows c x p = search (action_rules, change_round-Follows)

  handle_closed-Follows :
      (c : Client) (x : RoomRuntime) (p : VoteClosedPayload) → Keeps Goal (handle_closed c x p)
  unfolding handle_closed
  handle_closed-Follows c x p = search (action_rules, close_round-Follows)

  -- The assignments that leave the line alone.
  snapped-Follows :
      (k : String) (p : VoteSnapshotPayload) → Keeps Goal (modify (update_room k (snapped p)))
  snapped-Follows k p = Follows-update r rid k (snapped p) (λ x. (refl, refl, refl))

  restated-Follows :
      (k : String) (p : GameStatePayload) → Keeps Goal (modify (update_room k (restated p)))
  restated-Follows k p = Follows-update r rid k (restated p) (λ x. (refl, refl, refl))

  forgotten-Follows : (k x : String) → Keeps Goal (modify (update_room k (forget_cast x)))
  forgotten-Follows k x = Follows-update r rid k (forget_cast x) (λ x. (refl, refl, refl))

  count_ack-Follows : (now : ℕ) (cast : PendingCast) → Keeps Goal (modify (count_ack now cast))
  unfolding room_at
  count_ack-Follows now cast = Keeps-modify (count_ack now cast) (λ h g. g)

  told-Follows : (k : String) (p : Payload) → Keeps Goal (broadcast drop_connection k p)
  told-Follows k p = broadcast-Follows r rid k p

  reported-Follows : (u : StatusRow) → Keeps Goal (report u)
  reported-Follows u = report-Keeps (Quiet-Line (Follows r) rid) u

  ruleset line_rules = (
    action_rules, snapped-Follows, restated-Follows, forgotten-Follows, count_ack-Follows,
    told-Follows, reported-Follows,
  )

  handle_snapshot-Follows :
      (c : Client) (x : RoomRuntime) (p : VoteSnapshotPayload) → Keeps Goal (handle_snapshot c x p)
  unfolding handle_snapshot
  handle_snapshot-Follows c x p = search line_rules

  send_ack-Follows :
      (c : Client) (p : VoteAckPayload) (o : Option Client) → Keeps Goal (send_ack c p o)
  send_ack-Follows c p none = Keeps-pure tt
  send_ack-Follows c p (some origin) =
      catch-send-Keeps (Quiet-Line (Follows r) rid) origin _ _ none (drop_connection origin)
        (drop-Follows r rid origin)

  ack_pending-Follows :
      (c : Client) (p : VoteAckPayload) (now : ℕ) (o : Option PendingCast)
      → Keeps Goal (ack_pending c p now o)
  ack_pending-Follows c p now none = Keeps-pure tt
  ack_pending-Follows c p now (some cast) = search (line_rules, send_ack-Follows)

  handle_ack-Follows :
      (c : Client) (x : RoomRuntime) (p : VoteAckPayload) (now : ℕ)
      → Keeps Goal (handle_ack c x p now)
  unfolding handle_ack
  handle_ack-Follows c x p now = search (line_rules, ack_pending-Follows)

  game_message-Follows :
      (c : Client) (x : RoomRuntime) (now : ℕ) (p : Payload) → Keeps Goal (game_message c x now p)
  unfolding game_message
  game_message-Follows c x now (Payload.game_sync p) = handle_sync-Follows c p
  game_message-Follows c x now (Payload.game_state_changed p) = search line_rules
  game_message-Follows c x now (Payload.vote_opened p) = handle_opened-Follows c x p
  game_message-Follows c x now (Payload.vote_snapshot p) = handle_snapshot-Follows c x p
  game_message-Follows c x now (Payload.vote_ack p) = handle_ack-Follows c x p now
  game_message-Follows c x now (Payload.vote_closed p) = handle_closed-Follows c x p
  game_message-Follows c x now (Payload.effect_resolved p) =
      broadcast-Follows r rid c.room_id (Payload.effect_resolved p)
  game_message-Follows c x now _ = Keeps-raise _

  answer_game-Follows :
      (c : Client) (x : RoomRuntime) (now : ℕ) (p : Payload) → Keeps Goal (answer_game c x now p)
  unfolding answer_game
  answer_game-Follows c x now (Payload.heartbeat_ping p) =
      send-Keeps (Quiet-Line (Follows r) rid) c _ none none
  answer_game-Follows c x now (Payload.heartbeat_pong p) = Keeps-pure tt
  answer_game-Follows c x now p = search (action_rules, game_message-Follows)

  pub room-Follows : (k : String) → Keeps Goal (room k)
  unfolding room
  room-Follows k = record { at = (Follows-update r rid k (λ x. x) (λ x. (refl, refl, refl))).at }

  -- A game's message, whatever it is.
  pub handle_game-Follows :
      (c : Client) (e : Envelope) (p : Payload) (now : ℕ) → Keeps Goal (handle_game c e p now)
  unfolding handle_game
  handle_game-Follows c e p now = search (action_rules, room-Follows, answer_game-Follows)
