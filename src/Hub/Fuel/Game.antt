-- ===== src/Hub/Fuel/Game.antt =====
-- The connections of a room under a game's messages.
use thchaos_backend.Prelude.{ℕ, String, Option, none, some, nat_eq}
use thchaos_backend.Protocol.Payloads.{
  Payload, GameStatePayload, GameSyncPayload, VoteOpenedPayload, VoteSnapshotPayload,
  VoteClosedPayload, VoteAckPayload,
}
use thchaos_backend.Protocol.Envelope.{Envelope}
use thchaos_backend.Storage.{StatusRow}
use thchaos_backend.Connection.{Client, PendingCast}
use thchaos_backend.Hub.State.{RoomRuntime, Hub, modify, room, room_at, update_room}
use thchaos_backend.Hub.Rooms.{report, forget_cast, broadcast, drop_connection}
use thchaos_backend.Hub.Game.{
  change_round, close_round, next_generation, synced, opened, closed, snapped, restated, count_ack,
  handle_sync, handle_opened, handle_snapshot, handle_ack, ack_pending, send_ack, handle_closed,
  game_message, answer_game, handle_game,
}
use thchaos_backend.Hub.Actions.{
  Keeps, Keeps-pure, Keeps-raise, Keeps-modify, Keeps-then, action_rules,
}
use thchaos_backend.Hub.Quiet.{catch-send-Keeps, report-Keeps, send-Keeps}
use thchaos_backend.Hub.Fuel.Enough.{forget-InRoom}
use thchaos_backend.Hub.Fuel.Housed.{
  Housed, Housed-update, Quiet-Housed, drop-Housed, broadcast-Housed, resolve_all-Housed,
}

module _ (rid : String) where
  abbrev Goal : Hub → Type 0
  Goal = Housed rid

  generation-Housed : (k : String) → Keeps Goal (modify (update_room k next_generation))
  generation-Housed k = Housed-update rid k next_generation (λ x own z. z)

  synced-Housed :
      (k : String) (p : GameSyncPayload) → Keeps Goal (modify (update_room k (synced p)))
  synced-Housed k p = Housed-update rid k (synced p) (λ x own z. z)

  opened-Housed :
      (k : String) (p : VoteOpenedPayload) → Keeps Goal (modify (update_room k (opened p)))
  opened-Housed k p = Housed-update rid k (opened p) (λ x own z. z)

  closed-Housed :
      (k : String) (p : VoteClosedPayload) → Keeps Goal (modify (update_room k (closed p)))
  closed-Housed k p = Housed-update rid k (closed p) (λ x own z. z)

  handle_sync-Housed : (c : Client) (p : GameSyncPayload) → Keeps Goal (handle_sync c p)
  unfolding handle_sync
  handle_sync-Housed c p = search (
    action_rules,
    generation-Housed,
    Keeps-then,
    synced-Housed,
    resolve_all-Housed rid,
    broadcast-Housed rid,
  )

  change_round-Housed : (c : Client) (p : VoteOpenedPayload) → Keeps Goal (change_round c p)
  unfolding change_round
  change_round-Housed c p = search (
    action_rules,
    generation-Housed,
    Keeps-then,
    opened-Housed,
    resolve_all-Housed rid,
    broadcast-Housed rid,
  )

  close_round-Housed : (c : Client) (p : VoteClosedPayload) → Keeps Goal (close_round c p)
  unfolding close_round
  close_round-Housed c p =
      search (action_rules, Keeps-then, closed-Housed, resolve_all-Housed rid, broadcast-Housed rid)

  handle_opened-Housed :
      (c : Client) (x : RoomRuntime) (p : VoteOpenedPayload) → Keeps Goal (handle_opened c x p)
  unfolding handle_opened
  handle_opened-Housed c x p = search (action_rules, change_round-Housed)

  handle_closed-Housed :
      (c : Client) (x : RoomRuntime) (p : VoteClosedPayload) → Keeps Goal (handle_closed c x p)
  unfolding handle_closed
  handle_closed-Housed c x p = search (action_rules, close_round-Housed)

  -- The assignments that leave the line alone.
  snapped-Housed :
      (k : String) (p : VoteSnapshotPayload) → Keeps Goal (modify (update_room k (snapped p)))
  snapped-Housed k p = Housed-update rid k (snapped p) (λ x own z. z)

  restated-Housed :
      (k : String) (p : GameStatePayload) → Keeps Goal (modify (update_room k (restated p)))
  restated-Housed k p = Housed-update rid k (restated p) (λ x own z. z)

  forgotten-Housed : (k x : String) → Keeps Goal (modify (update_room k (forget_cast x)))
  forgotten-Housed k x = Housed-update rid k (forget_cast x) (λ r own z. forget-InRoom rid x r z)

  count_ack-Housed : (now : ℕ) (cast : PendingCast) → Keeps Goal (modify (count_ack now cast))
  unfolding room_at
  count_ack-Housed now cast = Keeps-modify (count_ack now cast) (λ h g. g)

  told-Housed : (k : String) (p : Payload) → Keeps Goal (broadcast drop_connection k p)
  told-Housed k p = broadcast-Housed rid k p

  reported-Housed : (u : StatusRow) → Keeps Goal (report u)
  reported-Housed u = report-Keeps (Quiet-Housed rid) u

  ruleset line_rules = (
    action_rules, snapped-Housed, restated-Housed, forgotten-Housed, count_ack-Housed, told-Housed,
    reported-Housed,
  )

  handle_snapshot-Housed :
      (c : Client) (x : RoomRuntime) (p : VoteSnapshotPayload) → Keeps Goal (handle_snapshot c x p)
  unfolding handle_snapshot
  handle_snapshot-Housed c x p = search line_rules

  send_ack-Housed :
      (c : Client) (p : VoteAckPayload) (o : Option Client) → Keeps Goal (send_ack c p o)
  send_ack-Housed c p none = Keeps-pure tt
  send_ack-Housed c p (some origin) =
      catch-send-Keeps (Quiet-Housed rid) origin _ _ none (drop_connection origin)
        (drop-Housed rid origin)

  ack_pending-Housed :
      (c : Client) (p : VoteAckPayload) (now : ℕ) (o : Option PendingCast)
      → Keeps Goal (ack_pending c p now o)
  ack_pending-Housed c p now none = Keeps-pure tt
  ack_pending-Housed c p now (some cast) = search (line_rules, send_ack-Housed)

  handle_ack-Housed :
      (c : Client) (x : RoomRuntime) (p : VoteAckPayload) (now : ℕ)
      → Keeps Goal (handle_ack c x p now)
  unfolding handle_ack
  handle_ack-Housed c x p now = search (line_rules, ack_pending-Housed)

  game_message-Housed :
      (c : Client) (x : RoomRuntime) (now : ℕ) (p : Payload) → Keeps Goal (game_message c x now p)
  unfolding game_message
  game_message-Housed c x now (Payload.game_sync p) = handle_sync-Housed c p
  game_message-Housed c x now (Payload.game_state_changed p) = search line_rules
  game_message-Housed c x now (Payload.vote_opened p) = handle_opened-Housed c x p
  game_message-Housed c x now (Payload.vote_snapshot p) = handle_snapshot-Housed c x p
  game_message-Housed c x now (Payload.vote_ack p) = handle_ack-Housed c x p now
  game_message-Housed c x now (Payload.vote_closed p) = handle_closed-Housed c x p
  game_message-Housed c x now (Payload.effect_resolved p) =
      broadcast-Housed rid c.room_id (Payload.effect_resolved p)
  game_message-Housed c x now _ = Keeps-raise _

  answer_game-Housed :
      (c : Client) (x : RoomRuntime) (now : ℕ) (p : Payload) → Keeps Goal (answer_game c x now p)
  unfolding answer_game
  answer_game-Housed c x now (Payload.heartbeat_ping p) =
      send-Keeps (Quiet-Housed rid) c _ none none
  answer_game-Housed c x now (Payload.heartbeat_pong p) = Keeps-pure tt
  answer_game-Housed c x now p = search (action_rules, game_message-Housed)

  pub room-Housed : (k : String) → Keeps Goal (room k)
  unfolding room
  room-Housed k = record { at = (Housed-update rid k (λ x. x) (λ x own z. z)).at }

  -- A game's message, whatever it is.
  pub handle_game-Housed :
      (c : Client) (e : Envelope) (p : Payload) (now : ℕ) → Keeps Goal (handle_game c e p now)
  unfolding handle_game
  handle_game-Housed c e p now = search (action_rules, room-Housed, answer_game-Housed)
