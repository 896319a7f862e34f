-- ===== src/Hub/Generation/Bot.antt =====
-- The generation of a room under a Bot's messages.
use thchaos_backend.Prelude.{ℕ, String, Bool, true, false, Option, none, some, refl, nat_eq}
use thchaos_backend.Protocol.Errors.{round_game_offline}
use thchaos_backend.Protocol.Payloads.{Payload, VoteOpenedPayload, VoteCastPayload}
use thchaos_backend.Protocol.Envelope.{Envelope}
use thchaos_backend.Storage.{Recorded, returned, failed, VoteRow}
use thchaos_backend.Connection.{Client, PendingCast}
use thchaos_backend.Hub.State.{RoomRuntime, Hub, M, modify, room_at, update_room}
use thchaos_backend.Hub.Rooms.{status, drop_connection}
use thchaos_backend.Hub.Bot.{
  CastStart, Wait, online_game, open_vote, start_cast, vote_row, recorded, reserve_vote,
  stale_unless, add_cast, next_serial_taken, forward, finish_cast, handle_cast, bot_message,
  handle_bot,
}
use thchaos_backend.Hub.Actions.{
  Keeps, Keeps-pure, Keeps-raise, Keeps-modify, Keeps-bind, Keeps-then, action_rules,
}
use thchaos_backend.Hub.Quiet.{catch-send-Keeps, resolve-Keeps, send-Keeps, status-Keeps}
use thchaos_backend.Hub.Line.{Quiet-Line, Line}
use thchaos_backend.Hub.Generation.{Follows, Follows-update, drop-Follows}
use thchaos_backend.Hub.Generation.Game.{room-Follows}

module _ (r : RoomRuntime) (rid : String) where
  abbrev Goal : Hub → Type 0
  Goal = Line (Follows r) rid

  online_game-Follows : (h : Hub) (o : Option Client) (x : String) → Keeps Goal (online_game h o x)
  online_game-Follows h none x = Keeps-raise _
  online_game-Follows h (some g) x = search action_rules

  open_vote-Follows :
      (b : Bool) (o : Option VoteOpenedPayload) (x : String) → Keeps Goal (open_vote b o x)
  open_vote-Follows true (some v) x = Keeps-pure v
  open_vote-Follows true none x = Keeps-raise _
  open_vote-Follows false v x = Keeps-raise _

  start_cast-Follows :
      (c : Client) (e : Envelope) (p : VoteCastPayload) (now : ℕ)
      → Keeps Goal (start_cast c e p now)
  unfolding start_cast
  start_cast-Follows c e p now =
      search (action_rules, online_game-Follows, open_vote-Follows) depth 9

  recorded-Follows : (o : Recorded) → Keeps Goal (recorded o)
  recorded-Follows (returned b) = record { at = λ h g. g }
  recorded-Follows failed = record { at = λ h g. g }

  reserve_vote-Follows : (fails : Bool) (row : VoteRow) → Keeps Goal (reserve_vote fails row)
  unfolding reserve_vote room_at
  reserve_vote-Follows fails row = record { at = λ h g. (recorded-Follows _).at _ g }

  forward-Follows :
      (c : Client) (p : VoteCastPayload) (s : CastStart) (cast : PendingCast)
      → Keeps Goal (forward c p s cast)
  unfolding forward
  forward-Follows c p s cast = catch-send-Keeps (Quiet-Line (Follows r) rid) s.game _ _ _ _ (
      Keeps-then _ _
        (resolve-Keeps (Quiet-Line (Follows r) rid) drop_connection (drop-Follows r rid) c.room_id
          p.cast_id "send_failed" round_game_offline)
        (drop-Follows r rid s.game))

  added-Follows :
      (k x : String) (cast : PendingCast) → Keeps Goal (modify (update_room k (add_cast x cast)))
  added-Follows k x cast = Follows-update r rid k (add_cast x cast) (λ y. (refl, refl, refl))

  next_serial-Follows : Keeps Goal (modify next_serial_taken)
  unfolding room_at
  next_serial-Follows = Keeps-modify next_serial_taken (λ h g. g)

  stale_unless-Follows :
      (b : Bool) (m : M (Unit {0})) (p : VoteCastPayload)
      → Keeps Goal m
      → Keeps Goal (stale_unless b m p)
  stale_unless-Follows true m p k = Keeps-pure tt
  stale_unless-Follows false m p k = search action_rules

  pub status-Follows : (k x : String) (p : PendingCast) (t : String) → Keeps Goal (status k x p t)
  status-Follows k x p t = status-Keeps (Quiet-Line (Follows r) rid) k x p t

  finish_cast-Follows :
      (c : Client) (e : Envelope) (p : VoteCastPayload) (s : CastStart) (inserted : Bool) (now : ℕ)
      → Keeps Goal (finish_cast c e p s inserted now)
  unfolding finish_cast
  finish_cast-Follows c e p s inserted now =
      search
        (
          action_rules, next_serial-Follows, stale_unless-Follows, status-Follows, added-Follows,
          forward-Follows,
        )
        depth 9

  module _ (w : Wait) (before : (h : Hub) → Goal h → Goal (w.before h))
      (after : (h : Hub) → Goal h → Goal (w.after h)) where
    before-Keeps : Keeps Goal (modify w.before)
    before-Keeps = Keeps-modify w.before before

    after-Keeps : Keeps Goal (modify w.after)
    after-Keeps = Keeps-modify w.after after

    handle_cast-Follows :
        (c : Client) (e : Envelope) (p : VoteCastPayload) (now : ℕ)
        → Keeps Goal (handle_cast c e p now w)
    unfolding handle_cast
    handle_cast-Follows c e p now =
        Keeps-bind (start_cast c e p now) _ (start_cast-Follows c e p now) (λ s.
          Keeps-then (modify w.before) _ before-Keeps (
            Keeps-bind (reserve_vote w.fails (vote_row c p s)) _
              (reserve_vote-Follows w.fails (vote_row c p s))
              (λ b.
                Keeps-then (modify w.after) _ after-Keeps (finish_cast-Follows c e p s b w.woken))))

    bot_message-Follows :
        (c : Client) (e : Envelope) (now : ℕ) (p : Payload) → Keeps Goal (bot_message c e now w p)
    unfolding bot_message
    bot_message-Follows c e now (Payload.heartbeat_ping p) =
        send-Keeps (Quiet-Line (Follows r) rid) c _ none none
    bot_message-Follows c e now (Payload.heartbeat_pong p) = Keeps-pure tt
    bot_message-Follows c e now (Payload.vote_cast p) = handle_cast-Follows c e p now
    bot_message-Follows c e now _ = Keeps-raise _

    -- A Bot's message, where the other tasks that run during its wait keep the property.
    pub handle_bot-Follows :
        (c : Client) (e : Envelope) (p : Payload) (now : ℕ) → Keeps Goal (handle_bot c e p now w)
    unfolding handle_bot
    handle_bot-Follows c e p now = search (action_rules, room-Follows r rid, bot_message-Follows)
