-- ===== src/Hub/Fuel/Bot.antt =====
-- The connections of a room under a Bot's messages.
use thchaos_backend.Prelude.{
  ℕ, String, Bool, sym, ◌∙◌, ◌≡◌, subst, true, false, Option, none, some, refl, nat_eq,
}
use thchaos_backend.Protocol.Errors.{round_game_offline, round_duplicate_vote, cast_error}
use thchaos_backend.Protocol.Payloads.{Payload, VoteOpenedPayload, VoteCastPayload}
use thchaos_backend.Protocol.Envelope.{Envelope}
use thchaos_backend.Storage.{Recorded, returned, failed, VoteRow}
use thchaos_backend.Connection.{Client, PendingCast}
use thchaos_backend.Hub.State.{Hub, M, modify, gets, guard, ◌>>=◌, ◌>>◌, room_at, update_room}
use thchaos_backend.Hub.Rooms.{status, drop_connection}
use thchaos_backend.Hub.Bot.{
  CastStart, Wait, online_game, open_vote, start_cast, vote_row, recorded, reserve_vote,
  stale_unless, add_cast, new_cast, is_unchanged, next_serial_taken, forward, finish_cast,
  handle_cast, bot_message, handle_bot,
}
use thchaos_backend.Hub.Actions.{
  Keeps-guard, Keeps-gets, Keeps-observe, Keeps, Keeps-pure, Keeps-raise, Keeps-modify, Keeps-bind,
  Keeps-then, action_rules,
}
use thchaos_backend.Hub.Quiet.{catch-send-Keeps, resolve-Keeps, send-Keeps, status-Keeps}
use thchaos_backend.Hub.Fuel.Enough.{IsFrom}
use thchaos_backend.Hub.Fuel.Housed.{
  insert-InRoom, Housed, Housed-update, Quiet-Housed, drop-Housed,
}
use thchaos_backend.Hub.Fuel.Game.{room-Housed}

module _ (rid : String) where
  abbrev Goal : Hub → Type 0
  Goal = Housed rid

  online_game-Housed : (h : Hub) (o : Option Client) (x : String) → Keeps Goal (online_game h o x)
  online_game-Housed h none x = Keeps-raise _
  online_game-Housed h (some g) x = search action_rules

  open_vote-Housed :
      (b : Bool) (o : Option VoteOpenedPayload) (x : String) → Keeps Goal (open_vote b o x)
  open_vote-Housed true (some v) x = Keeps-pure v
  open_vote-Housed true none x = Keeps-raise _
  open_vote-Housed false v x = Keeps-raise _

  start_cast-Housed :
      (c : Client) (e : Envelope) (p : VoteCastPayload) (now : ℕ)
      → Keeps Goal (start_cast c e p now)
  unfolding start_cast
  start_cast-Housed c e p now = search (action_rules, online_game-Housed, open_vote-Housed) depth 9

  recorded-Housed : (o : Recorded) → Keeps Goal (recorded o)
  recorded-Housed (returned b) = record { at = λ h g. g }
  recorded-Housed failed = record { at = λ h g. g }

  reserve_vote-Housed : (fails : Bool) (row : VoteRow) → Keeps Goal (reserve_vote fails row)
  unfolding reserve_vote room_at
  reserve_vote-Housed fails row = record { at = λ h g. (recorded-Housed _).at _ g }

  forward-Housed :
      (c : Client) (p : VoteCastPayload) (s : CastStart) (cast : PendingCast)
      → Keeps Goal (forward c p s cast)
  unfolding forward
  forward-Housed c p s cast = catch-send-Keeps (Quiet-Housed rid) s.game _ _ _ _ (
      Keeps-then _ _
        (resolve-Keeps (Quiet-Housed rid) drop_connection (drop-Housed rid) c.room_id p.cast_id
          "send_failed" round_game_offline)
        (drop-Housed rid s.game))

  added-Housed :
      (x : String) (c : Client) (cast : PendingCast)
      → cast.origin ≡ some c
      → Keeps Goal (modify (update_room c.room_id (add_cast x cast)))
  added-Housed x c cast own =
      Housed-update rid c.room_id (add_cast x cast)
        (λ r here z. insert-InRoom rid x cast r (from here) z)
    where
      from : c.room_id ≡ rid → IsFrom rid cast
      from here d e =
          let f : some c ≡ some d = sym own ∙ e in
          let same : c ≡ d = cc in subst (λ b. b.room_id ≡ rid) same here

  next_serial-Housed : Keeps Goal (modify next_serial_taken)
  unfolding room_at
  next_serial-Housed = Keeps-modify next_serial_taken (λ h g. g)

  stale_unless-Housed :
      (b : Bool) (m : M (Unit {0})) (p : VoteCastPayload)
      → Keeps Goal m
      → Keeps Goal (stale_unless b m p)
  stale_unless-Housed true m p k = Keeps-pure tt
  stale_unless-Housed false m p k = search action_rules

  pub status-Housed : (k x : String) (p : PendingCast) (t : String) → Keeps Goal (status k x p t)
  status-Housed k x p t = status-Keeps (Quiet-Housed rid) k x p t

  finish_cast-Housed :
      (c : Client) (e : Envelope) (p : VoteCastPayload) (s : CastStart) (inserted : Bool) (now : ℕ)
      → Keeps Goal (finish_cast c e p s inserted now)
  unfolding finish_cast
  finish_cast-Housed c e p s inserted now =
      Keeps-then (guard inserted (cast_error round_duplicate_vote "投票消息已处理过" p.cast_id))
        (gets (new_cast c e p s) >>= rest) (Keeps-guard inserted _)
        (Keeps-gets (new_cast c e p s) rest (λ h z. (rest-Housed (new_cast c e p s h) refl).at h z))
    where
      rest : PendingCast → M (Unit {0})
      rest cast = do
        modify next_serial_taken
        fresh ← gets (is_unchanged c s cast now)
        stale_unless fresh (status c.room_id p.cast_id cast "not_sent:state_changed") p
        modify (update_room c.room_id (add_cast p.cast_id cast))
        forward c p s cast

      rest-Housed : (cast : PendingCast) → cast.origin ≡ some c → Keeps Goal (rest cast)
      rest-Housed cast own = Keeps-then (modify next_serial_taken) _ next_serial-Housed (
          Keeps-bind (gets (is_unchanged c s cast now)) _ (Keeps-observe _ _) (λ fresh.
            Keeps-then
              (stale_unless fresh (status c.room_id p.cast_id cast "not_sent:state_changed") p) _
              (stale_unless-Housed fresh _ p (status-Housed c.room_id p.cast_id cast _))
              (Keeps-then (modify (update_room c.room_id (add_cast p.cast_id cast)))
                (forward c p s cast) (added-Housed p.cast_id c cast own)
                (forward-Housed c p s cast))))

  module _ (w : Wait) (before : (h : Hub) → Goal h → Goal (w.before h))
      (after : (h : Hub) → Goal h → Goal (w.after h)) where
    before-Keeps : Keeps Goal (modify w.before)
    before-Keeps = Keeps-modify w.before before

    after-Keeps : Keeps Goal (modify w.after)
    after-Keeps = Keeps-modify w.after after

    handle_cast-Housed :
        (c : Client) (e : Envelope) (p : VoteCastPayload) (now : ℕ)
        → Keeps Goal (handle_cast c e p now w)
    unfolding handle_cast
    handle_cast-Housed c e p now =
        Keeps-bind (start_cast c e p now) _ (start_cast-Housed c e p now) (λ s.
          Keeps-then (modify w.before) _ before-Keeps (
            Keeps-bind (reserve_vote w.fails (vote_row c p s)) _
              (reserve_vote-Housed w.fails (vote_row c p s))
              (λ b.
                Keeps-then (modify w.after) _ after-Keeps (finish_cast-Housed c e p s b w.woken))))

    bot_message-Housed :
        (c : Client) (e : Envelope) (now : ℕ) (p : Payload) → Keeps Goal (bot_message c e now w p)
    unfolding bot_message
    bot_message-Housed c e now (Payload.heartbeat_ping p) =
        send-Keeps (Quiet-Housed rid) c _ none none
    bot_message-Housed c e now (Payload.heartbeat_pong p) = Keeps-pure tt
    bot_message-Housed c e now (Payload.vote_cast p) = handle_cast-Housed c e p now
    bot_message-Housed c e now _ = Keeps-raise _

    -- A Bot's message, where the other tasks that run during its wait keep the property.
    pub handle_bot-Housed :
        (c : Client) (e : Envelope) (p : Payload) (now : ℕ) → Keeps Goal (handle_bot c e p now w)
    unfolding handle_bot
    handle_bot-Housed c e p now = search (action_rules, room-Housed rid, bot_message-Housed)
