-- ===== src/Hub/Fuel/Steps.antt =====
-- The connections of a room under the hub's steps.
use thchaos_backend.Prelude.{
  ℕ, leb, String, Bool, true, false, Option, none, some, [], ◌∷◌, inl, inr, All-append, ◌≡◌, refl,
  if◌then◌else◌, ◌==◌, nat_eq, Bool-cases,
}
use thchaos_backend.Prelude.Dict.{Dict, lookup}
use thchaos_backend.Protocol.Errors.{round_result_unknown}
use thchaos_backend.Protocol.Payloads.{ClientRole, Payload, HelloPayload}
use thchaos_backend.Protocol.Envelope.{Envelope}
use thchaos_backend.Storage.{AuditStore, record_event}
use thchaos_backend.Connection.{
  Client, PendingCast, CastHooks, Outbound, Link, shut, take_item, make_frame,
}
use thchaos_backend.Hub.State.{
  RoomRuntime, Hub, modify, gets, guard, room, room_at, update_room, update_link,
}
use thchaos_backend.Hub.Rooms.{enqueued, drop_connection}
use thchaos_backend.Hub.Bot.{Wait}
use thchaos_backend.Hub.Dispatch.{
  handle_role, dispatch, count_timeout, expire_cast, expire_casts, expire_rooms, expire_pending,
  register, register_role, game_joined, bot_joined, is_free, accept, authenticate,
}
use thchaos_backend.Hub.Actions.{
  Keeps, Keeps-pure, Keeps-guard, Keeps-modify, Keeps-bind, Keeps-then, Keeps-if, Keeps-observe,
  action_rules,
}
use thchaos_backend.Hub.Quiet.{resolve-Keeps}
use thchaos_backend.Hub.Writer.{
  stop, begin_send, end_send, on_sent, begin_item, on_start, hooks_start, hooks_valid, attempt,
  Round, idle, skipped, sending,
}
use thchaos_backend.Hub.Stable.{Stable, dispatch-Keeps, authenticate-Keeps}
use thchaos_backend.Hub.Fuel.Enough.{InRoom}
use thchaos_backend.Hub.Fuel.Housed.{
  insert-InRoom, Housed, Housed-update, Quiet-Housed, drop-Housed,
}
use thchaos_backend.Hub.Fuel.Game.{room-Housed, handle_game-Housed}
use thchaos_backend.Hub.Fuel.Bot.{handle_bot-Housed, status-Housed}

module _ (rid : String) where
  abbrev Goal : Hub → Type 0
  Goal = Housed rid

  module _ (w : Wait) (before : (h : Hub) → Goal h → Goal (w.before h))
      (after : (h : Hub) → Goal h → Goal (w.after h)) where
    handle_role-Housed :
        (role : ClientRole) (c : Client) (e : Envelope) (p : Payload) (now : ℕ)
        → Keeps Goal (handle_role role c e p now w)
    handle_role-Housed ClientRole.game c e p now = handle_game-Housed rid c e p now
    handle_role-Housed ClientRole.bot c e p now = handle_bot-Housed rid w before after c e p now

  enqueued-Housed : (o : Option AuditStore) (h : Hub) → Goal h → Goal (enqueued o h).1
  unfolding room_at
  enqueued-Housed none h g = g
  enqueued-Housed (some s) h g = g

  pub Stable-Housed : Stable Goal
  unfolding update_link room_at
  Stable-Housed = record {
    linked = λ id f h g. g;
    audited = λ e h g. enqueued-Housed (record_event e h.store) h g;
    cached = λ k f h g.
        (Housed-update rid k (λ x. record x { messages = f x.messages }) (λ x own z. z)).at h g;
    found = λ k h g. (room-Housed rid k).at h g;
  }

  timeout-Housed : Keeps Goal (modify count_timeout)
  unfolding room_at
  timeout-Housed = Keeps-modify count_timeout (λ h g. g)

  expire_cast-Housed :
      (k : String) (now : ℕ) (x : String) (p : PendingCast) → Keeps Goal (expire_cast k now x p)
  unfolding expire_cast
  expire_cast-Housed k now x p =
      Keeps-if (leb p.deadline now) _ _
        (Keeps-then (modify count_timeout) _ timeout-Housed (
          resolve-Keeps (Quiet-Housed rid) drop_connection (drop-Housed rid) k x "ack_timeout"
            round_result_unknown))
        (Keeps-pure tt)

  expire_casts-Housed :
      (k : String) (now : ℕ) (d : Dict PendingCast) → Keeps Goal (expire_casts k now d)
  unfolding expire_casts
  expire_casts-Housed k now [] = Keeps-pure tt
  expire_casts-Housed k now ((x, p) ∷ d) =
      Keeps-then _ _ (expire_cast-Housed k now x p) (expire_casts-Housed k now d)

  expire_rooms-Housed : (now : ℕ) (d : Dict RoomRuntime) → Keeps Goal (expire_rooms now d)
  unfolding expire_rooms
  expire_rooms-Housed now [] = Keeps-pure tt
  expire_rooms-Housed now ((k, x) ∷ d) =
      Keeps-bind (gets (λ h. (room_at h k).pending_casts)) _ (Keeps-observe _ _)
        (λ casts. Keeps-then _ _ (expire_casts-Housed k now casts) (expire_rooms-Housed now d))

  game_joined-Housed : (c : Client) → Keeps Goal (modify (update_room c.room_id (game_joined c)))
  game_joined-Housed c = Housed-update rid c.room_id (game_joined c) (λ x own z. z)

  bot_joined-Housed : (c : Client) → Keeps Goal (modify (update_room c.room_id (bot_joined c)))
  bot_joined-Housed c =
      Housed-update rid c.room_id (bot_joined c)
        (λ x own z. (All-append (λ b. b.room_id ≡ rid) x.bots (c ∷ []) z.0 (own, tt), z.1))

  register_role-Housed :
      (role : ClientRole) (c : Client) (x : RoomRuntime) → Keeps Goal (register_role role c x)
  register_role-Housed ClientRole.game c x =
      Keeps-then (guard (is_free x.game) _) _ (Keeps-guard (is_free x.game) _)
        (game_joined-Housed c)
  register_role-Housed ClientRole.bot c x = search (action_rules, bot_joined-Housed)

  pub register-Housed : (c : Client) → Keeps Goal (register c)
  unfolding register
  register-Housed c =
      Keeps-bind (room c.room_id) (register_role c.role c) (room-Housed rid c.room_id)
        (register_role-Housed c.role c)

  pub expire_pending-Housed : (now : ℕ) → Keeps Goal (expire_pending now)
  unfolding expire_pending
  expire_pending-Housed now =
      Keeps-bind (gets (λ h. h.rooms)) _ (Keeps-observe _ _) (λ d. expire_rooms-Housed now d)

  pub dispatch-Housed :
      (fingerprint : Envelope → String) (c : Client) (e : Envelope) (p : Payload) (now : ℕ)
      (w : Wait)
      → ((h : Hub) → Goal h → Goal (w.before h))
      → ((h : Hub) → Goal h → Goal (w.after h))
      → Keeps Goal (dispatch fingerprint c e p now w)
  dispatch-Housed fingerprint c e p now w before after =
      dispatch-Keeps Stable-Housed fingerprint c e p now w
        (handle_role-Housed w before after c.role c e p now)

  pub stop-Housed : (c : Client) → Keeps Goal (stop c)
  unfolding stop
  stop-Housed c =
      Keeps-then (modify (update_link c.id shut)) (drop_connection c)
        (Keeps-modify (update_link c.id shut) (λ h g. Stable-Housed.linked c.id shut h g))
        (drop-Housed rid c)

  pub authenticate-Housed :
      (path session : String) (e : Envelope) (p : HelloPayload)
      → Keeps Goal (authenticate path session e p)
  unfolding accept room_at update_link
  authenticate-Housed path session e p =
      authenticate-Keeps path session e p (Keeps-modify (accept e.seq) (λ h g. g))

  on_start-Housed : (k : CastHooks) (h : Hub) → Goal h → Goal (on_start k h)
  unfolding on_start
  on_start-Housed k h g =
      (Housed-update rid k.room_id (λ x. attempt k x (lookup k.cast_id x.pending_casts))
          (λ x own z. same x (lookup k.cast_id x.pending_casts) refl z)).at
        h g
    where
      same :
          (x : RoomRuntime) (o : Option PendingCast)
          → lookup k.cast_id x.pending_casts ≡ o
          → InRoom rid x
          → InRoom rid (attempt k x o)
      same x none found z = z
      same x (some q) found z = elim (Bool-cases (q.serial == k.pending.serial)) [
        | inl e ↦ rw e (
            insert-InRoom rid k.cast_id (record q { attempted = true }) x (z.1 k.cast_id q found) z)
        | inr e ↦ rw e z
      ]

  begin_item-Housed :
      (c : Client) (now : ℕ) (o : Option (Outbound × Link)) (h : Hub)
      → Goal h
      → Goal (begin_item c now o h).1
  begin_item-Housed c now none h x = x
  begin_item-Housed c now (some (item, l)) h x = at (hooks_valid item.hooks now h)
    where
      started : (o : Option CastHooks) (h : Hub) → Goal h → Goal (hooks_start o h)
      started none h x = x
      started (some k) h x = on_start-Housed k h x

      at :
          (b : Bool)
          → let out : Round × Hub =
              if b
              then (
                sending item (make_frame c item l).0,
                hooks_start item.hooks (update_link c.id (λ _. (make_frame c item l).1) h),
              )
              else (skipped item, update_link c.id (λ _. l) h) in
            Goal out.1
      at true = started item.hooks _ (Stable-Housed.linked c.id (λ _. (make_frame c item l).1) h x)
      at false = Stable-Housed.linked c.id (λ _. l) h x

  pub begin_send-Housed : (c : Client) (now : ℕ) (h : Hub) → Goal h → Goal (begin_send c now h).1
  unfolding begin_send
  begin_send-Housed c now h x = at (h.links c.id).is_closed
    where
      at :
          (b : Bool)
          → let out : Round × Hub =
              if b then (idle, h) else begin_item c now (take_item (h.links c.id)) h in
            Goal out.1
      at true = x
      at false = begin_item-Housed c now (take_item (h.links c.id)) h x

  pub end_send-Housed : (o : Option CastHooks) (now : ℕ) → Keeps Goal (end_send o now)
  unfolding end_send on_sent room_at
  end_send-Housed none now = Keeps-pure tt
  end_send-Housed (some k) now = record {
    at = λ h g. (status-Housed rid k.room_id k.cast_id k.pending "forwarded").at _ g;
  }
