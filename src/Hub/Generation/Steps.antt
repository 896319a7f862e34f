-- ===== src/Hub/Generation/Steps.antt =====
-- The generation of a room under the hub's steps.
use thchaos_backend.Prelude.{
  ℕ, leb, String, Bool, true, false, Option, none, some, [], ◌∷◌, inl, inr, ◌≡◌, refl,
  if◌then◌else◌, ◌==◌, nat_eq, Bool-cases,
}
use thchaos_backend.Prelude.Dict.{Dict, lookup}
use thchaos_backend.Protocol.Errors.{round_result_unknown}
use thchaos_backend.Protocol.Payloads.{ClientRole, Payload, HelloPayload}
use thchaos_backend.Protocol.Envelope.{Envelope}
use thchaos_backend.Storage.{AuditStore, record_event}
use thchaos_backend.Connection.{
  Client, PendingCast, CastHooks, Outbound, Link, shut, take_item, make_frame,
}
use thchaos_backend.Hub.State.{
  RoomRuntime, Hub, pure, modify, gets, guard, room, room_at, update_room, update_link,
}
use thchaos_backend.Hub.Rooms.{enqueued, drop_connection}
use thchaos_backend.Hub.Bot.{Wait}
use thchaos_backend.Hub.Dispatch.{
  handle_role, dispatch, count_timeout, expire_cast, expire_casts, expire_rooms, expire_pending,
  register, register_role, game_joined, bot_joined, is_free, accept, authenticate,
}
use thchaos_backend.Hub.Actions.{
  Keeps, Keeps-pure, Keeps-guard, Keeps-modify, Keeps-bind, Keeps-then, Keeps-if, Keeps-observe,
  action_rules,
}
use thchaos_backend.Hub.Quiet.{resolve-Keeps}
use thchaos_backend.Hub.Line.{Quiet-Line, Line}
use thchaos_backend.Hub.Writer.{
  stop, begin_send, end_send, on_sent, begin_item, on_start, hooks_start, hooks_valid, attempt,
  Round, idle, skipped, sending,
}
use thchaos_backend.Hub.Stable.{Stable, dispatch-Keeps, authenticate-Keeps}
use thchaos_backend.Hub.Generation.{Follows, Follows-change, Follows-update, drop-Follows}
use thchaos_backend.Hub.Generation.Game.{room-Follows, handle_game-Follows}
use thchaos_backend.Hub.Generation.Bot.{handle_bot-Follows, status-Follows}

module _ (r : RoomRuntime) (rid : String) where
  abbrev Goal : Hub → Type 0
  Goal = Line (Follows r) rid

  module _ (w : Wait) (before : (h : Hub) → Goal h → Goal (w.before h))
      (after : (h : Hub) → Goal h → Goal (w.after h)) where
    handle_role-Follows :
        (role : ClientRole) (c : Client) (e : Envelope) (p : Payload) (now : ℕ)
        → Keeps Goal (handle_role role c e p now w)
    handle_role-Follows ClientRole.game c e p now = handle_game-Follows r rid c e p now
    handle_role-Follows ClientRole.bot c e p now = handle_bot-Follows r rid w before after c e p now

  enqueued-Follows : (o : Option AuditStore) (h : Hub) → Goal h → Goal (enqueued o h).1
  unfolding room_at
  enqueued-Follows none h g = g
  enqueued-Follows (some s) h g = g

  pub Stable-Follows : Stable Goal
  unfolding update_link room_at
  Stable-Follows = record {
    linked = λ id f h g. g;
    audited = λ e h g. enqueued-Follows (record_event e h.store) h g;
    cached = λ k f h g.
        (Follows-update r rid k (λ x. record x { messages = f x.messages })
            (λ x. (refl, refl, refl))).at
          h g;
    found = λ k h g. (room-Follows r rid k).at h g;
  }

  timeout-Follows : Keeps Goal (modify count_timeout)
  unfolding room_at
  timeout-Follows = Keeps-modify count_timeout (λ h g. g)

  expire_cast-Follows :
      (k : String) (now : ℕ) (x : String) (p : PendingCast) → Keeps Goal (expire_cast k now x p)
  unfolding expire_cast
  expire_cast-Follows k now x p =
      Keeps-if (leb p.deadline now) _ _
        (Keeps-then (modify count_timeout) _ timeout-Follows (
          resolve-Keeps (Quiet-Line (Follows r) rid) drop_connection (drop-Follows r rid) k x
            "ack_timeout" round_result_unknown))
        (Keeps-pure tt)

  expire_casts-Follows :
      (k : String) (now : ℕ) (d : Dict PendingCast) → Keeps Goal (expire_casts k now d)
  unfolding expire_casts
  expire_casts-Follows k now [] = Keeps-pure tt
  expire_casts-Follows k now ((x, p) ∷ d) =
      Keeps-then _ _ (expire_cast-Follows k now x p) (expire_casts-Follows k now d)

  expire_rooms-Follows : (now : ℕ) (d : Dict RoomRuntime) → Keeps Goal (expire_rooms now d)
  unfolding expire_rooms
  expire_rooms-Follows now [] = Keeps-pure tt
  expire_rooms-Follows now ((k, x) ∷ d) =
      Keeps-bind (gets (λ h. (room_at h k).pending_casts)) _ (Keeps-observe _ _)
        (λ casts. Keeps-then _ _ (expire_casts-Follows k now casts) (expire_rooms-Follows now d))

  game_joined-Follows : (c : Client) → Keeps Goal (modify (update_room c.room_id (game_joined c)))
  game_joined-Follows c = record {
    at = (Follows-change r rid c.room_id (game_joined c) (pure tt) (λ x. refl) (Keeps-pure tt)).at;
  }

  bot_joined-Follows : (c : Client) → Keeps Goal (modify (update_room c.room_id (bot_joined c)))
  bot_joined-Follows c = Follows-update r rid c.room_id (bot_joined c) (λ x. (refl, refl, refl))

  register_role-Follows :
      (role : ClientRole) (c : Client) (x : RoomRuntime) → Keeps Goal (register_role role c x)
  register_role-Follows ClientRole.game c x =
      Keeps-then (guard (is_free x.game) _) _ (Keeps-guard (is_free x.game) _)
        (game_joined-Follows c)
  register_role-Follows ClientRole.bot c x = search (action_rules, bot_joined-Follows)

  pub register-Follows : (c : Client) → Keeps Goal (register c)
  unfolding register
  register-Follows c =
      Keeps-bind (room c.room_id) (register_role c.role c) (room-Follows r rid c.room_id)
        (register_role-Follows c.role c)

  pub expire_pending-Follows : (now : ℕ) → Keeps Goal (expire_pending now)
  unfolding expire_pending
  expire_pending-Follows now =
      Keeps-bind (gets (λ h. h.rooms)) _ (Keeps-observe _ _) (λ d. expire_rooms-Follows now d)

  pub dispatch-Follows :
      (fingerprint : Envelope → String) (c : Client) (e : Envelope) (p : Payload) (now : ℕ)
      (w : Wait)
      → ((h : Hub) → Goal h → Goal (w.before h))
      → ((h : Hub) → Goal h → Goal (w.after h))
      → Keeps Goal (dispatch fingerprint c e p now w)
  dispatch-Follows fingerprint c e p now w before after =
      dispatch-Keeps Stable-Follows fingerprint c e p now w
        (handle_role-Follows w before after c.role c e p now)

  pub stop-Follows : (c : Client) → Keeps Goal (stop c)
  unfolding stop
  stop-Follows c =
      Keeps-then (modify (update_link c.id shut)) (drop_connection c)
        (Keeps-modify (update_link c.id shut) (λ h g. Stable-Follows.linked c.id shut h g))
        (drop-Follows r rid c)

  pub authenticate-Follows :
      (path session : String) (e : Envelope) (p : HelloPayload)
      → Keeps Goal (authenticate path session e p)
  unfolding accept room_at update_link
  authenticate-Follows path session e p =
      authenticate-Keeps path session e p (Keeps-modify (accept e.seq) (λ h g. g))

  on_start-Follows : (k : CastHooks) (h : Hub) → Goal h → Goal (on_start k h)
  unfolding on_start
  on_start-Follows k h g =
      (Follows-update r rid k.room_id (λ x. attempt k x (lookup k.cast_id x.pending_casts))
          (λ x. same x (lookup k.cast_id x.pending_casts))).at
        h g
    where
      same :
          (x : RoomRuntime) (o : Option PendingCast)
          → ((attempt k x o).game ≡ x.game)
            × ((attempt k x o).generation ≡ x.generation)
            × ((attempt k x o).active_vote ≡ x.active_vote)
      same x none = (refl, refl, refl)
      same x (some q) = elim (Bool-cases (q.serial == k.pending.serial)) [
        | inl e ↦ rw e (refl, refl, refl)
        | inr e ↦ rw e (refl, refl, refl)
      ]

  begin_item-Follows :
      (c : Client) (now : ℕ) (o : Option (Outbound × Link)) (h : Hub)
      → Goal h
      → Goal (begin_item c now o h).1
  begin_item-Follows c now none h x = x
  begin_item-Follows c now (some (item, l)) h x = at (hooks_valid item.hooks now h)
    where
      started : (o : Option CastHooks) (h : Hub) → Goal h → Goal (hooks_start o h)
      started none h x = x
      started (some k) h x = on_start-Follows k h x

      at :
          (b : Bool)
          → let out : Round × Hub =
              if b
              then (
                sending item (make_frame c item l).0,
                hooks_start item.hooks (update_link c.id (λ _. (make_frame c item l).1) h),
              )
              else (skipped item, update_link c.id (λ _. l) h) in
            Goal out.1
      at true = started item.hooks _ (Stable-Follows.linked c.id (λ _. (make_frame c item l).1) h x)
      at false = Stable-Follows.linked c.id (λ _. l) h x

  pub begin_send-Follows : (c : Client) (now : ℕ) (h : Hub) → Goal h → Goal (begin_send c now h).1
  unfolding begin_send
  begin_send-Follows c now h x = at (h.links c.id).is_closed
    where
      at :
          (b : Bool)
          → let out : Round × Hub =
              if b then (idle, h) else begin_item c now (take_item (h.links c.id)) h in
            Goal out.1
      at true = x
      at false = begin_item-Follows c now (take_item (h.links c.id)) h x

  pub end_send-Follows : (o : Option CastHooks) (now : ℕ) → Keeps Goal (end_send o now)
  unfolding end_send on_sent room_at
  end_send-Follows none now = Keeps-pure tt
  end_send-Follows (some k) now = record {
    at = λ h g. (status-Follows r rid k.room_id k.cast_id k.pending "forwarded").at _ g;
  }
