-- ===== src/Hub/Current/Bot.antt =====
-- A Bot's cast under the invariant of Hub/Current: what the cast rests on when it becomes pending.
use thchaos_backend.Prelude.{
  ℕ, String, Bool, true, false, Option, none, some, ◌≡◌, refl, arith, ◌==◌, string_eq, nat_eq,
  if◌then◌else◌, inl, inr, ◌⊎◌, sym, subst, ◌∙◌, ap, Bool-cases, option_eq,
}
use thchaos_backend.Prelude.Dict.{lookup, insert, lookup-insert}
use thchaos_backend.Protocol.Errors.{
  round_game_offline, round_game_instance_mismatch, round_stale, cast_error, ProtocolError,
}
use thchaos_backend.Protocol.Payloads.{Payload, VoteCastPayload, VoteOpenedPayload}
use thchaos_backend.Protocol.Envelope.{Envelope}
use thchaos_backend.Storage.{VoteRow, Recorded, returned, failed, record_vote}
use thchaos_backend.Connection.{Client, PendingCast}
use thchaos_backend.Hub.State.{
  RoomRuntime, Hub, M, pure, raise, ◌>>=◌, ◌>>◌, modify, guard, room_at, update_room,
}
use thchaos_backend.Hub.Rooms.{status, resolve, drop_connection}
use thchaos_backend.Hub.Game.{or_empty}
use thchaos_backend.Hub.Bot.{
  CastStart, Wait, online_game, open_vote, start_cast, vote_row, recorded, reserve_vote, new_cast,
  is_unchanged, stale_unless, add_cast, next_serial_taken, cast_hooks, forward, finish_cast,
  handle_cast, bot_message, handle_bot,
}
use thchaos_backend.Hub.Actions.{
  Runs-then, Keeps, Keeps-pure, Keeps-raise, Keeps-of-Runs, action_rules,
}
use thchaos_backend.Hub.Yields.{
  Yields, Yields-pure, Yields-raise, Yields-bind, Yields-guard, Yields-modify, Yields-gets,
  Yields-weaken, Yields-of-Keeps, Keeps-of-Yields,
}
use thchaos_backend.Hub.Line.{Line}
use thchaos_backend.Hub.Generation.{Follows}
use thchaos_backend.Hub.Casts.{Holds, Casts-update, catch-send-Runs, status-Runs}
use thchaos_backend.Hub.Casts.Resolve.{resolve_one-Runs}
use thchaos_backend.Hub.Current.{Current, Nowhere, IsCurrent, drop_connection-Runs}
use thchaos_backend.Hub.Current.Game.{send-Keeps, room-Keeps}

-- What `start_cast` has read in the room `r`.
abbrev Started : RoomRuntime → VoteCastPayload → CastStart → Type 0
Started r p s =
    (r.game ≡ some s.game)
    × (s.generation ≡ r.generation)
    × (r.active_vote ≡ some s.active)
    × (s.active.round_id ≡ p.round_id)

abbrev mismatch : VoteCastPayload → ProtocolError
mismatch p = cast_error round_game_instance_mismatch "游戏实例已变化" p.cast_id

abbrev stale : VoteCastPayload → ProtocolError
stale p = cast_error round_stale "投票轮次已过期" p.cast_id

module _ (r : RoomRuntime) (c : Client) (p : VoteCastPayload) where
  -- The invariant, in a hub whose room comes after `r`.
  abbrev After : Hub → Type 0
  After h = IsCurrent h × Line (Follows r) c.room_id h

  abbrev At : Hub → Type 0
  At h = IsCurrent h × (room_at h c.room_id ≡ r)

  At-After : (h : Hub) → At h → After h
  At-After h (x, e) =
      (x, inr (ap (λ q. q.generation) e, ap (λ q. q.game) e, ap (λ q. q.active_vote) e))

  module _ (P E : Hub → Type 0) (fails : (k : Hub) → P k → E k) where
    online_game-Yields :
        (h : Hub) (o : Option Client)
        → Yields P (online_game h o p.cast_id) (λ g k. P k × (o ≡ some g)) E
    online_game-Yields h none = Yields-raise _ fails
    online_game-Yields h (some g) = at (h.links g.id).is_closed
      where
        at :
            (b : Bool)
            → Yields P
                (if b then raise (cast_error round_game_offline "游戏端未连接" p.cast_id) else pure g)
                (λ d k. P k × (some g ≡ some d))
                E
        at true = Yields-raise _ fails
        at false = Yields-pure g (λ k x. (x, refl))

    open_vote-Yields :
        (b : Bool) (o : Option VoteOpenedPayload)
        → Yields P (open_vote b o p.cast_id) (λ v k. P k × (o ≡ some v)) E
    open_vote-Yields true (some v) = Yields-pure v (λ k x. (x, refl))
    open_vote-Yields true none = Yields-raise _ fails
    open_vote-Yields false o = Yields-raise _ fails

  start_cast-Yields :
      (e : Envelope) (now : ℕ)
      → Yields At (start_cast c e p now) (λ s h. Started r p s × After h) IsCurrent
  unfolding start_cast
  start_cast-Yields e now =
      Yields-gets (λ h. room_at h c.room_id) _
        (λ q.
          Yields-gets (λ h. h) _
            (λ h.
              Yields-bind (online_game h q.game p.cast_id) _
                (online_game-Yields _ IsCurrent (λ k x. x.0.0.0) h q.game)
                (λ g.
                  Yields-guard (e.game_instance_id == g.game_instance_id) (mismatch p) (voted q g)
                    (λ k x. x.0.0.0.0)
                    (λ same.
                      Yields-bind (open_vote q.is_ready q.active_vote p.cast_id) (checked q g)
                        (open_vote-Yields _ IsCurrent (λ k x. x.0.0.0.0) q.is_ready q.active_vote)
                        (λ v.
                          Yields-guard (p.round_id == v.round_id) (stale p) (pure (start q g v))
                            (λ k x. x.0.0.0.0.0)
                            (λ round. Yields-pure (start q g v) (λ k x.
                              let joined : r ≡ q = sym x.0.0.0.0.1 ∙ x.0.0.0.1 in
                              (
                                (
                                  ap (λ y. y.game) joined ∙ x.0.1,
                                  ap (λ y. y.generation) (sym joined),
                                  ap (λ y. y.active_vote) joined ∙ x.1,
                                  sym (eq_of round),
                                ),
                                At-After k x.0.0.0.0,
                              ))))))))
    where
      start : RoomRuntime → Client → VoteOpenedPayload → CastStart
      start q g v = record { game = g; active = v; generation = q.generation; started = now }

      checked : RoomRuntime → Client → VoteOpenedPayload → M CastStart
      checked q g v = guard (p.round_id == v.round_id) (stale p) >> pure (start q g v)

      voted : RoomRuntime → Client → M CastStart
      voted q g = open_vote q.is_ready q.active_vote p.cast_id >>= checked q g

      eq_of : {n m : ℕ} → (n == m) ≡ true → n ≡ m
      eq_of e = ground arith

  module _ (s : CastStart) (started : Started r p s) where
    -- A cast that is made from `s`.
    abbrev OfStart : PendingCast → Type 0
    OfStart cast =
        (cast.generation ≡ s.generation)
        × (cast.instance_id ≡ or_empty s.game.game_instance_id)
        × (cast.round_id ≡ p.round_id)

    unchanged-Holds :
        (cast : PendingCast) (x : RoomRuntime)
        → OfStart cast
        → Follows r x.game x.generation x.active_vote
        → x.generation ≡ s.generation
        → Holds Current c.room_id x cast
    unchanged-Holds cast x (g, i, o) (inl past) same =
        let (a, b, d, f) = started in absurd (omega arith)
    unchanged-Holds cast x (g, i, o) (inr (n, game, vote)) same =
        let (a, b, d, f) = started in
        (g ∙ sym same, (s.game, game ∙ a, sym i), (s.active, vote ∙ d, f ∙ sym o))

    added-IsCurrent :
        (cast : PendingCast) (h : Hub)
        → OfStart cast
        → After h
        → (room_at h c.room_id).generation ≡ s.generation
        → IsCurrent (update_room c.room_id (add_cast p.cast_id cast) h)
    added-IsCurrent cast h of (x, follows) same =
        Casts-update {B = Current} {S = Nowhere} c.room_id (add_cast p.cast_id cast) h x
          (λ v cast_id q e.
            at v cast_id q
              (lookup-insert p.cast_id cast_id cast (room_at h c.room_id).pending_casts) e
              (Bool-cases (p.cast_id == cast_id)))
      where
        at :
            ((cast_id : String) (q : PendingCast)
              → lookup cast_id (room_at h c.room_id).pending_casts ≡ some q
              → Holds Current c.room_id (room_at h c.room_id) q ⊎ ⊥)
            → (cast_id : String) (q : PendingCast)
            → lookup cast_id (insert p.cast_id cast (room_at h c.room_id).pending_casts) ≡ (
                if p.cast_id == cast_id
                then some cast
                else lookup cast_id (room_at h c.room_id).pending_casts)
            → lookup cast_id (insert p.cast_id cast (room_at h c.room_id).pending_casts) ≡ some q
            → ((p.cast_id == cast_id) ≡ true) ⊎ ((p.cast_id == cast_id) ≡ false)
            → Holds Current c.room_id (room_at h c.room_id) q ⊎ ⊥
        at v cast_id q found e (inl hit) =
            let same_cast : some cast ≡ some q = ground arith in
            let is_cast : cast ≡ q = cc in
            inl (
              subst (λ w. Holds Current c.room_id (room_at h c.room_id) w) is_cast
                (unchanged-Holds cast (room_at h c.room_id) of follows same))
        at v cast_id q found e (inr miss) = v cast_id q (ground arith)

    unchanged-generation :
        (cast : PendingCast) (now : ℕ) (h : Hub)
        → is_unchanged c s cast now h ≡ true
        → (room_at h c.room_id).generation ≡ s.generation
    unchanged-generation cast now h e = ground arith

    forward-Keeps : (cast : PendingCast) → Keeps IsCurrent (forward c p s cast)
    unfolding forward
    forward-Keeps cast = Keeps-of-Runs (
        catch-send-Runs s.game (Payload.vote_cast p) s.game.game_instance_id
          (some (cast_hooks c p s cast)) _
          (Runs-then (resolve drop_connection c.room_id p.cast_id "send_failed" round_game_offline)
            (drop_connection s.game)
            (resolve_one-Runs drop_connection (drop_connection-Runs Current) Nowhere c.room_id
              p.cast_id "send_failed" round_game_offline)
            (drop_connection-Runs Current Nowhere s.game)))

    rest-Yields :
        (cast : PendingCast) (fresh : Bool) (now : ℕ)
        → Yields
            (λ h. (After h × OfStart cast) × (is_unchanged c s cast now h ≡ fresh))
            (do
              stale_unless fresh (status c.room_id p.cast_id cast "not_sent:state_changed") p
              modify (update_room c.room_id (add_cast p.cast_id cast))
              forward c p s cast)
            (λ u h. IsCurrent h)
            IsCurrent
    rest-Yields cast true now =
        Yields-modify {Q = IsCurrent} (update_room c.room_id (add_cast p.cast_id cast))
          (forward c p s cast)
          (λ h x. added-IsCurrent cast h x.0.1 x.0.0 (unchanged-generation cast now h x.1))
          (Yields-of-Keeps (forward c p s cast) (forward-Keeps cast) (λ h x. x))
    rest-Yields cast false now = record {
      at = λ h x.
          (Yields-bind {Q = λ u h. ⊥} refused added
              (Yields-bind {Q = λ u h. IsCurrent h} reported (λ u. raise changed)
                (Yields-of-Keeps reported
                  (Keeps-of-Runs (status-Runs c.room_id p.cast_id cast "not_sent:state_changed"))
                  (λ h x. x))
                (λ u. Yields-raise changed (λ h x. x)))
              (λ u. record { at = λ h x. absurd x })).at
            h x.0.0.0;
    }
      where
        changed : ProtocolError
        changed = cast_error round_stale "投票保存期间连接或轮次已变化" p.cast_id

        reported : M (Unit {0})
        reported = status c.room_id p.cast_id cast "not_sent:state_changed"

        refused : M (Unit {0})
        refused = reported >> raise changed

        added : Unit {0} → M (Unit {0})
        added u = modify (update_room c.room_id (add_cast p.cast_id cast)) >> forward c p s cast

    finish_cast-Yields :
        (e : Envelope) (inserted : Bool) (now : ℕ)
        → Yields After (finish_cast c e p s inserted now) (λ u h. IsCurrent h) IsCurrent
    unfolding finish_cast room_at
    finish_cast-Yields e inserted now =
        Yields-guard inserted _ _ (λ h x. x.0)
          (λ ok. Yields-gets (new_cast c e p s) _ (λ cast.
            Yields-modify {Q = λ h. After h × OfStart cast} next_serial_taken _
              (λ h x. (
                (record { open_store = x.0.0.open_store; casts = x.0.0.casts }, x.0.1),
                (
                  ap (λ w. w.generation) (sym x.1),
                  ap (λ w. w.instance_id) (sym x.1),
                  ap (λ w. w.round_id) (sym x.1),
                ),
              ))
              (Yields-gets (λ h. is_unchanged c s cast now h) _
                (λ fresh. rest-Yields cast fresh now))))

  -- The cast between its waits, where the other tasks keep the invariant and the rule of
  -- Hub/Generation.
  module _ (w : Wait) (before : (h : Hub) → After h → After (w.before h))
      (after : (h : Hub) → After h → After (w.after h)) where
    reserved-After : (row : VoteRow) (h : Hub) → After h → After (reserve_vote w.fails row h).1
    unfolding reserve_vote room_at
    reserved-After row h x =
        recorded-After (record_vote w.fails row h.store.database).0 _
          (record { open_store = x.0.open_store; casts = x.0.casts }, x.1)
      where
        recorded-After : (o : Recorded) (h : Hub) → After h → After (recorded o h).1
        recorded-After (returned b) h x = x
        recorded-After failed h x = x

    handle_cast-IsCurrent :
        (e : Envelope) (now : ℕ)
        → Yields At (handle_cast c e p now w) (λ u h. IsCurrent h) IsCurrent
    unfolding handle_cast
    handle_cast-IsCurrent e now =
        Yields-bind (start_cast c e p now) _ (start_cast-Yields e now) (λ s. record {
          at = λ h x.
              (Yields-modify {Q = After} {E = IsCurrent} {R = λ u k. IsCurrent k} w.before
                  (waited s) before
                  (Yields-bind {Q = λ b k. After k} (reserve_vote w.fails (vote_row c p s))
                    (woken s)
                    (Yields-weaken (reserve_vote w.fails (vote_row c p s))
                      (Yields-of-Keeps {P = After} {E = After}
                        (reserve_vote w.fails (vote_row c p s))
                        (record { at = reserved-After (vote_row c p s) }) (λ k y. y))
                      (λ b k y. y) (λ k y. y.0))
                    (λ b.
                      Yields-modify {Q = After} w.after (finish_cast c e p s b w.woken) after
                        (finish_cast-Yields s x.0 e b w.woken)))).at
                h x.1;
        })
      where
        woken : CastStart → Bool → M (Unit {0})
        woken s b = modify w.after >> finish_cast c e p s b w.woken

        waited : CastStart → M (Unit {0})
        waited s = reserve_vote w.fails (vote_row c p s) >>= woken s

-- Steps that keep the invariant, and each room's generation to the rule of Hub/Generation.
abbrev pub IsCalm : (Hub → Hub) → Type 0
IsCalm f =
    (rid : String) (r : RoomRuntime) (h : Hub)
    → IsCurrent h × Line (Follows r) rid h
    → IsCurrent (f h) × Line (Follows r) rid (f h)

-- Where the other tasks of the wait are calm, a Bot's message keeps the invariant.
module _ (w : Wait) (before : IsCalm w.before) (after : IsCalm w.after) where
  bot_message-Keeps :
      (c : Client) (e : Envelope) (now : ℕ) (p : Payload)
      → Keeps IsCurrent (bot_message c e now w p)
  unfolding bot_message
  bot_message-Keeps c e now (Payload.heartbeat_ping p) = send-Keeps c _ none none
  bot_message-Keeps c e now (Payload.heartbeat_pong p) = Keeps-pure tt
  bot_message-Keeps c e now (Payload.vote_cast p) = record {
    at = λ h x.
        Keeps-of-Yields (handle_cast c e p now w)
          (handle_cast-IsCurrent (room_at h c.room_id) c p w
            (before c.room_id (room_at h c.room_id)) (after c.room_id (room_at h c.room_id)) e now)
          h (x, refl);
  }
  bot_message-Keeps c e now _ = Keeps-raise _

  pub handle_bot-Keeps :
      (c : Client) (e : Envelope) (p : Payload) (now : ℕ) → Keeps IsCurrent (handle_bot c e p now w)
  unfolding handle_bot
  handle_bot-Keeps c e p now = search (action_rules, room-Keeps, bot_message-Keeps)
