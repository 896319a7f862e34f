-- ===== src/Hub/Quiet.antt =====
-- What `_drop` and the helpers of Hub/Rooms keep: any property that the small changes they are made
-- of keep.
use thchaos_backend.Prelude.{ℕ, zero, suc, String, Option, none, some}
use thchaos_backend.Prelude.Dict.{lookup, keys}
use thchaos_backend.Protocol.Errors.{ErrorCode, round_game_offline, ProtocolError}
use thchaos_backend.Protocol.Payloads.{Payload}
use thchaos_backend.Storage.{AuditStore, StatusRow}
use thchaos_backend.Connection
use thchaos_backend.Connection.{Client, PendingCast, CastHooks, Link, is_client}
use thchaos_backend.Hub.State.{
  RoomRuntime, Hub, M, ◌>>◌, catch, modify, room_at, update_room, update_link,
}
use thchaos_backend.Hub.Rooms.{
  send, enqueued, report, status, forget_cast, send_error, broadcast, resolve, resolve_pending,
  resolve_all, drop_game, tell_offline, game_left, bot_left, drop_from, drop_with, discard, drop,
  game_instance, resolved_status, resolved_error,
}
use thchaos_backend.Hub.Actions.{
  Keeps, Keeps-pure, Keeps-modify, Keeps-then, Keeps-catch, Keeps-for_each, Keeps-if,
}

-- Sending, reporting and resolving keep the property.
pub record Quiet (P : Hub → Type 0) : Type 0 where
  pub linked : (id : ℕ) (f : Link → Link) (h : Hub) → P h → P (update_link id f h)
  pub stored : (s : AuditStore) (h : Hub) → P h → P (record h { store = s })
  pub forgot : (rid x : String) (h : Hub) → P h → P (update_room rid (forget_cast x) h)

-- So do the departures of games and Bots.
pub record Steady (P : Hub → Type 0) : Type 0 where
  pub quiet : Quiet P
  pub game_gone : (rid : String) (h : Hub) → P h → P (update_room rid game_left h)
  pub bot_gone : (c : Client) (h : Hub) → P h → P (update_room c.room_id (bot_left c) h)
  pub discarded : (c : Client) (h : Hub) → P h → P (discard c h)

module _ {P : Hub → Type 0} (q : Quiet P) where
  pub send-Keeps :
      (c : Client) (p : Payload) (i : Option String) (k : Option CastHooks) → Keeps P (send c p i k)
  unfolding send
  send-Keeps c p i k = record {
    at = λ h x. q.linked c.id (λ _. (Connection.send c p i k (h.links c.id)).1) h x;
  }

  enqueued-Keeps : (o : Option AuditStore) → Keeps P (enqueued o)
  enqueued-Keeps none = record { at = λ h x. x }
  enqueued-Keeps (some s) = record { at = λ h x. q.stored s h x }

  pub report-Keeps : (u : StatusRow) → Keeps P (report u)
  unfolding report
  report-Keeps u = record { at = λ h x. (enqueued-Keeps _).at h x }

  pub status-Keeps :
      (k cast_id : String) (p : PendingCast) (t : String) → Keeps P (status k cast_id p t)
  unfolding status
  status-Keeps k cast_id p t = report-Keeps _

  pub catch-send-Keeps :
      (c : Client) (p : Payload) (i : Option String) (k : Option CastHooks) (m : M (Unit {0}))
      → Keeps P m
      → Keeps P (catch (send c p i k) m)
  catch-send-Keeps c p i k m r = Keeps-catch (send c p i k) m (send-Keeps c p i k) r

  module _ (inner : Client → M (Unit {0})) (inner-Keeps : (c : Client) → Keeps P (inner c)) where
    pub send_error-Keeps :
        (o : Option Client) (e : ProtocolError) (a b : Option String)
        → Keeps P (send_error inner o e a b)
    unfolding send_error
    send_error-Keeps none e a b = Keeps-pure tt
    send_error-Keeps (some c) e a b = catch-send-Keeps c _ _ _ (inner c) (inner-Keeps c)

    pub broadcast-Keeps : (k : String) (p : Payload) → Keeps P (broadcast inner k p)
    unfolding broadcast
    broadcast-Keeps k p = record {
      at = λ h x.
          (Keeps-for_each (room_at h k).bots
              (λ b. catch (send b p (game_instance (room_at h k)) none) (inner b))
              (λ b.
                catch-send-Keeps b p (game_instance (room_at h k)) none (inner b)
                  (inner-Keeps b))).at
            h x;
    }

    resolve_pending-Keeps :
        (k x reason : String) (code : ErrorCode) (o : Option PendingCast)
        → Keeps P (resolve_pending inner k x reason code o)
    resolve_pending-Keeps k x reason code none = Keeps-pure tt
    resolve_pending-Keeps k x reason code (some p) =
        Keeps-then (modify (update_room k (forget_cast x)))
          (status k x p (resolved_status p reason) >> told)
          (Keeps-modify (update_room k (forget_cast x)) (q.forgot k x))
          (Keeps-then (status k x p (resolved_status p reason)) told
            (status-Keeps k x p (resolved_status p reason))
            (send_error-Keeps p.origin (resolved_error p x code) (some p.message_id) none))
      where
        told : M (Unit {0})
        told = send_error inner p.origin (resolved_error p x code) (some p.message_id) none

    pub resolve-Keeps :
        (k x reason : String) (code : ErrorCode) → Keeps P (resolve inner k x reason code)
    unfolding resolve
    resolve-Keeps k x reason code = record {
      at = λ h v.
          (resolve_pending-Keeps k x reason code (lookup x (room_at h k).pending_casts)).at h v;
    }

    pub resolve_all-Keeps :
        (k reason : String) (code : ErrorCode) → Keeps P (resolve_all inner k reason code)
    unfolding resolve_all
    resolve_all-Keeps k reason code = record {
      at = λ h v.
          (Keeps-for_each (keys (room_at h k).pending_casts) (λ x. resolve inner k x reason code)
              (λ x. resolve-Keeps k x reason code)).at
            h v;
    }

    pub tell_offline-Keeps : (c : Client) → Keeps P (tell_offline inner c)
    unfolding tell_offline
    tell_offline-Keeps c = record {
      at = λ h x.
          let notice : Payload = Payload.game_offline (record {
            room_id = (room_at h c.room_id).room_id;
            game_instance_id = c.game_instance_id;
            reason = "game_disconnected";
          }) in
          (Keeps-for_each (room_at h c.room_id).bots
              (λ b. catch (send b notice c.game_instance_id none) (inner b))
              (λ b. catch-send-Keeps b notice c.game_instance_id none (inner b) (inner-Keeps b))).at
            h x;
    }

    -- A property that the departure of a connection keeps.
    module _ (s : Steady P) where
      drop_game-Keeps : (c : Client) → Keeps P (drop_game inner c)
      unfolding drop_game
      drop_game-Keeps c =
          Keeps-then (modify (update_room c.room_id game_left))
            (resolve_all inner c.room_id "game_offline" round_game_offline >> tell_offline inner c)
            (Keeps-modify (update_room c.room_id game_left) (s.game_gone c.room_id))
            (Keeps-then (resolve_all inner c.room_id "game_offline" round_game_offline)
              (tell_offline inner c) (resolve_all-Keeps c.room_id "game_offline" round_game_offline)
              (tell_offline-Keeps c))

      pub drop_from-Keeps : (c : Client) (o : Option RoomRuntime) → Keeps P (drop_from inner c o)
      drop_from-Keeps c none = Keeps-pure tt
      drop_from-Keeps c (some r) =
          Keeps-if (is_client r.game c) (drop_game inner c)
            (modify (update_room c.room_id (bot_left c))) (drop_game-Keeps c)
            (Keeps-modify (update_room c.room_id (bot_left c)) (s.bot_gone c))

      drop_with-Keeps : (c : Client) → Keeps P (drop_with inner c)
      unfolding drop_with
      drop_with-Keeps c = record {
        at = λ h v.
            (drop_from-Keeps c (lookup c.room_id h.rooms)).at (discard c h) (s.discarded c h v);
      }

-- `_drop` keeps every property that the departures keep.
pub drop-Keeps : {P : Hub → Type 0} (s : Steady P) (fuel : ℕ) (c : Client) → Keeps P (drop fuel c)
unfolding drop
drop-Keeps s zero c = Keeps-pure tt
drop-Keeps s (suc fuel) c = drop_with-Keeps s.quiet (drop fuel) (λ d. drop-Keeps s fuel d) s c
