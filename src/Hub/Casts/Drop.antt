-- ===== src/Hub/Casts/Drop.antt =====
-- The pending casts under `_resolve_all` and `_drop`.
use thchaos_backend.Prelude.{
  ℕ, zero, suc, String, Bool, true, false, Option, none, some, ◌≡◌, eq_iff, eq_refl, ◌==◌,
  string_eq, if◌then◌else◌, inl, inr, ◌⊎◌, subst, sym,
}
use thchaos_backend.Prelude.Dict.{lookup, keys, lookup-keys, lookup-map_values}
use thchaos_backend.Protocol.Errors.{ErrorCode, round_game_offline}
use thchaos_backend.Protocol.Payloads.{Payload}
use thchaos_backend.Connection.{Client, PendingCast, is_client}
use thchaos_backend.Hub.State.{RoomRuntime, Hub, M, ◌>>◌, catch, modify, room_at, update_room}
use thchaos_backend.Hub.Rooms.{
  send, resolve_all, drop_game, tell_offline, tell_offline, game_left, bot_left, forget_origin,
  drop_from, drop_with, discard, drop,
}
use thchaos_backend.Hub.Actions.{Runs, Runs-pure, Runs-modify, Runs-then, Runs-for_each}
use thchaos_backend.Hub.Casts.{
  CastProperty, CastSet, Holds, RoomCasts, Casts, Casts-update_room, Casts-update, catch-send-Runs,
}
use thchaos_backend.Hub.Casts.Resolve.{Stale, resolve_list-Runs}

-- A Bot that leaves is forgotten as the origin of its casts.
RoomCasts-bot_left :
    (B : CastProperty) (S : CastSet) (c : Client) (rid : String) (r : RoomRuntime)
    → RoomCasts B S rid r
    → RoomCasts B S rid (bot_left c r)
RoomCasts-bot_left B S c rid r v cast_id p e =
    let (w, found, same) = lookup-map_values (forget_origin c) cast_id p r.pending_casts e in
    subst (λ q. Holds B rid r q ⊎ S rid cast_id) (sym same)
      (forgotten w (is_client w.origin c) (v cast_id w found))
  where
    forgotten :
        (w : PendingCast) (b : Bool)
        → Holds B rid r w ⊎ S rid cast_id
        → Holds B rid r (if b then record w { origin = none } else w) ⊎ S rid cast_id
    forgotten w true x = x
    forgotten w false x = x

-- All casts of a room, beside those of `S`.
abbrev pub Broken : CastSet → String → CastSet
Broken S rid k cast_id = S k cast_id ⊎ ((rid == k) ≡ true)

module _ (B : CastProperty) (S : CastSet) where
  Stale-of-Broken :
      (rid : String) (h : Hub)
      → Casts B (Broken S rid) h
      → Casts B (Stale S rid (keys (room_at h rid).pending_casts)) h
  unfolding room_at
  Stale-of-Broken rid h c = record {
    open_store = c.open_store;
    casts = λ k cast_id p e. at k cast_id p e (c.casts k cast_id p e);
  }
    where
      at :
          (k cast_id : String) (p : PendingCast)
          → lookup cast_id (room_at h k).pending_casts ≡ some p
          → Holds B k (room_at h k) p ⊎ Broken S rid k cast_id
          → Holds B k (room_at h k) p ⊎ Stale S rid (keys (room_at h rid).pending_casts) k cast_id
      at k cast_id p e (inl b) = inl b
      at k cast_id p e (inr (inl s)) = inr (inl s)
      at k cast_id p e (inr (inr here)) =
          let same : k ≡ rid = sym ((eq_iff rid k).0 here) in
          let found : lookup cast_id (room_at h rid).pending_casts ≡ some p =
            subst (λ j. lookup cast_id (room_at h j).pending_casts ≡ some p) same e in
          inr (inr (here, lookup-keys cast_id p (room_at h rid).pending_casts found))

  -- Any change of the room, once its casts are to be resolved.
  pub Casts-break :
      (rid : String) (f : RoomRuntime → RoomRuntime) (h : Hub)
      → Casts B S h
      → Casts B (Broken S rid) (update_room rid f h)
  Casts-break rid f h c =
      Casts-update_room {B = B} {C = B} {S = S} {T = Broken S rid} rid f h c
        (λ v cast_id p e. inr (inr (eq_refl rid)))
        (λ k r other v cast_id p e. widen (v cast_id p e))
    where
      widen : {P Q R : Type 0} → P ⊎ Q → P ⊎ (Q ⊎ R)
      widen (inl a) = inl a
      widen (inr b) = inr (inl b)

module _ (B : CastProperty) (inner : Client → M (Unit {0}))
    (inner-Runs : (S : CastSet) (c : Client) → Runs (Casts B S) (inner c) (Casts B S)) where
  pub resolve_all-Runs :
      (S : CastSet) (rid reason : String) (code : ErrorCode)
      → Runs (Casts B (Broken S rid)) (resolve_all inner rid reason code) (Casts B S)
  unfolding resolve_all
  resolve_all-Runs S rid reason code = record {
    at = λ h c.
        (resolve_list-Runs inner inner-Runs S rid reason code
            (keys (room_at h rid).pending_casts)).at
          h (Stale-of-Broken B S rid h c);
  }

  tell_offline-Runs :
      (S : CastSet) (c : Client) → Runs (Casts B S) (tell_offline inner c) (Casts B S)
  unfolding tell_offline
  tell_offline-Runs S c = record {
    at = λ h x.
        let notice = λ (r : RoomRuntime). Payload.game_offline (record {
          room_id = r.room_id;
          game_instance_id = c.game_instance_id;
          reason = "game_disconnected";
        }) in
        (Runs-for_each (room_at h c.room_id).bots
            (λ b. catch (send b (notice (room_at h c.room_id)) c.game_instance_id none) (inner b))
            (λ b.
              catch-send-Runs b (notice (room_at h c.room_id)) c.game_instance_id none (inner b)
                (inner-Runs S b))).at
          h x;
  }

  drop_game-Runs : (S : CastSet) (c : Client) → Runs (Casts B S) (drop_game inner c) (Casts B S)
  unfolding drop_game
  drop_game-Runs S c =
      Runs-then (modify (update_room c.room_id game_left))
        (resolve_all inner c.room_id "game_offline" round_game_offline >> tell_offline inner c)
        (Runs-modify (update_room c.room_id game_left) (Casts-break B S c.room_id game_left))
        (Runs-then (resolve_all inner c.room_id "game_offline" round_game_offline)
          (tell_offline inner c) (resolve_all-Runs S c.room_id "game_offline" round_game_offline)
          (tell_offline-Runs S c))

  drop_from-Runs :
      (S : CastSet) (c : Client) (o : Option RoomRuntime)
      → Runs (Casts B S) (drop_from inner c o) (Casts B S)
  drop_from-Runs S c none = Runs-pure
  drop_from-Runs S c (some r) = at (is_client r.game c)
    where
      at :
          (b : Bool)
          → Runs
              (Casts B S)
              (if b then drop_game inner c else modify (update_room c.room_id (bot_left c)))
              (Casts B S)
      at true = drop_game-Runs S c
      at false = Runs-modify (update_room c.room_id (bot_left c)) (λ h x.
          Casts-update c.room_id (bot_left c) h x
            (RoomCasts-bot_left B S c c.room_id (room_at h c.room_id)))

  drop_with-Runs : (S : CastSet) (c : Client) → Runs (Casts B S) (drop_with inner c) (Casts B S)
  unfolding drop_with room_at
  drop_with-Runs S c = record {
    at = λ h x.
        (drop_from-Runs S c (lookup c.room_id h.rooms)).at (discard c h)
          (record { open_store = x.open_store; casts = x.casts });
  }

-- Take any property of a room's identifier, game, generation and active vote and a cast's instance,
-- round, generation and deadline, and any set of casts. If a hub's audit store is open and each of its
-- pending casts has the property or is of the set, then `_drop`, with any fuel, returns without an
-- exception, and the same holds afterwards.
pub drop-Runs :
    (B : CastProperty) (fuel : ℕ) (S : CastSet) (c : Client)
    → Runs (Casts B S) (drop fuel c) (Casts B S)
unfolding drop
drop-Runs B zero S c = Runs-pure
drop-Runs B (suc fuel) S c = drop_with-Runs B (drop fuel) (λ T d. drop-Runs B fuel T d) S c
