-- ===== src/Hub/Casts/Resolve.antt =====
-- Pending casts that are resolved: they leave the set of those that need not have the property.
use thchaos_backend.Prelude.{
  String, true, false, Option, none, some, List, [], ◌∷◌, ◌≡◌, refl, arith, eq_iff, ◌==◌, string_eq,
  Bool-cases, inl, inr, any, ◌⊎◌,
}
use thchaos_backend.Prelude.Dict.{lookup, lookup-remove}
use thchaos_backend.Protocol.Errors.{ErrorCode, ProtocolError}
use thchaos_backend.Protocol.Payloads.{Payload}
use thchaos_backend.Connection.{Client, PendingCast}
use thchaos_backend.Hub.State.{
  RoomRuntime, Hub, done, M, ◌>>◌, catch, modify, for_each, room_at, update_room,
}
use thchaos_backend.Hub.Rooms.{
  game_instance, send, status, forget_cast, send_error, broadcast, resolve, resolve_pending,
  resolved_status, resolved_error,
}
use thchaos_backend.Hub.Actions.{Runs, Runs-pure, Runs-modify, Runs-then, Runs-for_each}
use thchaos_backend.Hub.Casts.{
  CastProperty, CastSet, Holds, RoomCasts, Casts, Casts-update_room, catch-send-Runs, status-Runs,
}

-- The casts of a list of ids in one room, beside those of `S`.
abbrev pub Stale : CastSet → String → List String → CastSet
Stale S rid ids k cast_id =
    S k cast_id ⊎ (((rid == k) ≡ true) × (any (λ j. j == cast_id) ids ≡ true))

-- `P` or a cast of the list: with one id less, where the cast has another id or another room.
module _ (S : CastSet) (rid x : String) (ids : List String) (k cast_id : String) {P : Type 0} where
  fewer :
      (x == cast_id) ≡ false → P ⊎ Stale S rid (x ∷ ids) k cast_id → P ⊎ Stale S rid ids k cast_id
  fewer miss (inl b) = inl b
  fewer miss (inr (inl s)) = inr (inl s)
  fewer miss (inr (inr (e, m))) = inr (inr (e, ground arith))

  elsewhere :
      (rid == k) ≡ false → P ⊎ Stale S rid (x ∷ ids) k cast_id → P ⊎ Stale S rid ids k cast_id
  elsewhere other (inl b) = inl b
  elsewhere other (inr (inl s)) = inr (inl s)
  elsewhere other (inr (inr (e, m))) = absurd (cc)

none_left :
    (S : CastSet) (rid k cast_id : String) {P : Type 0}
    → P ⊎ Stale S rid [] k cast_id
    → P ⊎ S k cast_id
none_left S rid k cast_id (inl b) = inl b
none_left S rid k cast_id (inr (inl s)) = inr s
none_left S rid k cast_id (inr (inr (e, m))) = absurd (cc)

module _ (B : CastProperty) (S : CastSet) where
  -- One cast less.
  RoomCasts-remove :
      (rid x : String) (ids : List String) (r : RoomRuntime)
      → RoomCasts B (Stale S rid (x ∷ ids)) rid r
      → RoomCasts B (Stale S rid ids) rid (forget_cast x r)
  RoomCasts-remove rid x ids r c cast_id p e = elim (Bool-cases (x == cast_id)) [
    | inl hit ↦ absurd (ground (arith, lookup-remove x cast_id r.pending_casts))
    | inr miss ↦
        fewer S rid x ids rid cast_id miss
          (c cast_id p (ground (arith, lookup-remove x cast_id r.pending_casts)))
  ]

  Casts-remove :
      (rid x : String) (ids : List String) (h : Hub)
      → Casts B (Stale S rid (x ∷ ids)) h
      → Casts B (Stale S rid ids) (update_room rid (forget_cast x) h)
  Casts-remove rid x ids h c =
      Casts-update_room {B = B} {C = B} {S = Stale S rid (x ∷ ids)} {T = Stale S rid ids} rid
        (forget_cast x) h c (RoomCasts-remove rid x ids (room_at h rid))
        (λ k r other v cast_id q e. elsewhere S rid x ids k cast_id other (v cast_id q e))

  RoomCasts-absent :
      (rid x : String) (ids : List String) (h : Hub)
      → lookup x (room_at h rid).pending_casts ≡ none
      → Casts B (Stale S rid (x ∷ ids)) h
      → Casts B (Stale S rid ids) h
  unfolding room_at
  RoomCasts-absent rid x ids h absent c = record {
    open_store = c.open_store;
    casts = λ k cast_id p e. at k cast_id p e (c.casts k cast_id p e);
  }
    where
      at :
          (k cast_id : String) (p : PendingCast)
          → lookup cast_id (room_at h k).pending_casts ≡ some p
          → Holds B k (room_at h k) p ⊎ Stale S rid (x ∷ ids) k cast_id
          → Holds B k (room_at h k) p ⊎ Stale S rid ids k cast_id
      at k cast_id p e (inl b) = inl b
      at k cast_id p e (inr (inl s)) = inr (inl s)
      at k cast_id p e (inr (inr (here, m))) = elim (Bool-cases (x == cast_id)) [
        | inl hit ↦
            let room : rid ≡ k = (eq_iff rid k).0 here in
            let cast : x ≡ cast_id = (eq_iff x cast_id).0 hit in absurd (cc (absent, e, room, cast))
        | inr miss ↦ inr (inr (here, ground arith))
      ]

  pub Casts-done : (rid : String) (h : Hub) → Casts B (Stale S rid []) h → Casts B S h
  unfolding room_at
  Casts-done rid h c = record {
    open_store = c.open_store;
    casts = λ k cast_id p e. none_left S rid k cast_id (c.casts k cast_id p e);
  }

-- Where the inner `_drop` is sound, so is each of the functions above it.
module _ {B : CastProperty} (inner : Client → M (Unit {0}))
    (inner-Runs : (S : CastSet) (c : Client) → Runs (Casts B S) (inner c) (Casts B S)) where
  pub send_error-Runs :
      (S : CastSet) (o : Option Client) (e : ProtocolError) (a b : Option String)
      → Runs (Casts B S) (send_error inner o e a b) (Casts B S)
  unfolding send_error
  send_error-Runs S none e a b = Runs-pure
  send_error-Runs S (some c) e a b = catch-send-Runs c _ _ _ (inner c) (inner-Runs S c)

  pub broadcast-Runs :
      (S : CastSet) (rid : String) (p : Payload)
      → Runs (Casts B S) (broadcast inner rid p) (Casts B S)
  unfolding broadcast
  broadcast-Runs S rid p = record {
    at = λ h x.
        (Runs-for_each (room_at h rid).bots
            (λ b. catch (send b p (game_instance (room_at h rid)) none) (inner b))
            (λ b.
              catch-send-Runs b p (game_instance (room_at h rid)) none (inner b)
                (inner-Runs S b))).at
          h x;
  }

  resolve_pending-Runs :
      (S : CastSet) (rid x reason : String) (code : ErrorCode) (ids : List String) (p : PendingCast)
      → Runs
          (Casts B (Stale S rid (x ∷ ids)))
          (resolve_pending inner rid x reason code (some p))
          (Casts B (Stale S rid ids))
  unfolding resolve
  resolve_pending-Runs S rid x reason code ids p =
      Runs-then (modify (update_room rid (forget_cast x)))
        (status rid x p (resolved_status p reason) >> told)
        (Runs-modify (update_room rid (forget_cast x)) (Casts-remove B S rid x ids))
        (Runs-then (status rid x p (resolved_status p reason)) told
          (status-Runs rid x p (resolved_status p reason))
          (send_error-Runs (Stale S rid ids) p.origin (resolved_error p x code) (some p.message_id)
            none))
    where
      told : M (Unit {0})
      told = send_error inner p.origin (resolved_error p x code) (some p.message_id) none

  pub resolve-Runs :
      (S : CastSet) (rid x reason : String) (code : ErrorCode) (ids : List String)
      → Runs
          (Casts B (Stale S rid (x ∷ ids)))
          (resolve inner rid x reason code)
          (Casts B (Stale S rid ids))
  unfolding resolve
  resolve-Runs S rid x reason code ids = record {
    at = λ h c. resolved h c (lookup x (room_at h rid).pending_casts) refl;
  }
    where
      resolved :
          (h : Hub)
          → Casts B (Stale S rid (x ∷ ids)) h
          → (o : Option PendingCast) → lookup x (room_at h rid).pending_casts ≡ o
          → ((resolve_pending inner rid x reason code o h).0 ≡ done tt)
            × Casts B (Stale S rid ids) (resolve_pending inner rid x reason code o h).1
      resolved h c none e = (refl, RoomCasts-absent B S rid x ids h e c)
      resolved h c (some p) e = (resolve_pending-Runs S rid x reason code ids p).at h c

  pub resolve_list-Runs :
      (S : CastSet) (rid reason : String) (code : ErrorCode) (ids : List String)
      → Runs
          (Casts B (Stale S rid ids))
          (for_each ids (λ x. resolve inner rid x reason code))
          (Casts B S)
  unfolding for_each
  resolve_list-Runs S rid reason code [] = record { at = λ h c. (refl, Casts-done B S rid h c) }
  resolve_list-Runs S rid reason code (x ∷ ids) =
      Runs-then (resolve inner rid x reason code) _ (resolve-Runs S rid x reason code ids)
        (resolve_list-Runs S rid reason code ids)

  Casts-widen :
      (S : CastSet) (rid : String) (ids : List String) (h : Hub)
      → Casts B S h
      → Casts B (Stale S rid ids) h
  unfolding room_at
  Casts-widen S rid ids h c = record {
    open_store = c.open_store;
    casts = λ k cast_id p e. at k cast_id p (c.casts k cast_id p e);
  }
    where
      at :
          (k cast_id : String) (p : PendingCast)
          → Holds B k (room_at h k) p ⊎ S k cast_id
          → Holds B k (room_at h k) p ⊎ Stale S rid ids k cast_id
      at k cast_id p (inl b) = inl b
      at k cast_id p (inr s) = inr (inl s)

  pub resolve_one-Runs :
      (S : CastSet) (rid x reason : String) (code : ErrorCode)
      → Runs (Casts B S) (resolve inner rid x reason code) (Casts B S)
  resolve_one-Runs S rid x reason code = record {
    at = λ h c.
        let ran = (resolve-Runs S rid x reason code []).at h (Casts-widen S rid (x ∷ []) h c) in
        (ran.0, Casts-done B S rid _ ran.1);
  }
