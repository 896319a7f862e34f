-- ===== src/Hub/Fuel/Housed.antt =====
-- The Bots of a room and the origins of its pending casts are connections of the room: the helpers of
-- Hub/Rooms keep it.
use thchaos_backend.Prelude.{
  String, true, false, ◌≡◌, ◌⊎◌, inl, inr, ◌==◌, string_eq, eq_iff, if◌then◌else◌, Bool-cases,
  subst, sym, some, ◌∙◌,
}
use thchaos_backend.Prelude.Dict.{lookup, insert, lookup-insert}
use thchaos_backend.Protocol.Errors.{ErrorCode}
use thchaos_backend.Protocol.Payloads.{Payload}
use thchaos_backend.Connection.{Client, PendingCast}
use thchaos_backend.Hub.State.{RoomRuntime, Hub, modify, room_at, update_room, update_link}
use thchaos_backend.Hub.Rooms.{
  forget_cast, game_left, bot_left, broadcast, resolve_all, drop_connection,
}
use thchaos_backend.Hub.Actions.{Keeps, Keeps-modify, room_at-update_room}
use thchaos_backend.Hub.Quiet.{Quiet, Steady, drop-Keeps, broadcast-Keeps, resolve_all-Keeps}
use thchaos_backend.Hub.Fuel.Enough.{InRoom, IsFrom, forget-InRoom, left-InRoom}

-- A pending cast whose origin is in the room.
pub insert-InRoom :
    (rid x : String) (cast : PendingCast) (r : RoomRuntime)
    → IsFrom rid cast
    → InRoom rid r
    → InRoom rid (record r { pending_casts = insert x cast r.pending_casts })
insert-InRoom rid x cast r from (bots, casts) =
    (bots, λ y p e. at y p (Bool-cases (x == y)) (sym (lookup-insert x y cast r.pending_casts) ∙ e))
  where
    at :
        (y : String) (p : PendingCast)
        → ((x == y) ≡ true) ⊎ ((x == y) ≡ false)
        → (if x == y then some cast else lookup y r.pending_casts) ≡ some p
        → IsFrom rid p
    at y p (inl same) e =
        let f : some cast ≡ some p = rw same at e in
        let found : cast ≡ p = cc in subst (IsFrom rid) found from
    at y p (inr other) e = casts y p (rw other at e)

abbrev pub Housed : String → Hub → Type 0
Housed rid h = InRoom rid (room_at h rid)

change-Housed :
    (rid k : String) (f : RoomRuntime → RoomRuntime) (h : Hub)
    → ((r : RoomRuntime) → k ≡ rid → InRoom rid r → InRoom rid (f r))
    → Housed rid h
    → Housed rid (update_room k f h)
change-Housed rid k f h keep g =
    subst (InRoom rid) (sym (room_at-update_room k rid f h)) (at (Bool-cases (k == rid)))
  where
    at :
        ((k == rid) ≡ true) ⊎ ((k == rid) ≡ false)
        → InRoom rid (if k == rid then f (room_at h k) else room_at h rid)
    at (inl e) = rw e (
        keep (room_at h k) ((eq_iff k rid).0 e)
          (subst (λ j. InRoom rid (room_at h j)) (sym ((eq_iff k rid).0 e)) g))
    at (inr e) = rw e g

module _ (rid : String) where
  pub Housed-update :
      (k : String) (f : RoomRuntime → RoomRuntime)
      → ((r : RoomRuntime) → k ≡ rid → InRoom rid r → InRoom rid (f r))
      → Keeps (Housed rid) (modify (update_room k f))
  Housed-update k f keep = Keeps-modify (update_room k f) (λ h. change-Housed rid k f h keep)

  pub Quiet-Housed : Quiet (Housed rid)
  unfolding room_at update_link
  Quiet-Housed = record {
    linked = λ id f h x. x;
    stored = λ s h x. x;
    forgot = λ k x h v. change-Housed rid k (forget_cast x) h (λ r e y. forget-InRoom rid x r y) v;
  }

  Steady-Housed : Steady (Housed rid)
  unfolding room_at
  Steady-Housed = record {
    quiet = Quiet-Housed;
    game_gone = λ k h v. change-Housed rid k game_left h (λ r e y. y) v;
    bot_gone =
        λ c h v. change-Housed rid c.room_id (bot_left c) h (λ r e y. left-InRoom rid c r y) v;
    discarded = λ c h v. v;
  }

  pub drop-Housed : (c : Client) → Keeps (Housed rid) (drop_connection c)
  drop-Housed c = drop-Keeps Steady-Housed 2 c

  pub broadcast-Housed :
      (k : String) (p : Payload) → Keeps (Housed rid) (broadcast drop_connection k p)
  broadcast-Housed k p = broadcast-Keeps Quiet-Housed drop_connection drop-Housed k p

  pub resolve_all-Housed :
      (k reason : String) (code : ErrorCode)
      → Keeps (Housed rid) (resolve_all drop_connection k reason code)
  resolve_all-Housed k reason code =
      resolve_all-Keeps Quiet-Housed drop_connection drop-Housed k reason code
