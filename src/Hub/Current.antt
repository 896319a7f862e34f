-- ===== src/Hub/Current.antt =====
-- The pending casts of a room belong to its game, its generation and its open round: the invariant
-- and the helpers that keep it.
pub mod Game
pub mod Bot
pub mod Steps
pub mod Writer
pub mod Reach
use thchaos_backend.Prelude.{
  ℕ, ◌+◌, String, Bool, true, false, Option, none, some, ◌≡◌, refl, arith, eq_iff, eq_refl, ◌==◌,
  string_eq, if◌then◌else◌, Bool-cases, inl, inr, ◌⊎◌, sym, ◌∙◌, ap, subst,
}
use thchaos_backend.Prelude.Dict.{lookup, remove, lookup-remove}
use thchaos_backend.Protocol.Errors.{ErrorCode}
use thchaos_backend.Protocol.Payloads.{Payload, VoteOpenedPayload}
use thchaos_backend.Storage.{StatusRow}
use thchaos_backend.Connection.{Client, PendingCast, CastHooks}
use thchaos_backend.Hub.State.{
  RoomRuntime, Hub, or_new, M, pure, ◌>>=◌, ◌>>◌, catch, modify, room_at, update_room, update_link,
}
use thchaos_backend.Hub.Rooms.{
  send, status, report, forget_cast, broadcast, resolve, resolve_all, drop, drop_connection,
}
use thchaos_backend.Hub.Game.{or_empty}
use thchaos_backend.Hub.Actions.{
  Runs, Runs-modify, Runs-then, Runs-weaken, Keeps, Keeps-modify, Keeps-of-Runs,
}
use thchaos_backend.Hub.Casts.{
  CastProperty, CastSet, Holds, RoomCasts, Casts, Casts-update_room, Casts-update, catch-send-Runs,
  report-Runs, status-Runs,
}
use thchaos_backend.Hub.Casts.Resolve.{broadcast-Runs}
use thchaos_backend.Hub.Casts.Drop.{Broken, resolve_all-Runs, drop-Runs}

-- The cast has the room's generation, the instance of its game and the round of its active vote.
abbrev pub Current : CastProperty
Current rid g n a instance_id round_id generation deadline =
    (generation ≡ n)
    × ((c : Client) × (g ≡ some c) × (or_empty c.game_instance_id ≡ instance_id))
    × ((v : VoteOpenedPayload) × (a ≡ some v) × (v.round_id ≡ round_id))

-- The same, in a room that is not `target`.
abbrev pub Away : String → CastProperty
Away target rid g n a instance_id round_id generation deadline =
    ((target == rid) ≡ false) × Current rid g n a instance_id round_id generation deadline

abbrev pub Nowhere : CastSet
Nowhere rid cast_id = ⊥

-- Every pending cast of every room is current, and the audit store is open.
abbrev pub IsCurrent : Hub → Type 0
IsCurrent h = Casts Current Nowhere h

pub drop_connection-Runs :
    (B : CastProperty) (S : CastSet) (c : Client) → Runs (Casts B S) (drop_connection c) (Casts B S)
drop_connection-Runs B S c = drop-Runs B 2 S c

-- A change of the room whose casts are to be resolved next.
IsCurrent-break :
    (k : String) (f : RoomRuntime → RoomRuntime) (h : Hub)
    → IsCurrent h
    → Casts (Away k) (Broken Nowhere k) (update_room k f h)
IsCurrent-break k f h c =
    Casts-update_room {B = Current} {C = Away k} {S = Nowhere} {T = Broken Nowhere k} k f h c
      (λ v cast_id p e. inr (inr (eq_refl k)))
      (λ j r other v cast_id p e. away j r p other (v cast_id p e))
  where
    away :
        (j : String) (r : RoomRuntime) (p : PendingCast) {T : Type 0}
        → (k == j) ≡ false
        → Holds Current j r p ⊎ ⊥
        → Holds (Away k) j r p ⊎ T
    away j r p other (inl b) = inl (other, b)
    away j r p other (inr x) = absurd x

-- A change of the room once it has no casts.
IsCurrent-mend :
    (k : String) (f : RoomRuntime → RoomRuntime) (h : Hub)
    → ((x : RoomRuntime) → (f x).pending_casts ≡ x.pending_casts)
    → Casts (Away k) Nowhere h
    → IsCurrent (update_room k f h)
IsCurrent-mend k f h same c =
    Casts-update_room {B = Away k} {C = Current} {S = Nowhere} {T = Nowhere} k f h c
      (λ v cast_id p e.
        home (room_at h k) p (v cast_id p (ap (lookup cast_id) (sym (same (room_at h k))) ∙ e)))
      (λ j r other v cast_id p e. back j r p (v cast_id p e))
  where
    home : (r : RoomRuntime) (p : PendingCast) {T : Type 0} → Holds (Away k) k r p ⊎ ⊥ → T
    home r p (inl (other, b)) = absurd (ground (arith, eq_refl k))
    home r p (inr x) = absurd x

    back :
        (j : String) (r : RoomRuntime) (p : PendingCast)
        → Holds (Away k) j r p ⊎ ⊥
        → Holds Current j r p ⊎ ⊥
    back j r p (inl (other, b)) = inl b
    back j r p (inr x) = absurd x

-- A room that changes its generation, resolves its casts and then sets its new round.
pub replace-Runs :
    (k reason : String) (code : ErrorCode) (f g : RoomRuntime → RoomRuntime) (p : Payload)
    → ((x : RoomRuntime) → (g x).pending_casts ≡ x.pending_casts)
    → Runs IsCurrent
        (do
          modify (update_room k f)
          resolve_all drop_connection k reason code
          modify (update_room k g)
          broadcast drop_connection k p)
        IsCurrent
replace-Runs k reason code f g p same =
    Runs-then (modify (update_room k f)) _ (Runs-modify (update_room k f) (IsCurrent-break k f)) (
      Runs-then (resolve_all drop_connection k reason code) _
        (resolve_all-Runs (Away k) drop_connection (drop_connection-Runs (Away k)) Nowhere k reason
          code)
        (Runs-then (modify (update_room k g)) (broadcast drop_connection k p)
          (Runs-modify (update_room k g) (λ h. IsCurrent-mend k g h same))
          (broadcast-Runs drop_connection (drop_connection-Runs Current) Nowhere k p)))

IsCurrent-of-Away : (k : String) (h : Hub) → Casts (Away k) Nowhere h → IsCurrent h
unfolding room_at
IsCurrent-of-Away k h c = record {
  open_store = c.open_store;
  casts = λ j cast_id p e. back j (room_at h j) p (c.casts j cast_id p e);
}
  where
    back :
        (j : String) (r : RoomRuntime) (p : PendingCast)
        → Holds (Away k) j r p ⊎ ⊥
        → Holds Current j r p ⊎ ⊥
    back j r p (inl (other, b)) = inl b
    back j r p (inr x) = absurd x

-- A room that gives up its round and resolves its casts.
pub clear-Runs :
    (k reason : String) (code : ErrorCode) (f : RoomRuntime → RoomRuntime) (p : Payload)
    → Runs IsCurrent
        (do
          modify (update_room k f)
          resolve_all drop_connection k reason code
          broadcast drop_connection k p)
        IsCurrent
clear-Runs k reason code f p =
    Runs-then (modify (update_room k f)) _ (Runs-modify (update_room k f) (IsCurrent-break k f)) (
      Runs-then (resolve_all drop_connection k reason code) _
        (resolve_all-Runs (Away k) drop_connection (drop_connection-Runs (Away k)) Nowhere k reason
          code)
        (Runs-weaken (broadcast drop_connection k p)
          (broadcast-Runs drop_connection (drop_connection-Runs (Away k)) Nowhere k p)
          (IsCurrent-of-Away k)))

-- A change that leaves game, generation, active vote and pending casts alone.
pub IsCurrent-update :
    (k : String) (f : RoomRuntime → RoomRuntime) (h : Hub)
    → ((x : RoomRuntime)
        → ((f x).game ≡ x.game)
          × ((f x).generation ≡ x.generation)
          × ((f x).active_vote ≡ x.active_vote)
          × ((f x).pending_casts ≡ x.pending_casts))
    → IsCurrent h
    → IsCurrent (update_room k f h)
IsCurrent-update k f h same c =
    Casts-update {B = Current} {S = Nowhere} k f h c
      (λ v cast_id p e. moved (room_at h k) cast_id p (v cast_id p) (same (room_at h k)) e)
  where
    moved :
        (x : RoomRuntime) (cast_id : String) (p : PendingCast)
        → (lookup cast_id x.pending_casts ≡ some p → Holds Current k x p ⊎ ⊥)
        → ((f x).game ≡ x.game)
          × ((f x).generation ≡ x.generation)
          × ((f x).active_vote ≡ x.active_vote)
          × ((f x).pending_casts ≡ x.pending_casts)
        → lookup cast_id (f x).pending_casts ≡ some p
        → Holds Current k (f x) p ⊎ ⊥
    moved x cast_id p v (g, n, a, q) e = elim (v (ap (lookup cast_id) (sym q) ∙ e)) [
      | inl (m, (d, gd, i), (w, aw, o)) ↦ inl (m ∙ sym n, (d, g ∙ gd, i), (w, a ∙ aw, o))
      | inr x ↦ absurd x
    ]

-- A cast that leaves.
pub IsCurrent-forget :
    (k x : String) (h : Hub) → IsCurrent h → IsCurrent (update_room k (forget_cast x) h)
IsCurrent-forget k x h c =
    Casts-update {B = Current} {S = Nowhere} k (forget_cast x) h c (λ v cast_id p e.
      v cast_id p (elim (Bool-cases (x == cast_id)) [
        | inl hit ↦ absurd (ground (arith, lookup-remove x cast_id (room_at h k).pending_casts))
        | inr miss ↦ ground (arith, lookup-remove x cast_id (room_at h k).pending_casts)
      ]))

-- A change outside the rooms and the store.
pub IsCurrent-beside :
    (f : Hub → Hub)
    → ((h : Hub) → ((f h).rooms ≡ h.rooms) × ((f h).store ≡ h.store))
    → (h : Hub) → IsCurrent h
    → IsCurrent (f h)
unfolding room_at
IsCurrent-beside f same h c =
    let (rooms, store) = same h in
    record {
      open_store = subst (λ s. s.is_closing ≡ false) (sym store) c.open_store;
      casts =
          subst (λ d. (k : String) → RoomCasts Current Nowhere k (or_new k (lookup k d)))
            (sym rooms) c.casts;
    }
