-- ===== src/Hub/Casts.antt =====
-- server/hub.py: a property of pending casts that names only what sending and reporting leave
-- alone, up to a set of casts that are about to be resolved.
pub mod Resolve
pub mod Drop
use thchaos_backend.Prelude.{
  ℕ, zero, suc, String, Bool, true, false, Option, none, some, List, [], ◌∷◌, ◌≡◌, refl, arith,
  eq_iff, eq_refl, ◌==◌, string_eq, if◌then◌else◌, Bool-cases, inl, inr, any, ◌⊎◌, subst, sym,
}
use thchaos_backend.Prelude.Dict.{lookup, keys, lookup-remove, lookup-keys, lookup-map_values}
use thchaos_backend.Protocol.Errors.{ErrorCode, round_game_offline, ProtocolError}
use thchaos_backend.Protocol.Payloads.{Payload, VoteOpenedPayload}
use thchaos_backend.Storage.{AuditStore, Job, StatusRow, queue_vote_status}
use thchaos_backend.Storage.Queue.{enqueue-open}
use thchaos_backend.Connection
use thchaos_backend.Connection.{Client, PendingCast, CastHooks, is_client}
use thchaos_backend.Hub.State.{
  RoomRuntime, Hub, done, connection_error, M, ◌>>◌, catch, rescue, modify, for_each, room_at,
  set_room, update_room, update_link,
}
use thchaos_backend.Hub.Rooms.{
  game_instance, send, enqueued, report, status, forget_cast, send_error, broadcast, resolve,
  resolve_pending, resolve_all, drop_game, tell_offline, tell_offline, game_left, bot_left,
  forget_origin, drop_from, drop_with, discard, drop, resolved_status, resolved_error,
}
use thchaos_backend.Hub.Actions.{
  Runs, Runs-pure, Runs-modify, Runs-then, Runs-for_each, room_at-update_room,
}

-- A property of a room's game, generation and active vote, and of a cast's instance, round,
-- generation and deadline.
abbrev pub CastProperty : Type 1
CastProperty = String → Option Client → ℕ → Option VoteOpenedPayload → String → ℕ → ℕ → ℕ → Type 0

-- Casts that are about to be resolved, by room and cast id.
abbrev pub CastSet : Type 1
CastSet = String → String → Type 0

abbrev pub Holds : CastProperty → String → RoomRuntime → PendingCast → Type 0
Holds B rid r p =
    B rid r.game r.generation r.active_vote p.instance_id p.round_id p.generation p.deadline

abbrev pub RoomCasts : CastProperty → CastSet → String → RoomRuntime → Type 0
RoomCasts B S rid r =
    (cast_id : String) (p : PendingCast)
    → lookup cast_id r.pending_casts ≡ some p
    → Holds B rid r p ⊎ S rid cast_id

pub record Casts (B : CastProperty) (S : CastSet) (h : Hub) : Type 0 where
  pub open_store : h.store.is_closing ≡ false
  pub casts : (rid : String) → RoomCasts B S rid (room_at h rid)

-- A change of one room.
pub Casts-update_room :
    {B C : CastProperty} {S T : CastSet} (rid : String) (f : RoomRuntime → RoomRuntime) (h : Hub)
    → Casts B S h
    → (RoomCasts B S rid (room_at h rid) → RoomCasts C T rid (f (room_at h rid)))
    → ((k : String) (r : RoomRuntime) → (rid == k) ≡ false → RoomCasts B S k r → RoomCasts C T k r)
    → Casts C T (update_room rid f h)
unfolding update_room set_room
Casts-update_room {B} {C} {S} {T} rid f h c here there = record {
  open_store = c.open_store;
  casts = λ k. rw (room_at-update_room rid k f h) (at k (Bool-cases (rid == k)));
}
  where
    at :
        (k : String)
        → ((rid == k) ≡ true) ⊎ ((rid == k) ≡ false)
        → RoomCasts C T k (if rid == k then f (room_at h rid) else room_at h k)
    at k (inl e) =
        rw e (
          subst (λ j. RoomCasts C T j (f (room_at h rid))) ((eq_iff rid k).0 e)
            (here (c.casts rid)))
    at k (inr e) = rw e (there k (room_at h k) e (c.casts k))

-- A change of one room under one property and one set.
pub Casts-update :
    {B : CastProperty} {S : CastSet} (rid : String) (f : RoomRuntime → RoomRuntime) (h : Hub)
    → Casts B S h
    → (RoomCasts B S rid (room_at h rid) → RoomCasts B S rid (f (room_at h rid)))
    → Casts B S (update_room rid f h)
Casts-update rid f h c here = Casts-update_room rid f h c here (λ k r e x. x)

module _ {B : CastProperty} {S : CastSet} where
  pub Casts-update_link :
      (id : ℕ) (f : Connection.Link → Connection.Link) (h : Hub)
      → Casts B S h
      → Casts B S (update_link id f h)
  unfolding update_link room_at
  Casts-update_link id f h c = record { open_store = c.open_store; casts = c.casts }

  -- A message that is queued or refused: either way a handler that runs takes over.
  pub catch-send-Runs :
      (c : Client) (p : Payload) (i : Option String) (k : Option CastHooks) (m : M (Unit {0}))
      → Runs (Casts B S) m (Casts B S)
      → Runs (Casts B S) (catch (send c p i k) m) (Casts B S)
  unfolding send
  catch-send-Runs c p i k m r = record {
    at = λ h x.
        let out = Connection.send c p i k (h.links c.id) in
        sent out.0 (update_link c.id (λ _. out.1) h) (Casts-update_link c.id (λ _. out.1) h x);
  }
    where
      sent :
          (b : Bool) (h : Hub)
          → Casts B S h
          → ((rescue (if b then done tt else connection_error) m h).0 ≡ done tt)
            × Casts B S (rescue (if b then done tt else connection_error) m h).1
      sent true h x = (refl, x)
      sent false h x = r.at h x

  pub enqueued-Runs :
      (o : Option AuditStore) (h : Hub)
      → (t : AuditStore) × (o ≡ some t) × (t.is_closing ≡ false)
      → Casts B S h
      → ((enqueued o h).0 ≡ done tt) × Casts B S (enqueued o h).1
  unfolding room_at
  enqueued-Runs none h (t, e, k) x = absurd (cc)
  enqueued-Runs (some s) h (t, e, k) x =
      (refl, record { open_store = ground arith; casts = x.casts })

  pub report-Runs : (u : StatusRow) → Runs (Casts B S) (report u) (Casts B S)
  unfolding report queue_vote_status
  report-Runs u = record {
    at = λ h x. enqueued-Runs _ h (enqueue-open (Job.status u) h.store x.open_store) x;
  }

  pub status-Runs :
      (rid cast_id : String) (p : PendingCast) (t : String)
      → Runs (Casts B S) (status rid cast_id p t) (Casts B S)
  unfolding status
  status-Runs rid cast_id p t = report-Runs _
