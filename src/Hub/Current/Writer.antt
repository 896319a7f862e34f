-- ===== src/Hub/Current/Writer.antt =====
-- The tasks that send and that write the audit trail, under the invariant of Hub/Current.
use thchaos_backend.Prelude.{
  ℕ, ◌-◌, String, Bool, true, false, Option, none, some, ◌≡◌, refl, arith, ◌==◌, string_eq, nat_eq,
  if◌then◌else◌, inl, inr, ◌⊎◌, ◌∙◌, subst, Bool-cases,
}
use thchaos_backend.Prelude.Dict.{lookup, insert, lookup-insert}
use thchaos_backend.Storage.{AuditStore, worker_get, worker_gather, worker_write}
use thchaos_backend.Connection.{
  Client, PendingCast, CastHooks, Outbound, Link, take_item, make_frame,
}
use thchaos_backend.Hub.State.{RoomRuntime, Hub, modify, room_at, update_link}
use thchaos_backend.Hub.Rooms.{status}
use thchaos_backend.Hub.Game.{push_sample}
use thchaos_backend.Hub.Writer.{
  Round, idle, skipped, sending, attempt, hooks_valid, hooks_start, on_start, on_sent, begin_item,
  begin_run, begin_send, end_send,
}
use thchaos_backend.Hub.Actions.{Keeps, Keeps-pure, Keeps-modify, Keeps-then, Keeps-of-Runs}
use thchaos_backend.Hub.Casts.{Holds, RoomCasts, Casts-update, status-Runs}
use thchaos_backend.Hub.Current.{Current, Nowhere, IsCurrent, IsCurrent-beside}
use thchaos_backend.Hub.Current.Steps.{linked-IsCurrent}

attempt-RoomCasts :
    (k : CastHooks) (r : RoomRuntime) (o : Option PendingCast)
    → lookup k.cast_id r.pending_casts ≡ o
    → RoomCasts Current Nowhere k.room_id r
    → RoomCasts Current Nowhere k.room_id (attempt k r o)
attempt-RoomCasts k r none e v = v
attempt-RoomCasts k r (some q) e v = at (q.serial == k.pending.serial)
  where
    marked : PendingCast
    marked = record q { attempted = true }

    entry :
        (cast_id : String) (p : PendingCast)
        → ((k.cast_id == cast_id) ≡ true) ⊎ ((k.cast_id == cast_id) ≡ false)
        → lookup cast_id (insert k.cast_id marked r.pending_casts) ≡ some p
        → Holds Current k.room_id r p ⊎ ⊥
    entry cast_id p (inl hit) found =
        let same : some marked ≡ some p =
          ground (arith, lookup-insert k.cast_id cast_id marked r.pending_casts) in
        let is_marked : marked ≡ p = cc in
        subst (λ w. Holds Current k.room_id r w ⊎ ⊥) is_marked (v k.cast_id q e)
    entry cast_id p (inr miss) found =
        v cast_id p (ground (arith, lookup-insert k.cast_id cast_id marked r.pending_casts))

    at :
        (b : Bool)
        → RoomCasts Current Nowhere k.room_id (
            if b
            then record r {
              pending_casts = insert k.cast_id (record q { attempted = true }) r.pending_casts;
            }
            else r)
    at true cast_id p found = entry cast_id p (Bool-cases (k.cast_id == cast_id)) found
    at false cast_id p found = v cast_id p found

pub begin_run-IsCurrent : (c : Client) (h : Hub) → IsCurrent h → IsCurrent (begin_run c h)
unfolding begin_run
begin_run-IsCurrent c h x = linked-IsCurrent c.id (λ l. record l { is_started = true }) h x

-- The task that sends marks a cast as attempted.
on_start-IsCurrent : (k : CastHooks) (h : Hub) → IsCurrent h → IsCurrent (on_start k h)
unfolding on_start
on_start-IsCurrent k h x =
    Casts-update {B = Current} {S = Nowhere} k.room_id
      (λ r. attempt k r (lookup k.cast_id r.pending_casts)) h x
      (attempt-RoomCasts k (room_at h k.room_id)
        (lookup k.cast_id (room_at h k.room_id).pending_casts) refl)

begin_item-IsCurrent :
    (c : Client) (now : ℕ) (o : Option (Outbound × Link)) (h : Hub)
    → IsCurrent h
    → IsCurrent (begin_item c now o h).1
begin_item-IsCurrent c now none h x = x
begin_item-IsCurrent c now (some (item, l)) h x = at (hooks_valid item.hooks now h)
  where
    started : (o : Option CastHooks) (h : Hub) → IsCurrent h → IsCurrent (hooks_start o h)
    started none h x = x
    started (some k) h x = on_start-IsCurrent k h x

    at :
        (b : Bool)
        → let out : Round × Hub =
            if b
            then (
              sending item (make_frame c item l).0,
              hooks_start item.hooks (update_link c.id (λ _. (make_frame c item l).1) h),
            )
            else (skipped item, update_link c.id (λ _. l) h) in
          IsCurrent out.1
    at true = started item.hooks _ (linked-IsCurrent c.id (λ _. (make_frame c item l).1) h x)
    at false = linked-IsCurrent c.id (λ _. l) h x

pub begin_send-IsCurrent :
    (c : Client) (now : ℕ) (h : Hub) → IsCurrent h → IsCurrent (begin_send c now h).1
unfolding begin_send
begin_send-IsCurrent c now h x = at (h.links c.id).is_closed
  where
    at :
        (b : Bool)
        → let out : Round × Hub =
            if b then (idle, h) else begin_item c now (take_item (h.links c.id)) h in
          IsCurrent out.1
    at true = x
    at false = begin_item-IsCurrent c now (take_item (h.links c.id)) h x

-- What `on_sent` measures.
counted : CastHooks → ℕ → Hub → Hub
counted k now h = record h { forward_ms = push_sample (now - k.pending.created_at) h.forward_ms }

counted-Keeps : (k : CastHooks) (now : ℕ) → Keeps IsCurrent (modify (counted k now))
unfolding counted
counted-Keeps k now =
    Keeps-modify (counted k now) (IsCurrent-beside (counted k now) (λ h. (refl, refl)))

pub end_send-IsCurrent : (o : Option CastHooks) (now : ℕ) → Keeps IsCurrent (end_send o now)
unfolding end_send on_sent counted
end_send-IsCurrent none now = Keeps-pure tt
end_send-IsCurrent (some k) now =
    Keeps-then (modify (counted k now)) (status k.room_id k.cast_id k.pending "forwarded")
      (counted-Keeps k now) (Keeps-of-Runs (status-Runs k.room_id k.cast_id k.pending "forwarded"))

worker_get-closing : (s : AuditStore) → (worker_get s).is_closing ≡ s.is_closing
unfolding worker_get
worker_get-closing s = ground arith

worker_gather-closing : (s : AuditStore) → (worker_gather s).is_closing ≡ s.is_closing
unfolding worker_gather
worker_gather-closing s = ground arith

worker_write-closing :
    (fails : Bool) (s : AuditStore) → (worker_write fails s).is_closing ≡ s.is_closing
unfolding worker_write
worker_write-closing fails s = ground arith

-- The database's worker runs beside the hub.
pub worked-IsCurrent :
    (f : AuditStore → AuditStore)
    → ((s : AuditStore) → (f s).is_closing ≡ s.is_closing)
    → (h : Hub) → IsCurrent h
    → IsCurrent (record h { store = f h.store })
unfolding room_at
worked-IsCurrent f same h x = record { open_store = same h.store ∙ x.open_store; casts = x.casts }

pub took-IsCurrent : (h : Hub) → IsCurrent h → IsCurrent (record h { store = worker_get h.store })
took-IsCurrent h x = worked-IsCurrent worker_get worker_get-closing h x

pub gathered-IsCurrent :
    (h : Hub) → IsCurrent h → IsCurrent (record h { store = worker_gather h.store })
gathered-IsCurrent h x = worked-IsCurrent worker_gather worker_gather-closing h x

pub wrote-IsCurrent :
    (fails : Bool) (h : Hub)
    → IsCurrent h
    → IsCurrent (record h { store = worker_write fails h.store })
wrote-IsCurrent fails h x = worked-IsCurrent (worker_write fails) (worker_write-closing fails) h x
