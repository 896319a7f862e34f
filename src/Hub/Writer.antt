-- ===== src/Hub/Writer.antt =====
-- server/connection.py: `_run`, the task that sends a connection's queue, in the steps between its
-- waits; with the closures of `_handle_bot` that it calls.
use thchaos_backend.Prelude.{
  ℕ, ◌-◌, Bool, true, false, ◌&&◌, Option, none, some, ltb, if◌then◌else◌, ◌==◌, nat_eq,
}
use thchaos_backend.Prelude.Dict.{lookup, insert}
use thchaos_backend.Protocol.Envelope.{Frame}
use thchaos_backend.Connection.{
  Client, PendingCast, CastHooks, Outbound, Link, is_client, take_item, make_frame, shut,
}
use thchaos_backend.Hub.State.{
  RoomRuntime, Hub, M, pure, ◌>>◌, modify, room_at, update_room, update_link,
}
use thchaos_backend.Hub.Rooms.{status, drop_connection}
use thchaos_backend.Hub.Game.{push_sample}

-- `room.pending_casts.get(cast_id) is pending`.
abbrev pub is_pending : Option PendingCast → PendingCast → Bool
is_pending none p = false
is_pending (some q) p = q.serial == p.serial

-- The closure `valid`.
unfoldable pub valid : CastHooks → ℕ → Hub → Bool
valid k now h =
    let r = room_at h k.room_id in
    is_client r.game k.game
    && r.generation == k.generation
    && is_pending (lookup k.cast_id r.pending_casts) k.pending
    && ltb now k.pending.deadline

abbrev pub attempt : CastHooks → RoomRuntime → Option PendingCast → RoomRuntime
attempt k r none = r
attempt k r (some q) =
    if q.serial == k.pending.serial
    then record r {
      pending_casts = insert k.cast_id (record q { attempted = true }) r.pending_casts;
    }
    else r

-- The closure `on_start`: it marks the object, which a room reaches only under its cast id.
unfoldable pub on_start : CastHooks → Hub → Hub
on_start k = update_room k.room_id (λ r. attempt k r (lookup k.cast_id r.pending_casts))

-- The closure `on_sent`.
unfoldable pub on_sent : CastHooks → ℕ → M (Unit {0})
on_sent k now = do
  modify (λ h. record h { forward_ms = push_sample (now - k.pending.created_at) h.forward_ms })
  status k.room_id k.cast_id k.pending "forwarded"

abbrev pub hooks_valid : Option CastHooks → ℕ → Hub → Bool
hooks_valid none now h = true
hooks_valid (some k) now h = valid k now h

abbrev pub hooks_start : Option CastHooks → Hub → Hub
hooks_start none h = h
hooks_start (some k) h = on_start k h

-- What a round of the loop leads to: nothing to send, an item passed over, or a frame whose
-- sending has started.
pub data Round : Type 0 where
  idle : Round
  skipped : Outbound → Round
  sending : Outbound → Frame → Round

abbrev pub begin_item : Client → ℕ → Option (Outbound × Link) → Hub → Round × Hub
begin_item c now none h = (idle, h)
begin_item c now (some (item, l)) h =
    if hooks_valid item.hooks now h
    then (
      sending item (make_frame c item l).0,
      hooks_start item.hooks (update_link c.id (λ _. (make_frame c item l).1) h),
    )
    else (skipped item, update_link c.id (λ _. l) h)

-- The first statement of the task.
unfoldable pub begin_run : Client → Hub → Hub
unfolding update_link
begin_run c h = update_link c.id (λ l. record l { is_started = true }) h

-- From the test of the loop to the call of `send_text`.
unfoldable pub begin_send : Client → ℕ → Hub → Round × Hub
unfolding valid on_start
begin_send c now h =
    if (h.links c.id).is_closed then (idle, h) else begin_item c now (take_item (h.links c.id)) h

-- After `send_text` has returned.
unfoldable pub end_send : Option CastHooks → ℕ → M (Unit {0})
end_send none now = pure tt
end_send (some k) now = on_sent k now

-- The `finally` block: closed, emptied, and `on_disconnect`.
unfoldable pub stop : Client → M (Unit {0})
stop c = do modify (update_link c.id shut); drop_connection c
