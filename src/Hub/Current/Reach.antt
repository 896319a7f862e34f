-- ===== src/Hub/Current/Reach.antt =====
-- The states that the hub reaches, by its steps in any order, with whatever other steps during a
-- wait for the database.
use thchaos_backend.Prelude.{
  ℕ, ◌<◌, ltb, nat_eq, String, Bool, true, Option, none, some, ◌≡◌, refl, arith, inl, inr,
}
use thchaos_backend.Prelude.Dict.{lookup}
use thchaos_backend.Protocol.Payloads.{Payload, HelloPayload, VoteOpenedPayload}
use thchaos_backend.Protocol.Envelope.{Envelope}
use thchaos_backend.Storage.{worker_get, worker_gather, worker_write}
use thchaos_backend.Connection
use thchaos_backend.Connection.{Client, PendingCast, CastHooks, is_client, abort}
use thchaos_backend.Hub.State.{RoomRuntime, Hub, room_at, update_link}
use thchaos_backend.Hub.Rooms.{send, drop_connection}
use thchaos_backend.Hub.Bot.{Wait}
use thchaos_backend.Hub.Dispatch.{authenticate, dispatch, expire_pending, record_message, register}
use thchaos_backend.Hub.Session.{add_connection}
use thchaos_backend.Hub.Writer.{is_pending, valid, begin_run, begin_send, end_send, stop}
use thchaos_backend.Hub.Stable.{record_message-Keeps}
use thchaos_backend.Hub.Quiet.{send-Keeps}
use thchaos_backend.Hub.Line.{Quiet-Line, Line}
use thchaos_backend.Hub.Generation.{Follows, drop-Follows}
use thchaos_backend.Hub.Generation.Steps.{
  authenticate-Follows, dispatch-Follows, expire_pending-Follows, register-Follows,
  begin_send-Follows, end_send-Follows, stop-Follows, Stable-Follows,
}
use thchaos_backend.Hub.Current.{IsCurrent, IsCurrent-beside}
use thchaos_backend.Hub.Current.Steps.{
  authenticate-IsCurrent, dispatch-IsCurrent, expire_pending-IsCurrent, drop_connection-IsCurrent,
  stop-IsCurrent, register-IsCurrent, linked-IsCurrent, Stable-IsCurrent,
}
use thchaos_backend.Hub.Current.Writer.{
  begin_run-IsCurrent, begin_send-IsCurrent, end_send-IsCurrent, took-IsCurrent, gathered-IsCurrent,
  wrote-IsCurrent,
}

-- `Reaches h k`: some steps of the hub lead from `h` to `k`.
pub data Reaches : Hub → Hub → Type 0 where
  here : {h : Hub} → Reaches h h
  authenticated :
      {h k : Hub} (path session : String) (e : Envelope) (p : HelloPayload)
      → Reaches h k
      → Reaches h (authenticate path session e p k).1
  registered : {h k : Hub} (c : Client) → Reaches h k → Reaches h (register c k).1
  dispatched :
      {h k : Hub} (fingerprint : Envelope → String) (c : Client) (e : Envelope) (p : Payload)
      (now : ℕ) (w : Wait)
      → ((g : Hub) → Reaches g (w.before g))
      → ((g : Hub) → Reaches g (w.after g))
      → Reaches h k
      → Reaches h (dispatch fingerprint c e p now w k).1
  expired : {h k : Hub} (now : ℕ) → Reaches h k → Reaches h (expire_pending now k).1
  dropped : {h k : Hub} (c : Client) → Reaches h k → Reaches h (drop_connection c k).1
  started : {h k : Hub} (c : Client) → Reaches h k → Reaches h (begin_run c k)
  began : {h k : Hub} (c : Client) (now : ℕ) → Reaches h k → Reaches h (begin_send c now k).1
  ended :
      {h k : Hub} (o : Option CastHooks) (now : ℕ) → Reaches h k → Reaches h (end_send o now k).1
  stopped : {h k : Hub} (c : Client) → Reaches h k → Reaches h (stop c k).1
  took : {h k : Hub} → Reaches h k → Reaches h (record k { store = worker_get k.store })
  gathered : {h k : Hub} → Reaches h k → Reaches h (record k { store = worker_gather k.store })
  wrote :
      {h k : Hub} (fails : Bool)
      → Reaches h k
      → Reaches h (record k { store = worker_write fails k.store })
  sent :
      {h k : Hub} (c : Client) (p : Payload) (i : Option String)
      → Reaches h k
      → Reaches h (send c p i none k).1
  recorded :
      {h k : Hub} (c : Client) (e : Envelope) → Reaches h k → Reaches h (record_message c e k).1
  joined : {h k : Hub} (c : Client) → Reaches h k → Reaches h (add_connection c k)
  aborted : {h k : Hub} (c : Client) → Reaches h k → Reaches h (update_link c.id abort k)

-- Sending without hooks changes only the connection.
send-IsCurrent :
    (c : Client) (p : Payload) (i : Option String) (h : Hub)
    → IsCurrent h
    → IsCurrent (send c p i none h).1
unfolding send
send-IsCurrent c p i h x =
    linked-IsCurrent c.id (λ _. (Connection.send c p i none (h.links c.id)).1) h x

Reaches-Line :
    {h k : Hub} (rid : String) (r : RoomRuntime)
    → Reaches h k
    → Line (Follows r) rid h
    → Line (Follows r) rid k
unfolding room_at begin_run update_link
Reaches-Line rid r here x = x
Reaches-Line rid r (authenticated path session e p s) x =
    (authenticate-Follows r rid path session e p).at _ (Reaches-Line rid r s x)
Reaches-Line rid r (registered c s) x = (register-Follows r rid c).at _ (Reaches-Line rid r s x)
Reaches-Line rid r (dispatched fingerprint c e p now w before after s) x =
    (dispatch-Follows r rid fingerprint c e p now w (λ g y. Reaches-Line rid r (before g) y)
        (λ g y. Reaches-Line rid r (after g) y)).at
      _ (Reaches-Line rid r s x)
Reaches-Line rid r (expired now s) x =
    (expire_pending-Follows r rid now).at _ (Reaches-Line rid r s x)
Reaches-Line rid r (dropped c s) x = (drop-Follows r rid c).at _ (Reaches-Line rid r s x)
Reaches-Line rid r (started c s) x = Reaches-Line rid r s x
Reaches-Line rid r (began c now s) x = begin_send-Follows r rid c now _ (Reaches-Line rid r s x)
Reaches-Line rid r (ended o now s) x = (end_send-Follows r rid o now).at _ (Reaches-Line rid r s x)
Reaches-Line rid r (stopped c s) x = (stop-Follows r rid c).at _ (Reaches-Line rid r s x)
Reaches-Line rid r (took s) x = Reaches-Line rid r s x
Reaches-Line rid r (gathered s) x = Reaches-Line rid r s x
Reaches-Line rid r (wrote fails s) x = Reaches-Line rid r s x
Reaches-Line rid r (sent c p i s) x =
    (send-Keeps (Quiet-Line (Follows r) rid) c p i none).at _ (Reaches-Line rid r s x)
Reaches-Line rid r (recorded c e s) x =
    (record_message-Keeps (Stable-Follows r rid) c e).at _ (Reaches-Line rid r s x)
Reaches-Line rid r (joined c s) x = Reaches-Line rid r s x
Reaches-Line rid r (aborted c s) x = Reaches-Line rid r s x

-- If some steps of the hub lead from one state to another, then each room of the later state has a
-- greater generation than in the earlier one, or the same generation, game and active vote.
pub Reaches-Follows :
    (h k : Hub) (rid : String) → Reaches h k → Line (Follows (room_at h rid)) rid k
Reaches-Follows h k rid s = Reaches-Line rid (room_at h rid) s (inr (refl, refl, refl))

-- If the audit store of a hub is open and each pending cast of each room has the generation of its
-- room, the game instance of the room's game and the round of its active vote, and some steps of
-- the hub lead to another state, then the same holds of that state.
pub Reaches-IsCurrent : (h k : Hub) → Reaches h k → IsCurrent h → IsCurrent k
Reaches-IsCurrent h k here x = x
Reaches-IsCurrent h k (authenticated path session e p s) x =
    (authenticate-IsCurrent path session e p).at _ (Reaches-IsCurrent h _ s x)
Reaches-IsCurrent h k (registered c s) x = (register-IsCurrent c).at _ (Reaches-IsCurrent h _ s x)
Reaches-IsCurrent h k (dispatched fingerprint c e p now w before after s) x =
    (dispatch-IsCurrent fingerprint c e p now w
        (λ j q g z. (Reaches-IsCurrent g _ (before g) z.0, Reaches-Line j q (before g) z.1))
        (λ j q g z. (Reaches-IsCurrent g _ (after g) z.0, Reaches-Line j q (after g) z.1))).at
      _ (Reaches-IsCurrent h _ s x)
Reaches-IsCurrent h k (expired now s) x =
    (expire_pending-IsCurrent now).at _ (Reaches-IsCurrent h _ s x)
Reaches-IsCurrent h k (dropped c s) x =
    (drop_connection-IsCurrent c).at _ (Reaches-IsCurrent h _ s x)
Reaches-IsCurrent h k (started c s) x = begin_run-IsCurrent c _ (Reaches-IsCurrent h _ s x)
Reaches-IsCurrent h k (began c now s) x = begin_send-IsCurrent c now _ (Reaches-IsCurrent h _ s x)
Reaches-IsCurrent h k (ended o now s) x =
    (end_send-IsCurrent o now).at _ (Reaches-IsCurrent h _ s x)
Reaches-IsCurrent h k (stopped c s) x = (stop-IsCurrent c).at _ (Reaches-IsCurrent h _ s x)
Reaches-IsCurrent h k (took s) x = took-IsCurrent _ (Reaches-IsCurrent h _ s x)
Reaches-IsCurrent h k (gathered s) x = gathered-IsCurrent _ (Reaches-IsCurrent h _ s x)
Reaches-IsCurrent h k (wrote fails s) x = wrote-IsCurrent fails _ (Reaches-IsCurrent h _ s x)
Reaches-IsCurrent h k (sent c p i s) x = send-IsCurrent c p i _ (Reaches-IsCurrent h _ s x)
Reaches-IsCurrent h k (recorded c e s) x =
    (record_message-Keeps Stable-IsCurrent c e).at _ (Reaches-IsCurrent h _ s x)
Reaches-IsCurrent h k (joined c s) x =
    IsCurrent-beside (add_connection c) (λ g. (refl, refl)) _ (Reaches-IsCurrent h _ s x)
Reaches-IsCurrent h k (aborted c s) x = linked-IsCurrent c.id abort _ (Reaches-IsCurrent h _ s x)

-- If the audit store of a hub is open and each pending cast of each room has the generation of its
-- room, the game instance of the room's game and the round of its active vote, and the test before
-- a vote is sent succeeds, then the room has a pending cast with the identity that the vote was
-- queued for, the game that the vote goes to is still the room's game, an active vote is open, its
-- round is that of the pending cast, and the deadline has not come.
pub valid-open :
    (h : Hub) (k : CastHooks) (now : ℕ)
    → IsCurrent h
    → valid k now h ≡ true
    → (p : PendingCast) × (v : VoteOpenedPayload) × (lookup k.cast_id
          (room_at h k.room_id).pending_casts
        ≡ some p)
      × (p.serial ≡ k.pending.serial)
      × (is_client (room_at h k.room_id).game k.game ≡ true)
      × ((room_at h k.room_id).active_vote ≡ some v)
      × (v.round_id ≡ p.round_id)
      × (now < k.pending.deadline)
unfolding valid
valid-open h k now x e =
    at (lookup k.cast_id (room_at h k.room_id).pending_casts) refl (ground arith) (ground arith)
      (ground arith)
  where
    at :
        (o : Option PendingCast)
        → lookup k.cast_id (room_at h k.room_id).pending_casts ≡ o
        → is_pending o k.pending ≡ true
        → is_client (room_at h k.room_id).game k.game ≡ true
        → ltb now k.pending.deadline ≡ true
        → (p : PendingCast) × (v : VoteOpenedPayload) × (lookup k.cast_id
              (room_at h k.room_id).pending_casts
            ≡ some p)
          × (p.serial ≡ k.pending.serial)
          × (is_client (room_at h k.room_id).game k.game ≡ true)
          × ((room_at h k.room_id).active_vote ≡ some v)
          × (v.round_id ≡ p.round_id)
          × (now < k.pending.deadline)
    at none found same game due = absurd (cc)
    at (some p) found same game due = elim (x.casts k.room_id k.cast_id p found) [
      | inl (n, g, (v, vote, round)) ↦ (p, v, found, ground arith, game, vote, round, ground arith)
      | inr y ↦ absurd y
    ]
