-- ===== src/Hub/Stable.antt =====
-- `_dispatch` keeps what its handlers keep.
use thchaos_backend.Prelude.{ℕ, String, true, Option, none, some, List, string_eq}
use thchaos_backend.Protocol.Payloads.{Payload, VoteCastPayload, HelloPayload}
use thchaos_backend.Protocol.Envelope.{Envelope}
use thchaos_backend.Storage.{EventRow, record_event}
use thchaos_backend.Connection.{Client, Link}
use thchaos_backend.Hub.State.{
  MessageKey, RoomRuntime, Hub, pure, modify, room, update_room, update_link,
}
use thchaos_backend.Hub.Rooms.{enqueued}
use thchaos_backend.Hub.Bot.{rate_limit, Wait}
use thchaos_backend.Hub.Dispatch.{
  admit, limit_casts, is_fresh, replayed, replayed_payload, find_message, message_key, is_heartbeat,
  is_game_role, record_message, remember_message, remember, process, handle_role, dispatch, accept,
  authenticate,
}
use thchaos_backend.Hub.Actions.{
  Keeps, Keeps-pure, Keeps-raise, Keeps-modify, Keeps-if, action_rules,
}

-- The property names neither connections nor the audit queue nor the cache of messages.
pub record Stable (P : Hub → Type 0) : Type 0 where
  pub linked : (id : ℕ) (f : Link → Link) (h : Hub) → P h → P (update_link id f h)
  pub audited : (e : EventRow) (h : Hub) → P h → P (enqueued (record_event e h.store) h).1
  pub cached :
      (rid : String) (f : List (MessageKey × String) → List (MessageKey × String)) (h : Hub)
      → P h
      → P (update_room rid (λ r. record r { messages = f r.messages }) h)
  pub found : (rid : String) (h : Hub) → P h → P (room rid h).1

module _ {P : Hub → Type 0} (s : Stable P) where
  Keeps-linked : (id : ℕ) (f : Link → Link) → Keeps P (modify (update_link id f))
  Keeps-linked id f = Keeps-modify (update_link id f) (s.linked id f)

  rate_limit-Keeps : (c : Client) (p : VoteCastPayload) (now : ℕ) → Keeps P (rate_limit c p now)
  unfolding rate_limit
  rate_limit-Keeps c p now = search (action_rules, Keeps-linked)

  limit_casts-Keeps : (c : Client) (p : Payload) (now : ℕ) → Keeps P (limit_casts c p now)
  limit_casts-Keeps c (Payload.vote_cast p) now =
      Keeps-if (is_game_role c.role) (pure tt) (rate_limit c p now) (Keeps-pure tt)
        (rate_limit-Keeps c p now)
  limit_casts-Keeps c _ now = Keeps-pure tt

  admit-Keeps : (c : Client) (e : Envelope) (p : Payload) (now : ℕ) → Keeps P (admit c e p now)
  unfolding admit
  admit-Keeps c e p now = search (action_rules, Keeps-linked, limit_casts-Keeps) depth 12

  replayed_payload-Keeps :
      (r : RoomRuntime) (e : Envelope) (p : Payload) → Keeps P (replayed_payload r e p)
  replayed_payload-Keeps r e (Payload.vote_cast p) = Keeps-raise _
  replayed_payload-Keeps r e _ = Keeps-pure _

  is_fresh-Keeps :
      (c : Client) (r : RoomRuntime) (e : Envelope) (p : Payload) (digest : String)
      → Keeps P (is_fresh c r e p digest)
  is_fresh-Keeps c r e p digest =
      Keeps-if (is_heartbeat e.message_type) (pure true) _ (Keeps-pure true)
        (at (find_message (message_key c e) r.messages))
    where
      at :
          (o : Option String)
          → Keeps P (elim o [ none ↦ pure true | some old ↦ replayed r e p digest old ])
      at none = Keeps-pure true
      at (some old) = search (action_rules, replayed_payload-Keeps)

  pub record_message-Keeps : (c : Client) (e : Envelope) → Keeps P (record_message c e)
  unfolding record_message
  record_message-Keeps c e =
      Keeps-if (is_heartbeat e.message_type) (pure tt) _ (Keeps-pure tt)
        (record { at = λ h p. s.audited _ h p })

  remember_message-Keeps :
      (c : Client) (e : Envelope) (digest : String) → Keeps P (remember_message c e digest)
  remember_message-Keeps c e digest =
      Keeps-if (is_heartbeat e.message_type) (pure tt) _ (Keeps-pure tt)
        (record { at = λ h p. s.cached c.room_id (remember (message_key c e) digest) h p })

  room-Keeps : (rid : String) → Keeps P (room rid)
  room-Keeps rid = record { at = s.found rid }

  -- `_dispatch` keeps a stable property that the handler of the connection's role keeps.
  pub dispatch-Keeps :
      (fingerprint : Envelope → String) (c : Client) (e : Envelope) (p : Payload) (now : ℕ)
      (w : Wait)
      → Keeps P (handle_role c.role c e p now w)
      → Keeps P (dispatch fingerprint c e p now w)
  unfolding dispatch process
  dispatch-Keeps fingerprint c e p now w handled =
      search
        (
          action_rules, admit-Keeps, room-Keeps, is_fresh-Keeps, record_message-Keeps,
          remember_message-Keeps,
        )
        depth 9

-- A handshake keeps what the new connection's record keeps.
pub authenticate-Keeps :
    {P : Hub → Type 0} (path session : String) (e : Envelope) (p : HelloPayload)
    → Keeps P (modify (accept e.seq))
    → Keeps P (authenticate path session e p)
unfolding authenticate
authenticate-Keeps path session e p accepted = search action_rules depth 14
