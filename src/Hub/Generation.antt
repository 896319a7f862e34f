-- ===== src/Hub/Generation.antt =====
-- What a room's generation stands for: as long as it is the same, the room has the same game and
-- the same active vote. The casts that wait for the database or in a send queue rely on it.
pub mod Game
pub mod Bot
pub mod Steps
use thchaos_backend.Prelude.{
  ℕ, suc, ◌+◌, ◌<◌, String, Bool, true, false, not, Option, none, some, ◌≡◌, refl, arith, eq_iff,
  eq_refl, ◌==◌, string_eq, ◌⊎◌, inl, inr, if◌then◌else◌, ◌∙◌,
}
use thchaos_backend.Protocol.Errors.{ErrorCode, round_result_unknown, round_stale, round_closed}
use thchaos_backend.Protocol.Payloads.{
  Payload, GameSyncPayload, VoteOpenedPayload, VoteSnapshotPayload, VoteClosedPayload,
  VoteAckPayload,
}
use thchaos_backend.Protocol.Envelope.{Envelope}
use thchaos_backend.Connection.{Client, PendingCast, is_client}
use thchaos_backend.Hub.State.{
  RoomRuntime, Hub, M, pure, raise, ◌>>=◌, ◌>>◌, modify, gets, guard, room, room_at, update_room,
}
use thchaos_backend.Hub.Rooms.{broadcast, resolve_all, drop_connection}
use thchaos_backend.Hub.Game.{
  next_generation, handle_sync, handle_opened, handle_snapshot, handle_ack, handle_closed,
}
use thchaos_backend.Hub.Actions.{
  Keeps, Keeps-pure, Keeps-modify, Keeps-bind, Keeps-then, Keeps-through, action_rules,
}
use thchaos_backend.Hub.Quiet.{broadcast-Keeps, resolve_all-Keeps}
use thchaos_backend.Hub.Line.{Quiet-Line, LineProperty, Line, Line-change, Line-update, drop-Line}

-- The generation has grown, or nothing has changed.
abbrev pub Follows : RoomRuntime → LineProperty
Follows r g n a = (r.generation < n) ⊎ ((n ≡ r.generation) × (g ≡ r.game) × (a ≡ r.active_vote))

-- The same, where the room `k` has begun to change.
abbrev pub Changing : RoomRuntime → String → String → LineProperty
Changing r k rid g n a =
    (r.generation < n)
    ⊎ (((k == rid) ≡ false) × (n ≡ r.generation) × (g ≡ r.game) × (a ≡ r.active_vote))

module _ (r : RoomRuntime) (rid : String) where
  Follows-left :
      (g : Option Client) (n : ℕ) (a : Option VoteOpenedPayload)
      → Follows r g n a
      → Follows r none (n + 1) none
  Follows-left g n a (inl past) = inl (omega arith)
  Follows-left g n a (inr (same, f, v)) = inl (omega arith)

  Changing-left :
      (k : String) (g : Option Client) (n : ℕ) (a : Option VoteOpenedPayload)
      → Changing r k rid g n a
      → Changing r k rid none (n + 1) none
  Changing-left k g n a (inl past) = inl (omega arith)
  Changing-left k g n a (inr (other, same, f, v)) = inl (omega arith)

  Follows-Changing :
      (k : String) (f : RoomRuntime → RoomRuntime) (h : Hub)
      → ((x : RoomRuntime) → (f x).generation ≡ x.generation + 1)
      → Line (Follows r) rid h
      → Line (Changing r k rid) rid (update_room k f h)
  Follows-Changing k f h grows =
      Line-change (Follows r) (Changing r k rid) rid k f h (λ x e q. grown x q)
        (λ x e q. other x e q)
    where
      grown :
          (x : RoomRuntime)
          → Follows r x.game x.generation x.active_vote
          → Changing r k rid (f x).game (f x).generation (f x).active_vote
      grown x (inl past) = inl (omega (arith, grows x))
      grown x (inr (same, g, v)) = inl (omega (arith, grows x))

      other :
          (x : RoomRuntime)
          → (k == rid) ≡ false
          → Follows r x.game x.generation x.active_vote
          → Changing r k rid x.game x.generation x.active_vote
      other x e (inl past) = inl past
      other x e (inr (same, g, v)) = inr (e, same, g, v)

  Changing-Follows : (k : String) (h : Hub) → Line (Changing r k rid) rid h → Line (Follows r) rid h
  Changing-Follows k h (inl past) = inl past
  Changing-Follows k h (inr (e, same, g, v)) = inr (same, g, v)

  pub Changing-update :
      (k : String) (f : RoomRuntime → RoomRuntime)
      → ((x : RoomRuntime) → (f x).generation ≡ x.generation)
      → Keeps (Line (Changing r k rid) rid) (modify (update_room k f))
  Changing-update k f keeps =
      Keeps-modify (update_room k f)
        (λ h. Line-change (Changing r k rid) (Changing r k rid) rid k f h here (λ x e q. q))
    where
      here :
          (x : RoomRuntime)
          → (k == rid) ≡ true
          → Changing r k rid x.game x.generation x.active_vote
          → Changing r k rid (f x).game (f x).generation (f x).active_vote
      here x e (inl past) = inl (omega (arith, keeps x))
      here x e (inr (other, same, g, v)) = absurd (cc)

  -- A change of a room that begins with a new generation.
  pub Follows-change :
      (k : String) (f : RoomRuntime → RoomRuntime) (rest : M (Unit {0}))
      → ((x : RoomRuntime) → (f x).generation ≡ x.generation + 1)
      → Keeps (Line (Changing r k rid) rid) rest
      → Keeps (Line (Follows r) rid) (modify (update_room k f) >> rest)
  Follows-change k f rest grows kept =
      Keeps-through (update_room k f) rest (λ h. Follows-Changing k f h grows) kept
        (λ h. Changing-Follows k h)

  -- One that leaves the line alone.
  pub Follows-update :
      (k : String) (f : RoomRuntime → RoomRuntime)
      → ((x : RoomRuntime)
          → ((f x).game ≡ x.game)
            × ((f x).generation ≡ x.generation)
            × ((f x).active_vote ≡ x.active_vote))
      → Keeps (Line (Follows r) rid) (modify (update_room k f))
  Follows-update k f same =
      Keeps-modify (update_room k f) (λ h. Line-update (Follows r) rid k f h (λ x q. kept x q))
    where
      kept :
          (x : RoomRuntime)
          → Follows r x.game x.generation x.active_vote
          → Follows r (f x).game (f x).generation (f x).active_vote
      kept x (inl past) = let (a, b, c) = same x in inl (omega (arith, b))
      kept x (inr (n, g, v)) = let (a, b, c) = same x in inr (b ∙ n, a ∙ g, c ∙ v)

  pub drop-Follows : (c : Client) → Keeps (Line (Follows r) rid) (drop_connection c)
  drop-Follows c = drop-Line (Follows r) rid Follows-left 2 c

  drop-Changing :
      (k : String) (c : Client) → Keeps (Line (Changing r k rid) rid) (drop_connection c)
  drop-Changing k c = drop-Line (Changing r k rid) rid (Changing-left k) 2 c

  pub broadcast-Follows :
      (k : String) (p : Payload) → Keeps (Line (Follows r) rid) (broadcast drop_connection k p)
  broadcast-Follows k p =
      broadcast-Keeps (Quiet-Line (Follows r) rid) drop_connection drop-Follows k p

  pub broadcast-Changing :
      (k : String) (p : Payload)
      → Keeps (Line (Changing r k rid) rid) (broadcast drop_connection k p)
  broadcast-Changing k p =
      broadcast-Keeps (Quiet-Line (Changing r k rid) rid) drop_connection (drop-Changing k) k p

  pub resolve_all-Changing :
      (k reason : String) (code : ErrorCode)
      → Keeps (Line (Changing r k rid) rid) (resolve_all drop_connection k reason code)
  resolve_all-Changing k reason code =
      resolve_all-Keeps (Quiet-Line (Changing r k rid) rid) drop_connection (drop-Changing k) k
        reason code
