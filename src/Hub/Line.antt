-- ===== src/Hub/Line.antt =====
-- What the helpers of Hub/Rooms do to a room's game, generation and active vote: nothing, or what
-- the departure of the game does.
use thchaos_backend.Prelude.{
  ℕ, ◌+◌, String, true, false, Option, none, ◌≡◌, eq_iff, ◌==◌, string_eq, if◌then◌else◌,
  Bool-cases, inl, inr, subst, ◌⊎◌, sym,
}
use thchaos_backend.Protocol.Payloads.{VoteOpenedPayload}
use thchaos_backend.Connection.{Client}
use thchaos_backend.Hub.State.{RoomRuntime, Hub, room_at, update_room, update_link}
use thchaos_backend.Hub.Rooms.{forget_cast, game_left, bot_left, drop}
use thchaos_backend.Hub.Quiet.{Quiet, drop-Keeps}
use thchaos_backend.Hub.Actions.{Keeps, room_at-update_room}

abbrev pub LineProperty : Type 1
LineProperty = Option Client → ℕ → Option VoteOpenedPayload → Type 0

-- The property holds of one room.
abbrev pub Line : LineProperty → String → Hub → Type 0
Line P rid h = P (room_at h rid).game (room_at h rid).generation (room_at h rid).active_vote

-- A change of one room, as the property of another or the same room sees it.
pub Line-change :
    (P Q : LineProperty) (rid k : String) (f : RoomRuntime → RoomRuntime) (h : Hub)
    → ((r : RoomRuntime)
        → (k == rid) ≡ true
        → P r.game r.generation r.active_vote
        → Q (f r).game (f r).generation (f r).active_vote)
    → ((r : RoomRuntime)
        → (k == rid) ≡ false
        → P r.game r.generation r.active_vote
        → Q r.game r.generation r.active_vote)
    → Line P rid h
    → Line Q rid (update_room k f h)
Line-change P Q rid k f h here there p =
    rw (room_at-update_room k rid f h) (at (Bool-cases (k == rid)))
  where
    at :
        ((k == rid) ≡ true) ⊎ ((k == rid) ≡ false)
        → let r : RoomRuntime = if k == rid then f (room_at h k) else room_at h rid in
          Q r.game r.generation r.active_vote
    at (inl e) = rw e (
        here (room_at h k) e (
          subst (λ j. P (room_at h j).game (room_at h j).generation (room_at h j).active_vote)
            (sym ((eq_iff k rid).0 e)) p))
    at (inr e) = rw e (there (room_at h rid) e p)

-- A change of any room that keeps the property keeps it of the one room.
pub Line-update :
    (P : LineProperty) (rid k : String) (f : RoomRuntime → RoomRuntime) (h : Hub)
    → ((r : RoomRuntime)
        → P r.game r.generation r.active_vote
        → P (f r).game (f r).generation (f r).active_vote)
    → Line P rid h
    → Line P rid (update_room k f h)
Line-update P rid k f h keep p = Line-change P P rid k f h (λ r e q. keep r q) (λ r e q. q) p

-- What sending, reporting and resolving leave of a room is all that such a property names.
pub Quiet-Line : (P : LineProperty) (rid : String) → Quiet (Line P rid)
unfolding room_at update_link
Quiet-Line P rid = record {
  linked = λ id f h x. x;
  stored = λ s h x. x;
  forgot = λ k x h v. Line-update P rid k (forget_cast x) h (λ r y. y) v;
}

-- `_drop` keeps every property of a room's line that the departure of a game keeps.
pub drop-Line :
    (P : LineProperty) (rid : String)
    → ((g : Option Client) (n : ℕ) (a : Option VoteOpenedPayload) → P g n a → P none (n + 1) none)
    → (fuel : ℕ) (c : Client) → Keeps (Line P rid) (drop fuel c)
unfolding room_at
drop-Line P rid left = drop-Keeps (record {
  quiet = Quiet-Line P rid;
  game_gone =
      λ k h v. Line-update P rid k game_left h (λ r y. left r.game r.generation r.active_vote y) v;
  bot_gone = λ c h v. Line-update P rid c.room_id (bot_left c) h (λ r y. y) v;
  discarded = λ c h v. v;
})
