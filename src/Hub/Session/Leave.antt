-- ===== src/Hub/Session/Leave.antt =====
-- server/hub.py and server/connection.py: what the end of a session leaves behind.
use thchaos_backend.Prelude.{
  ℕ, suc, Bool, true, false, not, Option, none, some, List, [], ◌∷◌, keep, all, ◌≡◌, refl, arith,
  if◌then◌else◌, inl, inr, ◌⊎◌, nat_eq, eq_refl, string_eq, nat_beq_iff,
}
use thchaos_backend.Prelude.Dict.{lookup}
use thchaos_backend.Protocol.Errors.{round_game_offline}
use thchaos_backend.Connection.{Client, is_same, is_client, abort}
use thchaos_backend.Hub.State.{
  RoomRuntime, Hub, done, modify, or_new, room_at, update_room, update_link,
}
use thchaos_backend.Hub.Rooms.{
  resolve_all, drop_game, tell_offline, game_left, bot_left, drop_from, drop_with, discard, drop,
  drop_connection,
}
use thchaos_backend.Hub.Actions.{Keeps, Keeps-then, room_at-update_room}
use thchaos_backend.Hub.Quiet.{
  Steady, drop-Keeps, drop_from-Keeps, resolve_all-Keeps, tell_offline-Keeps,
}
use thchaos_backend.Hub.Line.{LineProperty, Line, Line-update, Quiet-Line, drop-Line}
use thchaos_backend.Hub.Casts.{CastProperty}
use thchaos_backend.Hub.Casts.Drop.{drop-Runs}
use thchaos_backend.Hub.Current.{Nowhere}
use thchaos_backend.Hub.Session.{World, close_connection, leave}

pub all-keep : (p q : Client → Bool) (xs : List Client) → all p xs ≡ true → all p (keep q xs) ≡ true
all-keep p q [] e = refl
all-keep p q (x ∷ xs) e = ground (arith, all-keep p q xs)

all-keep_self : (p : Client → Bool) (xs : List Client) → all p (keep p xs) ≡ true
all-keep_self p [] = refl
all-keep_self p (x ∷ xs) = ground (arith, all-keep_self p xs)

-- The connection is not among those of a list.
abbrev pub IsAbsent : Client → List Client → Type 0
IsAbsent c ds = all (λ d. not (is_same d c)) ds ≡ true

abbrev pub Gone : Client → Hub → Type 0
Gone c h = IsAbsent c h.connections

pub Steady-Gone : (c : Client) → Steady (Gone c)
unfolding update_link update_room room_at
Steady-Gone c = record {
  quiet = record { linked = λ id f h x. x; stored = λ s h x. x; forgot = λ rid x h y. y };
  game_gone = λ rid h x. x;
  bot_gone = λ d h x. x;
  discarded = λ d h x. all-keep (λ e. not (is_same e c)) (λ e. not (is_same e d)) h.connections x;
}

pub drop-Gone : (n : ℕ) (c : Client) (h : Hub) → Gone c (drop (suc n) c h).1
unfolding drop drop_with
drop-Gone n c h =
    (drop_from-Keeps (Steady-Gone c).quiet (drop n) (λ d. drop-Keeps (Steady-Gone c) n d)
        (Steady-Gone c) c (lookup c.room_id h.rooms)).at
      (discard c h) (all-keep_self (λ d. not (is_same d c)) h.connections)

-- The connection is not the game of its room.
abbrev Unplayed : Client → LineProperty
Unplayed c g n a = is_client g c ≡ false

module _ (n : ℕ) (c : Client) where
  inner-Keeps : (d : Client) → Keeps (Line (Unplayed c) c.room_id) (drop n d)
  inner-Keeps = drop-Line (Unplayed c) c.room_id (λ g m a e. refl) n

  drop_game-Unplayed : (h : Hub) → Line (Unplayed c) c.room_id (drop_game (drop n) c h).1
  unfolding drop_game
  drop_game-Unplayed h =
      (Keeps-then (resolve_all (drop n) c.room_id "game_offline" round_game_offline)
          (tell_offline (drop n) c)
          (resolve_all-Keeps (Quiet-Line (Unplayed c) c.room_id) (drop n) inner-Keeps c.room_id
            "game_offline" round_game_offline)
          (tell_offline-Keeps (Quiet-Line (Unplayed c) c.room_id) (drop n) inner-Keeps c)).at
        (update_room c.room_id game_left h)
        (rw (room_at-update_room c.room_id c.room_id game_left h, eq_refl c.room_id) refl)

  drop_from-Unplayed :
      (h : Hub) (o : Option RoomRuntime)
      → lookup c.room_id h.rooms ≡ o
      → Line (Unplayed c) c.room_id (drop_from (drop n) c o h).1
  unfolding room_at
  drop_from-Unplayed h none e = rw e refl
  drop_from-Unplayed h (some r) e = at (is_client r.game c) refl
    where
      at :
          (b : Bool)
          → is_client r.game c ≡ b
          → Line
              (Unplayed c)
              c.room_id
              ((if b then drop_game (drop n) c else modify (update_room c.room_id (bot_left c)))
                h).1
      at true same = drop_game-Unplayed h
      at false other =
          Line-update (Unplayed c) c.room_id c.room_id (bot_left c) h (λ r y. y) (rw e other)

  drop_from-bots :
      (h : Hub) (o : Option RoomRuntime)
      → lookup c.room_id h.rooms ≡ o
      → (is_client (room_at h c.room_id).game c ≡ true)
        ⊎ IsAbsent c (room_at (drop_from (drop n) c o h).1 c.room_id).bots
  unfolding room_at
  drop_from-bots h none e = inr (rw e refl)
  drop_from-bots h (some r) e = at (is_client r.game c) refl
    where
      at :
          (b : Bool)
          → is_client r.game c ≡ b
          → (is_client (or_new c.room_id (lookup c.room_id h.rooms)).game c ≡ true)
            ⊎ IsAbsent c
                (room_at
                  ((if b then drop_game (drop n) c else modify (update_room c.room_id (bot_left c)))
                    h).1
                  c.room_id).bots
      at true same = inl (rw e same)
      at false other = inr (
          rw (room_at-update_room c.room_id c.room_id (bot_left c) h, eq_refl c.room_id)
            (all-keep_self (λ d. not (is_same d c)) (room_at h c.room_id).bots))

abbrev pub anyhow : CastProperty
anyhow rid g n a instance_id round_id generation deadline = Unit

pub drop-done :
    (c : Client) (h : Hub) → h.store.is_closing ≡ false → (drop_connection c h).0 ≡ done tt
unfolding room_at
drop-done c h e =
    ((drop-Runs anyhow 2 Nowhere c).at h
      (record { open_store = e; casts = λ rid x p found. inl tt })).0

leave-done :
    (w : World) (c : Client) (h : Hub)
    → h.store.is_closing ≡ false
    → leave w c h ≡ (done tt, w.ended c (update_link c.id abort (drop_connection c h).1))
unfolding leave close_connection
leave-done w c h e = rw (drop-done c h e) refl

aborted-closed : (id : ℕ) (h : Hub) → ((update_link id abort h).links id).is_closed ≡ true
unfolding update_link abort
aborted-closed id h = rw ((nat_beq_iff id id).1 refl) refl

dropped-Unplayed : (c : Client) (h : Hub) → Line (Unplayed c) c.room_id (drop_connection c h).1
unfolding drop drop_with
dropped-Unplayed c h = drop_from-Unplayed 1 c (discard c h) (lookup c.room_id h.rooms) refl

dropped-bots :
    (c : Client) (h : Hub)
    → (is_client (room_at h c.room_id).game c ≡ true)
      ⊎ IsAbsent c (room_at (drop_connection c h).1 c.room_id).bots
unfolding drop drop_with room_at
dropped-bots c h = drop_from-bots 1 c (discard c h) (lookup c.room_id h.rooms) refl

-- If a hub's audit store is open, then the end of a session returns without an exception, and
-- before it waits for the connection's sending task the connection is closed, it is not among the
-- hub's connections, it is not the game of its room, and it is not among the room's Bots unless it
-- was the room's game.
pub leave-Gone :
    (w : World) (c : Client) (h : Hub)
    → h.store.is_closing ≡ false
    → let k : Hub = update_link c.id abort (drop_connection c h).1 in
      (leave w c h ≡ (done tt, w.ended c k))
      × ((k.links c.id).is_closed ≡ true)
      × IsAbsent c k.connections
      × (is_client (room_at k c.room_id).game c ≡ false)
      × ((is_client (room_at h c.room_id).game c ≡ true) ⊎ IsAbsent c (room_at k c.room_id).bots)
unfolding update_link room_at
leave-Gone w c h e = (
  leave-done w c h e,
  aborted-closed c.id (drop_connection c h).1,
  drop-Gone 1 c h,
  dropped-Unplayed c h,
  dropped-bots c h,
)
