-- ===== src/Hub/Fuel/Enough.antt =====
-- server/hub.py: the fuel that handlers give to `_drop` is as good as any greater.
use thchaos_backend.Prelude.{
  ℕ, suc, String, true, false, Option, none, some, List, [], ◌∷◌, All, All-keep, ◌≡◌, refl, ◌==◌,
  string_eq, eq_iff, eq_refl, if◌then◌else◌, not, Bool-cases, inl, inr, ◌⊎◌, subst, sym, ap, ◌∙◌,
}
use thchaos_backend.Prelude.Dict.{lookup, keys, lookup-remove, lookup-map_values}
use thchaos_backend.Protocol.Errors.{ErrorCode, ProtocolError, round_game_offline}
use thchaos_backend.Protocol.Payloads.{Payload}
use thchaos_backend.Connection.{Client, PendingCast, is_client, is_same}
use thchaos_backend.Hub.State.{
  RoomRuntime, Hub, Outcome, done, protocol, connection_error, store_closing, database_error,
  timeout_error, M, continue, rescue, ◌>>◌, catch, modify, for_each, room_at, update_room,
  update_link,
}
use thchaos_backend.Hub.Rooms.{
  send, status, forget_cast, forget_origin, send_error, resolve, resolve_pending, resolve_all,
  drop_game, tell_offline, game_left, bot_left, drop_from, drop_with, discard, drop,
  resolved_status, resolved_error,
}
use thchaos_backend.Hub.Actions.{Keeps, Keeps-modify, room_at-update_room}
use thchaos_backend.Hub.Quiet.{
  Quiet, Steady, drop-Keeps, send-Keeps, catch-send-Keeps, status-Keeps, resolve-Keeps,
  resolve_all-Keeps,
}
use thchaos_backend.Hub.Fuel.{drop_with-drop_with}

-- Two actions do the same in every state with the property.
abbrev Agree : (Hub → Type 0) → M (Unit {0}) → M (Unit {0}) → Type 0
Agree P m k = (h : Hub) → P h → m h ≡ k h

module _ {P : Hub → Type 0} where
  rescue-Agree :
      (o : Outcome (Unit {0})) (k l : M (Unit {0})) (h : Hub)
      → P h
      → Agree P k l
      → rescue o k h ≡ rescue o l h
  rescue-Agree connection_error k l h p a = a h p
  rescue-Agree (done x) k l h p a = refl
  rescue-Agree (protocol e) k l h p a = refl
  rescue-Agree store_closing k l h p a = refl
  rescue-Agree database_error k l h p a = refl
  rescue-Agree timeout_error k l h p a = refl

  catch-Agree : (m k l : M (Unit {0})) → Keeps P m → Agree P k l → Agree P (catch m k) (catch m l)
  catch-Agree m k l r a h p = rescue-Agree (m h).0 k l (m h).1 (r.at h p) a

  continue-Agree :
      (o : Outcome (Unit {0})) (k l : M (Unit {0})) (h : Hub)
      → P h
      → Agree P k l
      → continue o (λ _. k) h ≡ continue o (λ _. l) h
  continue-Agree (done x) k l h p a = a h p
  continue-Agree (protocol e) k l h p a = refl
  continue-Agree connection_error k l h p a = refl
  continue-Agree store_closing k l h p a = refl
  continue-Agree database_error k l h p a = refl
  continue-Agree timeout_error k l h p a = refl

  then-Agree :
      (m n k l : M (Unit {0})) → Keeps P m → Agree P m n → Agree P k l → Agree P (m >> k) (n >> l)
  then-Agree m n k l r a b h p =
      continue-Agree (m h).0 k l (m h).1 (r.at h p) b ∙ ap (λ o. continue o.0 (λ _. l) o.1) (a h p)

  for_each-Agree :
      {A : Type 0} (xs : List A) (f g : A → M (Unit {0}))
      → ((x : A) → Keeps P (f x))
      → All (λ x. Agree P (f x) (g x)) xs
      → Agree P (for_each xs f) (for_each xs g)
  unfolding for_each
  for_each-Agree [] f g r a = λ h p. refl
  for_each-Agree (x ∷ xs) f g r (a, rest) =
      then-Agree (f x) (g x) (for_each xs f) (for_each xs g) (r x) a (for_each-Agree xs f g r rest)

-- The origin of a cast is in the room.
abbrev pub IsFrom : String → PendingCast → Type 0
IsFrom rid p = (c : Client) → p.origin ≡ some c → c.room_id ≡ rid

-- The Bots of a room and the origins of its pending casts are connections of the room.
abbrev pub InRoom : String → RoomRuntime → Type 0
InRoom rid r =
    All (λ b. b.room_id ≡ rid) r.bots
    × ((x : String) (p : PendingCast) → lookup x r.pending_casts ≡ some p → IsFrom rid p)

abbrev Gone : String → RoomRuntime → Type 0
Gone rid r = (r.game ≡ none) × InRoom rid r

pub forget-InRoom : (rid x : String) (r : RoomRuntime) → InRoom rid r → InRoom rid (forget_cast x r)
forget-InRoom rid x r (bots, casts) =
    (bots, λ y p e. at y p (Bool-cases (x == y)) (sym (lookup-remove x y r.pending_casts) ∙ e))
  where
    at :
        (y : String) (p : PendingCast)
        → ((x == y) ≡ true) ⊎ ((x == y) ≡ false)
        → (if x == y then none else lookup y r.pending_casts) ≡ some p
        → IsFrom rid p
    at y p (inl same) e = let f : none ≡ some p = rw same at e in absurd (cc)
    at y p (inr other) e = casts y p (rw other at e)

forget_origin-IsFrom :
    (rid : String) (c : Client) (p : PendingCast) → IsFrom rid p → IsFrom rid (forget_origin c p)
forget_origin-IsFrom rid c p from d e = elim (Bool-cases (is_client p.origin c)) [
  | inl gone ↦ let f : none ≡ some d = rw gone at e in absurd (cc)
  | inr kept ↦ from d (rw kept at e)
]

pub left-InRoom :
    (rid : String) (c : Client) (r : RoomRuntime) → InRoom rid r → InRoom rid (bot_left c r)
left-InRoom rid c r (bots, casts) = (
  All-keep _ (λ b. not (is_same b c)) r.bots bots,
  λ x p e.
      let (q, found, changed) = lookup-map_values (forget_origin c) x p r.pending_casts e in
      subst (IsFrom rid) (sym changed) (forget_origin-IsFrom rid c q (casts x q found)),
)

-- A change of any room that keeps the property of a room.
change-Gone :
    (rid k : String) (f : RoomRuntime → RoomRuntime) (h : Hub)
    → ((r : RoomRuntime) → Gone rid r → Gone rid (f r))
    → Gone rid (room_at h rid)
    → Gone rid (room_at (update_room k f h) rid)
change-Gone rid k f h keep g =
    subst (Gone rid) (sym (room_at-update_room k rid f h)) (at (Bool-cases (k == rid)))
  where
    at :
        ((k == rid) ≡ true) ⊎ ((k == rid) ≡ false)
        → Gone rid (if k == rid then f (room_at h k) else room_at h rid)
    at (inl e) =
        rw e (keep (room_at h k) (subst (λ j. Gone rid (room_at h j)) (sym ((eq_iff k rid).0 e)) g))
    at (inr e) = rw e g

Quiet-Gone : (rid : String) → Quiet (λ h. Gone rid (room_at h rid))
unfolding room_at update_link
Quiet-Gone rid = record {
  linked = λ id f h x. x;
  stored = λ s h x. x;
  forgot =
      λ k x h v. change-Gone rid k (forget_cast x) h (λ r y. (y.0, forget-InRoom rid x r y.1)) v;
}

Steady-Gone : (rid : String) → Steady (λ h. Gone rid (room_at h rid))
unfolding room_at
Steady-Gone rid = record {
  quiet = Quiet-Gone rid;
  game_gone = λ k h v. change-Gone rid k game_left h (λ r y. (refl, y.1)) v;
  bot_gone =
      λ c h v. change-Gone rid c.room_id (bot_left c) h (λ r y. (y.0, left-InRoom rid c r y.1)) v;
  discarded = λ c h v. v;
}

-- The room's game is gone, and so a connection of the room is dropped without a further drop.
module _ (n : ℕ) (bottom : Client → M (Unit {0})) (rid : String) where
  abbrev Left : Hub → Type 0
  Left h = Gone rid (room_at h rid)

  drop-Left : (fuel : ℕ) (c : Client) → Keeps Left (drop fuel c)
  drop-Left fuel c = drop-Keeps (Steady-Gone rid) fuel c

  inner-Agree : (c : Client) → c.room_id ≡ rid → Agree Left (drop (suc n) c) (drop_with bottom c)
  unfolding drop
  inner-Agree c own h (gone, _) =
      drop_with-drop_with (drop n) bottom c h
        (subst (λ k. is_client (room_at h k).game c ≡ false) (sym own) (rw gone refl))

  send_error-Agree :
      (o : Option Client) (e : ProtocolError) (a b : Option String)
      → ((c : Client) → o ≡ some c → c.room_id ≡ rid)
      → Agree Left (send_error (drop (suc n)) o e a b) (send_error (drop_with bottom) o e a b)
  unfolding send_error
  send_error-Agree none e a b own = λ h p. refl
  send_error-Agree (some c) e a b own =
      catch-Agree _ (drop (suc n) c) (drop_with bottom c) (send-Keeps (Quiet-Gone rid) c _ _ _)
        (inner-Agree c (own c refl))

  resolve_pending-Agree :
      (x reason : String) (code : ErrorCode) (o : Option PendingCast)
      → ((p : PendingCast) → o ≡ some p → IsFrom rid p)
      → Agree Left
          (resolve_pending (drop (suc n)) rid x reason code o)
          (resolve_pending (drop_with bottom) rid x reason code o)
  resolve_pending-Agree x reason code none from = λ h p. refl
  resolve_pending-Agree x reason code (some p) from =
      then-Agree (modify (update_room rid (forget_cast x)))
        (modify (update_room rid (forget_cast x))) (reported >> told (drop (suc n)))
        (reported >> told (drop_with bottom))
        (Keeps-modify (update_room rid (forget_cast x)) ((Quiet-Gone rid).forgot rid x))
        (λ h v. refl)
        (then-Agree reported reported (told (drop (suc n))) (told (drop_with bottom))
          (status-Keeps (Quiet-Gone rid) rid x p _) (λ h v. refl)
          (send_error-Agree p.origin (resolved_error p x code) (some p.message_id) none
            (from p refl)))
    where
      reported : M (Unit {0})
      reported = status rid x p (resolved_status p reason)

      told : (Client → M (Unit {0})) → M (Unit {0})
      told inner = send_error inner p.origin (resolved_error p x code) (some p.message_id) none

  resolve-Agree :
      (x reason : String) (code : ErrorCode)
      → Agree Left
          (resolve (drop (suc n)) rid x reason code)
          (resolve (drop_with bottom) rid x reason code)
  unfolding resolve
  resolve-Agree x reason code h v =
      resolve_pending-Agree x reason code (lookup x (room_at h rid).pending_casts) (v.1.1 x) h v

  each : {A : Type 0} {P : A → Type 0} (xs : List A) → ((x : A) → P x) → All P xs
  each [] f = tt
  each (x ∷ xs) f = (f x, each xs f)

  resolve_all-Agree :
      (reason : String) (code : ErrorCode)
      → Agree Left
          (resolve_all (drop (suc n)) rid reason code)
          (resolve_all (drop_with bottom) rid reason code)
  unfolding resolve_all
  resolve_all-Agree reason code h v =
      for_each-Agree (keys (room_at h rid).pending_casts)
        (λ x. resolve (drop (suc n)) rid x reason code)
        (λ x. resolve (drop_with bottom) rid x reason code)
        (λ x. resolve-Keeps (Quiet-Gone rid) (drop (suc n)) (drop-Left (suc n)) rid x reason code)
        (each _ (λ x. resolve-Agree x reason code)) h v

  tell-Agree :
      (notice : Payload) (instance : Option String) (bots : List Client)
      → All (λ b. b.room_id ≡ rid) bots
      → All
          (λ b.
            Agree Left
              (catch (send b notice instance none) (drop (suc n) b))
              (catch (send b notice instance none) (drop_with bottom b)))
          bots
  tell-Agree notice instance [] own = tt
  tell-Agree notice instance (b ∷ bots) (own, others) = (
    catch-Agree _ (drop (suc n) b) (drop_with bottom b) (send-Keeps (Quiet-Gone rid) b _ _ _)
        (inner-Agree b own),
    tell-Agree notice instance bots others,
  )

abbrev notice : Client → Hub → Payload
notice c h = Payload.game_offline (record {
  room_id = (room_at h c.room_id).room_id;
  game_instance_id = c.game_instance_id;
  reason = "game_disconnected";
})

tell_offline-Agree :
    (n : ℕ) (bottom : Client → M (Unit {0})) (c : Client)
    → Agree
        (Left n bottom c.room_id)
        (tell_offline (drop (suc n)) c)
        (tell_offline (drop_with bottom) c)
unfolding tell_offline
tell_offline-Agree n bottom c h v =
    for_each-Agree (room_at h c.room_id).bots
      (λ b. catch (send b (notice c h) c.game_instance_id none) (drop (suc n) b))
      (λ b. catch (send b (notice c h) c.game_instance_id none) (drop_with bottom b))
      (λ b.
        catch-send-Keeps (Quiet-Gone c.room_id) b (notice c h) c.game_instance_id none
          (drop (suc n) b) (drop-Left n bottom c.room_id (suc n) b))
      (tell-Agree n bottom c.room_id (notice c h) c.game_instance_id (room_at h c.room_id).bots
        v.1.0)
      h v

game_left-Gone :
    (rid : String) (h : Hub)
    → InRoom rid (room_at h rid)
    → Gone rid (room_at (update_room rid game_left h) rid)
game_left-Gone rid h inside =
    subst (Gone rid) (sym (room_at-update_room rid rid game_left h))
      (rw (eq_refl rid) (refl, inside))

drop_game-drop_game :
    (n : ℕ) (bottom : Client → M (Unit {0})) (c : Client) (h : Hub)
    → InRoom c.room_id (room_at h c.room_id)
    → drop_game (drop (suc n)) c h ≡ drop_game (drop_with bottom) c h
unfolding drop_game
drop_game-drop_game n bottom c h inside =
    then-Agree (resolve_all (drop (suc n)) c.room_id "game_offline" round_game_offline)
      (resolve_all (drop_with bottom) c.room_id "game_offline" round_game_offline)
      (tell_offline (drop (suc n)) c) (tell_offline (drop_with bottom) c)
      (resolve_all-Keeps (Quiet-Gone c.room_id) (drop (suc n))
        (drop-Left n bottom c.room_id (suc n)) c.room_id "game_offline" round_game_offline)
      (resolve_all-Agree n bottom c.room_id "game_offline" round_game_offline)
      (tell_offline-Agree n bottom c) (update_room c.room_id game_left h)
      (game_left-Gone c.room_id h inside)

-- If the Bots of the connection's room and the origins of the room's pending casts are connections
-- of the room, then `_drop` with a fuel of at least 2 never comes to its end: it does the same as
-- one with any action in that place.
pub drop-drop_with :
    (n : ℕ) (bottom : Client → M (Unit {0})) (c : Client) (h : Hub)
    → InRoom c.room_id (room_at h c.room_id)
    → drop (suc (suc n)) c h ≡ drop_with (drop_with bottom) c h
unfolding drop drop_with room_at
drop-drop_with n bottom c h inside = left (lookup c.room_id h.rooms)
  where
    left :
        (o : Option RoomRuntime)
        → drop_from (drop (suc n)) c o (discard c h)
          ≡ drop_from (drop_with bottom) c o (discard c h)
    left none = refl
    left (some r) = elim (Bool-cases (is_client r.game c)) [
      | inl game ↦ rw game (drop_game-drop_game n bottom c (discard c h) inside)
      | inr bot ↦ rw bot refl
    ]

-- If the Bots of the connection's room and the origins of the room's pending casts are connections
-- of the room, then `_drop` does the same with any two amounts of fuel that are at least 2: the
-- calls between `_drop` and `_resolve` go no deeper.
pub drop_enough :
    (n m : ℕ) (c : Client) (h : Hub)
    → InRoom c.room_id (room_at h c.room_id)
    → drop (suc (suc n)) c h ≡ drop (suc (suc m)) c h
unfolding drop
drop_enough n m c h inside = drop-drop_with n (drop m) c h inside
