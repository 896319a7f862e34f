-- ===== src/Hub/Expiry.antt =====
-- server/hub.py: `_expire_pending` leaves no cast whose deadline has come.
use thchaos_backend.Prelude.{
  ℕ, ◌<◌, leb, String, Bool, true, false, none, some, List, [], ◌∷◌, ◌≡◌, refl, arith, eq_iff, ◌==◌,
  string_eq, if◌then◌else◌, Bool-cases, Option-cases, inl, inr, any, ◌⊎◌, subst, sym, nat_eq,
}
use thchaos_backend.Prelude.Dict.{Dict, lookup, keys, lookup-keys}
use thchaos_backend.Protocol.Errors.{round_result_unknown}
use thchaos_backend.Connection.{PendingCast}
use thchaos_backend.Hub.State.{RoomRuntime, Hub, done, modify, or_new, room_at}
use thchaos_backend.Hub.Rooms.{resolve, drop_connection}
use thchaos_backend.Hub.Dispatch.{
  count_timeout, expire_cast, expire_casts, expire_rooms, expire_pending,
}
use thchaos_backend.Hub.Actions.{Runs, Runs-pure, Runs-modify, Runs-then}
use thchaos_backend.Hub.Casts.{CastProperty, CastSet, Casts}
use thchaos_backend.Hub.Casts.Resolve.{Stale, resolve-Runs, Casts-done}
use thchaos_backend.Hub.Current.{Nowhere, drop_connection-Runs}

-- The deadline has not come.
abbrev pub Undue : ℕ → CastProperty
Undue now rid g n a instance_id round_id generation deadline = now < deadline

-- The casts of a dictionary whose deadline has come.
abbrev due : ℕ → Dict PendingCast → List String
due now [] = []
due now ((x, p) ∷ d) = let rest = due now d in if leb p.deadline now then x ∷ rest else rest

lookup-due :
    (now : ℕ) (x : String) (p : PendingCast) (d : Dict PendingCast)
    → lookup x d ≡ some p
    → (now < p.deadline) ⊎ (any (λ j. j == x) (due now d) ≡ true)
unfolding lookup
lookup-due now x p [] e = cc
lookup-due now x p ((j, q) ∷ d) e = elim (Bool-cases (j == x)) [
  | inl hit ↦ ground arith
  | inr miss ↦ elim (lookup-due now x p d (ground arith)) [
    | inl a ↦ inl a
    | inr b ↦ inr (ground arith)
  ]
]

-- The casts of the rooms that are still to be visited.
abbrev InRooms : Dict RoomRuntime → CastSet
InRooms d k cast_id = any (λ j. j == k) (keys d) ≡ true

expire_cast-Runs :
    (now : ℕ) (S : CastSet) (rid x : String) (p : PendingCast) (ids : List String) (b : Bool)
    → leb p.deadline now ≡ b
    → Runs
        (Casts (Undue now) (Stale S rid (if b then x ∷ ids else ids)))
        (expire_cast rid now x p)
        (Casts (Undue now) (Stale S rid ids))
unfolding expire_cast room_at
expire_cast-Runs now S rid x p ids true e = rw e (
    Runs-then (modify count_timeout)
      (resolve drop_connection rid x "ack_timeout" round_result_unknown)
      (Runs-modify count_timeout (λ h c. record { open_store = c.open_store; casts = c.casts }))
      (resolve-Runs drop_connection (drop_connection-Runs (Undue now)) S rid x "ack_timeout"
        round_result_unknown ids))
expire_cast-Runs now S rid x p ids false e = rw e Runs-pure

expire_casts-Runs :
    (now : ℕ) (S : CastSet) (rid : String) (d : Dict PendingCast)
    → Runs
        (Casts (Undue now) (Stale S rid (due now d)))
        (expire_casts rid now d)
        (Casts (Undue now) S)
unfolding expire_casts
expire_casts-Runs now S rid [] = record { at = λ h c. (refl, Casts-done (Undue now) S rid h c) }
expire_casts-Runs now S rid ((x, p) ∷ d) =
    Runs-then (expire_cast rid now x p) (expire_casts rid now d)
      (expire_cast-Runs now S rid x p (due now d) (leb p.deadline now) refl)
      (expire_casts-Runs now S rid d)

-- The casts of the next room that are due, instead of all of its casts.
visit :
    (now : ℕ) (rid : String) (r : RoomRuntime) (d : Dict RoomRuntime) (h : Hub)
    → Casts (Undue now) (InRooms ((rid, r) ∷ d)) h
    → Casts (Undue now) (Stale (InRooms d) rid (due now (room_at h rid).pending_casts)) h
unfolding room_at keys
visit now rid r d h c = record {
  open_store = c.open_store;
  casts = λ k cast_id p e. at k cast_id p e (Bool-cases (rid == k)) (c.casts k cast_id p e);
}
  where
    at :
        (k cast_id : String) (p : PendingCast)
        → lookup cast_id (room_at h k).pending_casts ≡ some p
        → ((rid == k) ≡ true) ⊎ ((rid == k) ≡ false)
        → (now < p.deadline) ⊎ InRooms ((rid, r) ∷ d) k cast_id
        → (now < p.deadline)
          ⊎ Stale (InRooms d) rid (due now (room_at h rid).pending_casts) k cast_id
    at k cast_id p e other (inl b) = inl b
    at k cast_id p e (inr miss) (inr m) = inr (inl (ground arith))
    at k cast_id p e (inl here) (inr m) =
        let same : k ≡ rid = sym ((eq_iff rid k).0 here) in
        let found : lookup cast_id (room_at h rid).pending_casts ≡ some p =
          subst (λ j. lookup cast_id (room_at h j).pending_casts ≡ some p) same e in
        elim (lookup-due now cast_id p (room_at h rid).pending_casts found) [
          | inl b ↦ inl b
          | inr s ↦ inr (inr (here, s))
        ]

expire_rooms-Runs :
    (now : ℕ) (d : Dict RoomRuntime)
    → Runs (Casts (Undue now) (InRooms d)) (expire_rooms now d) (Casts (Undue now) Nowhere)
unfolding expire_rooms keys
expire_rooms-Runs now [] = record {
  at = λ h c. (refl, record { open_store = c.open_store; casts = λ k x p e. at k x p e c });
}
  where
    at :
        (k x : String) (p : PendingCast) {h : Hub}
        → lookup x (room_at h k).pending_casts ≡ some p
        → Casts (Undue now) (InRooms []) h
        → (now < p.deadline) ⊎ ⊥
    at k x p e c = elim (c.casts k x p e) [ inl b ↦ inl b | inr m ↦ absurd (cc) ]
expire_rooms-Runs now ((rid, r) ∷ d) = record {
  at = λ h c.
      (Runs-then (expire_casts rid now (room_at h rid).pending_casts) (expire_rooms now d)
          (expire_casts-Runs now (InRooms d) rid (room_at h rid).pending_casts)
          (expire_rooms-Runs now d)).at
        h (visit now rid r d h c);
}

-- A room with a pending cast is one of the hub's rooms.
all_rooms : (now : ℕ) (h : Hub) → h.store.is_closing ≡ false → Casts (Undue now) (InRooms h.rooms) h
unfolding room_at lookup
all_rooms now h e = record {
  open_store = e;
  casts = λ k x p found. inr (at k x p found (Option-cases (lookup k h.rooms)));
}
  where
    nowhere : (x : String) (p : PendingCast) → ¬ (lookup x [] ≡ some p)
    nowhere x p e = cc

    at :
        (k x : String) (p : PendingCast)
        → lookup x (or_new k (lookup k h.rooms)).pending_casts ≡ some p
        → (lookup k h.rooms ≡ none) ⊎ ((r : RoomRuntime) × (lookup k h.rooms ≡ some r))
        → any (λ j. j == k) (keys h.rooms) ≡ true
    at k x p found (inl e) =
        let nothing : lookup x (or_new k none).pending_casts ≡ some p =
          subst (λ o. lookup x (or_new k o).pending_casts ≡ some p) e found in
        absurd (nowhere x p nothing)
    at k x p found (inr (r, e)) = lookup-keys k r h.rooms e

-- If a hub's audit store is open, then the sweep for due casts returns without an exception, the
-- store is still open, and each cast that is pending afterwards in any room has a deadline later
-- than the time of the sweep.
pub expire_pending-due :
    (h : Hub) (now : ℕ)
    → h.store.is_closing ≡ false
    → ((expire_pending now h).0 ≡ done tt)
      × ((expire_pending now h).1.store.is_closing ≡ false)
      × ((rid x : String) (p : PendingCast)
          → lookup x (room_at (expire_pending now h).1 rid).pending_casts ≡ some p
          → now < p.deadline)
unfolding expire_pending
expire_pending-due h now e =
    let (ran, c) = (expire_rooms-Runs now h.rooms).at h (all_rooms now h e) in
    (ran, c.open_store, λ rid x p found. at p (c.casts rid x p found))
  where
    at : (p : PendingCast) → (now < p.deadline) ⊎ ⊥ → now < p.deadline
    at p (inl b) = b
    at p (inr z) = absurd z
