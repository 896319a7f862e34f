-- ===== src/Hub/Metrics.antt =====
-- server/hub.py: `metrics`. Times are natural numbers of a clock; `round` is Python's rounding of a
-- sample to three places of a millisecond.
pub mod Rank
use thchaos_backend.Prelude.{
  ℕ, ◌+◌, ◌-◌, ◌*◌, ◌/◌, ◌≤◌, Bool, true, false, Option, none, some, List, [], ◌∷◌, length,
  get_elem?, leb, ltb, if◌then◌else◌,
}
use thchaos_backend.Prelude.Dict.{Dict}
use thchaos_backend.Hub.State.{RoomRuntime, Hub}

abbrev place : ℕ → List ℕ → List ℕ
place x [] = x ∷ []
place x (y ∷ ys) = let rest = place x ys in if leb x y then x ∷ y ∷ ys else y ∷ rest

-- `sorted(values)`.
unfoldable pub sorted : List ℕ → List ℕ
sorted [] = []
sorted (x ∷ xs) = place x (sorted xs)

-- `min(len(ordered) - 1, int((len(ordered) - 1) * p / 100))`.
abbrev pub position : ℕ → ℕ → ℕ
position p n = let i = (n - 1) * p / 100 in if ltb (n - 1) i then n - 1 else i

abbrev rounded : (ℕ → ℕ) → Option ℕ → ℕ
rounded round none = 0
rounded round (some n) = round n

-- The percentile `p` of the values; 0 where there are none.
unfoldable pub percentile : (ℕ → ℕ) → ℕ → List ℕ → ℕ
unfolding sorted
percentile round p values =
    let ordered = sorted values in rounded round (get_elem? ordered (position p (length ordered)))

pub record Percentiles : Type 0 where
  pub samples : ℕ
  pub p95_ms : ℕ
  pub p99_ms : ℕ

unfoldable pub percentiles : (ℕ → ℕ) → List ℕ → Percentiles
unfolding percentile
percentiles round values = record {
  samples = length (sorted values);
  p95_ms = percentile round 95 values;
  p99_ms = percentile round 99 values;
}

pub record Metrics : Type 0 where
  pub forward : Percentiles
  pub ack : Percentiles
  pub ack_timeouts : ℕ
  pub audit_dropped : ℕ
  pub audit_failures : ℕ
  pub pending_casts : ℕ

-- `sum(len(room.pending_casts) for room in self.rooms.values())`.
unfoldable pub count_pending : Dict RoomRuntime → ℕ
count_pending [] = 0
count_pending ((rid, r) ∷ rooms) = length r.pending_casts + count_pending rooms

unfoldable pub metrics : (ℕ → ℕ) → Hub → Metrics
unfolding percentiles count_pending
metrics round h = record {
  forward = percentiles round h.forward_ms;
  ack = percentiles round h.ack_ms;
  ack_timeouts = h.ack_timeouts;
  audit_dropped = h.store.dropped;
  audit_failures = h.store.failures;
  pending_casts = count_pending h.rooms;
}
