-- ===== src/Storage/Queue.antt =====
-- The bound on the audit queue, and where a queued job goes.
use thchaos_backend.Prelude.{
  ℕ, zero, suc, ◌+◌, ◌-◌, ◌≤◌, ◌<◌, Bool, false, some, List, [], ◌∷◌, ◌++◌, take, drop, length, ◌≡◌,
  arith, length-append, take-append-drop, ap, inl, inr, Bool-cases,
}
use thchaos_backend.Storage.{
  Job, event, status, AuditStore, event_row, enqueue, record_event, queue_vote_status, worker_get,
  worker_gather, worker_write, is_queue_full,
}
use thchaos_backend.Storage.Steps.{
  StoreStep, recording, reporting, reserving, taking, gathering, writing, store_step, store_steps,
  or_same,
}

-- The queue has a bound, within which it is; the worker holds at most 100 jobs, and at most one
-- while it collects them.
pub record IsBounded (s : AuditStore) : Type 0 where
  pub bound : 0 < s.queue_size
  pub queued : length s.queue ≤ s.queue_size
  pub held : length s.in_hand ≤ 100
  pub first : s.is_batch ≡ false → length s.in_hand ≤ 1

length-drop-le {ℓ} : {A : Type ℓ} (n : ℕ) (xs : List A) → length (drop n xs) ≤ length xs
length-drop-le n xs =
    omega (arith, ap length (take-append-drop n xs), length-append (take n xs) (drop n xs))

enqueue-IsBounded : (j : Job) {s : AuditStore} → IsBounded s → IsBounded (or_same s (enqueue j s))
unfolding enqueue
enqueue-IsBounded j {s} h = ground (arith, length-append s.queue (j ∷ []))

length-take-le {ℓ} : {A : Type ℓ} (n : ℕ) (xs : List A) → length (take n xs) ≤ n
length-take-le zero xs = omega arith
length-take-le (suc n) [] = omega arith
length-take-le (suc n) (x ∷ xs) = omega (arith, length-take-le n xs)

get-IsBounded : {s : AuditStore} → IsBounded s → IsBounded (worker_get s)
unfolding worker_get
get-IsBounded h = ground arith

gather-IsBounded : {s : AuditStore} → IsBounded s → IsBounded (worker_gather s)
unfolding worker_gather
gather-IsBounded {s} h =
    let n : ℕ = 100 - length s.in_hand in
    ground (
      arith,
      length-drop-le n s.queue,
      length-take-le n s.queue,
      length-append s.in_hand (take n s.queue),
    )

write-IsBounded : (fails : Bool) {s : AuditStore} → IsBounded s → IsBounded (worker_write fails s)
unfolding worker_write
write-IsBounded fails h = ground arith

step-IsBounded : (x : StoreStep) {s : AuditStore} → IsBounded s → IsBounded (store_step x s)
unfolding store_step record_event queue_vote_status
step-IsBounded (recording e) h = enqueue-IsBounded (event (event_row e)) h
step-IsBounded (reporting u) h = enqueue-IsBounded (status u) h
step-IsBounded (reserving fails row) h = ground arith
step-IsBounded taking h = get-IsBounded h
step-IsBounded gathering h = gather-IsBounded h
step-IsBounded (writing fails) h = write-IsBounded fails h

-- From a store whose audit queue has a size that is not 0 and is within it, and whose worker holds
-- at most 100 jobs, and at most one until it has collected its batch, whatever steps the store
-- takes, the same holds afterwards.
pub steps-IsBounded :
    (xs : List StoreStep) (s : AuditStore) → IsBounded s → IsBounded (store_steps xs s)
unfolding store_steps
steps-IsBounded [] s h = h
steps-IsBounded (x ∷ xs) s h = steps-IsBounded xs _ (step-IsBounded x h)

-- An open store takes every job, or counts it as dropped, and stays open.
pub enqueue-open :
    (j : Job) (s : AuditStore)
    → s.is_closing ≡ false
    → (t : AuditStore) × (enqueue j s ≡ some t) × (t.is_closing ≡ false)
unfolding enqueue
enqueue-open j s h = elim (Bool-cases (is_queue_full s)) [
  | inl full ↦ (record s { dropped = s.dropped + 1 }, ground arith, h)
  | inr room ↦ (record s { queue = s.queue ++ j ∷ [] }, ground arith, h)
]
