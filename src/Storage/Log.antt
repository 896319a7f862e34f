-- ===== src/Storage/Log.antt =====
-- server/storage.py: the table of events behind its queue, as an event log that is written at once.
use thchaos_backend.Prelude.{
  ℕ, ◌-◌, Bool, true, false, not, ◌&&◌, List, [], ◌∷◌, ◌++◌, length, take, drop, if◌then◌else◌, ◌≡◌,
  refl, ap, sym, ◌∙◌, Bool-cases, inl, inr,
}
use thchaos_backend.Storage.{
  EventRow, VoteRow, StatusRow, Job, event, status, Database, AuditStore, has_event, has_conflict,
  apply_job, batch_sync, event_row, enqueue, record_event, queue_vote_status, record_vote,
  worker_get, worker_gather, worker_write, is_queue_full,
}
use thchaos_backend.Storage.Steps.{
  StoreStep, recording, reporting, reserving, taking, gathering, writing, or_same, store_step,
  store_steps,
}
use thchaos_backend.Storage.Drain.{unfinished, batch_sync-append, batch_sync-split}

-- The log: an event is added unless its room has one with its message identifier.
abbrev pub log_event : List EventRow → EventRow → List EventRow
log_event log e = if has_event e log then log else log ++ e ∷ []

abbrev pub log_events : List EventRow → List EventRow → List EventRow
log_events log [] = log
log_events log (e ∷ es) = log_events (log_event log e) es

-- The log that a store stands for: its events once all that is unfinished is written.
abbrev pub log_of : AuditStore → List EventRow
log_of s = (batch_sync (unfinished s) s.database).events

-- The store is open and its queue has room.
abbrev pub has_room : AuditStore → Bool
has_room s = not s.is_closing && not (is_queue_full s)

-- The events that a step hands to the queue, and those of a sequence of steps.
abbrev pub handed : StoreStep → AuditStore → List EventRow
handed (recording e) s = if has_room s then event_row e ∷ [] else []
handed _ s = []

abbrev pub all_handed : List StoreStep → AuditStore → List EventRow
all_handed [] s = []
all_handed (x ∷ xs) s = handed x s ++ all_handed xs (store_step x s)

-- No transaction fails.
abbrev pub Orderly : List StoreStep → AuditStore → Type 0
Orderly [] s = Unit
Orderly (writing fails ∷ xs) s = (fails ≡ false) × Orderly xs (store_step (writing fails) s)
Orderly (x ∷ xs) s = Orderly xs (store_step x s)

apply_job-events :
    (j : Job) (a b : Database)
    → a.events ≡ b.events
    → (apply_job j a).events ≡ (apply_job j b).events
unfolding apply_job
apply_job-events (event e) a b h = elim (Bool-cases (has_event e b.events)) [
  | inl d ↦ rw (h, d) refl
  | inr d ↦ rw (h, d) refl
]
apply_job-events (status u) a b h = h

batch_sync-events :
    (jobs : List Job) (a b : Database)
    → a.events ≡ b.events
    → (batch_sync jobs a).events ≡ (batch_sync jobs b).events
unfolding batch_sync
batch_sync-events [] a b h = h
batch_sync-events (j ∷ jobs) a b h =
    batch_sync-events jobs (apply_job j a) (apply_job j b) (apply_job-events j a b h)

-- One more job at the end of the queue.
queued-events :
    (j : Job) (s : AuditStore)
    → log_of (record s { queue = s.queue ++ j ∷ [] })
      ≡ (apply_job j (batch_sync (unfinished s) s.database)).events
unfolding batch_sync
queued-events j s = ap (λ db. db.events) (at s.in_hand s.queue s.database)
  where
    at :
        (hand queue : List Job) (db : Database)
        → batch_sync (hand ++ (queue ++ j ∷ [])) db ≡ apply_job j (batch_sync (hand ++ queue) db)
    at [] queue db = batch_sync-append queue (j ∷ []) db
    at (x ∷ hand) queue db = at hand queue (apply_job x db)

recorded-events :
    (e : EventRow) (db : Database) → (apply_job (event e) db).events ≡ log_event db.events e
unfolding apply_job
recorded-events e db = elim (Bool-cases (has_event e db.events)) [
  | inl d ↦ rw d refl
  | inr d ↦ rw d refl
]

enqueued-events :
    (j : Job) (s : AuditStore)
    → log_of (or_same s (enqueue j s)) ≡ (
        if has_room s
        then (apply_job j (batch_sync (unfinished s) s.database)).events
        else log_of s)
unfolding enqueue
enqueued-events j s = elim (Bool-cases s.is_closing) [
  | inl closing ↦ rw closing refl
  | inr is_open ↦ elim (Bool-cases (is_queue_full s)) [
    | inl full ↦ rw (is_open, full) refl
    | inr room ↦ rw (is_open, room) (queued-events j s)
  ]
]

recording-log :
    (e : EventRow) (s : AuditStore)
    → log_of (store_step (recording e) s) ≡ log_events (log_of s) (handed (recording e) s)
unfolding store_step record_event
recording-log e s = enqueued-events (event (event_row e)) s ∙ at (has_room s)
  where
    at :
        (b : Bool)
        → (if b
            then (apply_job (event (event_row e)) (batch_sync (unfinished s) s.database)).events
            else log_of s)
          ≡ log_events (log_of s) (if b then event_row e ∷ [] else [])
    at true = recorded-events (event_row e) (batch_sync (unfinished s) s.database)
    at false = refl

reporting-log : (u : StatusRow) (s : AuditStore) → log_of (store_step (reporting u) s) ≡ log_of s
unfolding store_step queue_vote_status apply_job
reporting-log u s = enqueued-events (status u) s ∙ at (has_room s)
  where
    at :
        (b : Bool)
        → (if b
            then (apply_job (status u) (batch_sync (unfinished s) s.database)).events
            else log_of s)
          ≡ log_of s
    at true = refl
    at false = refl

reserved-events :
    (fails : Bool) (row : VoteRow) (db : Database) → (record_vote fails row db).1.events ≡ db.events
unfolding record_vote
reserved-events true row db = refl
reserved-events false row db = elim (Bool-cases (has_conflict row db.vote_attempts)) [
  | inl d ↦ rw d refl
  | inr d ↦ rw d refl
]

reserving-log :
    (fails : Bool) (row : VoteRow) (s : AuditStore)
    → log_of (store_step (reserving fails row) s) ≡ log_of s
unfolding store_step
reserving-log fails row s =
    batch_sync-events (unfinished s) (record_vote fails row s.database).1 s.database
      (reserved-events fails row s.database)

taking-log : (s : AuditStore) → log_of (store_step taking s) ≡ log_of s
unfolding store_step worker_get
taking-log s = at s.in_hand s.queue
  where
    at :
        (hand queue : List Job)
        → log_of (worker_get (record s { in_hand = hand; queue = queue }))
          ≡ log_of (record s { in_hand = hand; queue = queue })
    at [] [] = refl
    at [] (j ∷ queue) = refl
    at (x ∷ hand) queue = refl

gathering-log : (s : AuditStore) → log_of (store_step gathering s) ≡ log_of s
unfolding store_step worker_gather
gathering-log s = at s.is_batch s.in_hand
  where
    at :
        (batch : Bool) (hand : List Job)
        → log_of (worker_gather (record s { is_batch = batch; in_hand = hand }))
          ≡ log_of (record s { is_batch = batch; in_hand = hand })
    at true hand = refl
    at false [] = refl
    at false (x ∷ hand) =
        let n : ℕ = 100 - length (x ∷ hand) in
        ap (λ db. db.events)
          (batch_sync-append (x ∷ hand ++ take n s.queue) (drop n s.queue) s.database
            ∙ ap (batch_sync (drop n s.queue))
                (batch_sync-append (x ∷ hand) (take n s.queue) s.database)
            ∙ batch_sync-split n s.queue (batch_sync (x ∷ hand) s.database)
            ∙ sym (batch_sync-append (x ∷ hand) s.queue s.database))

writing-log : (s : AuditStore) → log_of (store_step (writing false) s) ≡ log_of s
unfolding store_step worker_write
writing-log s = at s.is_batch
  where
    at :
        (batch : Bool)
        → log_of (worker_write false (record s { is_batch = batch }))
          ≡ log_of (record s { is_batch = batch })
    at false = refl
    at true = ap (λ db. db.events) (sym (batch_sync-append s.in_hand s.queue s.database))

log_events-append :
    (log xs ys : List EventRow) → log_events log (xs ++ ys) ≡ log_events (log_events log xs) ys
log_events-append log [] ys = refl
log_events-append log (x ∷ xs) ys = log_events-append (log_event log x) xs ys

-- If no transaction of the worker fails, then through any steps of the store, votes and status changes
-- among them, the events that it holds or will have written are those of a log that takes each event
-- at once, when it is handed to the queue.
pub store_steps-log :
    (xs : List StoreStep) (s : AuditStore)
    → Orderly xs s
    → log_of (store_steps xs s) ≡ log_events (log_of s) (all_handed xs s)
unfolding store_steps
store_steps-log [] s o = refl
store_steps-log (recording e ∷ xs) s o =
    store_steps-log xs (store_step (recording e) s) o
    ∙ ap (λ log. log_events log (all_handed xs (store_step (recording e) s))) (recording-log e s)
    ∙ sym (
        log_events-append (log_of s) (handed (recording e) s)
          (all_handed xs (store_step (recording e) s)))
store_steps-log (reporting u ∷ xs) s o =
    store_steps-log xs (store_step (reporting u) s) o
    ∙ ap (λ log. log_events log (all_handed xs (store_step (reporting u) s))) (reporting-log u s)
store_steps-log (reserving fails row ∷ xs) s o =
    store_steps-log xs (store_step (reserving fails row) s) o
    ∙ ap (λ log. log_events log (all_handed xs (store_step (reserving fails row) s)))
        (reserving-log fails row s)
store_steps-log (taking ∷ xs) s o =
    store_steps-log xs (store_step taking s) o
    ∙ ap (λ log. log_events log (all_handed xs (store_step taking s))) (taking-log s)
store_steps-log (gathering ∷ xs) s o =
    store_steps-log xs (store_step gathering s) o
    ∙ ap (λ log. log_events log (all_handed xs (store_step gathering s))) (gathering-log s)
store_steps-log (writing true ∷ xs) s (f, o) = absurd (cc)
store_steps-log (writing false ∷ xs) s (f, o) =
    store_steps-log xs (store_step (writing false) s) o
    ∙ ap (λ log. log_events log (all_handed xs (store_step (writing false) s))) (writing-log s)
