-- ===== src/Storage/Drain.antt =====
-- server/storage.py: `flush` and `aclose`: the worker empties the queue before the file is closed.
use thchaos_backend.Prelude.{
  ℕ, zero, suc, ◌-◌, ◌≤◌, Bool, true, false, List, [], ◌∷◌, ◌++◌, length, take, drop, nat_eq,
  if◌then◌else◌, ◌≡◌, refl, arith, ap, length-append, take-append-drop, sym, ◌∙◌, Bool-cases, inl,
  inr,
}
use thchaos_backend.Storage.{
  Job, Database, AuditStore, batch_sync, apply_job, worker_get, worker_gather, worker_write,
}

abbrev is_empty : List Job → Bool
is_empty [] = true
is_empty (j ∷ jobs) = false

-- The jobs that `join` waits for.
abbrev pub unfinished : AuditStore → List Job
unfinished s = s.in_hand ++ s.queue

-- The rest of a round of the worker, from where it is: a step that it has made does nothing again.
unfoldable pub worker_round : Bool → AuditStore → AuditStore
unfolding worker_get worker_gather worker_write
worker_round fails s = worker_write fails (worker_gather (worker_get s))

-- `flush`: rounds of the worker until nothing is unfinished. `fails` tells which of the coming
-- transactions raise; fuel bounds the rounds.
unfoldable pub flush_with : ℕ → (ℕ → Bool) → AuditStore → AuditStore
flush_with zero fails s = s
flush_with (suc fuel) fails s =
    let later = flush_with fuel fails (worker_round (fails fuel) s) in
    if is_empty (unfinished s) then s else later

-- A round finishes a job at least, where there is one.
unfoldable pub flush : (ℕ → Bool) → AuditStore → AuditStore
unfolding flush_with
flush fails s = flush_with (length (unfinished s)) fails s

-- `aclose`, up to the end of the worker and of the file.
unfoldable pub aclose : (ℕ → Bool) → AuditStore → AuditStore
unfolding flush
aclose fails s = flush fails (record s { is_closing = true })

pub batch_sync-append :
    (xs ys : List Job) (db : Database) → batch_sync (xs ++ ys) db ≡ batch_sync ys (batch_sync xs db)
unfolding batch_sync
batch_sync-append [] ys db = refl
batch_sync-append (x ∷ xs) ys db = batch_sync-append xs ys (apply_job x db)

pub batch_sync-split :
    (n : ℕ) (xs : List Job) (db : Database)
    → batch_sync (drop n xs) (batch_sync (take n xs) db) ≡ batch_sync xs db
batch_sync-split n xs db =
    sym (batch_sync-append (take n xs) (drop n xs) db)
    ∙ ap (λ ys. batch_sync ys db) (take-append-drop n xs)

length-drop_lem : {A : Type 0} (n : ℕ) (xs : List A) → length (drop n xs) ≤ length xs
length-drop_lem n xs =
    omega (arith, ap length (take-append-drop n xs), length-append (take n xs) (drop n xs))

-- A store at some point of the worker's round.
abbrev worker_at : Bool → List Job → List Job → AuditStore → AuditStore
worker_at batch hand queue s = record s { is_batch = batch; in_hand = hand; queue = queue }

-- A round leaves less unfinished.
worker_round-less :
    (fails : Bool) (s : AuditStore)
    → is_empty (unfinished s) ≡ false
    → suc (length (unfinished (worker_round fails s))) ≤ length (unfinished s)
unfolding worker_round worker_write worker_gather worker_get
worker_round-less fails s e = at fails s.is_batch s.in_hand s.queue e
  where
    at :
        (b batch : Bool) (hand queue : List Job)
        → is_empty (hand ++ queue) ≡ false
        → suc (length (unfinished (worker_round b (worker_at batch hand queue s))))
          ≤ length (hand ++ queue)
    at b batch [] [] e = absurd (cc)
    at true batch [] (j ∷ queue) e = omega (arith, length-drop_lem 99 queue)
    at false batch [] (j ∷ queue) e = omega (arith, length-drop_lem 99 queue)
    at true false (j ∷ hand) queue e =
        omega (arith, length-drop_lem (100 - suc (length hand)) queue, length-append hand queue)
    at false false (j ∷ hand) queue e =
        omega (arith, length-drop_lem (100 - suc (length hand)) queue, length-append hand queue)
    at true true (j ∷ hand) queue e = omega (arith, length-append hand queue)
    at false true (j ∷ hand) queue e = omega (arith, length-append hand queue)

empty_lem : (xs : List Job) → is_empty xs ≡ true → xs ≡ []
empty_lem [] e = refl
empty_lem (x ∷ xs) e = absurd (cc)

none_left : (xs : List Job) → length xs ≤ 0 → xs ≡ []
none_left [] e = refl
none_left (x ∷ xs) e = absurd (omega arith)

flush_with-finished :
    (fuel : ℕ) (fails : ℕ → Bool) (s : AuditStore)
    → length (unfinished s) ≤ fuel
    → unfinished (flush_with fuel fails s) ≡ []
unfolding flush_with
flush_with-finished zero fails s e = none_left (unfinished s) e
flush_with-finished (suc fuel) fails s e = elim (Bool-cases (is_empty (unfinished s))) [
  | inl d ↦ rw d (empty_lem (unfinished s) d)
  | inr d ↦ rw d (
      flush_with-finished fuel fails (worker_round (fails fuel) s)
        (omega (arith, e, worker_round-less (fails fuel) s d)))
]

-- A round that does not fail writes the jobs that it finishes, in their order.
worker_round-written :
    (s : AuditStore)
    → batch_sync (unfinished (worker_round false s)) (worker_round false s).database
      ≡ batch_sync (unfinished s) s.database
unfolding worker_round worker_write worker_gather worker_get batch_sync
worker_round-written s = at s.is_batch s.in_hand s.queue
  where
    at :
        (batch : Bool) (hand queue : List Job)
        → let t : AuditStore = worker_at batch hand queue s in
          batch_sync (unfinished (worker_round false t)) (worker_round false t).database
          ≡ batch_sync (hand ++ queue) s.database
    at true [] [] = refl
    at false [] [] = refl
    at batch [] (j ∷ queue) = batch_sync-split 99 queue (apply_job j s.database)
    at true (j ∷ hand) queue = sym (batch_sync-append hand queue (apply_job j s.database))
    at false (j ∷ hand) queue =
        rw
          (
            batch_sync-append hand (take (100 - suc (length hand)) queue) (apply_job j s.database),
            batch_sync-append hand queue (apply_job j s.database),
          )
          (batch_sync-split (100 - suc (length hand)) queue
            (batch_sync hand (apply_job j s.database)))

flush_with-written :
    (fuel : ℕ) (fails : ℕ → Bool) (s : AuditStore)
    → ((n : ℕ) → fails n ≡ false)
    → batch_sync (unfinished (flush_with fuel fails s)) (flush_with fuel fails s).database
      ≡ batch_sync (unfinished s) s.database
unfolding flush_with
flush_with-written zero fails s f = refl
flush_with-written (suc fuel) fails s f = elim (Bool-cases (is_empty (unfinished s))) [
  | inl d ↦ rw d refl
  | inr d ↦
      rw (d, f fuel)
        (flush_with-written fuel fails (worker_round false s) f ∙ worker_round-written s)
]

-- Whatever the state of the store, and whichever of its transactions fail, `aclose` leaves no job
-- unfinished: its rounds are enough.
aclose-finished : (fails : ℕ → Bool) (s : AuditStore) → unfinished (aclose fails s) ≡ []
unfolding aclose flush
aclose-finished fails s =
    flush_with-finished (length (unfinished s)) fails (record s { is_closing = true }) (omega arith)

-- If no transaction fails, then `aclose` writes all jobs that are unfinished, in the order in which
-- they were queued, and nothing else.
pub aclose-written :
    (fails : ℕ → Bool) (s : AuditStore)
    → ((n : ℕ) → fails n ≡ false)
    → (aclose fails s).database ≡ batch_sync (unfinished s) s.database
unfolding aclose flush batch_sync
aclose-written fails s f =
    let done : unfinished (aclose fails s) ≡ [] = aclose-finished fails s in
    let written =
      flush_with-written (length (unfinished s)) fails (record s { is_closing = true }) f in
    sym (ap (λ jobs. batch_sync jobs (aclose fails s).database) done) ∙ written
