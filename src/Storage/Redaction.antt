-- ===== src/Storage/Redaction.antt =====
-- No token of a `hello` message reaches the audit queue or the events table.
use thchaos_backend.Prelude.{
  ◌&&◌, ◌||◌, not, ℕ, zero, suc, ◌+◌, ◌-◌, if◌then◌else◌, String, Bool, true, false, Option, none,
  some, List, [], ◌∷◌, ◌++◌, map, take, drop, length, ◌≡◌, refl, arith, eq_iff, ◌==◌, string_eq,
  All, All-append, Bool-cases, inl, inr,
}
use thchaos_backend.Protocol.Envelope.{
  Json, null, flag, number, negative, float, text, array, object, Members, end, member, without,
}
use thchaos_backend.Storage.{
  EventRow, Body, valid_json, other_text, Job, event, status, Database, AuditStore, without_token,
  put, payload_of, token_of, get_first, remove_first, remove_token, json_remove_token, event_row,
  restart_body, restart_object, restart_event, redacted, apply_job, batch_sync, record_vote,
  enqueue, is_queue_full, record_event, queue_vote_status, worker_get, worker_gather, worker_write,
  open_store, has_event,
}
use thchaos_backend.Storage.Steps.{
  StoreStep, recording, reporting, reserving, taking, gathering, writing, store_step, store_steps,
  or_same,
}

-- No member has the name.
unfoldable pub lacks : String → Members → Bool
lacks k end = true
lacks k (member j v rest) = not (j == k) && lacks k rest

abbrev lacks_token : Json → Bool
lacks_token (object ms) = lacks "token" ms
lacks_token v = true

-- No payload has a token, whichever of repeated names one reads.
unfoldable pub is_clean : Members → Bool
unfolding lacks
is_clean end = true
is_clean (member k v rest) = (not (k == "payload") || lacks_token v) && is_clean rest

abbrev pub is_clean_body : Body → Bool
is_clean_body (valid_json (object ms)) = is_clean ms
is_clean_body b = true

-- A row of a `hello` has no token in its payload.
abbrev pub IsRedacted : EventRow → Type 0
IsRedacted e = (e.message_type == "hello") ≡ true → is_clean_body e.body ≡ true

-- No name stands twice in the object, as in one that Python writes from a dictionary.
unfoldable pub is_dict : Members → Bool
unfolding lacks
is_dict end = true
is_dict (member k v rest) = lacks k rest && is_dict rest

abbrev is_dict_value : Json → Bool
is_dict_value (object ms) = is_dict ms
is_dict_value v = true

-- Nor in the objects that are its members.
unfoldable pub is_plain : Members → Bool
unfolding lacks is_dict
is_plain end = true
is_plain (member k v rest) = lacks k rest && is_dict_value v && is_plain rest

abbrev pub is_plain_body : Body → Bool
is_plain_body (valid_json (object ms)) = is_plain ms
is_plain_body b = true

lacks-without : (k : String) (ms : Members) → lacks k (without k ms) ≡ true
unfolding lacks without
lacks-without k end = refl
lacks-without k (member j v rest) = ground (arith, lacks-without k rest)

is_clean-without : (ms : Members) → is_clean (without "payload" ms) ≡ true
unfolding is_clean without
is_clean-without end = refl
is_clean-without (member j v rest) = ground (arith, is_clean-without rest)

is_clean-put :
    (v : Json) (ms : Members) → lacks_token v ≡ true → is_clean (put "payload" v ms) ≡ true
unfolding is_clean put
is_clean-put v end e = ground arith
is_clean-put v (member j w rest) e = elim (Bool-cases (j == "payload")) [
  | inl here ↦ rw here (ground (arith, is_clean-without rest))
  | inr later ↦ rw later (ground (arith, is_clean-put v rest e))
]

lacks_token-without_token : (v : Json) → lacks_token (without_token v) ≡ true
unfolding without_token
lacks_token-without_token (object ms) = lacks-without "token" ms
lacks_token-without_token _ = refl

lacks-remove_first :
    (k : String) (ms : Members) → is_dict ms ≡ true → lacks k (remove_first k ms) ≡ true
unfolding lacks remove_first is_dict
lacks-remove_first k end d = refl
lacks-remove_first k (member j v rest) d = ground (arith, eq_iff j k, lacks-remove_first k rest)

lacks_token-remove_token : (v : Json) → is_dict_value v ≡ true → lacks_token (remove_token v) ≡ true
unfolding remove_token
lacks_token-remove_token (object ms) d = lacks-remove_first "token" ms d
lacks_token-remove_token null d = refl
lacks_token-remove_token (flag b) d = refl
lacks_token-remove_token (number n) d = refl
lacks_token-remove_token (negative n) d = refl
lacks_token-remove_token (float f) d = refl
lacks_token-remove_token (text t) d = refl
lacks_token-remove_token (array a) d = refl

lacks-is_clean : (ms : Members) → lacks "payload" ms ≡ true → is_clean ms ≡ true
unfolding lacks is_clean
lacks-is_clean end e = refl
lacks-is_clean (member k v rest) e = ground (arith, lacks-is_clean rest)

is_clean-json_remove_token :
    (ms : Members) → is_plain ms ≡ true → is_clean (json_remove_token ms) ≡ true
unfolding is_clean json_remove_token is_plain
is_clean-json_remove_token end d = refl
is_clean-json_remove_token (member k v rest) d = ground (
  arith,
  eq_iff k "payload",
  is_clean-json_remove_token rest,
  lacks-is_clean rest,
  lacks_token-remove_token v,
)

get_first-lacks : (k : String) (ms : Members) → get_first k ms ≡ none → lacks k ms ≡ true
unfolding get_first lacks
get_first-lacks k end e = refl
get_first-lacks k (member j v rest) e = ground (arith, get_first-lacks k rest)

token_of-lacks_token : (v : Json) → token_of (some v) ≡ none → lacks_token v ≡ true
unfolding token_of
token_of-lacks_token (object ms) e = get_first-lacks "token" ms e
token_of-lacks_token null e = refl
token_of-lacks_token (flag b) e = refl
token_of-lacks_token (number n) e = refl
token_of-lacks_token (negative n) e = refl
token_of-lacks_token (float f) e = refl
token_of-lacks_token (text t) e = refl
token_of-lacks_token (array a) e = refl

-- An object whose path leads to no token.
token_of-is_clean :
    (ms : Members)
    → is_plain ms ≡ true
    → token_of (get_first "payload" ms) ≡ none
    → is_clean ms ≡ true
unfolding get_first is_clean is_plain
token_of-is_clean end d e = refl
token_of-is_clean (member k v rest) d e = elim (Bool-cases (k == "payload")) [
  | inl here ↦
      let empty : token_of (some v) ≡ none = rw here at e in
      ground (arith, eq_iff k "payload", token_of-lacks_token v empty, lacks-is_clean rest)
  | inr later ↦
      let empty : token_of (get_first "payload" rest) ≡ none = rw later at e in
      ground (arith, token_of-is_clean rest (ground arith) empty)
]

restart_body-clean : (b : Body) → is_plain_body b ≡ true → is_clean_body (restart_body b) ≡ true
unfolding restart_body
restart_body-clean (valid_json (object ms)) d = at (token_of (get_first "payload" ms)) refl
  where
    at :
        (o : Option Json)
        → token_of (get_first "payload" ms) ≡ o
        → is_clean_body (valid_json (object (restart_object ms o))) ≡ true
    at none e = token_of-is_clean ms d e
    at (some token) e = is_clean-json_remove_token ms d
restart_body-clean (valid_json null) d = refl
restart_body-clean (valid_json (flag b)) d = refl
restart_body-clean (valid_json (number n)) d = refl
restart_body-clean (valid_json (negative n)) d = refl
restart_body-clean (valid_json (float f)) d = refl
restart_body-clean (valid_json (text t)) d = refl
restart_body-clean (valid_json (array a)) d = refl
restart_body-clean (other_text t) d = refl

redacted-clean : (b : Body) → is_clean_body (redacted b) ≡ true
redacted-clean (valid_json (object ms)) =
    is_clean-put (without_token (payload_of ms)) ms (lacks_token-without_token (payload_of ms))
redacted-clean (valid_json null) = refl
redacted-clean (valid_json (flag b)) = refl
redacted-clean (valid_json (number n)) = refl
redacted-clean (valid_json (negative n)) = refl
redacted-clean (valid_json (float f)) = refl
redacted-clean (valid_json (text t)) = refl
redacted-clean (valid_json (array a)) = refl
redacted-clean (other_text t) = refl

event_row-IsRedacted : (e : EventRow) → IsRedacted (event_row e)
unfolding event_row
event_row-IsRedacted e = elim (Bool-cases (e.message_type == "hello")) [
  | inl h ↦ rw (h, event_row) (λ _. redacted-clean e.body)
  | inr h ↦ rw (h, event_row) (λ other. absurd (cc))
]

restart_event-IsRedacted :
    (e : EventRow) → is_plain_body e.body ≡ true → IsRedacted (restart_event e)
unfolding restart_event
restart_event-IsRedacted e d = elim (Bool-cases (e.message_type == "hello")) [
  | inl h ↦ rw (h, restart_event) (λ _. restart_body-clean e.body d)
  | inr h ↦ rw (h, restart_event) (λ other. absurd (cc))
]

abbrev pub RedactedJob : Job → Type 0
RedactedJob (event e) = IsRedacted e
RedactedJob (status u) = Unit {0}

-- In the queue, in the worker's hands and in the table.
pub record StoreRedacted (s : AuditStore) : Type 0 where
  pub queued : All RedactedJob s.queue
  pub held : All RedactedJob s.in_hand
  pub written : All IsRedacted s.database.events

apply_job-IsRedacted :
    (j : Job) (db : Database)
    → RedactedJob j
    → All IsRedacted db.events
    → All IsRedacted (apply_job j db).events
unfolding apply_job
apply_job-IsRedacted (event e) db r h = elim (Bool-cases (has_event e db.events)) [
  | inl b ↦ rw (b, apply_job) h
  | inr b ↦ rw (b, apply_job) (All-append IsRedacted db.events (e ∷ []) h (r, tt))
]
apply_job-IsRedacted (status u) db r h = h

batch_sync-IsRedacted :
    (jobs : List Job) (db : Database)
    → All RedactedJob jobs
    → All IsRedacted db.events
    → All IsRedacted (batch_sync jobs db).events
unfolding batch_sync
batch_sync-IsRedacted [] db r h = h
batch_sync-IsRedacted (j ∷ jobs) db r h =
    batch_sync-IsRedacted jobs _ r.1 (apply_job-IsRedacted j db r.0 h)

enqueue-redacted :
    (j : Job) {s : AuditStore}
    → RedactedJob j
    → StoreRedacted s
    → StoreRedacted (or_same s (enqueue j s))
unfolding enqueue
enqueue-redacted j {s} r h = kept s.is_closing (is_queue_full s)
  where
    longer : StoreRedacted (record s { queue = s.queue ++ j ∷ [] })
    longer = record {
      queued = All-append RedactedJob s.queue (j ∷ []) h.queued (r, tt);
      held = h.held;
      written = h.written;
    }

    same : StoreRedacted (record s { dropped = s.dropped + 1 })
    same = record { queued = h.queued; held = h.held; written = h.written }

    kept :
        (closing full : Bool)
        → StoreRedacted (
            or_same s (
              if closing
              then none
              else if full
              then some (record s { dropped = s.dropped + 1 })
              else some (record s { queue = s.queue ++ j ∷ [] })))
    kept true full = h
    kept false true = same
    kept false false = longer

take-All {ℓ κ} :
    {A : Type ℓ} (P : A → Type κ) (n : ℕ) (xs : List A)
    → All P xs
    → All P (take n xs) × All P (drop n xs)
take-All P zero xs h = (tt, h)
take-All P (suc n) [] h = (tt, tt)
take-All P (suc n) (x ∷ xs) h = let rest = take-All P n xs h.1 in ((h.0, rest.0), rest.1)

worker_get-redacted : (s : AuditStore) → StoreRedacted s → StoreRedacted (worker_get s)
unfolding worker_get
worker_get-redacted s h = taken s.in_hand s.queue h.held h.queued
  where
    taken :
        (hand jobs : List Job)
        → All RedactedJob hand
        → All RedactedJob jobs
        → StoreRedacted (worker_get (record s { in_hand = hand; queue = jobs }))
    taken [] [] b a = record { queued = tt; held = tt; written = h.written }
    taken [] (j ∷ jobs) b a = record { queued = a.1; held = (a.0, tt); written = h.written }
    taken (j ∷ hand) jobs b a = record { queued = a; held = b; written = h.written }

worker_gather-redacted : (s : AuditStore) → StoreRedacted s → StoreRedacted (worker_gather s)
unfolding worker_gather
worker_gather-redacted s h = gathered s.is_batch s.in_hand h.held
  where
    gathered :
        (batch : Bool) (hand : List Job)
        → All RedactedJob hand
        → StoreRedacted (worker_gather (record s { in_hand = hand; is_batch = batch }))
    gathered true hand b = record { queued = h.queued; held = b; written = h.written }
    gathered false [] b = record { queued = h.queued; held = tt; written = h.written }
    gathered false (j ∷ hand) b =
        let parts = take-All RedactedJob (100 - length (j ∷ hand)) s.queue h.queued in
        record {
          queued = parts.1;
          held = All-append RedactedJob (j ∷ hand) _ b parts.0;
          written = h.written;
        }

worker_write-redacted :
    (fails : Bool) (s : AuditStore) → StoreRedacted s → StoreRedacted (worker_write fails s)
unfolding worker_write
worker_write-redacted fails s h = wrote fails s.is_batch
  where
    wrote :
        (fails batch : Bool) → StoreRedacted (worker_write fails (record s { is_batch = batch }))
    wrote fails false = record { queued = h.queued; held = h.held; written = h.written }
    wrote true true = record { queued = h.queued; held = tt; written = h.written }
    wrote false true = record {
      queued = h.queued;
      held = tt;
      written = batch_sync-IsRedacted s.in_hand s.database h.held h.written;
    }

store_step-redacted :
    (x : StoreStep) (s : AuditStore) → StoreRedacted s → StoreRedacted (store_step x s)
unfolding store_step record_event queue_vote_status record_vote
store_step-redacted (recording e) s h =
    enqueue-redacted (event (event_row e)) (event_row-IsRedacted e) h
store_step-redacted (reporting u) s h = enqueue-redacted (status u) tt h
store_step-redacted (reserving fails row) s h = ground arith
store_step-redacted taking s h = worker_get-redacted s h
store_step-redacted gathering s h = worker_gather-redacted s h
store_step-redacted (writing fails) s h = worker_write-redacted fails s h

store_steps-redacted :
    (xs : List StoreStep) (s : AuditStore) → StoreRedacted s → StoreRedacted (store_steps xs s)
unfolding store_steps
store_steps-redacted [] s h = h
store_steps-redacted (x ∷ xs) s h = store_steps-redacted xs _ (store_step-redacted x s h)

map-restart-IsRedacted :
    (events : List EventRow)
    → All (λ e. is_plain_body e.body ≡ true) events
    → All IsRedacted (map restart_event events)
map-restart-IsRedacted [] d = tt
map-restart-IsRedacted (e ∷ events) (d, ds) =
    (restart_event-IsRedacted e d, map-restart-IsRedacted events ds)

-- From any tables in whose bodies no JSON object repeats a name, nor an object that is a member of it,
-- and after any steps of the store opened on them, no row of a `hello` that is queued, in the worker's
-- hands or in the events table has a token in its payload, where its body is a JSON object.
pub open_store-redacted :
    (db : Database) (size : ℕ) (xs : List StoreStep)
    → All (λ e. is_plain_body e.body ≡ true) db.events
    → StoreRedacted (store_steps xs (open_store db size))
unfolding open_store
open_store-redacted db size xs plain =
    store_steps-redacted xs _
      (record { queued = tt; held = tt; written = map-restart-IsRedacted db.events plain })
