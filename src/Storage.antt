-- ===== src/Storage.antt =====
-- server/storage.py: the audit store. The two tables are lists of rows in order of insertion; the
-- unique constraints and the conditions of the SQL statements are written out. The clock columns
-- and row numbers, which no statement reads, are left out.
pub mod Unique
pub mod Steps
pub mod Verdicts
pub mod Redaction
pub mod Queue
pub mod Drain
pub mod Log
mod Examples
use thchaos_backend.Prelude.{
  ℕ, zero, suc, ◌+◌, ◌-◌, String, Bool, true, false, not, ◌&&◌, ◌||◌, Option, none, some, List, [],
  ◌∷◌, ◌++◌, map, codes, length, take, drop, any, ltb, leb, ◌==◌, nat_eq, string_eq, if◌then◌else◌,
}
use thchaos_backend.Protocol.Envelope.{Json, object, Members, end, member, get, without}

-- The text of a body: one that is JSON, as its value, or another.
pub data Body : Type 0 where
  valid_json : Json → Body
  other_text : String → Body

pub record EventRow : Type 0 where
  pub room_id : String
  pub game_instance_id : Option String
  pub source_role : String
  pub message_id : String
  pub message_type : String
  pub seq : ℕ
  pub body : Body

pub record VoteRow : Type 0 where
  pub room_id : String
  pub game_instance_id : String
  pub round_id : ℕ
  pub cast_id : String
  pub voter_id : String
  pub choice : ℕ
  pub status : String

pub record StatusRow : Type 0 where
  pub status : String
  pub room_id : String
  pub game_instance_id : String
  pub round_id : ℕ
  pub cast_id : String

pub data Job : Type 0 where
  event : EventRow → Job
  status : StatusRow → Job

pub record Database : Type 0 where
  pub events : List EventRow
  pub vote_attempts : List VoteRow

-- `in_hand` holds `jobs`, what the worker has taken from the queue and not yet written. `is_batch`
-- tells that the worker waits for the transaction on them, and takes no more.
pub record AuditStore : Type 0 where
  pub database : Database
  pub queue : List Job
  pub in_hand : List Job
  pub is_batch : Bool
  pub queue_size : ℕ
  pub dropped : ℕ
  pub failures : ℕ
  pub is_closing : Bool

-- `s.startswith(p)`, over code points.
unfoldable pub starts_with : List ℕ → List ℕ → Bool
starts_with [] s = true
starts_with (c ∷ p) [] = false
starts_with (c ∷ p) (d ∷ s) = c == d && starts_with p s

abbrev pub to_lower : ℕ → ℕ
to_lower c = if leb b'A' c && leb c b'Z' then c + 32 else c

-- SQLite's `s LIKE 'p%'` for a text `p` without wildcards: ASCII letters match in either case.
unfoldable pub like_prefix : List ℕ → List ℕ → Bool
unfolding starts_with
like_prefix p s = starts_with (map to_lower p) (map to_lower s)

-- UNIQUE(room_id, cast_id).
unfoldable pub same_cast : VoteRow → VoteRow → Bool
same_cast a b = a.room_id == b.room_id && a.cast_id == b.cast_id

-- UNIQUE(room_id, game_instance_id, round_id, voter_id).
unfoldable pub same_voter : VoteRow → VoteRow → Bool
same_voter a b =
    a.room_id == b.room_id
    && a.game_instance_id == b.game_instance_id
    && a.round_id == b.round_id
    && a.voter_id == b.voter_id

unfoldable pub conflicts : VoteRow → VoteRow → Bool
unfolding same_cast same_voter
conflicts a b = same_cast a b || same_voter a b

-- `row` violates a unique constraint of the table.
unfoldable pub has_conflict : VoteRow → List VoteRow → Bool
has_conflict row [] = false
has_conflict row (r ∷ rows) = conflicts r row || has_conflict row rows

-- What `_record_vote_sync` does: it returns a truth value, or passes an exception on.
pub data Recorded : Type 0 where
  returned : Bool → Recorded
  failed : Recorded

-- `fails`: the database raises an exception other than an integrity error.
unfoldable pub record_vote : Bool → VoteRow → Database → Recorded × Database
unfolding has_conflict
record_vote true row db = (failed, db)
record_vote false row db =
    if has_conflict row db.vote_attempts
    then (returned false, db)
    else (returned true, record db { vote_attempts = db.vote_attempts ++ row ∷ [] })

-- The WHERE clause's comparison of the four key columns.
unfoldable pub is_target : StatusRow → VoteRow → Bool
is_target u r =
    r.room_id == u.room_id
    && r.game_instance_id == u.game_instance_id
    && r.round_id == u.round_id
    && r.cast_id == u.cast_id

-- The added condition, by the new status, on the row's old status.
unfoldable pub may_overwrite : String → String → Bool
may_overwrite new old =
    if new == "forwarded"
    then old == "reserved"
    else if starts_with (codes "unknown:") (codes new)
        || starts_with (codes "not_sent:") (codes new)
    then not (like_prefix (codes "accepted") (codes old))
      && not (like_prefix (codes "rejected:") (codes old))
    else true

unfoldable pub update_row : StatusRow → VoteRow → VoteRow
unfolding is_target may_overwrite
update_row u r =
    if is_target u r && may_overwrite u.status r.status then record r { status = u.status } else r

-- `any row with this (room_id, message_id)`.
unfoldable pub has_event : EventRow → List EventRow → Bool
has_event e [] = false
has_event e (f ∷ events) =
    (f.room_id == e.room_id && f.message_id == e.message_id) || has_event e events

unfoldable pub apply_job : Job → Database → Database
unfolding has_event update_row
apply_job (event e) db =
    if has_event e db.events then db else record db { events = db.events ++ e ∷ [] }
apply_job (status u) db = record db { vote_attempts = map (update_row u) db.vote_attempts }

-- `_batch_sync`: one transaction.
unfoldable pub batch_sync : List Job → Database → Database
unfolding apply_job
batch_sync [] db = db
batch_sync (j ∷ jobs) db = batch_sync jobs (apply_job j db)

-- `queue.full()`: a queue of size 0 has no bound.
abbrev pub is_queue_full : AuditStore → Bool
is_queue_full s = ltb 0 s.queue_size && leb s.queue_size (length s.queue)

-- `_enqueue`; `none` is the `RuntimeError` of a closing store.
unfoldable pub enqueue : Job → AuditStore → Option AuditStore
enqueue j s =
    if s.is_closing
    then none
    else if is_queue_full s
    then some (record s { dropped = s.dropped + 1 })
    else some (record s { queue = s.queue ++ j ∷ [] })

-- `first = await queue.get()` of a worker with no jobs.
unfoldable pub worker_get : AuditStore → AuditStore
worker_get s = elim s.in_hand [
  | [] ↦ elim s.queue [
    | [] ↦ s
    | j ∷ rest ↦ record s { queue = rest; in_hand = j ∷ []; is_batch = false }
  ]
  | j ∷ jobs ↦ s
]

-- After the pause: the loop that adds to the first job up to 100.
unfoldable pub worker_gather : AuditStore → AuditStore
worker_gather s = if s.is_batch then s else elim s.in_hand [
  | [] ↦ s
  | j ∷ jobs ↦ record s {
    queue = drop (100 - length s.in_hand) s.queue;
    in_hand = s.in_hand ++ take (100 - length s.in_hand) s.queue;
    is_batch = true;
  }
]

-- The end of the wait for the thread: the transaction on the jobs in hand, or the count of its
-- failure.
unfoldable pub worker_write : Bool → AuditStore → AuditStore
unfolding batch_sync
worker_write fails s =
    if not s.is_batch
    then s
    else if fails
    then record s { in_hand = []; is_batch = false; failures = s.failures + length s.in_hand }
    else record s { in_hand = []; is_batch = false; database = batch_sync s.in_hand s.database }

-- `{key: value for key, value in payload.items() if key != "token"}`.
unfoldable pub without_token : Json → Json
unfolding without
without_token (object ms) = object (without "token" ms)
without_token v = v

-- `body[k] = v`; a dictionary has no key twice.
unfoldable pub put : String → Json → Members → Members
unfolding without
put k v end = member k v end
put k v (member j w rest) =
    let later = put k v rest in if j == k then member j v (without k rest) else member j w later

-- `body.get("payload", {})`.
unfoldable pub payload_of : Members → Json
unfolding get
payload_of body = elim (get "payload" body) [ none ↦ object end | some v ↦ v ]

-- SQLite's reading of a path: of a repeated name, the first member.
unfoldable pub get_first : String → Members → Option Json
get_first k end = none
get_first k (member j v rest) = let later = get_first k rest in if j == k then some v else later

-- The value at `$.token` of a value.
unfoldable pub token_of : Option Json → Option Json
unfolding get_first
token_of (some (object ms)) = get_first "token" ms
token_of _ = none

-- Takes the first member of a name away.
unfoldable pub remove_first : String → Members → Members
remove_first k end = end
remove_first k (member j v rest) =
    let later = remove_first k rest in if j == k then rest else member j v later

unfoldable pub remove_token : Json → Json
unfolding remove_first
remove_token (object ms) = object (remove_first "token" ms)
remove_token v = v

-- `json_remove(body, '$.payload.token')`: a path means the first member of each name.
unfoldable pub json_remove_token : Members → Members
unfolding remove_token
json_remove_token end = end
json_remove_token (member k v rest) =
    let later = json_remove_token rest in
    if k == "payload" then member k (remove_token v) rest else member k v later

-- The row that `record_event` queues.
abbrev pub redacted : Body → Body
redacted (valid_json (object ms)) =
    valid_json (object (put "payload" (without_token (payload_of ms)) ms))
redacted b = b

unfoldable pub event_row : EventRow → EventRow
unfolding put payload_of without_token
event_row e = if e.message_type == "hello" then record e { body = redacted e.body } else e

unfoldable pub record_event : EventRow → AuditStore → Option AuditStore
unfolding enqueue event_row
record_event e s = enqueue (event (event_row e)) s

unfoldable pub queue_vote_status : StatusRow → AuditStore → Option AuditStore
unfolding enqueue
queue_vote_status u s = enqueue (status u) s

-- The second UPDATE statement of `__init__`: what was under way when the process ended.
unfoldable pub restart_vote : VoteRow → VoteRow
restart_vote r =
    if r.status == "reserved" || r.status == "forwarded"
    then record r { status = "unknown:restart" }
    else r

-- The body after the first UPDATE statement: `json_type(…) IS NOT NULL`, and `json_valid(body)`.
abbrev pub restart_object : Members → Option Json → Members
restart_object ms none = ms
restart_object ms (some token) = json_remove_token ms

unfoldable pub restart_body : Body → Body
unfolding json_remove_token token_of get_first
restart_body (valid_json (object ms)) =
    valid_json (object (restart_object ms (token_of (get_first "payload" ms))))
restart_body b = b

-- The redaction of the rows that earlier versions wrote.
unfoldable pub restart_event : EventRow → EventRow
unfolding restart_body
restart_event e = if e.message_type == "hello" then record e { body = restart_body e.body } else e

-- `AuditStore(path, queue_size)` on the tables that the file holds.
unfoldable pub open_store : Database → ℕ → AuditStore
unfolding restart_vote restart_event
open_store db queue_size = record {
  database = record {
    events = map restart_event db.events;
    vote_attempts = map restart_vote db.vote_attempts;
  };
  queue = [];
  in_hand = [];
  is_batch = false;
  queue_size = queue_size;
  dropped = 0;
  failures = 0;
  is_closing = false;
}
