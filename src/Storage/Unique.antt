-- ===== src/Storage/Unique.antt =====
-- The unique constraints of `vote_attempts`: one row for a cast id, and one for a voter in a round.
use thchaos_backend.Prelude.{
  Bool, true, false, ◌||◌, List, [], ◌∷◌, ◌++◌, map, ◌≡◌, refl, arith, eq_iff, ◌∙◌, ◌⊎◌, inl, inr,
  Bool-cases, ◌&&◌, if◌then◌else◌,
}
use thchaos_backend.Storage.{
  VoteRow, StatusRow, Job, event, status, Database, same_cast, same_voter, conflicts, has_conflict,
  returned, record_vote, update_row, is_target, may_overwrite, apply_job, batch_sync,
}

-- No two rows conflict.
abbrev pub IsUnique : List VoteRow → Type 0
IsUnique [] = Unit {0}
IsUnique (r ∷ rows) = (has_conflict r rows ≡ false) × IsUnique rows

conflicts_comm : (a b : VoteRow) → conflicts a b ≡ conflicts b a
unfolding conflicts
conflicts_comm a b = ground (
  arith,
  eq_iff a.room_id b.room_id,
  eq_iff b.room_id a.room_id,
  eq_iff a.cast_id b.cast_id,
  eq_iff b.cast_id a.cast_id,
  eq_iff a.game_instance_id b.game_instance_id,
  eq_iff b.game_instance_id a.game_instance_id,
  eq_iff a.voter_id b.voter_id,
  eq_iff b.voter_id a.voter_id,
)

-- A status update does not touch the columns of the constraints.
conflicts-update_row :
    (u : StatusRow) (r x : VoteRow) → conflicts (update_row u r) x ≡ conflicts r x
unfolding update_row conflicts
conflicts-update_row u r x = keyed (is_target u r && may_overwrite u.status r.status)
  where
    keyed :
        (b : Bool) → conflicts (if b then record r { status = u.status } else r) x ≡ conflicts r x
    keyed true = refl
    keyed false = refl

conflicts-update_row_right :
    (u : StatusRow) (x r : VoteRow) → conflicts x (update_row u r) ≡ conflicts x r
conflicts-update_row_right u x r =
    conflicts_comm x (update_row u r) ∙ conflicts-update_row u r x ∙ conflicts_comm r x

has_conflict-update :
    (u : StatusRow) (x : VoteRow) (rows : List VoteRow)
    → has_conflict x (map (update_row u) rows) ≡ has_conflict x rows
unfolding has_conflict
has_conflict-update u x [] = refl
has_conflict-update u x (r ∷ rows) = cc (conflicts-update_row u r x, has_conflict-update u x rows)

has_conflict-update_left :
    (u : StatusRow) (x : VoteRow) (rows : List VoteRow)
    → has_conflict (update_row u x) rows ≡ has_conflict x rows
unfolding has_conflict
has_conflict-update_left u x [] = refl
has_conflict-update_left u x (r ∷ rows) =
    cc (conflicts-update_row_right u r x, has_conflict-update_left u x rows)

has_conflict-append :
    (x r : VoteRow) (rows : List VoteRow)
    → has_conflict x (rows ++ r ∷ []) ≡ (has_conflict x rows || conflicts r x)
unfolding has_conflict
has_conflict-append x r [] = ground arith
has_conflict-append x r (y ∷ rows) = ground (arith, has_conflict-append x r rows)

IsUnique-update :
    (u : StatusRow) (rows : List VoteRow) → IsUnique rows → IsUnique (map (update_row u) rows)
IsUnique-update u [] h = tt
IsUnique-update u (r ∷ rows) h = (
  has_conflict-update_left u r (map (update_row u) rows) ∙ has_conflict-update u r rows ∙ h.0,
  IsUnique-update u rows h.1,
)

IsUnique-append :
    (r : VoteRow) (rows : List VoteRow)
    → IsUnique rows
    → has_conflict r rows ≡ false
    → IsUnique (rows ++ r ∷ [])
unfolding has_conflict
IsUnique-append r [] h n = (refl, tt)
IsUnique-append r (x ∷ rows) h n = (
  ground (arith, has_conflict-append x r rows, conflicts_comm x r),
  IsUnique-append r rows h.1 (ground arith),
)

-- What the server does to the tables after the start: votes are recorded, batches are written.
pub data Operation : Type 0 where
  vote : Bool → VoteRow → Operation
  batch : List Job → Operation

unfoldable pub operate : Operation → Database → Database
operate (vote fails row) db = (record_vote fails row db).1
operate (batch jobs) db = batch_sync jobs db

unfoldable pub operate_all : List Operation → Database → Database
operate_all [] db = db
operate_all (op ∷ ops) db = operate_all ops (operate op db)

record_vote-IsUnique :
    (fails : Bool) (row : VoteRow) (db : Database)
    → IsUnique db.vote_attempts
    → IsUnique (record_vote fails row db).1.vote_attempts
unfolding record_vote
record_vote-IsUnique true row db h = h
record_vote-IsUnique false row db h = elim (Bool-cases (has_conflict row db.vote_attempts)) [
  | inl e ↦ rw (e, record_vote) h
  | inr e ↦ rw (e, record_vote) (IsUnique-append row db.vote_attempts h e)
]

apply_job-IsUnique :
    (j : Job) (db : Database) → IsUnique db.vote_attempts → IsUnique (apply_job j db).vote_attempts
unfolding apply_job
apply_job-IsUnique (event e) db h = ground arith
apply_job-IsUnique (status u) db h = IsUnique-update u db.vote_attempts h

batch_sync-IsUnique :
    (jobs : List Job) (db : Database)
    → IsUnique db.vote_attempts
    → IsUnique (batch_sync jobs db).vote_attempts
unfolding batch_sync
batch_sync-IsUnique [] db h = h
batch_sync-IsUnique (j ∷ jobs) db h = batch_sync-IsUnique jobs _ (apply_job-IsUnique j db h)

operate-IsUnique :
    (op : Operation) (db : Database)
    → IsUnique db.vote_attempts
    → IsUnique (operate op db).vote_attempts
unfolding operate
operate-IsUnique (vote fails row) db h = record_vote-IsUnique fails row db h
operate-IsUnique (batch jobs) db h = batch_sync-IsUnique jobs db h

-- From tables that satisfy the two unique constraints, any recorded votes and written batches
-- lead to tables that satisfy them.
pub operate_all-IsUnique :
    (ops : List Operation) (db : Database)
    → IsUnique db.vote_attempts
    → IsUnique (operate_all ops db).vote_attempts
unfolding operate_all
operate_all-IsUnique [] db h = h
operate_all-IsUnique (op ∷ ops) db h = operate_all-IsUnique ops _ (operate-IsUnique op db h)

-- A conflict with a row of the table stays.
has_conflict-record_vote :
    (fails : Bool) (row x : VoteRow) (db : Database)
    → has_conflict x db.vote_attempts ≡ true
    → has_conflict x (record_vote fails row db).1.vote_attempts ≡ true
unfolding record_vote
has_conflict-record_vote true row x db h = h
has_conflict-record_vote false row x db h =
    ground (arith, has_conflict-append x row db.vote_attempts)

has_conflict-apply_job :
    (j : Job) (x : VoteRow) (db : Database)
    → has_conflict x (apply_job j db).vote_attempts ≡ has_conflict x db.vote_attempts
unfolding apply_job
has_conflict-apply_job (event e) x db = ground arith
has_conflict-apply_job (status u) x db = has_conflict-update u x db.vote_attempts

has_conflict-batch_sync :
    (jobs : List Job) (x : VoteRow) (db : Database)
    → has_conflict x (batch_sync jobs db).vote_attempts ≡ has_conflict x db.vote_attempts
unfolding batch_sync
has_conflict-batch_sync [] x db = refl
has_conflict-batch_sync (j ∷ jobs) x db =
    has_conflict-batch_sync jobs x _ ∙ has_conflict-apply_job j x db

pub has_conflict-operate_all :
    (ops : List Operation) (x : VoteRow) (db : Database)
    → has_conflict x db.vote_attempts ≡ true
    → has_conflict x (operate_all ops db).vote_attempts ≡ true
unfolding operate_all operate
has_conflict-operate_all [] x db h = h
has_conflict-operate_all (vote fails row ∷ ops) x db h =
    has_conflict-operate_all ops x _ (has_conflict-record_vote fails row x db h)
has_conflict-operate_all (batch jobs ∷ ops) x db h =
    has_conflict-operate_all ops x _ (has_conflict-batch_sync jobs x db ∙ h)

has_conflict-recorded :
    (row x : VoteRow) (db : Database)
    → (record_vote false row db).0 ≡ returned true
    → conflicts row x ≡ true
    → has_conflict x (record_vote false row db).1.vote_attempts ≡ true
unfolding record_vote
has_conflict-recorded row x db r c = ground (arith, has_conflict-append x row db.vote_attempts)

-- Once a vote has been recorded, a vote with its cast id in the room, or of its voter in the same
-- room, instance and round, is refused and leaves the tables alone, whatever votes and batches
-- were written in between.
pub record_vote_once :
    (row x : VoteRow) (ops : List Operation) (db : Database)
    → (record_vote false row db).0 ≡ returned true
    → (same_cast row x ≡ true) ⊎ (same_voter row x ≡ true)
    → let later = operate_all ops (record_vote false row db).1 in
      record_vote false x later ≡ (returned false, later)
unfolding conflicts
record_vote_once row x ops db r c =
    let held : has_conflict x (operate_all ops (record_vote false row db).1).vote_attempts ≡ true =
      has_conflict-operate_all ops x _ (has_conflict-recorded row x db r (ground arith)) in
    unfold record_vote in rw held
