-- ===== src/Storage/Verdicts.antt =====
-- The life of a vote's audit status: the game's verdict is final, and a restart leaves no vote
-- under way.
use thchaos_backend.Prelude.{
  ℕ, zero, suc, String, Bool, true, false, ◌||◌, some, List, [], ◌∷◌, map, codes, ◌≡◌, refl, arith,
  eq_iff, ◌==◌, string_eq, Bool-cases, inl, inr, All, get_elem?, get_elem?-append_left, ap, ◌∙◌,
}
use thchaos_backend.Storage.{
  VoteRow, StatusRow, Job, event, status, Database, starts_with, like_prefix, may_overwrite,
  update_row, apply_job, batch_sync, restart_vote, open_store, record_vote,
}
use thchaos_backend.Storage.Unique.{Operation, vote, batch, operate, operate_all}

-- The game has answered.
unfoldable pub is_verdict : String → Bool
is_verdict s = like_prefix (codes "accepted") (codes s) || like_prefix (codes "rejected:") (codes s)

-- The statuses that the server itself sets: `forwarded`, `unknown:…` and `not_sent:…`.
unfoldable pub is_own_status : String → Bool
is_own_status s =
    s == "forwarded"
    || starts_with (codes "unknown:") (codes s)
    || starts_with (codes "not_sent:") (codes s)

reserved_not_verdict : is_verdict "reserved" ≡ false
unfolding is_verdict like_prefix starts_with
reserved_not_verdict = refl

may_overwrite-verdict :
    (new old : String)
    → is_own_status new ≡ true
    → is_verdict old ≡ true
    → may_overwrite new old ≡ false
unfolding may_overwrite is_own_status is_verdict
may_overwrite-verdict new old o v = elim (Bool-cases (old == "reserved")) [
  | inl e ↦
      let same : old ≡ "reserved" = (eq_iff old "reserved").0 e in
      absurd (cc (reserved_not_verdict, same))
  | inr e ↦ ground arith
]

update_row-verdict :
    (u : StatusRow) (r : VoteRow)
    → is_own_status u.status ≡ true
    → is_verdict r.status ≡ true
    → update_row u r ≡ r
unfolding update_row
update_row-verdict u r o v = ground (arith, may_overwrite-verdict u.status r.status)

-- Of its writes, only those of the server's own statuses.
abbrev pub OwnJob : Job → Type 0
OwnJob (event e) = Unit {0}
OwnJob (status u) = is_own_status u.status ≡ true

abbrev pub OwnOperation : Operation → Type 0
OwnOperation (vote fails row) = Unit {0}
OwnOperation (batch jobs) = All OwnJob jobs

get_elem?-update_row :
    (u : StatusRow) (rows : List VoteRow) (i : ℕ) (r : VoteRow)
    → is_own_status u.status ≡ true
    → is_verdict r.status ≡ true
    → get_elem? rows i ≡ some r
    → get_elem? (map (update_row u) rows) i ≡ some r
get_elem?-update_row u [] i r o v h = cc
get_elem?-update_row u (x ∷ rows) zero r o v h =
    let same : x ≡ r = cc in
    ap (λ y. some (update_row u y)) same ∙ ap some (update_row-verdict u r o v)
get_elem?-update_row u (x ∷ rows) (suc i) r o v h = get_elem?-update_row u rows i r o v h

module _ (i : ℕ) (r : VoteRow) (v : is_verdict r.status ≡ true) where
  abbrev Stands : Database → Type 0
  Stands db = get_elem? db.vote_attempts i ≡ some r

  apply_job-Stands : (j : Job) (db : Database) → OwnJob j → Stands db → Stands (apply_job j db)
  unfolding apply_job
  apply_job-Stands (event e) db o h = ground arith
  apply_job-Stands (status u) db o h = get_elem?-update_row u db.vote_attempts i r o v h

  batch_sync-Stands :
      (jobs : List Job) (db : Database) → All OwnJob jobs → Stands db → Stands (batch_sync jobs db)
  unfolding batch_sync
  batch_sync-Stands [] db o h = h
  batch_sync-Stands (j ∷ jobs) db o h = batch_sync-Stands jobs _ o.1 (apply_job-Stands j db o.0 h)

  operate-Stands :
      (op : Operation) (db : Database) → OwnOperation op → Stands db → Stands (operate op db)
  unfolding operate record_vote
  operate-Stands (vote true row) db o h = h
  operate-Stands (vote false row) db o h =
      ground (arith, get_elem?-append_left db.vote_attempts (row ∷ []) i r)
  operate-Stands (batch jobs) db o h = batch_sync-Stands jobs db o h

-- The game's verdict is final: whatever votes are recorded and whatever batches of events and of
-- the server's own statuses are written afterwards, a row whose status is a verdict stays in its
-- place, unchanged.
pub verdict_final :
    (ops : List Operation) (db : Database) (i : ℕ) (r : VoteRow)
    → is_verdict r.status ≡ true
    → All OwnOperation ops
    → get_elem? db.vote_attempts i ≡ some r
    → get_elem? (operate_all ops db).vote_attempts i ≡ some r
unfolding operate_all
verdict_final [] db i r v o h = h
verdict_final (op ∷ ops) db i r v o h =
    verdict_final ops _ i r v o.1 (operate-Stands i r v op db o.0 h)

-- Neither of the statuses of a vote that is under way.
abbrev pub IsSettled : VoteRow → Type 0
IsSettled r = ((r.status == "reserved") ≡ false) × ((r.status == "forwarded") ≡ false)

restart_vote-IsSettled : (r : VoteRow) → IsSettled (restart_vote r)
unfolding restart_vote
restart_vote-IsSettled r = elim (Bool-cases (r.status == "reserved" || r.status == "forwarded")) [
  | inl e ↦ rw (e, restart_vote) (refl, refl)
  | inr e ↦ rw (e, restart_vote) (ground arith)
]

forwarded_not_verdict : is_verdict "forwarded" ≡ false
unfolding is_verdict like_prefix starts_with
forwarded_not_verdict = refl

restart_vote-verdict : (r : VoteRow) → is_verdict r.status ≡ true → restart_vote r ≡ r
unfolding restart_vote
restart_vote-verdict r v = ground (
  arith,
  eq_iff r.status "reserved",
  eq_iff r.status "forwarded",
  reserved_not_verdict,
  forwarded_not_verdict,
)

map-restart-IsSettled : (rows : List VoteRow) → All IsSettled (map restart_vote rows)
map-restart-IsSettled [] = tt
map-restart-IsSettled (r ∷ rows) = (restart_vote-IsSettled r, map-restart-IsSettled rows)

get_elem?-restart :
    (rows : List VoteRow) (i : ℕ) (r : VoteRow)
    → is_verdict r.status ≡ true
    → get_elem? rows i ≡ some r
    → get_elem? (map restart_vote rows) i ≡ some r
get_elem?-restart [] i r v h = cc
get_elem?-restart (x ∷ rows) zero r v h =
    let same : x ≡ r = cc in
    ap (λ y. some (restart_vote y)) same ∙ ap some (restart_vote-verdict r v)
get_elem?-restart (x ∷ rows) (suc i) r v h = get_elem?-restart rows i r v h

-- A start of the server leaves no vote `reserved` or `forwarded`, and keeps each row whose status
-- is a verdict in its place, unchanged.
pub open_store-votes :
    (db : Database) (size : ℕ)
    → All IsSettled (open_store db size).database.vote_attempts
      × ((i : ℕ) (r : VoteRow)
          → is_verdict r.status ≡ true
          → get_elem? db.vote_attempts i ≡ some r
          → get_elem? (open_store db size).database.vote_attempts i ≡ some r)
unfolding open_store
open_store-votes db size =
    (map-restart-IsSettled db.vote_attempts, λ i r v h. get_elem?-restart db.vote_attempts i r v h)
