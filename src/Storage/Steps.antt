-- ===== src/Storage/Steps.antt =====
-- The audit store's operations as steps of one machine.
use thchaos_backend.Prelude.{Bool, Option, none, some, List, [], ◌∷◌}
use thchaos_backend.Storage.{
  EventRow, VoteRow, StatusRow, AuditStore, record_vote, record_event, queue_vote_status,
  worker_get, worker_gather, worker_write,
}

pub data StoreStep : Type 0 where
  recording : EventRow → StoreStep
  reporting : StatusRow → StoreStep
  reserving : Bool → VoteRow → StoreStep
  taking gathering : StoreStep
  writing : Bool → StoreStep

-- A refused call (`RuntimeError`) leaves the store as it was.
abbrev pub or_same : AuditStore → Option AuditStore → AuditStore
or_same s none = s
or_same s (some t) = t

unfoldable pub store_step : StoreStep → AuditStore → AuditStore
store_step (recording e) s = or_same s (record_event e s)
store_step (reporting u) s = or_same s (queue_vote_status u s)
store_step (reserving fails row) s = record s { database = (record_vote fails row s.database).1 }
store_step taking s = worker_get s
store_step gathering s = worker_gather s
store_step (writing fails) s = worker_write fails s

unfoldable pub store_steps : List StoreStep → AuditStore → AuditStore
store_steps [] s = s
store_steps (x ∷ xs) s = store_steps xs (store_step x s)
