-- ===== src/Storage/Examples.antt =====
-- Tests of the audit store.
use thchaos_backend.Prelude.{
  ℕ, true, false, none, some, List, [], ◌∷◌, get_elem?, All, ◌≡◌, refl, inr, arith,
}
use thchaos_backend.Protocol.Envelope.{number, text, object, end, member}
use thchaos_backend.Storage.{
  EventRow, valid_json, VoteRow, StatusRow, status, event, Database, same_voter, like_prefix,
  starts_with, returned, record_vote, open_store, AuditStore, batch_sync, record_event, enqueue,
  event_row, restart_event, restart_body, json_remove_token, remove_token, remove_first, token_of,
  get_first,
}
use thchaos_backend.Storage.Unique.{
  vote, batch, operate_all, IsUnique, operate_all-IsUnique, record_vote_once,
}
use thchaos_backend.Storage.Verdicts.{
  is_verdict, is_own_status, OwnOperation, IsSettled, verdict_final, open_store-votes,
}
use thchaos_backend.Storage.Steps.{
  StoreStep, recording, reporting, reserving, taking, gathering, writing, store_step, store_steps,
}
use thchaos_backend.Storage.Redaction.{
  StoreRedacted, open_store-redacted, is_plain_body, is_plain, is_dict, lacks,
}
use thchaos_backend.Storage.Drain.{unfinished, aclose, aclose-written}
use thchaos_backend.Storage.Log.{log_of, log_events, all_handed, store_steps-log}
use thchaos_backend.Storage.Queue.{IsBounded, steps-IsBounded}

abbrev tables : Database
tables = record { events = []; vote_attempts = [] }

abbrev first_vote : VoteRow
first_vote = record {
  room_id = "main";
  game_instance_id = "g1";
  round_id = 1;
  cast_id = "a";
  voter_id = "q:1";
  choice = 2;
  status = "reserved";
}

abbrev second_vote : VoteRow
second_vote = record first_vote { cast_id = "b"; choice = 3 }

abbrev verdict : StatusRow
verdict = record {
  status = "accepted";
  room_id = "main";
  game_instance_id = "g1";
  round_id = 1;
  cast_id = "a";
}

abbrev late : StatusRow
late = record verdict { status = "unknown:ack_timeout" }

abbrev greeting : EventRow
greeting = record {
  room_id = "main";
  game_instance_id = none;
  source_role = "bot";
  message_id = "m";
  message_type = "hello";
  seq = 1;
  body = valid_json (object (member "payload" (object (member "token" (text "secret") end)) end));
}

first_recorded : (record_vote false first_vote tables).0 ≡ returned true
unfolding record_vote
first_recorded = refl

same_voters : same_voter first_vote second_vote ≡ true
unfolding same_voter
same_voters = refl

record_vote_once_example :
    record_vote false second_vote
      (operate_all (batch (status verdict ∷ []) ∷ []) (record_vote false first_vote tables).1)
    ≡ (
      returned false,
      operate_all (batch (status verdict ∷ []) ∷ []) (record_vote false first_vote tables).1,
    )
record_vote_once_example =
    record_vote_once first_vote second_vote (batch (status verdict ∷ []) ∷ []) tables first_recorded
      (inr same_voters)

operate_all-IsUnique_example :
    IsUnique
      (operate_all (vote false first_vote ∷ vote false second_vote ∷ []) tables).vote_attempts
operate_all-IsUnique_example =
    operate_all-IsUnique (vote false first_vote ∷ vote false second_vote ∷ []) tables tt

abbrev accepted_vote : VoteRow
accepted_vote = record first_vote { status = "accepted" }

abbrev decided : Database
decided = record { events = []; vote_attempts = accepted_vote ∷ [] }

accepted_is_verdict : is_verdict "accepted" ≡ true
unfolding is_verdict like_prefix starts_with
accepted_is_verdict = refl

late_is_own : All OwnOperation (batch (status late ∷ []) ∷ [])
unfolding is_own_status starts_with
late_is_own = ((refl, tt), tt)

verdict_final_example :
    get_elem? (operate_all (batch (status late ∷ []) ∷ []) decided).vote_attempts 0
    ≡ some accepted_vote
verdict_final_example =
    verdict_final (batch (status late ∷ []) ∷ []) decided 0 accepted_vote accepted_is_verdict
      late_is_own refl

open_store-votes_example :
    All IsSettled (open_store decided 8).database.vote_attempts
    × ((i : ℕ) (r : VoteRow)
        → is_verdict r.status ≡ true
        → get_elem? decided.vote_attempts i ≡ some r
        → get_elem? (open_store decided 8).database.vote_attempts i ≡ some r)
open_store-votes_example = open_store-votes decided 8

abbrev work : List StoreStep
work =
    recording greeting
    ∷ reporting late
    ∷ taking
    ∷ gathering
    ∷ writing false
    ∷ reserving false first_vote
    ∷ []

-- A table that an earlier version wrote.
abbrev legacy : Database
legacy = record { events = greeting ∷ []; vote_attempts = [] }

legacy_plain : All (λ e. is_plain_body e.body ≡ true) legacy.events
unfolding is_plain is_dict lacks
legacy_plain = (refl, tt)

legacy_token :
    (open_store legacy 8).database.events
    ≡ (record greeting { body = valid_json (object (member "payload" (object end) end)) }) ∷ []
unfolding open_store restart_event restart_body json_remove_token remove_token remove_first token_of
    get_first
legacy_token = refl

-- Of two tokens the first is removed.
two_tokens :
    remove_token (object (member "token" (number 1) (member "token" (number 2) end)))
    ≡ object (member "token" (number 2) end)
unfolding remove_token remove_first
two_tokens = refl

open_store-redacted_example : StoreRedacted (store_steps work (open_store legacy 8))
open_store-redacted_example = open_store-redacted legacy 8 work legacy_plain

empty-IsBounded : IsBounded (open_store tables 1)
unfolding open_store
empty-IsBounded = record {
  bound = omega arith;
  queued = omega arith;
  held = omega arith;
  first = λ e. omega arith;
}

steps-IsBounded_example : IsBounded (store_steps work (open_store tables 1))
steps-IsBounded_example = steps-IsBounded work (open_store tables 1) empty-IsBounded

-- An event and a verdict that wait behind a job in the worker's hands.
abbrev waiting : AuditStore
waiting = record (open_store tables 4) {
  queue = event greeting ∷ status verdict ∷ [];
  in_hand = status late ∷ [];
}

aclose-written_example :
    (aclose (λ n. false) waiting).database ≡ batch_sync (unfinished waiting) waiting.database
aclose-written_example = aclose-written (λ n. false) waiting (λ n. refl)

abbrev day : List StoreStep
day =
    recording greeting
    ∷ reserving false first_vote
    ∷ taking
    ∷ recording greeting
    ∷ reporting verdict
    ∷ gathering
    ∷ writing false
    ∷ []

store_steps-log_example :
    log_of (store_steps day (open_store tables 4))
    ≡ log_events (log_of (open_store tables 4)) (all_handed day (open_store tables 4))
unfolding open_store store_steps record_event enqueue event_row store_step
store_steps-log_example = store_steps-log day (open_store tables 4) (refl, tt)
