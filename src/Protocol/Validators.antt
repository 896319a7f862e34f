-- ===== src/Protocol/Validators.antt =====
-- protocol/payloads.py and protocol/types.py: the constraints on fields and the model validators.
-- `true` stands for a validator that returns, `false` for one that raises.
pub mod Outcomes
mod Examples
use thchaos_backend.Prelude.{
  ℕ, ◌+◌, String, Bool, true, false, not, ◌&&◌, ◌||◌, Option, none, some, List, [], ◌∷◌, map, codes,
  length, all, any, ltb, leb, ◌==◌, nat_eq, if◌then◌else◌, ◌≤◌, ◌≡◌, ◌↔◌, ◌≢◌, ◌⊎◌, arith,
}
use thchaos_backend.Protocol.Types.{is_round_id, is_choice, is_event_id, is_count, in_range}
use thchaos_backend.Protocol.Payloads.{
  VoteAckStatus, VoteAckReason, VoteCloseReason, VoteAckPayload, VoteCount, VoteOption,
  VoteOpenedPayload, VoteSnapshotPayload, VoteClosedPayload, winner, tie_all, no_votes_random,
  cancelled,
}

abbrev is_accepted : VoteAckStatus → Bool
is_accepted VoteAckStatus.accepted = true
is_accepted VoteAckStatus.rejected = false

abbrev is_accepted_reason : VoteAckReason → Bool
is_accepted_reason VoteAckReason.accepted = true
is_accepted_reason _ = false

abbrev bool_eq : Bool → Bool → Bool
bool_eq true b = b
bool_eq false b = not b

-- `VoteAckPayload.validate_status`.
unfoldable pub validate_status : VoteAckPayload → Bool
validate_status p =
    if not (bool_eq (is_accepted p.status) p.counted)
    then false
    else if is_accepted p.status && not (is_accepted_reason p.reason)
    then false
    else if not (is_accepted p.status) && is_accepted_reason p.reason
    then false
    else true

-- `choices == [1, 2, 3]`.
abbrev is_one_two_three : List ℕ → Bool
is_one_two_three (a ∷ b ∷ c ∷ []) = a == 1 && b == 2 && c == 3
is_one_two_three _ = false

-- `VoteOpenedPayload.validate_choices`.
unfoldable pub validate_choices : VoteOpenedPayload → Bool
validate_choices p = is_one_two_three (map (λ o. o.choice) p.options)

-- `sum(item.votes for item in options)`.
unfoldable pub sum_votes : List VoteCount → ℕ
sum_votes [] = 0
sum_votes (o ∷ os) = o.votes + sum_votes os

-- `VoteSnapshotPayload.validate_totals`.
unfoldable pub validate_totals : VoteSnapshotPayload → Bool
validate_totals p =
    if not (is_one_two_three (map (λ o. o.choice) p.options))
    then false
    else if not (sum_votes p.options == p.total_votes)
    then false
    else if ltb p.total_votes p.unique_voters
    then false
    else true

-- `len(set(xs)) == len(xs)`.
unfoldable pub all_distinct : List ℕ → Bool
all_distinct [] = true
all_distinct (x ∷ xs) = not (any (λ y. y == x) xs) && all_distinct xs

abbrev pub is_no_votes_random : VoteCloseReason → Bool
is_no_votes_random no_votes_random = true
is_no_votes_random _ = false

abbrev pub is_tie_all : VoteCloseReason → Bool
is_tie_all tie_all = true
is_tie_all _ = false

-- `VoteClosedPayload.validate_outcome`.
unfoldable pub validate_outcome : VoteClosedPayload → Bool
validate_outcome p =
    if not (length p.winner_event_ids == length p.winner_choices)
    then false
    else if not (all_distinct p.winner_event_ids)
    then false
    else if not (is_one_two_three (map (λ o. o.choice) p.final_options))
    then false
    else if not (sum_votes p.final_options == p.total_votes)
    then false
    else if is_no_votes_random p.reason
        && (not (p.total_votes == 0)
            || not (length p.winner_event_ids == 1)
            || not (p.winning_votes == 0))
    then false
    else if is_tie_all p.reason && not (length p.winner_event_ids == 3)
    then false
    else true
