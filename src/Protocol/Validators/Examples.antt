-- ===== src/Protocol/Validators/Examples.antt =====
-- Tests of the validators.
use thchaos_backend.Prelude.{
  ◌≢◌, ◌⊎◌, ℕ, true, false, List, [], ◌∷◌, map, length, ◌≡◌, ◌↔◌, ◌≤◌, refl,
}
use thchaos_backend.Protocol.Payloads.{
  GamePhase, VoteCount, VoteSnapshotPayload, VoteClosedPayload, winner, tie_all, no_votes_random,
}
use thchaos_backend.Protocol.Validators.{sum_votes, validate_totals, validate_outcome, all_distinct}
use thchaos_backend.Protocol.Validators.Outcomes.{validate_totals_iff, validate_outcome_iff}

abbrev counted : ℕ → ℕ → VoteCount
counted choice votes = record {
  choice = choice;
  event_id = choice;
  event_key = "k";
  name = "n";
  description = "d";
  votes = votes;
}

abbrev counts : List VoteCount
counts = counted 1 2 ∷ counted 2 0 ∷ counted 3 1 ∷ []

abbrev tally : VoteSnapshotPayload
tally = record {
  round_id = 1;
  phase = GamePhase.voting;
  options = counts;
  total_votes = 3;
  unique_voters = 3;
  remaining_ms = 1000;
  is_paused = false;
}

abbrev result : VoteClosedPayload
result = record {
  round_id = 1;
  reason = winner;
  winner_event_ids = 1 ∷ [];
  winner_choices = 1 ∷ [];
  winning_votes = 2;
  total_votes = 3;
  final_options = counts;
}

validate_totals_iff_example : (validate_totals tally ≡ true) ↔ (
    (map (λ (o : VoteCount). o.choice) counts ≡ 1 ∷ 2 ∷ 3 ∷ []) × (sum_votes counts ≡ 3) × (3 ≤ 3))
validate_totals_iff_example = validate_totals_iff tally

result_valid : validate_outcome result ≡ true
unfolding validate_outcome sum_votes all_distinct
result_valid = refl

validate_outcome_iff_example : (validate_outcome result ≡ true) ↔ (
    (map (λ (o : VoteCount). o.choice) counts ≡ 1 ∷ 2 ∷ 3 ∷ [])
    × (sum_votes counts ≡ 3)
    × (length result.winner_event_ids ≡ 1)
    × (all_distinct result.winner_event_ids ≡ true)
    × ((winner ≢ no_votes_random)
        ⊎ ((result.total_votes ≡ 0)
            × (result.winning_votes ≡ 0)
            × (length result.winner_event_ids ≡ 1)))
    × ((winner ≢ tie_all) ⊎ (length result.winner_event_ids ≡ 3)))
validate_outcome_iff_example = validate_outcome_iff result
