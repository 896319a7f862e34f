-- ===== src/Protocol/Validators/Outcomes.antt =====
-- What the validators of votes say.
use thchaos_backend.Prelude.{
  ℕ, ◌≤◌, true, List, [], ◌∷◌, map, length, nat_eq, ◌≡◌, ◌≢◌, ◌⊎◌, inl, inr, ◌↔◌, sym, ◌∙◌, false,
  refl, arith,
}
use thchaos_backend.Protocol.Payloads.{
  VoteCloseReason, VoteCount, VoteSnapshotPayload, VoteClosedPayload, winner, cancelled, tie_all,
  no_votes_random,
}
use thchaos_backend.Protocol.Validators.{
  is_no_votes_random, is_tie_all, is_one_two_three, validate_totals, validate_outcome, sum_votes,
  all_distinct,
}

one_two_three : (xs : List ℕ) → is_one_two_three xs ≡ true → xs ≡ 1 ∷ 2 ∷ 3 ∷ []
one_two_three [] e = absurd (cc)
one_two_three (a ∷ []) e = absurd (cc)
one_two_three (a ∷ b ∷ []) e = absurd (cc)
one_two_three (a ∷ b ∷ c ∷ []) e = ground arith
one_two_three (a ∷ b ∷ c ∷ d ∷ xs) e = absurd (cc)

-- A snapshot is accepted exactly where its options are the choices 1, 2 and 3 in this order, its
-- total is the sum of their votes, and no more voters than votes are counted.
pub validate_totals_iff :
    (p : VoteSnapshotPayload)
    → (validate_totals p ≡ true) ↔ (
        (map (λ (o : VoteCount). o.choice) p.options ≡ 1 ∷ 2 ∷ 3 ∷ [])
        × (sum_votes p.options ≡ p.total_votes)
        × (p.unique_voters ≤ p.total_votes))
unfolding validate_totals
validate_totals_iff p = (
  λ e. (one_two_three _ (ground arith), ground arith, ground arith),
  λ (choices, total, voters).
      let named : is_one_two_three (map (λ (o : VoteCount). o.choice) p.options) ≡ true =
        rw choices refl in
      ground arith,
)

no_votes_cases :
    (r : VoteCloseReason)
    → ((r ≡ no_votes_random) × (is_no_votes_random r ≡ true))
      ⊎ ((r ≢ no_votes_random) × (is_no_votes_random r ≡ false))
no_votes_cases winner = inr ((λ e. cc), refl)
no_votes_cases cancelled = inr ((λ e. cc), refl)
no_votes_cases tie_all = inr ((λ e. cc), refl)
no_votes_cases no_votes_random = inl (refl, refl)

tie_cases :
    (r : VoteCloseReason)
    → ((r ≡ tie_all) × (is_tie_all r ≡ true)) ⊎ ((r ≢ tie_all) × (is_tie_all r ≡ false))
tie_cases winner = inr ((λ e. cc), refl)
tie_cases tie_all = inl (refl, refl)
tie_cases cancelled = inr ((λ e. cc), refl)
tie_cases no_votes_random = inr ((λ e. cc), refl)

-- A result is accepted exactly where its options are the choices 1, 2 and 3 in this order, whose
-- votes add up to the total, it has as many winning events as winning choices and no event twice;
-- under the reason `no_votes_random`, no votes at all and one winner without votes; and under the
-- reason `tie_all`, three winners. Under the reason `winner` the numbers are not compared further.
pub validate_outcome_iff :
    (p : VoteClosedPayload)
    → (validate_outcome p ≡ true) ↔ (
        (map (λ (o : VoteCount). o.choice) p.final_options ≡ 1 ∷ 2 ∷ 3 ∷ [])
        × (sum_votes p.final_options ≡ p.total_votes)
        × (length p.winner_event_ids ≡ length p.winner_choices)
        × (all_distinct p.winner_event_ids ≡ true)
        × ((p.reason ≢ no_votes_random)
            ⊎ ((p.total_votes ≡ 0) × (p.winning_votes ≡ 0) × (length p.winner_event_ids ≡ 1)))
        × ((p.reason ≢ tie_all) ⊎ (length p.winner_event_ids ≡ 3)))
unfolding validate_outcome
validate_outcome_iff p = (
  λ e.
      let quiet : (p.reason ≢ no_votes_random)
          ⊎ ((p.total_votes ≡ 0) × (p.winning_votes ≡ 0) × (length p.winner_event_ids ≡ 1)) =
        elim (no_votes_cases p.reason) [
          | inl (same, b) ↦ inr (ground arith, ground arith, ground arith)
          | inr (other, b) ↦ inl other
        ] in
      let tie : (p.reason ≢ tie_all) ⊎ (length p.winner_event_ids ≡ 3) = elim (tie_cases p.reason) [
        | inl (same, b) ↦ inr (ground arith)
        | inr (other, b) ↦ inl other
      ] in
      (one_two_three _ (ground arith), ground arith, ground arith, ground arith, quiet, tie),
  λ (choices, total, same, distinct, quiet, tie).
      let named : is_one_two_three (map (λ (o : VoteCount). o.choice) p.final_options) ≡ true =
        rw choices refl in
      elim (no_votes_cases p.reason) [
        | inl (r, b) ↦ elim quiet [
          | inl other ↦ absurd (other r)
          | inr (x, y, z) ↦ elim (tie_cases p.reason) [
            | inl (t, c) ↦ absurd (random_tie (sym r ∙ t))
            | inr (t, c) ↦ ground arith
          ]
        ]
        | inr (r, b) ↦ elim (tie_cases p.reason) [
          | inl (t, c) ↦ elim tie [ inl other ↦ absurd (other t) | inr three ↦ ground arith ]
          | inr (t, c) ↦ ground arith
        ]
      ],
)
  where
    random_tie : no_votes_random ≢ tie_all
    random_tie e = cc
