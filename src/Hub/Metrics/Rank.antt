-- ===== src/Hub/Metrics/Rank.antt =====
-- server/hub.py: a percentile is one of the samples, at its place in their order, rounded.
use thchaos_backend.Prelude.{
  ℕ, ◌+◌, ◌≤◌, ◌<◌, Bool, List, [], ◌∷◌, length, keep, All, leb, ◌==◌, nat_eq,
}

-- How many of the values pass a test.
abbrev pub tally : (ℕ → Bool) → List ℕ → ℕ
tally p xs = length (keep p xs)

-- Each value is at most those after it.
abbrev Rises : List ℕ → Type 0
Rises [] = Unit
Rises (x ∷ xs) = All (λ y. x ≤ y) xs × Rises xs

-- The value at a place of a rising list.
abbrev Ranks : List ℕ → ℕ → ℕ → Type 0
Ranks xs i v =
    (i < tally (λ x. leb x v) xs)
    × (length xs ≤ tally (λ x. leb v x) xs + i)
    × (1 ≤ tally (λ x. x == v) xs)
