-- ===== src/Tools/SimGame/Order.antt =====
-- tools/sim_game.py: the numbers of the simulated game's frames, and its verdict.
use thchaos_backend.Prelude.{
  ℕ, ◌+◌, ◌<◌, Bool, true, false, ◌&&◌, All, List, [], ◌∷◌, ◌++◌, length, ltb, nat_eq,
  if◌then◌else◌, ◌≡◌, refl, arith, Bool-cases, inl, inr, ◌⊎◌, subst, length-append,
}
use thchaos_backend.Prelude.Dict.{Dict}
use thchaos_backend.Protocol.Payloads.{VoteClosedPayload, Payload, winner, tie_all}
use thchaos_backend.Protocol.Envelope.{Frame, make_envelope}
use thchaos_backend.Tools.SimGame.Counting.{IsPolite, listen-three, listen-Counted}
use thchaos_backend.Tools.SimGame.{
  Game, Play, make_message, opening, first_play, count, on_cast, on_message, after, listen, Verdict,
  verdict, closed, effects, closing, run,
}

-- The frames have the numbers from `n` on.
abbrev pub Numbered : ℕ → List Frame → Type 0
Numbered n [] = Unit
Numbered n (f ∷ frames) = (f.seq ≡ n) × Numbered (n + 1) frames

pub Numbered-append :
    (n : ℕ) (xs ys : List Frame)
    → Numbered n xs
    → Numbered (n + length xs) ys
    → Numbered n (xs ++ ys)
Numbered-append n [] ys x y = subst (λ k. Numbered k ys) (omega arith) y
Numbered-append n (f ∷ xs) ys (e, x) y =
    (e, Numbered-append (n + 1) xs ys x (subst (λ k. Numbered k ys) (omega arith) y))

on_message-Numbered :
    (g : Game) (p : Payload) (s : Play)
    → Numbered s.seq (on_message g p s).0
      × ((on_message g p s).2.seq ≡ s.seq + length (on_message g p s).0)
unfolding on_message on_cast make_message make_envelope
on_message-Numbered g (Payload.vote_cast p) s = ((refl, (refl, tt)), refl)
on_message-Numbered g _ s = (tt, omega arith)

after-Numbered :
    (n : ℕ) (b : Bool) (frames : List Frame) (s : Play) (later : List Frame × Bool × Play)
    → Numbered n frames
    → s.seq ≡ n + length frames
    → Numbered s.seq later.0
    → later.2.seq ≡ s.seq + length later.0
    → Numbered n (after b frames s later).0
      × ((after b frames s later).2.seq ≡ n + length (after b frames s later).0)
after-Numbered n true frames s later x e y f = (x, e)
after-Numbered n false frames s later x e y f = (
  Numbered-append n frames later.0 x (subst (λ k. Numbered k later.0) e y),
  omega (arith, length-append frames later.0),
)

listen-Numbered :
    (g : Game) (messages : List Payload) (s : Play)
    → Numbered s.seq (listen g messages s).0
      × ((listen g messages s).2.seq ≡ s.seq + length (listen g messages s).0)
unfolding listen
listen-Numbered g [] s = (tt, omega arith)
listen-Numbered g (p ∷ messages) s =
    let out = on_message g p s in
    let (x, e) = on_message-Numbered g p s in
    let (y, f) = listen-Numbered g messages out.2 in
    after-Numbered s.seq out.1 out.0 out.2 (listen g messages out.2) x e y f

effects-Numbered : (g : Game) (seq : ℕ) (choices : List ℕ) → Numbered seq (effects g seq choices)
unfolding effects make_message make_envelope
effects-Numbered g seq [] = tt
effects-Numbered g seq (choice ∷ choices) = (refl, effects-Numbered g (seq + 1) choices)

closing-Numbered : (g : Game) (s : Play) → Numbered s.seq (closing g s)
unfolding closing make_message make_envelope
closing-Numbered g s = (refl, effects-Numbered g (s.seq + 1) _)

-- Whatever messages it receives, the frames of the simulated game have the numbers 1, 2, 3 and so
-- on, without a gap.
run-Numbered : (g : Game) (messages : List Payload) → Numbered 1 (run g messages)
unfolding run opening make_message make_envelope
run-Numbered g messages =
    let (x, e) = listen-Numbered g messages first_play in
    (
      refl,
      (
        refl,
        (
          refl,
          Numbered-append 4 (listen g messages first_play).0 _ x (
              subst (λ k. Numbered k (ended (listen g messages first_play).1)) e
                (at (listen g messages first_play).1)),
        ),
      ),
    )
  where
    ended : Bool → List Frame
    ended b = if b then closing g (listen g messages first_play).2 else []

    at : (b : Bool) → Numbered (listen g messages first_play).2.seq (ended b)
    at true = closing-Numbered g (listen g messages first_play).2
    at false = tt

-- One choice has more votes than each other, and wins with them.
abbrev pub Wins : ℕ → ℕ → ℕ → Verdict → Type 0
Wins a b c v =
    ((v.winner_choices ≡ 1 ∷ []) × (v.winning_votes ≡ a) × (b < a) × (c < a))
    ⊎ ((v.winner_choices ≡ 2 ∷ []) × (v.winning_votes ≡ b) × (a < b) × (c < b))
    ⊎ ((v.winner_choices ≡ 3 ∷ []) × (v.winning_votes ≡ c) × (a < c) × (b < c))

-- Three votes give a tie of all choices, with one vote each, or one choice that wins.
abbrev pub IsRight : ℕ → ℕ → ℕ → Verdict → Type 0
IsRight a b c v =
    ((v.reason ≡ tie_all) × (a ≡ 1) × (b ≡ 1) × (c ≡ 1)) ⊎ ((v.reason ≡ winner) × Wins a b c v)

leaders :
    (a b c : ℕ)
    → a + (b + (c + 0)) ≡ 3
    → ((a ≡ 1) × (b ≡ 1) × (c ≡ 1))
      ⊎ (((b < a) × (c < a)) ⊎ (((a < b) × (c < b)) ⊎ ((a < c) × (b < c))))
leaders a b c e = elim (Bool-cases (ltb b a && ltb c a)) [
  | inl x ↦ inr (inl (ground arith, ground arith))
  | inr x ↦ elim (Bool-cases (ltb a b && ltb c b)) [
    | inl y ↦ inr (inr (inl (ground arith, ground arith)))
    | inr y ↦ elim (Bool-cases (ltb a c && ltb b c)) [
      | inl z ↦ inr (inr (inr (ground arith, ground arith)))
      | inr z ↦ inl (ground arith, ground arith, ground arith)
    ]
  ]
]

verdict-IsRight : (a b c : ℕ) → a + (b + (c + 0)) ≡ 3 → IsRight a b c (verdict a b c)
unfolding verdict
verdict-IsRight a b c e = elim (leaders a b c e) [
  | inl (x, y, z) ↦ inl (ground arith, x, y, z)
  | inr (inl (x, y)) ↦ inr (ground arith, inl (ground arith, ground arith, x, y))
  | inr (inr (inl (x, y))) ↦ inr (ground arith, inr (inl (ground arith, ground arith, x, y)))
  | inr (inr (inr (x, y))) ↦ inr (ground arith, inr (inr (ground arith, ground arith, x, y)))
]

-- What a closed round says of its end.
abbrev pub outcome : VoteClosedPayload → Verdict
outcome p = record {
  reason = p.reason;
  winner_choices = p.winner_choices;
  winning_votes = p.winning_votes;
}

-- If every cast among the messages that the simulated game receives has a choice from 1 to 3, and
-- its loop ends, then there are three voters, and the closing message reports a tie of all choices
-- where each has one vote, and otherwise as the winner, with its votes, the one choice that has
-- more votes than each other.
pub listen-IsRight :
    (g : Game) (messages : List Payload)
    → All IsPolite messages
    → (listen g messages first_play).1 ≡ true
    → (length (listen g messages first_play).2.votes ≡ 3)
      × IsRight
          (count 1 (listen g messages first_play).2.votes)
          (count 2 (listen g messages first_play).2.votes)
          (count 3 (listen g messages first_play).2.votes)
          (outcome (closed (listen g messages first_play).2.votes))
unfolding closed count
listen-IsRight g messages polite ends =
    let three = listen-three g messages first_play (omega arith) ends in
    let all_counted = listen-Counted g messages first_play polite refl in
    let votes : Dict ℕ = (listen g messages first_play).2.votes in
    (
      three,
      verdict-IsRight (count 1 votes) (count 2 votes) (count 3 votes)
          (omega (arith, all_counted, three)),
    )
