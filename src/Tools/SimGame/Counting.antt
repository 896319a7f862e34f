-- ===== src/Tools/SimGame/Counting.antt =====
-- tools/sim_game.py: the simulated game counts each vote once, and stops at three voters.
use thchaos_backend.Prelude.{
  ℕ, ◌+◌, ◌≤◌, ◌<◌, String, Bool, true, false, Option, none, some, List, [], ◌∷◌, length, All, leb,
  ◌==◌, nat_eq, string_eq, if◌then◌else◌, ◌≡◌, refl, arith, Bool-cases, inl, inr, ◌⊎◌,
}
use thchaos_backend.Prelude.Dict.{Dict, insert, lookup}
use thchaos_backend.Protocol.Types.{is_choice}
use thchaos_backend.Protocol.Payloads.{Payload, VoteCastPayload}
use thchaos_backend.Protocol.Envelope.{Frame}
use thchaos_backend.Tools.SimGame.{Game, Play, count, counted, on_cast, on_message, after, listen}

-- A cast has a choice from 1 to 3.
abbrev pub IsPolite : Payload → Type 0
IsPolite (Payload.vote_cast p) = is_choice p.choice ≡ true
IsPolite _ = Unit

-- The counted votes have choices from 1 to 3, and each is in one count.
abbrev pub Counted : Dict ℕ → Type 0
Counted votes = count 1 votes + (count 2 votes + (count 3 votes + 0)) ≡ length votes

pub count-insert :
    (i : ℕ) (voter : String) (choice : ℕ) (votes : Dict ℕ)
    → lookup voter votes ≡ none
    → (count i (insert voter choice votes) ≡ (if choice == i then 1 else 0) + count i votes)
      × (length (insert voter choice votes) ≡ length votes + 1)
unfolding insert count lookup
count-insert i voter choice [] absent = (omega arith, refl)
count-insert i voter choice ((w, d) ∷ votes) absent = elim (Bool-cases (w == voter)) [
  | inl e ↦ absurd (ground arith)
  | inr e ↦
      let (a, b) = count-insert i voter choice votes (ground arith) in
      (rw e (omega (arith, a)), rw e (omega (arith, b)))
]

insert-Counted :
    (voter : String) (choice : ℕ) (votes : Dict ℕ)
    → is_choice choice ≡ true
    → lookup voter votes ≡ none
    → Counted votes
    → Counted (insert voter choice votes)
insert-Counted voter choice votes c absent e =
    let (a1, b) = count-insert 1 voter choice votes absent in
    let (a2, _) = count-insert 2 voter choice votes absent in
    let (a3, _) = count-insert 3 voter choice votes absent in ground (arith, a1, a2, a3, b)

counted-Counted :
    (o : Option ℕ) (p : VoteCastPayload) (votes : Dict ℕ)
    → lookup p.voter_id votes ≡ o
    → is_choice p.choice ≡ true
    → Counted votes
    → Counted (counted o p votes)
unfolding counted
counted-Counted none p votes absent c e = insert-Counted p.voter_id p.choice votes c absent e
counted-Counted (some n) p votes present c e = e

length-counted :
    (o : Option ℕ) (p : VoteCastPayload) (votes : Dict ℕ)
    → lookup p.voter_id votes ≡ o
    → length (counted o p votes) ≤ length votes + 1
unfolding counted
length-counted none p votes e = omega (arith, (count-insert 1 p.voter_id p.choice votes e).1)
length-counted (some n) p votes e = omega arith

-- A message ends the loop where there are then three voters.
pub on_message-three :
    (g : Game) (p : Payload) (s : Play)
    → length s.votes < 3
    → (((on_message g p s).1 ≡ true) × (length (on_message g p s).2.votes ≡ 3))
      ⊎ (((on_message g p s).1 ≡ false) × (length (on_message g p s).2.votes < 3))
unfolding on_message on_cast
on_message-three g (Payload.vote_cast p) s few =
    let more = length-counted (lookup p.voter_id s.votes) p s.votes refl in
    elim (Bool-cases (leb 3 (length (counted (lookup p.voter_id s.votes) p s.votes)))) [
      | inl e ↦ inl (e, ground arith)
      | inr e ↦ inr (e, ground arith)
    ]
on_message-three g _ s few = inr (refl, few)

pub listen-three :
    (g : Game) (messages : List Payload) (s : Play)
    → length s.votes < 3
    → (listen g messages s).1 ≡ true
    → length (listen g messages s).2.votes ≡ 3
unfolding listen
listen-three g [] s few e = absurd (cc)
listen-three g (p ∷ messages) s few e = elim (on_message-three g p s few) [
  | inl (stops, three) ↦ rw stops three
  | inr (goes_on, few') ↦
      let rest : (listen g messages (on_message g p s).2).1 ≡ true = rw goes_on at e in
      rw goes_on (listen-three g messages (on_message g p s).2 few' rest)
]

pub on_message-Counted :
    (g : Game) (p : Payload) (s : Play)
    → IsPolite p
    → Counted s.votes
    → Counted (on_message g p s).2.votes
unfolding on_message on_cast
on_message-Counted g (Payload.vote_cast p) s c e =
    counted-Counted (lookup p.voter_id s.votes) p s.votes refl c e
on_message-Counted g _ s c e = e

after-votes :
    (b : Bool) (frames : List Frame) (s : Play) (later : List Frame × Bool × Play)
    → Counted s.votes
    → Counted later.2.votes
    → Counted (after b frames s later).2.votes
after-votes true frames s later c d = c
after-votes false frames s later c d = d

pub listen-Counted :
    (g : Game) (messages : List Payload) (s : Play)
    → All IsPolite messages
    → Counted s.votes
    → Counted (listen g messages s).2.votes
unfolding listen
listen-Counted g [] s c e = e
listen-Counted g (p ∷ messages) s (c, cs) e =
    let d = on_message-Counted g p s c e in
    after-votes (on_message g p s).1 (on_message g p s).0 (on_message g p s).2
      (listen g messages (on_message g p s).2) d
      (listen-Counted g messages (on_message g p s).2 cs d)
