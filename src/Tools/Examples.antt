-- ===== src/Tools/Examples.antt =====
-- Tests of the simulators: three viewers vote, and the Bot's line is read while a round is open.
use thchaos_backend.Prelude.{
  ℕ, String, Bool, codes, ◌==◌, nat_eq, true, some, List, [], ◌∷◌, All, ◌≡◌, refl, length,
}
use thchaos_backend.Prelude.Dict.{lookup, insert}
use thchaos_backend.Protocol.Types.{validate_voter_id}
use thchaos_backend.Protocol.Payloads.{Payload}
use thchaos_backend.Tools.SimGame
use thchaos_backend.Tools.SimGame.{
  Game, first_play, count, counted, listen, on_message, on_cast, closed, run,
}
use thchaos_backend.Tools.SimGame.Valid.{IsProper, run-IsValid}
use thchaos_backend.Protocol.Schema.Texts.{is_group_id, is_raw_message_id, is_short_identifier}
use thchaos_backend.Protocol.Schema.{check_cast, check_payload}
use thchaos_backend.Tools.SimGame.Order.{Numbered, IsRight, outcome, listen-IsRight}
use thchaos_backend.Tools.SimBot.{Bot, Input, message, line, casts, first_watch}
use thchaos_backend.Tools.SimBot.Casts.{IsVote, casts-IsVote}

abbrev game : Game
game = record { room = "main"; token = "dev-game-token"; instance_id = "sim-1" }

abbrev vote : String → ℕ → Payload
vote voter choice = Payload.vote_cast (record {
  cast_id = voter;
  round_id = 1;
  choice = choice;
  voter_id = voter;
  source_group_id = "1";
  source_message_id = voter;
})

abbrev votes : List Payload
votes = vote "a" 2 ∷ vote "b" 1 ∷ vote "a" 1 ∷ vote "c" 2 ∷ []

-- A test in place of the one for UUIDs: one letter.
abbrev is_letter : String → Bool
is_letter s = length (codes s) == 1

proper : All (IsProper is_letter) votes
unfolding check_cast validate_voter_id is_group_id is_raw_message_id
proper = (refl, (refl, (refl, (refl, tt))))

game_room : is_short_identifier game.room ≡ true
unfolding is_short_identifier
game_room = refl

game_instance : is_short_identifier game.instance_id ≡ true
unfolding is_short_identifier
game_instance = refl

run-IsValid_example : All (λ f. check_payload is_letter f.payload ≡ true) (run game votes)
run-IsValid_example = run-IsValid is_letter game votes game_room game_instance refl proper

votes_end : (listen game votes first_play).1 ≡ true
unfolding listen on_message on_cast counted lookup insert
votes_end = refl

listen-IsRight_example :
    (length (listen game votes first_play).2.votes ≡ 3)
    × IsRight
        (count 1 (listen game votes first_play).2.votes)
        (count 2 (listen game votes first_play).2.votes)
        (count 3 (listen game votes first_play).2.votes)
        (outcome (closed (listen game votes first_play).2.votes))
listen-IsRight_example = listen-IsRight game votes (refl, (refl, (refl, (refl, tt)))) votes_end

abbrev bot : Bot
bot = record { room = "main"; token = "dev-bot-token" }

abbrev inputs : List Input
inputs =
    line "1" "c0" "m0"
    ∷ message (some "sim-1") (Payload.vote_opened SimGame.opened)
    ∷ line "4" "c1" "m1"
    ∷ line "2" "c2" "m2"
    ∷ []

casts-IsVote_example :
    All IsVote (casts bot inputs first_watch) × Numbered 2 (casts bot inputs first_watch)
casts-IsVote_example = casts-IsVote bot inputs first_watch
