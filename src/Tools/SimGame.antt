-- ===== src/Tools/SimGame.antt =====
-- tools/sim_game.py: `run`, the simulated game of one round. Its state is what the loop changes; the
-- frames that it sends are the result of each part.
pub mod Counting
pub mod Valid
pub mod Order
use Prim.Native.Char.{Char}
use thchaos_backend.Prelude.{
  ℕ, ◌+◌, String, Bool, true, false, Option, none, some, List, [], ◌∷◌, ◌++◌, length, keep, any,
  ltb, leb, ◌==◌, nat_eq, string_eq, if◌then◌else◌,
}
use thchaos_backend.Prelude.Dict.{Dict, insert, lookup}
use thchaos_backend.Protocol.Payloads.{
  ClientRole, Payload, GamePhase, StateReason, VoteAckStatus, VoteAckReason, VoteCloseReason,
  EffectStatus, GameStatePayload, HelloPayload, GameSyncPayload, VoteOption, VoteOpenedPayload,
  VoteCastPayload, VoteAckPayload, VoteCount, VoteSnapshotPayload, VoteClosedPayload,
  EffectResolvedPayload, winner, tie_all, no_votes_random,
}
use thchaos_backend.Protocol.Envelope.{Frame, make_envelope}
use thchaos_backend.Protocol.Decimal.{print_number}

-- The arguments of `run` and the random instance.
pub record Game : Type 0 where
  pub room : String
  pub token : String
  pub instance_id : String

-- `votes` and `seq`.
pub record Play : Type 0 where
  pub votes : Dict ℕ
  pub seq : ℕ

-- A frame, and the number of the next.
unfoldable pub make_message : Game → ℕ → Payload → Frame
unfolding make_envelope
make_message g seq payload = make_envelope g.room (some g.instance_id) seq payload

abbrev pub hello : Game → Payload
hello g = Payload.hello (record {
  role = ClientRole.game;
  client_id = "sim-game";
  client_version = "sim-1";
  token = g.token;
  room_id = g.room;
  game_instance_id = some g.instance_id;
})

abbrev pub first_state : GameStatePayload
first_state = record {
  phase = GamePhase.waiting;
  stage = some 1;
  difficulty = some 1;
  is_paused = false;
  is_replay = false;
  live_run = true;
  game_time_ms = 0;
  remaining_ms = 0;
  reason = StateReason.stage_entered;
}

abbrev pub sync : Payload
sync = Payload.game_sync (record {
  state = first_state;
  active_vote = none;
  latest_snapshot = none;
  last_closed_round = none;
})

-- `event_key` and `name` of an option.
abbrev pub event_key : ℕ → String
event_key i =
    if i == 1 then "chaos.event_1" else if i == 2 then "chaos.event_2" else "chaos.event_3"

abbrev pub option_name : ℕ → String
option_name i = if i == 1 then "速度降低" else if i == 2 then "敌弹加速" else "封锁方向"

abbrev pub option : ℕ → VoteOption
option choice = record {
  choice = choice;
  event_id = 10 + choice;
  event_key = event_key choice;
  name = option_name choice;
  description = "";
}

unfoldable pub opened : VoteOpenedPayload
opened = record {
  round_id = 1;
  options = option 1 ∷ option 2 ∷ option 3 ∷ [];
  vote_duration_ms = 10000;
  remaining_ms = 10000;
  stage = none;
  difficulty = none;
  is_paused = false;
}

-- The frames before the loop.
unfoldable pub opening : Game → List Frame
unfolding make_message opened
opening g =
    make_message g 1 (hello g)
    ∷ make_message g 2 sync
    ∷ make_message g 3 (Payload.vote_opened opened)
    ∷ []

abbrev pub first_play : Play
first_play = record { votes = []; seq = 4 }

-- `sum(choice == i for choice in votes.values())`.
unfoldable pub count : ℕ → Dict ℕ → ℕ
count i [] = 0
count i ((voter, choice) ∷ votes) = (if choice == i then 1 else 0) + count i votes

abbrev pub vote_count : Dict ℕ → ℕ → VoteCount
vote_count votes choice = record {
  choice = choice;
  event_id = 10 + choice;
  event_key = event_key choice;
  name = option_name choice;
  description = "";
  votes = count choice votes;
}

abbrev pub vote_counts : Dict ℕ → List VoteCount
vote_counts votes = vote_count votes 1 ∷ vote_count votes 2 ∷ vote_count votes 3 ∷ []

-- The answer to a cast, by whether its voter has voted.
unfoldable pub answer : Option ℕ → VoteCastPayload → VoteAckPayload
answer (some before) p = record {
  cast_id = p.cast_id;
  round_id = p.round_id;
  choice = p.choice;
  status = VoteAckStatus.rejected;
  reason = VoteAckReason.duplicate;
  counted = false;
}
answer none p = record {
  cast_id = p.cast_id;
  round_id = p.round_id;
  choice = p.choice;
  status = VoteAckStatus.accepted;
  reason = VoteAckReason.accepted;
  counted = true;
}

-- `votes[voter] = choice`, where the voter is new.
unfoldable pub counted : Option ℕ → VoteCastPayload → Dict ℕ → Dict ℕ
counted (some before) p votes = votes
counted none p votes = insert p.voter_id p.choice votes

unfoldable pub snapshot : Dict ℕ → VoteSnapshotPayload
unfolding count
snapshot votes = record {
  round_id = 1;
  phase = GamePhase.voting;
  options = vote_counts votes;
  total_votes = length votes;
  unique_voters = length votes;
  remaining_ms = 5000;
  is_paused = false;
}

-- One cast: the acknowledgement, the snapshot, and the state after them.
unfoldable pub on_cast : Game → VoteCastPayload → Play → List Frame × Play
unfolding answer counted snapshot make_message
on_cast g p s =
    let before = lookup p.voter_id s.votes in
    let votes = counted before p s.votes in
    (
      make_message g s.seq (Payload.vote_ack (answer before p))
          ∷ make_message g (s.seq + 1) (Payload.vote_snapshot (snapshot votes))
          ∷ [],
      record { votes = votes; seq = s.seq + 2 },
    )

-- One message of the loop: `true` where it breaks. A message of another type is passed over.
unfoldable pub on_message : Game → Payload → Play → List Frame × Bool × Play
unfolding on_cast
on_message g (Payload.vote_cast p) s =
    let out = on_cast g p s in (out.0, leb 3 (length out.1.votes), out.1)
on_message g _ s = ([], false, s)

-- What follows a message of the loop.
abbrev pub after : Bool → List Frame → Play → List Frame × Bool × Play → List Frame × Bool × Play
after true frames s later = (frames, true, s)
after false frames s later = (frames ++ later.0, later.1, later.2)

-- The loop, over the messages that come: `true` where it has ended, and does not wait for more.
unfoldable pub listen : Game → List Payload → Play → List Frame × Bool × Play
unfolding on_message
listen g [] s = ([], false, s)
listen g (p ∷ messages) s =
    let out = on_message g p s in
    let later = listen g messages out.2 in after out.1 out.0 out.2 later

-- `max`, `list.count` and `list.index`, of three numbers.
abbrev pub max3 : ℕ → ℕ → ℕ → ℕ
max3 a b c = if leb a b then (if leb b c then c else b) else if leb a c then c else a

abbrev pub hits : ℕ → ℕ → ℕ → ℕ → ℕ
hits n a b c = (if a == n then 1 else 0) + (if b == n then 1 else 0) + (if c == n then 1 else 0)

abbrev pub index : ℕ → ℕ → ℕ → ℕ → ℕ
index n a b c = if a == n then 0 else if b == n then 1 else 2

-- How the round ends: its reason, the winning choices and the votes of the winner.
pub record Verdict : Type 0 where
  pub reason : VoteCloseReason
  pub winner_choices : List ℕ
  pub winning_votes : ℕ

unfoldable pub verdict : ℕ → ℕ → ℕ → Verdict
verdict a b c =
    let best = max3 a b c in
    if best == 0
    then record { reason = no_votes_random; winner_choices = 1 ∷ []; winning_votes = 0 }
    else if ltb 1 (hits best a b c)
    then record { reason = tie_all; winner_choices = 1 ∷ 2 ∷ 3 ∷ []; winning_votes = best }
    else record {
      reason = winner;
      winner_choices = (index best a b c + 1) ∷ [];
      winning_votes = best;
    }

-- The event identifiers of the winning choices.
abbrev pub winner_ids : List ℕ → List ℕ
winner_ids [] = []
winner_ids (choice ∷ choices) = (10 + choice) ∷ winner_ids choices

unfoldable pub closed : Dict ℕ → VoteClosedPayload
unfolding verdict count
closed votes =
    let v = verdict (count 1 votes) (count 2 votes) (count 3 votes) in
    record {
      round_id = 1;
      reason = v.reason;
      winner_event_ids = winner_ids v.winner_choices;
      winner_choices = v.winner_choices;
      winning_votes = v.winning_votes;
      total_votes = length votes;
      final_options = vote_counts votes;
    }

-- The character of a decimal digit's code.
unfoldable pub digit : ℕ → Char
digit n =
    if n == 48
    then "0"
    else if n == 49
    then "1"
    else if n == 50
    then "2"
    else if n == 51
    then "3"
    else if n == 52
    then "4"
    else if n == 53
    then "5"
    else if n == 54
    then "6"
    else if n == 55
    then "7"
    else if n == 56
    then "8"
    else "9"

-- `str(n)`, of the codes of decimal digits.
unfoldable pub digits_text : List ℕ → String
unfolding digit
digits_text [] = ""
digits_text (c ∷ cs) = String.◌∷◌ (digit c) (digits_text cs)

abbrev pub effect : ℕ → EffectResolvedPayload
effect choice = record {
  round_id = 1;
  command_id = digits_text (print_number (6217451873653358592 + choice));
  event_id = 10 + choice;
  event_key = event_key choice;
  status = EffectStatus.applied;
  result_code = "applied";
  applied_game_time_ms = 1234;
}

-- The loop over the winners, from a number on.
unfoldable pub effects : Game → ℕ → List ℕ → List Frame
unfolding make_message
effects g seq [] = []
effects g seq (choice ∷ choices) =
    make_message g seq (Payload.effect_resolved (effect choice)) ∷ effects g (seq + 1) choices

-- The frames after the loop.
unfoldable pub closing : Game → Play → List Frame
unfolding closed effects make_message
closing g s =
    let c = closed s.votes in
    make_message g s.seq (Payload.vote_closed c) ∷ effects g (s.seq + 1) c.winner_choices

-- Every frame of `run`, for the messages that come.
unfoldable pub run : Game → List Payload → List Frame
unfolding opening listen closing
run g messages =
    let out = listen g messages first_play in
    opening g ++ out.0 ++ (if out.1 then closing g out.2 else [])
