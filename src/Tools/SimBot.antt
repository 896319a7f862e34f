-- ===== src/Tools/SimBot.antt =====
-- tools/sim_bot.py: `run`, the simulated Bot. What it receives and the lines that it reads come in
-- any order.
pub mod Casts
use thchaos_backend.Prelude.{
  ℕ, ◌+◌, String, Option, none, some, List, [], ◌∷◌, ◌++◌, ◌==◌, string_eq, if◌then◌else◌, ◌||◌,
}
use thchaos_backend.Protocol.Payloads.{ClientRole, Payload}
use thchaos_backend.Protocol.Envelope.{Frame, make_envelope}

-- The arguments of `run`.
pub record Bot : Type 0 where
  pub room : String
  pub token : String

-- `seq`, `active_instance` and `active_round`.
pub record Watch : Type 0 where
  pub seq : ℕ
  pub active_instance : Option String
  pub active_round : Option ℕ

abbrev pub hello : Bot → Frame
hello b = make_envelope b.room none 1 (
    Payload.hello (record {
      role = ClientRole.bot;
      client_id = "sim-bot";
      client_version = "sim-1";
      token = b.token;
      room_id = b.room;
      game_instance_id = none;
    }))

abbrev pub first_watch : Watch
first_watch = record { seq = 1; active_instance = none; active_round = none }

-- A message of the server, with the game instance of its envelope; or a line of the input, without
-- the white space at its ends, with the random identifiers of the vote that may follow.
pub data Input : Type 0 where
  message : Option String → Payload → Input
  line : String → String → String → Input

-- One round of `receive`.
unfoldable pub on_receive : Option String → Payload → Watch → Watch
on_receive instance_id (Payload.vote_opened p) s = record s {
  active_instance = instance_id;
  active_round = some p.round_id;
}
on_receive instance_id (Payload.vote_closed p) s = record s { active_round = none }
on_receive instance_id _ s = s

-- `int(choice)` of one of the three texts.
unfoldable pub read_choice : String → Option ℕ
read_choice s =
    if s == "1" then some 1 else if s == "2" then some 2 else if s == "3" then some 3 else none

-- The vote, where there is a choice, an instance and a round.
unfoldable pub cast :
    Bot → String → String → Option ℕ → Option String → Option ℕ → Watch → List Frame × Watch
unfolding make_envelope
cast b cast_id message_id (some choice) (some instance_id) (some round_id) s = (
  make_envelope b.room (some instance_id) (s.seq + 1) (
        Payload.vote_cast (record {
          cast_id = cast_id;
          round_id = round_id;
          choice = choice;
          voter_id = "sim-qq-hmac";
          source_group_id = "123456";
          source_message_id = message_id;
        }))
      ∷ [],
  record s { seq = s.seq + 1 },
)
cast b cast_id message_id _ _ _ s = ([], s)

unfoldable pub on_input : Bot → Input → Watch → List Frame × Watch
unfolding on_receive read_choice cast
on_input b (message instance_id p) s = ([], on_receive instance_id p s)
on_input b (line choice cast_id message_id) s =
    cast b cast_id message_id (read_choice choice) s.active_instance s.active_round s

-- The frames of the loop, for the inputs that come.
unfoldable pub casts : Bot → List Input → Watch → List Frame
unfolding on_input
casts b [] s = []
casts b (i ∷ inputs) s = let out = on_input b i s in out.0 ++ casts b inputs out.1
