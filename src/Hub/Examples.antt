-- ===== src/Hub/Examples.antt =====
-- Tests of the hub: a game and a Bot join a room, the game synchronises, and the Bot casts a vote.
use thchaos_backend.Prelude.{
  arith, ◌∷◌, length, ◌≤◌, ℕ, ◌+◌, ◌<◌, ◌≢◌, String, true, false, none, some, [], ◌≡◌, refl,
}
use thchaos_backend.Prelude.Dict.{lookup, insert, keys}
use thchaos_backend.Protocol.Payloads.{
  ClientRole, Payload, GamePhase, StateReason, game_state, GameSyncPayload, VoteOpenedPayload,
  VoteCastPayload, role_value,
}
use thchaos_backend.Protocol.Envelope.{MessageType, Envelope, end, message_type_value}
use thchaos_backend.Config.{default_settings}
use thchaos_backend.Storage.{
  open_store, conflicts, enqueue, event_row, has_conflict, record_event, record_vote,
}
use thchaos_backend.Connection
use thchaos_backend.Connection.{Client, PendingCast, CastHooks, new_link, is_client}
use thchaos_backend.Hub.State.{
  MessageKey, Hub, done, room_at, room, update_link, for_each, set_room, update_room,
}
use thchaos_backend.Hub.Rooms.{resolve_all, broadcast, send}
use thchaos_backend.Hub.Game.{handle_sync, handle_game, answer_game, game_message}
use thchaos_backend.Hub.Bot.{
  Wait, bot_message, finish_cast, forward, handle_bot, handle_cast, rate_limit, recent,
  reserve_vote, start_cast,
}
use thchaos_backend.Hub.Dispatch.{
  admit, register, dispatch, find_message, process, model_dump, record_message, remember,
}
use thchaos_backend.Hub.Writer.{valid}
use thchaos_backend.Hub.Actions.{Runs}
use thchaos_backend.Hub.Line.{Line}
use thchaos_backend.Hub.Generation.{Follows}
use thchaos_backend.Hub.Current.{IsCurrent}
use thchaos_backend.Hub.Current.Game.{handle_sync-Runs}
use thchaos_backend.Hub.Current.Reach.{
  Reaches, here, registered, dispatched, Reaches-Follows, Reaches-IsCurrent, valid-open,
}
use thchaos_backend.Hub.Messages.{remember-find_message}
use thchaos_backend.Hub.Admission.{admit-seq}

abbrev pub new_hub : Hub
new_hub = record {
  settings = default_settings;
  store = open_store (record { events = []; vote_attempts = [] }) 4096;
  rooms = [];
  connections = [];
  links = λ id. new_link 0;
  forward_ms = [];
  ack_ms = [];
  ack_timeouts = 0;
  next_serial = 0;
  next_client = 2;
}

pub new_hub-IsCurrent : IsCurrent new_hub
unfolding open_store room_at lookup
new_hub-IsCurrent = record { open_store = refl; casts = λ k cast_id p e. absurd (cc) }

abbrev pub the_game : Client
the_game = record {
  id = 0;
  role = ClientRole.game;
  room_id = "main";
  client_id = "game";
  game_instance_id = some "g1";
  session_id = "s0";
  queue_limit = 128;
  send_timeout = 2000;
}

abbrev pub the_bot : Client
the_bot = record {
  id = 1;
  role = ClientRole.bot;
  room_id = "main";
  client_id = "bot";
  game_instance_id = none;
  session_id = "s1";
  queue_limit = 128;
  send_timeout = 2000;
}

abbrev pub frame : MessageType → ℕ → String → Envelope
frame t seq message_id = record {
  version = 1;
  message_type = t;
  message_id = message_id;
  room_id = "main";
  game_instance_id = some "g1";
  seq = seq;
  sent_at = "2026-01-01T00:00:00Z";
  payload = end;
}

abbrev round_one : VoteOpenedPayload
round_one = record {
  round_id = 1;
  options = [];
  vote_duration_ms = 30000;
  remaining_ms = 30000;
  stage = none;
  difficulty = none;
  is_paused = false;
}

abbrev pub sync : GameSyncPayload
sync = record {
  state = game_state GamePhase.voting StateReason.sync;
  active_vote = some round_one;
  latest_snapshot = none;
  last_closed_round = none;
}

abbrev pub ballot : VoteCastPayload
ballot = record {
  cast_id = "c1";
  round_id = 1;
  choice = 2;
  voter_id = "q:1";
  source_group_id = "1";
  source_message_id = "2";
}

abbrev pub quiet : Wait
quiet = record { before = λ h. h; after = λ h. h; fails = false; woken = 5 }

abbrev pub by_id : Envelope → String
by_id e = e.message_id

abbrev with_game : Hub
with_game = (register the_game new_hub).1

abbrev synchronised : Hub
synchronised =
    (dispatch by_id the_game (frame MessageType.game_sync 1 "m1") (Payload.game_sync sync) 0 quiet
      with_game).1

abbrev pub with_bot : Hub
with_bot = (register the_bot synchronised).1

abbrev pub voted : Hub
voted =
    (dispatch by_id the_bot (frame MessageType.vote_cast 1 "m2") (Payload.vote_cast ballot) 1 quiet
      with_bot).1

pub voted_reached : Reaches new_hub voted
voted_reached =
    dispatched by_id the_bot (frame MessageType.vote_cast 1 "m2") (Payload.vote_cast ballot) 1 quiet
      (λ g. here) (λ g. here)
      (registered the_bot (
        dispatched by_id the_game (frame MessageType.game_sync 1 "m1") (Payload.game_sync sync) 0
          quiet (λ g. here) (λ g. here) (registered the_game here)))

Reaches-IsCurrent_example : IsCurrent voted
Reaches-IsCurrent_example = Reaches-IsCurrent new_hub voted voted_reached new_hub-IsCurrent

Reaches-Follows_example : Line (Follows (room_at new_hub "main")) "main" voted
Reaches-Follows_example = Reaches-Follows new_hub voted "main" voted_reached

handle_sync-Runs_example : Runs IsCurrent (handle_sync the_game sync) IsCurrent
handle_sync-Runs_example = handle_sync-Runs the_game sync

admit-seq_example :
    let m = frame MessageType.vote_cast 1 "m2" in
    (((admit the_bot m (Payload.vote_cast ballot) 1 new_hub).0 ≡ done tt)
      → (1 ≡ 0 + 1)
        × (((admit the_bot m (Payload.vote_cast ballot) 1 new_hub).1.links 1).inbound_seq ≡ 1))
    × (1 ≢ 0 + 1 → (admit the_bot m (Payload.vote_cast ballot) 1 new_hub).1 ≡ new_hub)
admit-seq_example =
    admit-seq the_bot (frame MessageType.vote_cast 1 "m2") (Payload.vote_cast ballot) 1 new_hub

-- The cast that the vote leaves.
abbrev pub first_cast : PendingCast
first_cast = record {
  serial = 0;
  origin = some the_bot;
  instance_id = "g1";
  round_id = 1;
  choice = 2;
  generation = 2;
  created_at = 1;
  deadline = 15001;
  message_id = "m2";
  attempted = false;
}

abbrev first_hooks : CastHooks
first_hooks = record {
  room_id = "main";
  game = the_game;
  generation = 2;
  cast_id = "c1";
  pending = first_cast;
}

first_is_valid : valid first_hooks 10 voted ≡ true
unfolding valid room_at lookup dispatch admit register room find_message update_link insert process
    handle_game answer_game game_message handle_sync resolve_all for_each Connection.send
    bot_message finish_cast forward handle_bot handle_cast rate_limit recent reserve_vote start_cast
    model_dump record_message remember broadcast send set_room update_room keys message_type_value
    role_value conflicts enqueue event_row has_conflict record_event record_vote open_store
first_is_valid = refl

valid-open_example :
    (p : PendingCast) × (v : VoteOpenedPayload) × (lookup "c1" (room_at voted "main").pending_casts
      ≡ some p)
    × (p.serial ≡ 0)
    × (is_client (room_at voted "main").game the_game ≡ true)
    × ((room_at voted "main").active_vote ≡ some v)
    × (v.round_id ≡ p.round_id)
    × (10 < 15001)
valid-open_example = valid-open voted first_hooks 10 Reaches-IsCurrent_example first_is_valid

abbrev first_key : MessageKey
first_key = record { role = "bot"; instance_id = "g1"; message_id = "m2" }

remember-find_message_example :
    (length (remember first_key "d2" ((first_key, "d1") ∷ [])) ≤ 4096)
    × (find_message first_key (remember first_key "d2" ((first_key, "d1") ∷ [])) ≡ some "d2")
remember-find_message_example =
    remember-find_message first_key "d2" ((first_key, "d1") ∷ []) (omega arith)
