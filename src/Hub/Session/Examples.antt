-- ===== src/Hub/Session/Examples.antt =====
-- Tests of the session: a game that connects and a Bot that skips a number.
use thchaos_backend.Connection.{Client}
use thchaos_backend.Prelude.{
  ℕ, ◌/◌, ◌*◌, ◌<◌, arith, String, true, false, Option, none, some, [], ◌∷◌, ◌≡◌, refl, string_eq,
  if◌then◌else◌, ◌⊎◌,
}
use thchaos_backend.Prelude.Dict.{lookup}
use thchaos_backend.Protocol.Errors.{plain_error, protocol_seq_gap}
use thchaos_backend.Protocol.Payloads.{ClientRole, Payload, HelloPayload}
use thchaos_backend.Protocol.Envelope.{MessageType, Envelope, Frame, object, end, get}
use thchaos_backend.Protocol.Parse.{ok, valid, Codec, str, parse_message}
use thchaos_backend.Config.{default_settings}
use thchaos_backend.Storage.{Database}
use thchaos_backend.Connection.{PendingCast, abort, is_client}
use thchaos_backend.Hub.State.{M, connection_error, Hub, done, protocol, room_at, update_link}
use thchaos_backend.Hub.Rooms.{drop_with, drop_connection}
use thchaos_backend.Hub.Dispatch.{admit, dispatch, expire_pending, register}
use thchaos_backend.Hub.Expiry.{expire_pending-due}
use thchaos_backend.Hub.Examples.{
  new_hub, new_hub-IsCurrent, the_bot, frame, ballot, quiet, by_id, voted, voted_reached,
}
use thchaos_backend.Hub.Current.{IsCurrent}
use thchaos_backend.Hub.Current.Reach.{here, dispatched, registered, Reaches-IsCurrent}
use thchaos_backend.Hub.Session.{text, World, Handshake, Arrival, turned_away, handle, leave}
use thchaos_backend.Hub.Session.Leave.{IsAbsent, leave-Gone}
use thchaos_backend.Hub.Session.Handshakes.{IsHello, IsAuthentic, handle-IsAuthentic}
use thchaos_backend.Hub.Fuel.Housed.{Housed}
use thchaos_backend.Hub.Fuel.Reach.{reached-drop}
use thchaos_backend.Prelude.{◌≤◌, ◌+◌, nat_eq, ◌==◌}
use thchaos_backend.Hub.Metrics.Rank.{tally}
use thchaos_backend.Hub.Lifetime.{init, drop_all, life-IsCurrent}
use thchaos_backend.Hub.Lifetime.Close.{drop_all-connections}
use thchaos_backend.Hub.Examples.{the_game}
use thchaos_backend.Hub.Rate.{in_second, limit_all, limit_all-second}

abbrev no_rows : Database
no_rows = record { events = []; vote_attempts = [] }

abbrev greeting : HelloPayload
greeting = record {
  role = ClientRole.game;
  client_id = "game";
  client_version = "1";
  token = "dev-game-token";
  room_id = "main";
  game_instance_id = some "g1";
}

-- It reads one text as a hello and every other as a vote with the number 7.
abbrev wire : Codec
wire = record {
  decode = λ bs. none;
  loads = λ s. some (object end);
  validate_envelope = λ s.
      valid (
        if s == "hello"
        then frame MessageType.hello 1 "m1"
        else frame MessageType.vote_cast 7 "m9");
  validate_payload = λ t ms. elim t [
    | MessageType.hello ↦ valid (Payload.hello greeting)
    | _ ↦ valid (Payload.vote_cast ballot)
  ];
}

abbrev world : World
world = record { codec = wire; fingerprint = by_id; flush = λ c h. (true, h); ended = λ c h. h }

abbrev handshake : Handshake
handshake = record {
  path = "/ws/game";
  session = "s9";
  server_time = "2026-01-01T00:00:00Z";
  before = λ h. h;
  first = some (text "hello");
}

abbrev ballot_comes : Arrival
ballot_comes = record { before = λ h. h; message = text "vote"; now = 3; wait = quiet }

handle-IsAuthentic_example :
    ((sent : Option Frame) × (handle world handshake [] new_hub ≡ (turned_away sent, new_hub)))
    ⊎ ((e : Envelope) × (p : HelloPayload) × IsHello wire 16384 (some (text "hello")) e p
        × IsAuthentic default_settings "/ws/game" e p)
handle-IsAuthentic_example = handle-IsAuthentic world handshake [] new_hub

voted_open : voted.store.is_closing ≡ false
voted_open = (Reaches-IsCurrent new_hub voted voted_reached new_hub-IsCurrent).open_store

leave-Gone_example :
    let k : Hub = update_link 1 abort (drop_connection the_bot voted).1 in
    (leave world the_bot voted ≡ (done tt, k))
    × ((k.links 1).is_closed ≡ true)
    × IsAbsent the_bot k.connections
    × (is_client (room_at k "main").game the_bot ≡ false)
    × ((is_client (room_at voted "main").game the_bot ≡ true)
        ⊎ IsAbsent the_bot (room_at k "main").bots)
leave-Gone_example = leave-Gone world the_bot voted voted_open

ballot_parsed :
    parse_message wire none 16384 (str "vote")
    ≡ ok (frame MessageType.vote_cast 7 "m9", Payload.vote_cast ballot)
unfolding parse_message get
ballot_parsed = refl

ballot_refused :
    dispatch by_id the_bot
      (frame MessageType.vote_cast 7 "m9")
      (Payload.vote_cast ballot)
      3
      quiet
      new_hub
    ≡ (protocol (plain_error protocol_seq_gap "入站 seq 必须连续"), new_hub)
unfolding dispatch admit
ballot_refused = refl

expire_pending-due_example :
    ((expire_pending 20000 voted).0 ≡ done tt)
    × ((expire_pending 20000 voted).1.store.is_closing ≡ false)
    × ((rid x : String) (p : PendingCast)
        → lookup x (room_at (expire_pending 20000 voted).1 rid).pending_casts ≡ some p
        → 20000 < p.deadline)
expire_pending-due_example = expire_pending-due voted 20000 voted_open

life-IsCurrent_example :
    IsCurrent
      (dispatch by_id the_bot
        (frame MessageType.vote_cast 1 "m2")
        (Payload.vote_cast ballot)
        1
        quiet
        (register the_game (init default_settings no_rows)).1).1
life-IsCurrent_example = life-IsCurrent default_settings no_rows _ (
    dispatched by_id the_bot (frame MessageType.vote_cast 1 "m2") (Payload.vote_cast ballot) 1 quiet
      (λ g. here) (λ g. here) (registered the_game here))

abbrev crowded : Hub
crowded = record voted { connections = the_game ∷ the_bot ∷ [] }

drop_all-connections_example :
    ((drop_all (the_game ∷ the_bot ∷ []) crowded).0 ≡ done tt)
    × ((drop_all (the_game ∷ the_bot ∷ []) crowded).1.connections ≡ [])
drop_all-connections_example = drop_all-connections crowded voted_open

-- Rounding to tens.
abbrev tens : ℕ → ℕ
tens x = (x + 5) / 10 * 10

limit_all-second_example :
    tally (in_second 900) (limit_all the_bot ((ballot, 5) ∷ (ballot, 400) ∷ []) new_hub) ≤ 200
limit_all-second_example =
    limit_all-second the_bot ((ballot, 5) ∷ (ballot, 400) ∷ []) new_hub refl
      (omega arith, (omega arith, tt)) 900

-- A game and a Bot in one room.
abbrev both : Hub
both = (register the_bot (register the_game (init default_settings no_rows)).1).1

abbrev out_of_fuel : Client → M (Unit {0})
out_of_fuel c h = (connection_error, h)

reached-drop_example :
    Housed "main" both
    × (drop_connection the_game both ≡ drop_with (drop_with out_of_fuel) the_game both)
    × ((drop_with (drop_with out_of_fuel) the_game both).0 ≡ done tt)
reached-drop_example =
    reached-drop default_settings no_rows both the_game out_of_fuel
      (registered the_bot (registered the_game here))
