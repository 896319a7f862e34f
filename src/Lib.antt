-- ===== src/Lib.antt =====
-- A model of the TH-Chaos backend: a WebSocket server between one game per room and chat Bots. The
-- game opens rounds of three options, Bots forward the votes of their viewers, the game counts
-- them, and the server keeps an audit trail.
--
-- The parts, and the files that model them (paths from the repository's root):
--   * src/thchaos_backend/protocol/: Protocol/Errors (errors.py: `ProtocolError`, its subclasses as
--     functions, `to_payload`), Protocol/Types (types.py: the checks on identifiers and numbers),
--     Protocol/Decimal (the decimal texts that a `CommandId` is), Protocol/Payloads (payloads.py:
--     the models, as records, and `Payload`, one constructor for each message type),
--     Protocol/Validators (payloads.py: the model validators), Protocol/Schema (the constraints on
--     the fields of every model, with its validator: `check_payload` by message type; the patterns
--     of texts are in Protocol/Schema/Texts),
--     Protocol/Envelope (envelope.py: `MessageType`, the role tables, `make_envelope`) and
--     Protocol/Parse (envelope.py: `parse_message`).
--   * src/thchaos_backend/server/config.py: Config (`Settings`, `__post_init__`, `token_room`,
--     `_token_map`), with the token table in Config/Tokens, the sources of its tokens in
--     Config/Sources and `from_env` in Config/Environment.
--   * src/thchaos_backend/server/storage.py: Storage (`AuditStore`). The tables are lists of rows;
--     `record_vote` is `_record_vote_sync`, `batch_sync` is `_batch_sync`, `worker_get`,
--     `worker_gather` and `worker_write` are a round of `_run` in the steps between its waits, and
--     `open_store` is `__init__`. The commit of a batch and the return from its thread are one step.
--     Storage/Steps runs them as one machine; Storage/Drain has `flush` and `aclose`.
--   * src/thchaos_backend/server/connection.py: Connection (`ClientConnection`). A `Client` is the
--     reference to a connection with its constant fields, a `Link` its changing part, which the
--     hub keeps under the connection's identity. Hub/Writer has the task `_run` in its steps
--     between two waits.
--   * src/thchaos_backend/server/hub.py: Hub. Hub/State has the hub's state and actions on it that
--     return or raise; Hub/Rooms `_send_error`, `_broadcast`, `_resolve`, `_resolve_all` and
--     `_drop`; Hub/Game `_handle_game`; Hub/Bot `_rate_limit` and `_handle_bot`; Hub/Dispatch
--     `_authenticate`, `_register`, `_record`, `_dispatch` and `_expire_pending`; Hub/Session
--     `_receive`, `_send_server_state` and `handle`; Hub/Metrics `metrics`; Hub/Lifetime
--     `__init__` and `close`.
--   * src/thchaos_backend/server/app.py: App, the routes for health, the state of a room and the
--     metrics, with `authorize`.
--   * tools/sim_game.py and tools/sim_bot.py: Tools/SimGame and Tools/SimBot, the frames that the
--     two `run` functions send, as functions of what they receive.
--
-- How they interact: a frame is parsed, then dispatched with the connection that it came on. The
-- game's messages change the room, resolve its pending casts and are broadcast; a Bot's vote is
-- written to the audit store and then queued for the game with three closures, which the game's
-- sending task calls. Each part is a function of the hub's state; an exception leaves the changes
-- made before it. The source's tasks meet at its waits only. Where code waits, what the other tasks
-- do meanwhile is an argument: in `_handle_bot` before and after the transaction (`Wait`), in
-- `handle` before each message (`Handshake`, `Arrival`) and in the waits for a connection's queue
-- and its task (`World`). Hub/Current/Reach lets all of them be any steps of the hub, and
-- Hub/Session/Reach takes a session apart into such steps. Python's `send` and `_drop` contain no
-- other wait that gives up control.
--
-- The proofs: Hub/Actions and Hub/Yields have rules for actions, Hub/Quiet for what `_drop` and the
-- helpers of Hub/Rooms keep; Hub/Line and Hub/Generation follow a room's generation; Hub/Casts and
-- Hub/Current follow the pending casts; Hub/Expiry is about casts that are due, Hub/Rate about the
-- rate limit, Hub/Admission about the checks before a message is handled, Hub/Messages about the
-- cache of handled messages, Hub/Fuel about the fuel of `drop`. Hub/Session/Handshakes, Leave
-- and Whole follow a session from its start to its end. Connection/Sending and Connection/Order are
-- about the send queue, Storage/Log about the audit queue as one log. Tools/SimGame/Valid sets the
-- simulated game against Protocol/Schema.
--
-- Fuel and bounds: `_drop` and `_resolve` call one another, so `drop` takes fuel, and the handlers
-- use `drop 2`: the drop of a game resolves casts and tells Bots, and drops those that cannot be
-- told; a Bot's drop drops nobody. The end of the fuel is written as a return, and Hub/Fuel/Reach
-- shows that no reachable hub comes to it. `flush` runs as many rounds of the worker as there are jobs
-- unfinished, and each round finishes one at least. `print_number` has room for 20 digits, as many
-- as the greatest command identifier has. Numbers are natural numbers without a bound, as in
-- Python; the sizes of queues and caches are written out. Times are milliseconds of one clock.
--
-- Parameters: the JSON parser, text decoding and the model library's reading of JSON (`Codec`), the
-- test for a UUID of version 4, the fingerprint of a message, the clock, Python's `round`, the process
-- environment and Python's readers of numbers (`Environment`), which transactions of the database
-- fail, and what the other tasks do during a wait. `secrets.compare_digest` is equality of texts.
--
-- Not modelled: the command line (cli.py and __main__.py), the web framework with its WebSocket
-- close codes, the database's lock and threads, the length of a time-out (whether one comes is a
-- parameter), printing and the command lines of the tools, and the tests. Random identifiers and
-- time stamps are left out of the frames.
pub mod Prelude
pub mod Protocol
pub mod Config
pub mod Storage
pub mod Connection
pub mod Hub
pub mod App
pub mod Tools
