-- ===== src/Connection.antt =====
-- server/connection.py: a connection with its bounded send queue. The fields that the source
-- never assigns again make the `Client`, which stands for the reference to the object; `id` is
-- its identity. The fields that change make the `Link`, which the hub keeps under the identity.
-- Times are natural numbers of milliseconds.
pub mod Sending
pub mod Order
mod Examples
use thchaos_backend.Prelude.{
  ℕ, ◌+◌, String, Bool, true, false, not, ◌&&◌, ◌||◌, Option, none, some, List, [], ◌∷◌, ◌++◌,
  length, ltb, leb, if◌then◌else◌, ◌==◌, nat_eq,
}
use thchaos_backend.Protocol.Payloads.{ClientRole, Payload}
use thchaos_backend.Protocol.Envelope.{Frame, make_envelope}

pub record Client : Type 0 where
  pub id : ℕ
  pub role : ClientRole
  pub room_id : String
  pub client_id : String
  pub game_instance_id : Option String
  pub session_id : String
  pub queue_limit : ℕ
  pub send_timeout : ℕ

-- `a is b`.
abbrev pub is_same : Client → Client → Bool
is_same a b = a.id == b.id

-- `field is b`, of a field that may be `None`.
abbrev pub is_client : Option Client → Client → Bool
is_client none b = false
is_client (some a) b = is_same a b

-- hub.py: `PendingCast`. `serial` is the identity of the object.
pub record PendingCast : Type 0 where
  pub serial : ℕ
  pub origin : Option Client
  pub instance_id : String
  pub round_id : ℕ
  pub choice : ℕ
  pub generation : ℕ
  pub created_at : ℕ
  pub deadline : ℕ
  pub message_id : String
  pub attempted : Bool

-- The variables that the closures `valid`, `on_start` and `on_sent` of `_handle_bot` capture; the
-- three functions are `valid`, `on_start` and `on_sent` of Hub/Writer.
pub record CastHooks : Type 0 where
  pub room_id : String
  pub game : Client
  pub generation : ℕ
  pub cast_id : String
  pub pending : PendingCast

-- The type of the message is that of its payload.
pub record Outbound : Type 0 where
  pub payload : Payload
  pub instance_id : Option String
  pub hooks : Option CastHooks

pub record Link : Type 0 where
  pub inbound_seq : ℕ
  pub outbound_seq : ℕ
  pub cast_timestamps : List ℕ
  pub is_closed : Bool
  pub is_started : Bool
  pub is_cancelled : Bool
  pub queue : List Outbound

-- A connection as `_authenticate` makes it: only the number of the first frame is given.
abbrev pub new_link : ℕ → Link
new_link seq = record {
  inbound_seq = seq;
  outbound_seq = 0;
  cast_timestamps = [];
  is_closed = false;
  is_started = false;
  is_cancelled = false;
  queue = [];
}

unfoldable pub abort : Link → Link
abort l = record l { is_closed = true; is_cancelled = l.is_cancelled || l.is_started }

-- `asyncio.Queue.full`: a limit of 0 is no limit.
abbrev is_full : ℕ → List Outbound → Bool
is_full limit queue = ltb 0 limit && leb limit (length queue)

-- `a if a is not None else b`.
abbrev pub or_own {ℓ} : {A : Type ℓ} → Option A → Option A → Option A
or_own none b = b
or_own (some a) b = some a

-- `send`: `true` where the message is queued, `false` where `ConnectionError` is raised.
unfoldable pub send : Client → Payload → Option String → Option CastHooks → Link → Bool × Link
unfolding abort
send c payload instance_id hooks l =
    if l.is_closed
    then (false, l)
    else if is_full c.queue_limit l.queue
    then (false, abort l)
    else (true, record l { queue = l.queue ++ item ∷ [] })
  where
    item : Outbound
    item = record {
      payload = payload;
      instance_id = or_own instance_id c.game_instance_id;
      hooks = hooks;
    }

-- `_queue.get()`, where there is an item.
unfoldable pub take_item : Link → Option (Outbound × Link)
take_item l = elim l.queue [ [] ↦ none | item ∷ rest ↦ some (item, record l { queue = rest }) ]

-- A sequence number and the frame of an item that is sent.
unfoldable pub make_frame : Client → Outbound → Link → Frame × Link
unfolding make_envelope
make_frame c item l = (
  make_envelope c.room_id item.instance_id (l.outbound_seq + 1) item.payload,
  record l { outbound_seq = l.outbound_seq + 1 },
)

-- The end of `_run`: closed, with the queue emptied.
unfoldable pub shut : Link → Link
shut l = record l { is_closed = true; queue = [] }
